-- ===== src/Socket/Receiving/Inbox.antt =====
-- The receive buffer as a bounded first-in first-out queue with no counter, and that `ForwardUp`,
-- `ForwardUp6`, `Recv` and `SetRcvBufSize` of rudp-socket-impl.cc implement it.
pub mod Refinement
pub mod Order
pub mod Frames
pub mod Owner
pub mod Ended
pub mod Arrival
pub mod Drain
use rudpns.Prelude.{
  ℕ, ◌+◌, ◌-◌, ◌*◌, ◌%◌, ◌^◌, ◌≤◌, ◌<◌, ◌≡◌, refl, Bool, true, false, Option, none, some, List, [],
  ◌∷◌, ◌++◌, arith, leb, if◌then◌else◌, Bool-cases, inl, inr,
}
use rudpns.Ns3.{Ns3, packet_info6, Ipv4Header, Ipv6Header, socket_address}
use rudpns.Ns3.Laws.{TagLaws}
use rudpns.State.{Socket, State, Result, ok, fault, M, pure, ◌>>=◌, ◌>>◌, Returns}
use rudpns.Socket.{set_rcv_buf_size}
use rudpns.Socket.Receiving.{
  recv, enqueue, receive_up, receive_up6, tag_received, tag_received6, tag_info6,
}
use rudpns.Socket.Receiving.Counter.{total, total-append}

module _ (N : Ns3) where
  -- The specification: what waits, and how many bytes may wait.
  pub record Inbox : Type 0 where
    pub waiting : List N.Packet
    pub capacity : ℕ

  abbrev pub offer : N.Packet → Inbox → Inbox
  offer p b =
      if leb (total N b.waiting + N.get_size p) b.capacity
      then record b { waiting = b.waiting ++ p ∷ [] }
      else b

  abbrev pub take_first : (max_size : ℕ) → List N.Packet → ℕ → List N.Packet × Inbox
  take_first m [] c = ([], record { waiting = []; capacity = c })
  take_first m (p ∷ ps) c =
      if leb (N.get_size p) m
      then (p ∷ [], record { waiting = ps; capacity = c })
      else ([], record { waiting = p ∷ ps; capacity = c })

  -- What happens to the receiving side of a socket.
  pub data Event : Type 0 where
    arrives : N.Packet → Ipv4Header N.Ipv4Address → (port : ℕ) → N.Ipv4Interface → Event
    arrives6 : N.Packet → Ipv6Header N.Ipv6Address → (port : ℕ) → N.Ipv6Interface → Event
    reads : (max_size : ℕ) → Event
    resizes : (size : ℕ) → Event

  abbrev pub delivered : Option N.Packet → List N.Packet
  delivered none = []
  delivered (some p) = p ∷ []

  -- The code's answer to an event, with the packets that the application gets.
  pub perform : Event → M N (List N.Packet)
  unfolding receive_up receive_up6 recv set_rcv_buf_size
  perform (arrives p header port interface) = do receive_up N p header port interface; pure []
  perform (arrives6 p header port interface) = do
    receive_up6 N p header port (some interface)
    pure []
  perform (reads m) = do r ← recv N m; pure (delivered r)
  perform (resizes n) = do set_rcv_buf_size N n; pure []

  pub run : List Event → M N (List N.Packet)
  unfolding perform
  run [] = pure []
  run (e ∷ es) = do out ← perform e; rest ← run es; pure (out ++ rest)

  -- The packet that an arrival queues, with the tags that the socket's options ask for.
  abbrev pub tagged :
      Socket N → N.Packet → Ipv4Header N.Ipv4Address → ℕ → N.Ipv4Interface → N.Packet
  tagged s p header port interface =
      N.add_packet_tag (socket_address (N.of_inet header.source port))
        (tag_received N s p header interface)

  abbrev pub tagged6 :
      Socket N → N.Packet → Ipv6Header N.Ipv6Address → ℕ → N.Ipv6Interface → N.Packet
  tagged6 s p header port interface =
      let (info, q) = N.remove_packet_info6 p in
      let with_info =
        if s.options.is_recv_pkt_info
        then N.add_packet_tag (packet_info6 (N.set_recv_if6 info (N.if_index6 interface))) q
        else p in
      N.add_packet_tag (socket_address (N.of_inet6 header.source port))
        (tag_received6 N s with_info header)

  -- The specification's answer to an event, for a socket with the options and the shutdown of `s`.
  pub spec_step : Socket N → Event → Inbox → List N.Packet × Inbox
  spec_step s (arrives p header port interface) b =
      ([], if s.shutdown_recv then b else offer (tagged s p header port interface) b)
  spec_step s (arrives6 p header port interface) b =
      ([], if s.shutdown_recv then b else offer (tagged6 s p header port interface) b)
  spec_step s (reads m) b = take_first m b.waiting b.capacity
  spec_step s (resizes n) b = ([], record b { capacity = n })

  pub spec_run : Socket N → List Event → Inbox → List N.Packet × Inbox
  unfolding spec_step
  spec_run s [] b = ([], b)
  spec_run s (e ∷ es) b =
      let (out, b') = spec_step s e b in let (rest, b'') = spec_run s es b' in (out ++ rest, b'')

  abbrev pub inbox : State N → Inbox
  inbox s = record { waiting = s.socket.delivery_queue; capacity = s.socket.rcv_buf_size }

  -- The counter is exact, and neither the queue nor the buffer's size passes `bound`.
  pub record IsExact (bound : ℕ) (s : State N) : Type 0 where
    pub counted : s.socket.rx_available ≡ total N s.socket.delivery_queue
    pub waiting_le : total N s.socket.delivery_queue ≤ bound
    pub capacity_le : s.socket.rcv_buf_size ≤ bound

  -- No event can make the 32-bit sum of the counter and a packet's size wrap.
  abbrev pub Fits : ℕ → Event → Type 0
  Fits bound (arrives p header port interface) = N.get_size p + bound < 2 ^ 32
  Fits bound (arrives6 p header port interface) = N.get_size p + bound < 2 ^ 32
  Fits bound (reads m) = bound < 2 ^ 32
  Fits bound (resizes n) = n ≤ bound

  abbrev pub AllFit : ℕ → List Event → Type 0
  AllFit bound [] = Unit {0}
  AllFit bound (e ∷ es) = Fits bound e × AllFit bound es

  -- One step of the code against one of the specification, started in `s`.
  pub record Refines (bound : ℕ) (s : State N) (wanted : List N.Packet × Inbox)
      (out : List N.Packet) (s' : State N) : Type 0 where
    pub same_output : out ≡ wanted.0
    pub same_inbox : inbox s' ≡ wanted.1
    pub exact : IsExact bound s'
    pub same_shutdown : s'.socket.shutdown_recv ≡ s.socket.shutdown_recv
    pub same_options : s'.socket.options ≡ s.socket.options

  module _ (laws : TagLaws N) (bound : ℕ) where
    abbrev Stored : State N → N.Packet → N.Address → Unit {0} → State N → Type 0
    Stored s p a _ s' =
        Refines bound s ([], offer (N.add_packet_tag (socket_address a) p) (inbox s)) [] s'

    enqueue-Stored :
        (p : N.Packet) (a : N.Address) (s : State N)
        → IsExact bound s
        → N.get_size p + bound < 2 ^ 32
        → Returns (Stored s p a) (enqueue N p a s)
    unfolding enqueue
    enqueue-Stored p a s v small = ground (
      arith,
      laws.size-tag (socket_address a) p,
      total-append N s.socket.delivery_queue (N.add_packet_tag (socket_address a) p ∷ []),
    )
