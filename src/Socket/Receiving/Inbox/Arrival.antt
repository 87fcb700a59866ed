-- ===== src/Socket/Receiving/Inbox/Arrival.antt =====
-- What `ForwardUp` of rudp-socket-impl.cc queues, in terms of what waits already.
use rudpns.Prelude.{
  ℕ, ◌+◌, ◌%◌, ◌^◌, ◌≡◌, false, List, [], ◌∷◌, ◌++◌, append-nil, arith, leb, if◌then◌else◌,
}
use rudpns.Ns3.{Ns3, Ipv4Header, Ipv6Header, packet_info6, socket_address}
use rudpns.Ns3.Laws.{TagLaws}
use rudpns.State.{Socket, State, Returns}
use rudpns.Socket.Receiving.{
  receive_up, receive_up6, enqueue, tag_received, tag_received6, tag_info6,
}
use rudpns.Socket.Receiving.Counter.{total, IsCounted}
use rudpns.Socket.Receiving.Inbox.{Event, perform, arrives, arrives6, tagged, tagged6}
use rudpns.Socket.Receiving.Inbox.Refinement.{size-tag_received, size-tag_received6}

module _ (N : Ns3) where
  -- A datagram that comes, of either family.
  pub data Arrival : Type 0 where
    ipv4_arrival : N.Packet → Ipv4Header N.Ipv4Address → (port : ℕ) → N.Ipv4Interface → Arrival
    ipv6_arrival : N.Packet → Ipv6Header N.Ipv6Address → (port : ℕ) → N.Ipv6Interface → Arrival

  abbrev pub event_of : Arrival → Event N
  event_of (ipv4_arrival p h port i) = arrives p h port i
  event_of (ipv6_arrival p h port i) = arrives6 p h port i

  abbrev pub came : Arrival → N.Packet
  came (ipv4_arrival p h port i) = p
  came (ipv6_arrival p h port i) = p

  abbrev pub queued : Socket N → Arrival → N.Packet
  queued s (ipv4_arrival p h port i) = tagged N s p h port i
  queued s (ipv6_arrival p h port i) = tagged6 N s p h port i

  -- The packets that an arrival adds to the queue: none or one.
  abbrev pub accepted : Socket N → Arrival → List N.Packet
  accepted s x =
      if s.shutdown_recv
      then []
      else if leb ((total N s.delivery_queue + N.get_size (came x)) % 2 ^ 32) s.rcv_buf_size
      then queued s x ∷ []
      else []

  abbrev pub Accepts : Arrival → State N → List N.Packet → State N → Type 0
  Accepts x s out t = t.socket.delivery_queue ≡ s.socket.delivery_queue ++ accepted s.socket x

  enqueue-Accepts :
      (x : Arrival) (p : N.Packet) (from : N.Address) (s : State N)
      → IsCounted N s.socket
      → N.get_size p ≡ N.get_size (came x)
      → s.socket.shutdown_recv ≡ false
      → N.add_packet_tag (socket_address from) p ≡ queued s.socket x
      → Returns (λ _. Accepts x s []) (enqueue N p from s)
  unfolding enqueue
  enqueue-Accepts x p from s v size opened e =
      ground (arith, v, size, e, append-nil s.socket.delivery_queue)

  pub perform-Accepts :
      (laws : TagLaws N) (x : Arrival) (s : State N)
      → IsCounted N s.socket
      → Returns (Accepts x s) (perform N (event_of x) s)
  unfolding perform receive_up receive_up6 tag_info6
  perform-Accepts laws (ipv4_arrival p h port i) s v =
      let from = N.of_inet h.source port in
      let tp = tag_received N s.socket p h i in
      ground (
        arith,
        append-nil s.socket.delivery_queue,
        enqueue-Accepts (ipv4_arrival p h port i) tp from s v
            (size-tag_received N laws s.socket p h i),
      )
  perform-Accepts laws (ipv6_arrival p h port i) s v =
      let from = N.of_inet6 h.source port in
      let q = (N.remove_packet_info6 p).1 in
      let info = N.set_recv_if6 (N.remove_packet_info6 p).0 (N.if_index6 i) in
      let with_info = N.add_packet_tag (packet_info6 info) q in
      ground (
        arith,
        append-nil s.socket.delivery_queue,
        size-tag_received6 N laws s.socket with_info h,
        size-tag_received6 N laws s.socket p h,
        laws.size-tag (packet_info6 info) q,
        laws.size-remove_packet_info6 p,
        enqueue-Accepts (ipv6_arrival p h port i) (tag_received6 N s.socket with_info h) from s v,
        enqueue-Accepts (ipv6_arrival p h port i) (tag_received6 N s.socket p h) from s v,
      )

  pub size-queued :
      (laws : TagLaws N) (s : Socket N) (x : Arrival)
      → N.get_size (queued s x) ≡ N.get_size (came x)
  unfolding tag_received tag_received6
  size-queued laws s (ipv4_arrival p h port i) =
      grind (arith, laws.size-tag, laws.size-remove_packet_info)
  size-queued laws s (ipv6_arrival p h port i) =
      grind (arith, laws.size-tag, laws.size-remove_packet_info6)
