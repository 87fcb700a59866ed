-- ===== src/Host.antt =====
-- One protocol object of rudp-l4-protocol.cc with all the sockets of rudp-socket-impl.cc that it
-- creates, from its constructor on: the calls of several sockets in any order, over one state of the
-- object and of ns-3.
pub mod Ownership
pub mod Steps
pub mod Destroyed
pub mod Sharing
pub mod Network
pub mod Network6
pub mod Ready
pub mod Reading
pub mod Order
pub mod Queues
pub mod GivenBack
pub mod Deletion
use rudpns.Prelude.{
  ℕ, ◌<◌, ◌≡◌, Bool, true, false, Option, none, some, List, [], ◌==◌, if◌then◌else◌,
}
use rudpns.Ns3.{Ns3, Env, Trace, Ipv4Header, Ipv6Header}
use rudpns.Ns3.Owner.{
  owner, is_socket, on_deletion, is_at, Same, EndPoint, ipv4_end_point, ipv6_end_point, nowhere,
}
use rudpns.State.{L4, Socket, State, Result, ok, fault}
use rudpns.L4.{new_l4}
use rudpns.L4.Aggregate.{create_socket, notify_new_aggregate}
use rudpns.L4.Datagram.{receive, receive6, receive_icmp, receive_icmp6}
use rudpns.Socket.Closing.{destroy_socket}
use rudpns.Socket.Reach.{Operation, receives, step}
use rudpns.Socket.Receiving.Inbox.{Event}

module _ (N : Ns3) where
  -- The object, its sockets by their numbers, and the calls made. What the numbers that are not given
  -- out yet stand for is memory that is not used.
  pub record Host : Type 0 where
    pub numbered : ℕ → Socket N
    pub object : L4 N
    pub calls : Trace N

  -- What socket `n` works on, and what it leaves.
  abbrev pub view : Host → ℕ → State N
  view h n = record { socket = h.numbered n; l4 = h.object; trace = h.calls }

  abbrev pub put : (ℕ → Socket N) → ℕ → Socket N → ℕ → Socket N
  put f n s m = if m == n then s else f m

  abbrev pub leave : ℕ → State N → Host → Host
  leave n t h = record { numbered = put h.numbered n t.socket; object = t.l4; calls = t.trace }

  -- A socket has an end point.
  abbrev pub Has : EndPoint N → Socket N → Type 0
  Has (ipv4_end_point e) s = s.end_point ≡ some e
  Has (ipv6_end_point e) s = s.end_point6 ≡ some e

  -- The constructor of the object.
  abbrev pub new_host : (ℕ → Socket N) → Host
  unfolding new_l4
  new_host memory = record { numbered = memory; object = new_l4 N; calls = [] }

  -- `CreateSocket`.
  unfoldable pub create : Socket N → Host → Result Host
  unfolding create_socket
  create memory h = elim (create_socket N memory (record (view h 0) { socket = memory })) [
    | ok (socket, t) ↦ ok (leave socket.this (record t { socket = socket }) h)
    | fault f ↦ fault f
  ]

module _ (N : Ns3) (E : Env N) where
  -- A call of a socket, or of one of its callbacks.
  unfoldable pub call : ℕ → Operation N → Host N → Result (Host N)
  unfolding step
  call n op h = elim (step N E op (view N h n)) [
    | ok (_, t) ↦ ok (leave N n t h)
    | fault f ↦ fault f
  ]

  -- A call of the object that is not about one socket.
  abbrev pub on_object : {A : Type 0} → Host N → Result (A × State N) → Result (Host N)
  on_object h (ok (_, t)) = ok (record h { object = t.l4; calls = t.trace })
  on_object h (fault f) = fault f

  -- The destructor of a socket. Its assertions fail if an end point calls another socket.
  unfoldable pub destruct : ℕ → Host N → Result (Host N)
  destruct n h = elim (destroy_socket N (λ ep t. is_socket n (on_deletion E ep t)) (view N h n)) [
    | ok (_, t) ↦ ok (leave N n t h)
    | fault f ↦ fault f
  ]

  -- An end point gives the socket that its callback leads to what came for it.
  unfoldable pub deliver : Same N → EndPoint N → Event N → Host N → Result (Host N)
  unfolding call
  deliver same ep e h = elim (owner N (is_at N same ep) h.calls) [
    | none ↦ ok h
    | some n ↦ call n (receives e) h
  ]

  -- The states of an object and its sockets that calls without a fault reach.
  pub data Reaches (start : Host N) : Host N → Type 0 where
    starts : Reaches start start
    creates :
        {h k : Host N}
        → Reaches start h
        → (memory : Socket N) → create N memory h ≡ ok k
        → Reaches start k
    calls_socket :
        {h k : Host N}
        → Reaches start h
        → (n : ℕ) (op : Operation N) → n < h.object.created
        → call n op h ≡ ok k
        → Reaches start k
    destroys :
        {h k : Host N}
        → Reaches start h
        → (n : ℕ) → n < h.object.created
        → destruct n h ≡ ok k
        → Reaches start k
    notified :
        {h k : Host N}
        → Reaches start h
        → (again : Bool) → on_object h (notify_new_aggregate N E again (view N h 0)) ≡ ok k
        → Reaches start k
    receives4 :
        {h k : Host N}
        → Reaches start h
        → (p : N.Packet) (header : Ipv4Header N.Ipv4Address) (i : N.Ipv4Interface)
        → on_object h (receive N E p header i (view N h 0)) ≡ ok k
        → Reaches start k
    receives6 :
        {h k : Host N}
        → Reaches start h
        → (p : N.Packet) (header : Ipv6Header N.Ipv6Address) (i : Option N.Ipv6Interface)
        → on_object h (receive6 N E p header i (view N h 0)) ≡ ok k
        → Reaches start k
    receives_icmp :
        {h k : Host N}
        → Reaches start h
        → (source : N.Ipv4Address) (ttl type code info : ℕ) (from to : N.Ipv4Address)
          (payload : List ℕ)
        → on_object h (receive_icmp N E source ttl type code info from to payload (view N h 0))
          ≡ ok k
        → Reaches start k
    receives_icmp6 :
        {h k : Host N}
        → Reaches start h
        → (source : N.Ipv6Address) (ttl type code info : ℕ) (from to : N.Ipv6Address)
          (payload : List ℕ)
        → on_object h (receive_icmp6 N E source ttl type code info from to payload (view N h 0))
          ≡ ok k
        → Reaches start k
