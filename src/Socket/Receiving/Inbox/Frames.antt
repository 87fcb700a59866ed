-- ===== src/Socket/Receiving/Inbox/Frames.antt =====
-- What receiving in rudp-socket-impl.cc leaves alone.
use rudpns.Prelude.{◌≡◌, arith, ℕ}
use rudpns.Ns3.{Ns3, packet_info6}
use rudpns.State.{State, Result, ok, fault}
use rudpns.Socket.{set_rcv_buf_size}
use rudpns.Socket.Frame.{KeepsAll}
use rudpns.Socket.Receiving.{
  recv, recv_from, enqueue, receive_up, receive_up6, tag_info6, tag_received, tag_received6,
}
use rudpns.Socket.Receiving.Counter.{IsCounted}
use rudpns.Socket.Receiving.Inbox.{Event, arrives, arrives6, reads, resizes, perform}

module _ (N : Ns3) where
  enqueue-Keeps : (p : N.Packet) (a : N.Address) (s : State N) → KeepsAll N s (enqueue N p a s)
  unfolding enqueue
  enqueue-Keeps p a s = ground arith

  pub perform-Keeps : (e : Event N) (s : State N) → KeepsAll N s (perform N e s)
  unfolding perform receive_up receive_up6 tag_info6 recv set_rcv_buf_size
  perform-Keeps (arrives p h port i) s =
      ground (arith, enqueue-Keeps (tag_received N s.socket p h i) (N.of_inet h.source port) s)
  perform-Keeps (arrives6 p h port i) s =
      let info = N.set_recv_if6 (N.remove_packet_info6 p).0 (N.if_index6 i) in
      let with_info = N.add_packet_tag (packet_info6 info) (N.remove_packet_info6 p).1 in
      ground (
        arith,
        enqueue-Keeps (tag_received6 N s.socket with_info h) (N.of_inet6 h.source port) s,
        enqueue-Keeps (tag_received6 N s.socket p h) (N.of_inet6 h.source port) s,
      )
  perform-Keeps (reads m) s = ground arith
  perform-Keeps (resizes n) s = ground arith

  pub recv_from-Keeps : (m : ℕ) (s : State N) → KeepsAll N s (recv_from N m s)
  unfolding recv_from recv
  recv_from-Keeps m s = ground arith

  -- A socket keeps its end points.
  abbrev pub SameEnds : {A : Type 0} → State N → Result (A × State N) → Type 0
  SameEnds s (fault f) = Unit {0}
  SameEnds s (ok (a, t)) =
      (t.socket.end_point ≡ s.socket.end_point) × (t.socket.end_point6 ≡ s.socket.end_point6)

  enqueue-SameEnds : (p : N.Packet) (a : N.Address) (s : State N) → SameEnds s (enqueue N p a s)
  unfolding enqueue
  enqueue-SameEnds p a s = ground arith

  pub perform-SameEnds : (e : Event N) (s : State N) → SameEnds s (perform N e s)
  unfolding perform receive_up receive_up6 tag_info6 recv set_rcv_buf_size
  perform-SameEnds (arrives p h port i) s =
      ground (arith, enqueue-SameEnds (tag_received N s.socket p h i) (N.of_inet h.source port) s)
  perform-SameEnds (arrives6 p h port i) s =
      let info = N.set_recv_if6 (N.remove_packet_info6 p).0 (N.if_index6 i) in
      let with_info = N.add_packet_tag (packet_info6 info) (N.remove_packet_info6 p).1 in
      ground (
        arith,
        enqueue-SameEnds (tag_received6 N s.socket with_info h) (N.of_inet6 h.source port) s,
        enqueue-SameEnds (tag_received6 N s.socket p h) (N.of_inet6 h.source port) s,
      )
  perform-SameEnds (reads m) s = ground arith
  perform-SameEnds (resizes n) s = ground arith

  -- As for a state that may also be that of a fault.
  abbrev pub CountedAll : {A : Type 0} → Result (A × State N) → Type 0
  CountedAll (fault f) = Unit {0}
  CountedAll (ok (a, t)) = IsCounted N t.socket

  pub recv_from-IsCounted :
      (m : ℕ) (s : State N) → IsCounted N s.socket → CountedAll (recv_from N m s)
  unfolding recv_from recv
  recv_from-IsCounted m s v = ground arith
