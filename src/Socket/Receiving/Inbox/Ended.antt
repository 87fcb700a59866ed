-- ===== src/Socket/Receiving/Inbox/Ended.antt =====
-- Receiving in rudp-socket-impl.cc when there are no end points any more.
use rudpns.Prelude.{ℕ, arith}
use rudpns.Ns3.{Ns3, Trace, packet_info6}
use rudpns.State.{State}
use rudpns.Socket.{set_rcv_buf_size}
use rudpns.Socket.Receiving.{
  recv, recv_from, enqueue, receive_up, receive_up6, tag_info6, tag_received, tag_received6,
}
use rudpns.Socket.Receiving.Inbox.{Event, arrives, arrives6, reads, resizes, perform}
use rudpns.Socket.Ended.{IsEnded, StaysEnded}

module _ (N : Ns3) (u : Trace N) (c : ℕ) (s : State N) (v : IsEnded N u c s) where
  enqueue-StaysEnded : (p : N.Packet) (a : N.Address) → StaysEnded N u c (enqueue N p a s)
  unfolding enqueue
  enqueue-StaysEnded p a = ground arith

  pub perform-StaysEnded : (e : Event N) → StaysEnded N u c (perform N e s)
  unfolding perform receive_up receive_up6 tag_info6 recv set_rcv_buf_size
  perform-StaysEnded (arrives p h port i) =
      ground (arith, enqueue-StaysEnded (tag_received N s.socket p h i) (N.of_inet h.source port))
  perform-StaysEnded (arrives6 p h port i) =
      let info = N.set_recv_if6 (N.remove_packet_info6 p).0 (N.if_index6 i) in
      let with_info = N.add_packet_tag (packet_info6 info) (N.remove_packet_info6 p).1 in
      ground (
        arith,
        enqueue-StaysEnded (tag_received6 N s.socket with_info h) (N.of_inet6 h.source port),
        enqueue-StaysEnded (tag_received6 N s.socket p h) (N.of_inet6 h.source port),
      )
  perform-StaysEnded (reads m) = ground arith
  perform-StaysEnded (resizes n) = ground arith

  pub recv_from-StaysEnded : (m : ℕ) → StaysEnded N u c (recv_from N m s)
  unfolding recv_from recv
  recv_from-StaysEnded m = ground arith
