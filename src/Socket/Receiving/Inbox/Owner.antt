-- ===== src/Socket/Receiving/Inbox/Owner.antt =====
-- Receiving in rudp-socket-impl.cc takes no end point from another socket.
use rudpns.Prelude.{arith, ℕ, Option}
use rudpns.Ns3.{Ns3, packet_info6}
use rudpns.State.{State}
use rudpns.Socket.{set_rcv_buf_size}
use rudpns.Ns3.Owner.{Probe}
use rudpns.Socket.Owner.{Owns, StaysOwned}
use rudpns.Socket.Receiving.{
  recv, recv_from, enqueue, receive_up, receive_up6, tag_info6, tag_received, tag_received6,
}
use rudpns.Socket.Receiving.Inbox.{Event, arrives, arrives6, reads, resizes, perform}

module _ (N : Ns3) (is_it : Probe N) (o : Option ℕ) (s : State N) (v : Owns N is_it o s) where
  enqueue-StaysOwned :
      (p : N.Packet) (a : N.Address) → StaysOwned N is_it o s.socket.this (enqueue N p a s)
  unfolding enqueue
  enqueue-StaysOwned p a = ground arith

  pub perform-StaysOwned : (e : Event N) → StaysOwned N is_it o s.socket.this (perform N e s)
  unfolding perform receive_up receive_up6 tag_info6 recv set_rcv_buf_size
  perform-StaysOwned (arrives p h port i) =
      ground (arith, enqueue-StaysOwned (tag_received N s.socket p h i) (N.of_inet h.source port))
  perform-StaysOwned (arrives6 p h port i) =
      let info = N.set_recv_if6 (N.remove_packet_info6 p).0 (N.if_index6 i) in
      let with_info = N.add_packet_tag (packet_info6 info) (N.remove_packet_info6 p).1 in
      ground (
        arith,
        enqueue-StaysOwned (tag_received6 N s.socket with_info h) (N.of_inet6 h.source port),
        enqueue-StaysOwned (tag_received6 N s.socket p h) (N.of_inet6 h.source port),
      )
  perform-StaysOwned (reads m) = ground arith
  perform-StaysOwned (resizes n) = ground arith

  pub recv_from-StaysOwned : (m : ℕ) → StaysOwned N is_it o s.socket.this (recv_from N m s)
  unfolding recv_from recv
  recv_from-StaysOwned m = ground arith
