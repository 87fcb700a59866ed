-- ===== src/Host/Ownership.antt =====
-- No call of a socket of rudp-socket-impl.cc takes an end point from another socket.
use rudpns.Prelude.{ℕ, Option}
use rudpns.Ns3.Owner.{Probe}
use rudpns.Ns3.{Ns3, Env}
use rudpns.State.{State, Result, ok, fault}
use rudpns.Socket.Owner.{
  Owns, StaysOwned, connect-StaysOwned, listen-StaysOwned, destroy-StaysOwned, destroy6-StaysOwned,
  set_mtu_discover-StaysOwned, forward_icmp_up-StaysOwned, forward_icmp_up6-StaysOwned,
}
use rudpns.Socket.Binding.Owner.{
  IsFresh, bind-StaysOwned, bind_ephemeral-StaysOwned, bind_ephemeral6-StaysOwned,
  bind_to_net_device-StaysOwned,
}
use rudpns.Socket.Closing.Owner.{
  shutdown_sending-StaysOwned, shutdown_receiving-StaysOwned, close-StaysOwned,
}
use rudpns.Socket.Sending.Owner.{send-StaysOwned, send_to-StaysOwned}
use rudpns.Socket.Receiving.Inbox.Owner.{perform-StaysOwned, recv_from-StaysOwned}
use rudpns.Socket.Reach.{
  Operation, binds, binds_ephemeral, binds_ephemeral6, listens, shuts_send, shuts_recv, closes,
  binds_to_device, connects, sends, sends_to, receives, receives_from, sets_mtu_discover,
  is_destroyed, is_destroyed6, hears_icmp, hears_icmp6, step, discard,
}

module _ (N : Ns3) (E : Env N) (is_it : Probe N) (fresh : IsFresh N E is_it) (o : Option ℕ) where
  discard-StaysOwned :
      {A : Type 0} (n : ℕ) (r : Result (A × State N))
      → StaysOwned N is_it o n r
      → StaysOwned N is_it o n (discard N r)
  discard-StaysOwned n (fault f) v = v
  discard-StaysOwned n (ok (a, t)) v = v

  pub step-StaysOwned :
      (op : Operation N) (s : State N)
      → Owns N is_it o s
      → StaysOwned N is_it o s.socket.this (step N E op s)
  unfolding step
  step-StaysOwned (binds a) s v = discard-StaysOwned _ _ (bind-StaysOwned N E is_it fresh o s v a)
  step-StaysOwned binds_ephemeral s v =
      discard-StaysOwned _ _ (bind_ephemeral-StaysOwned N E is_it fresh o s v)
  step-StaysOwned binds_ephemeral6 s v =
      discard-StaysOwned _ _ (bind_ephemeral6-StaysOwned N E is_it fresh o s v)
  step-StaysOwned listens s v = discard-StaysOwned _ _ (listen-StaysOwned N is_it o s v)
  step-StaysOwned shuts_send s v =
      discard-StaysOwned _ _ (shutdown_sending-StaysOwned N is_it o s v)
  step-StaysOwned shuts_recv s v =
      discard-StaysOwned _ _ (shutdown_receiving-StaysOwned N is_it o s v)
  step-StaysOwned closes s v = discard-StaysOwned _ _ (close-StaysOwned N is_it o s v)
  step-StaysOwned (binds_to_device d) s v =
      discard-StaysOwned _ _ (bind_to_net_device-StaysOwned N E is_it fresh o d s v)
  step-StaysOwned (connects a) s v = discard-StaysOwned _ _ (connect-StaysOwned N is_it o s v a)
  step-StaysOwned (sends p) s v = discard-StaysOwned _ _ (send-StaysOwned N E is_it fresh o p s v)
  step-StaysOwned (sends_to p a) s v =
      discard-StaysOwned _ _ (send_to-StaysOwned N E is_it fresh o p a s v)
  step-StaysOwned (receives e) s v = discard-StaysOwned _ _ (perform-StaysOwned N is_it o s v e)
  step-StaysOwned (receives_from m) s v =
      discard-StaysOwned _ _ (recv_from-StaysOwned N is_it o s v m)
  step-StaysOwned (sets_mtu_discover b) s v =
      discard-StaysOwned _ _ (set_mtu_discover-StaysOwned N is_it o s v b)
  step-StaysOwned is_destroyed s v = discard-StaysOwned _ _ (destroy-StaysOwned N is_it o s v)
  step-StaysOwned is_destroyed6 s v = discard-StaysOwned _ _ (destroy6-StaysOwned N is_it o s v)
  step-StaysOwned (hears_icmp a ttl type code info) s v =
      discard-StaysOwned _ _ (forward_icmp_up-StaysOwned N is_it o s v a ttl type code info)
  step-StaysOwned (hears_icmp6 a ttl type code info) s v =
      discard-StaysOwned _ _ (forward_icmp_up6-StaysOwned N is_it o s v a ttl type code info)
