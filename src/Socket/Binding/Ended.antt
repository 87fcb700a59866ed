-- ===== src/Socket/Binding/Ended.antt =====
-- Binding in rudp-socket-impl.cc when there are no end points any more.
use rudpns.Prelude.{ℕ, Option, arith}
use rudpns.Ns3.{Ns3, Env, Trace}
use rudpns.State.{State}
use rudpns.L4.{l4_allocate, l4_allocate6}
use rudpns.Socket.Binding.{
  take_end_point, take_end_point6, finish_bind, bind_ephemeral, bind_ephemeral6, bind, ensure_bound,
  ensure_bound6, bind_to_net_device,
}
use rudpns.Socket.Ended.{IsEnded, StaysEnded}

module _ (N : Ns3) (E : Env N) (u : Trace N) (c : ℕ) (s : State N) (v : IsEnded N u c s) where
  pub bind_ephemeral-StaysEnded :
      StaysEnded N u c (bind_ephemeral N E s) × StaysEnded N u c (bind_ephemeral6 N E s)
  unfolding bind_ephemeral bind_ephemeral6 take_end_point take_end_point6 finish_bind l4_allocate
      l4_allocate6
  bind_ephemeral-StaysEnded = ground arith

  pub bind-StaysEnded : (a : N.Address) → StaysEnded N u c (bind N E a s)
  unfolding bind take_end_point take_end_point6 finish_bind l4_allocate l4_allocate6
  bind-StaysEnded a = ground arith

  pub ensure_bound-StaysEnded :
      StaysEnded N u c (ensure_bound N E s) × StaysEnded N u c (ensure_bound6 N E s)
  unfolding ensure_bound ensure_bound6 bind_ephemeral bind_ephemeral6 take_end_point take_end_point6
      l4_allocate l4_allocate6
  ensure_bound-StaysEnded = ground arith

  pub bind_to_net_device-StaysEnded :
      (device : Option N.NetDevice) → StaysEnded N u c (bind_to_net_device N E device s)
  unfolding bind_to_net_device ensure_bound bind_ephemeral take_end_point l4_allocate
  bind_to_net_device-StaysEnded device = ground arith
