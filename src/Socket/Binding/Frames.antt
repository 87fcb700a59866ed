-- ===== src/Socket/Binding/Frames.antt =====
-- What binding in rudp-socket-impl.cc leaves alone.
use rudpns.Prelude.{Option, ◌∷◌, arith}
use rudpns.Ns3.{Ns3, Env, base_bind_to_net_device}
use rudpns.State.{State}
use rudpns.L4.{l4_allocate, l4_allocate6}
use rudpns.Socket.Binding.{
  take_end_point, take_end_point6, finish_bind, bind_ephemeral, bind_ephemeral6, bind, ensure_bound,
  ensure_bound6, bind_to_net_device,
}
use rudpns.Socket.Frame.{Frames}

module _ (N : Ns3) (E : Env N) where
  pub bind_ephemeral-Frames :
      (s : State N) → Frames N s (bind_ephemeral N E s) × Frames N s (bind_ephemeral6 N E s)
  unfolding bind_ephemeral bind_ephemeral6 take_end_point take_end_point6 finish_bind l4_allocate
      l4_allocate6
  bind_ephemeral-Frames s = ground arith

  pub bind-Frames : (a : N.Address) (s : State N) → Frames N s (bind N E a s)
  unfolding bind take_end_point take_end_point6 finish_bind l4_allocate l4_allocate6
  bind-Frames a s = ground arith

  pub ensure_bound-Frames : (s : State N) → Frames N s (ensure_bound N E s)
  unfolding ensure_bound
  ensure_bound-Frames s = ground (arith, (bind_ephemeral-Frames s).0)

  pub ensure_bound6-Frames : (s : State N) → Frames N s (ensure_bound6 N E s)
  unfolding ensure_bound6
  ensure_bound6-Frames s = ground (arith, (bind_ephemeral-Frames s).1)

  pub bind_to_net_device-Frames :
      (device : Option N.NetDevice) (s : State N) → Frames N s (bind_to_net_device N E device s)
  unfolding bind_to_net_device
  bind_to_net_device-Frames device s =
      let set = record s {
        socket = record s.socket { bound_net_device = device };
        trace = base_bind_to_net_device device ∷ s.trace;
      } in
      ground (arith, ensure_bound-Frames set)
