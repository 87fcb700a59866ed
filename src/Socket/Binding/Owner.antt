-- ===== src/Socket/Binding/Owner.antt =====
-- Binding in rudp-socket-impl.cc gives the socket end points that call it, and takes none from others.
use rudpns.Prelude.{
  ℕ, ◌≡◌, Bool, false, not, ◌&&◌, Option, is_some, ◌∷◌, Option-cases, inl, inr, arith,
  if◌then◌else◌,
}
use rudpns.Ns3.{
  Ns3, Env, Trace, Request, ephemeral, base_bind_to_net_device, bind_end_point, bind_end_point6,
}
use rudpns.State.{State, ◌>>=◌, ◌>>◌, skip, emit, deref, this_socket}
use rudpns.L4.{l4_allocate, l4_allocate6}
use rudpns.Socket.Binding.{
  request, take_end_point, take_end_point6, finish_bind, bind_ephemeral, bind_ephemeral6, bind,
  ensure_bound, ensure_bound6, bind_to_net_device,
}
use rudpns.Ns3.Owner.{Probe, hits, at4, at6, owner}
use rudpns.Socket.Owner.{Owns, StaysOwned, StaysOwned-bind}

module _ (N : Ns3) (E : Env N) (is_it : Probe N) where
  -- Allocation gives no end point that calls a socket.
  pub record IsFresh : Type 0 where
    pub fresh :
        (t : Trace N) (r : Request N.Ipv4Address)
        → (hits (at4 N is_it) (E.allocated t r) && is_some (owner N is_it t)) ≡ false
    pub fresh6 :
        (t : Trace N) (r : Request N.Ipv6Address)
        → (hits (at6 N is_it) (E.allocated6 t r) && is_some (owner N is_it t)) ≡ false

  module _ (news : IsFresh) (o : Option ℕ) (s : State N) (v : Owns N is_it o s) where
    pub bind_ephemeral-StaysOwned : StaysOwned N is_it o s.socket.this (bind_ephemeral N E s)
    unfolding bind_ephemeral take_end_point finish_bind l4_allocate
    bind_ephemeral-StaysOwned = ground (arith, news.fresh s.trace ephemeral)

    pub bind_ephemeral6-StaysOwned : StaysOwned N is_it o s.socket.this (bind_ephemeral6 N E s)
    unfolding bind_ephemeral6 take_end_point6 finish_bind l4_allocate6
    bind_ephemeral6-StaysOwned = ground (arith, news.fresh6 s.trace ephemeral)

    pub bind-StaysOwned : (a : N.Address) → StaysOwned N is_it o s.socket.this (bind N E a s)
    unfolding bind take_end_point take_end_point6 finish_bind l4_allocate l4_allocate6
    bind-StaysOwned a = elim (Option-cases (N.inet a)) [
      | inr ((ipv4, port), is4) ↦
          ground (arith, news.fresh s.trace (request (N.is_any ipv4) ipv4 port))
      | inl no4 ↦ elim (Option-cases (N.inet6 a)) [
        | inr ((ipv6, port), is6) ↦
            ground (arith, news.fresh6 s.trace (request (N.is_any6 ipv6) ipv6 port))
        | inl no6 ↦ ground arith
      ]
    ]

  module _ (news : IsFresh) (o : Option ℕ) (s : State N) (v : Owns N is_it o s) where
    pub ensure_bound-StaysOwned : StaysOwned N is_it o s.socket.this (ensure_bound N E s)
    unfolding ensure_bound
    ensure_bound-StaysOwned = ground (arith, bind_ephemeral-StaysOwned news o s v)

    pub ensure_bound6-StaysOwned : StaysOwned N is_it o s.socket.this (ensure_bound6 N E s)
    unfolding ensure_bound6
    ensure_bound6-StaysOwned = ground (arith, bind_ephemeral6-StaysOwned news o s v)

  -- What `BindToNetDevice` does once the IPv4 end point is there.
  bound_device-StaysOwned :
      (news : IsFresh) (o : Option ℕ) (device : Option N.NetDevice) (b : Bool) (s : State N)
      → Owns N is_it o s
      → StaysOwned N is_it o s.socket.this (
          (if not b then skip else do
            s ← this_socket
            e ← deref s.end_point
            emit (bind_end_point e device)
            bound ← ensure_bound6 N E
            if not bound
                then skip
                else do s ← this_socket; e ← deref s.end_point6; emit (bind_end_point6 e device))
            s)
  bound_device-StaysOwned news o device b s v = elim (Option-cases s.socket.end_point) [
    | inl e ↦ ground arith
    | inr (e, h) ↦
        let bound = record s { trace = bind_end_point e device ∷ s.trace } in
        ground (arith, ensure_bound6-StaysOwned news o bound (ground arith))
  ]

  pub bind_to_net_device-StaysOwned :
      (news : IsFresh) (o : Option ℕ) (device : Option N.NetDevice) (s : State N)
      → Owns N is_it o s
      → StaysOwned N is_it o s.socket.this (bind_to_net_device N E device s)
  unfolding bind_to_net_device
  bind_to_net_device-StaysOwned news o device s v =
      let set = record s {
        socket = record s.socket { bound_net_device = device };
        trace = base_bind_to_net_device device ∷ s.trace;
      } in
      let passed =
        StaysOwned-bind N is_it o s.socket.this (ensure_bound N E) _ set
          (ensure_bound-StaysOwned news o set (ground arith))
          (λ b t w. bound_device-StaysOwned news o device b t w) in
      ground (arith, passed)
