-- ===== src/Socket/Binding/Device.antt =====
-- `BindToNetDevice` of rudp-socket-impl.cc.
use rudpns.Prelude.{
  ◌≡◌, [], ◌∷◌, ◌++◌, ap, sym, refl, true, Option, some, Bool, is_some, if◌then◌else◌, arith, not,
  Option-cases, inl, inr,
}
use mathlib.Core.Path.{subst}
use rudpns.Ns3.{
  Ns3, Env, Trace, ephemeral, base_bind_to_net_device, bind_end_point, bind_end_point6, allocate6,
  set_rx_callback, set_icmp_callback, set_destroy_callback, set_rx_callback6, set_icmp_callback6,
  set_destroy_callback6,
}
use rudpns.State.{State, ok, M, emit, deref, skip, this_socket, ◌>>=◌, ◌>>◌, Returns, Returns-bind}
use rudpns.L4.{l4_allocate, l4_allocate6}
use rudpns.Socket.Binding.{
  ensure_bound, ensure_bound6, bind_to_net_device, bind_ephemeral, bind_ephemeral6, take_end_point,
  take_end_point6, finish_bind,
}
use rudpns.Socket.Binding.Ready.{IsReady, Serves}

module _ (N : Ns3) (E : Env N) (serves : Serves N E) (device : Option N.NetDevice) where
  -- What the first half of the function leaves, and the whole.
  record IsHalfBound (b : Bool) (s : State N) : Type 0 where
    went_on : b ≡ true
    ready : IsReady N s
    device_set : s.socket.bound_net_device ≡ device
    has_end_point : is_some s.socket.end_point ≡ true

  record IsBoundToDevice (ep : N.Ipv4EndPoint) (before : Trace N) (b : Bool) (s : State N)
      : Type 0 where
    went_on : b ≡ true
    kept_device : s.socket.bound_net_device ≡ device
    kept : s.socket.end_point ≡ some ep
    has_end_point6 : is_some s.socket.end_point6 ≡ true
    since : Trace N
    trace_grown : s.trace ≡ since ++ before

  ensure_bound-IsHalfBound :
      (s : State N)
      → IsReady N s
      → s.socket.bound_net_device ≡ device
      → Returns IsHalfBound (ensure_bound N E s)
  unfolding ensure_bound bind_ephemeral take_end_point finish_bind l4_allocate
  ensure_bound-IsHalfBound s v d =
      ground
        (arith, v, v.wired.has_rudp, v.wired.has_end_points, serves.allocated s.trace ephemeral)

  -- The socket with a new IPv6 end point. Its IPv4 one gets its callbacks once more.
  abbrev opened6 : N.Ipv4EndPoint → N.Ipv6EndPoint → State N → State N
  opened6 ep4 ep s = record s {
    socket = record s.socket { end_point6 = E.allocated6 s.trace ephemeral };
    trace =
        set_destroy_callback6 ep (some s.socket.this)
        ∷ set_icmp_callback6 ep s.socket.this
        ∷ set_rx_callback6 ep s.socket.this
        ∷ set_destroy_callback ep4 (some s.socket.this)
        ∷ set_icmp_callback ep4 s.socket.this
        ∷ set_rx_callback ep4 s.socket.this
        ∷ allocate6 ephemeral
        ∷ s.trace;
  }

  ensure_bound6-IsBoundToDevice :
      (ep : N.Ipv4EndPoint) (s : State N)
      → IsHalfBound true s
      → s.socket.end_point ≡ some ep
      → Returns (IsBoundToDevice ep s.trace) (ensure_bound6 N E s)
  unfolding ensure_bound6 bind_ephemeral6 take_end_point6 finish_bind l4_allocate6
  ensure_bound6-IsBoundToDevice ep s v e = elim (Option-cases s.socket.end_point6) [
    | inr (ep6, h) ↦
        let done : IsBoundToDevice ep s.trace true s = record {
          went_on = refl;
          kept_device = v.device_set;
          kept = e;
          has_end_point6 = ap is_some h;
          since = [];
          trace_grown = refl;
        } in
        ground (arith, h, done)
    | inl h ↦ elim (Option-cases (E.allocated6 s.trace ephemeral)) [
      | inl ran_out ↦ absurd (ground (arith, ran_out, serves.allocated6 s.trace ephemeral))
      | inr (new, found) ↦
          let this = s.socket.this in
          let done : IsBoundToDevice ep s.trace true (opened6 ep new s) = record {
            went_on = refl;
            kept_device = v.device_set;
            kept = e;
            has_end_point6 = ap is_some found;
            since =
                set_destroy_callback6 new (some this)
                ∷ set_icmp_callback6 new this
                ∷ set_rx_callback6 new this
                ∷ set_destroy_callback ep (some this)
                ∷ set_icmp_callback ep this
                ∷ set_rx_callback ep this
                ∷ allocate6 ephemeral
                ∷ [];
            trace_grown = refl;
          } in
          let opens : ensure_bound6 N E s ≡ ok (true, opened6 ep new s) =
            ground (arith, e, h, found, v.ready.wired.has_rudp, v.ready.wired.has_end_points6) in
          subst (Returns (IsBoundToDevice ep s.trace)) (sym opens) done
    ]
  ]

  -- The socket has the device and end points of both families. Both were bound to the device, the one
  -- of IPv4 first, and nothing came after.
  pub record IsOnDevice (s : State N) : Type 0 where
    pub device_set : s.socket.bound_net_device ≡ device
    pub end_point : N.Ipv4EndPoint
    pub end_point_set : s.socket.end_point ≡ some end_point
    pub end_point6 : N.Ipv6EndPoint
    pub end_point6_set : s.socket.end_point6 ≡ some end_point6
    pub before : Trace N
    pub between : Trace N
    pub trace_ends :
        s.trace
        ≡ bind_end_point6 end_point6 device
          ∷ (between ++ (bind_end_point end_point device ∷ before))

  abbrev rest6 : Bool → M N (Unit {0})
  rest6 bound =
      if not bound
      then skip
      else do s ← this_socket; ep ← deref s.end_point6; emit (bind_end_point6 ep device)

  rest6-IsOnDevice :
      (ep4 : N.Ipv4EndPoint) (before : Trace N) (b : Bool) (s : State N)
      → IsBoundToDevice ep4 (bind_end_point ep4 device ∷ before) b s
      → Returns (λ _. IsOnDevice) (rest6 b s)
  rest6-IsOnDevice ep4 before b s v = elim (Option-cases s.socket.end_point6) [
    | inl e ↦ absurd (ground (arith, v.has_end_point6))
    | inr (ep, e) ↦
        let after = record s { trace = bind_end_point6 ep device ∷ s.trace } in
        let done : IsOnDevice after = record {
          device_set = v.kept_device;
          end_point = ep4;
          end_point_set = v.kept;
          end_point6 = ep;
          end_point6_set = e;
          before = before;
          between = v.since;
          trace_ends = ap (λ t. bind_end_point6 ep device ∷ t) v.trace_grown;
        } in
        ground (arith, v.went_on, done)
  ]

  abbrev rest : Bool → M N (Unit {0})
  rest bound = if not bound then skip else do
    s ← this_socket
    ep ← deref s.end_point
    emit (bind_end_point ep device)
    ensure_bound6 N E >>= rest6

  rest-IsOnDevice :
      (b : Bool) (s : State N) → IsHalfBound b s → Returns (λ _. IsOnDevice) (rest b s)
  rest-IsOnDevice b s v = elim (Option-cases s.socket.end_point) [
    | inl e ↦ absurd (ground (arith, v.has_end_point))
    | inr (ep, e) ↦
        let after = record s { trace = bind_end_point ep device ∷ s.trace } in
        let half : IsHalfBound true after = record {
          went_on = refl;
          ready = record {
            wired = record {
              has_rudp = v.ready.wired.has_rudp;
              has_end_points = v.ready.wired.has_end_points;
              has_end_points6 = v.ready.wired.has_end_points6;
            };
            has_node = v.ready.has_node;
            has_target = v.ready.has_target;
            has_target6 = v.ready.has_target6;
          };
          device_set = v.device_set;
          has_end_point = v.has_end_point;
        } in
        let done : Returns (λ _. IsOnDevice) ((ensure_bound6 N E >>= rest6) after) =
          Returns-bind (λ _. IsOnDevice) (ensure_bound6 N E) rest6 after
            (ensure_bound6-IsBoundToDevice ep after half e) (rest6-IsOnDevice ep s.trace) in
        ground (arith, v.went_on, done)
  ]

  -- `BindToNetDevice` of a socket that is ready, on a node with IPv4 and IPv6 whose ports do not run
  -- out, to a device that passes the base class's check, returns. It leaves the socket with the device
  -- and with end points of both families. It has bound the IPv4 one to the device, and then the IPv6
  -- one, with its last call.
  pub bind_to_net_device-IsOnDevice :
      (s : State N)
      → IsReady N s
      → E.device_passes (base_bind_to_net_device device ∷ s.trace) s.socket.node device ≡ true
      → Returns (λ _. IsOnDevice) (bind_to_net_device N E device s)
  unfolding bind_to_net_device
  bind_to_net_device-IsOnDevice s v passes =
      let called = record s {
        socket = record s.socket { bound_net_device = device };
        trace = base_bind_to_net_device device ∷ s.trace;
      } in
      let ready : IsReady N called = record {
        wired = record {
          has_rudp = v.wired.has_rudp;
          has_end_points = v.wired.has_end_points;
          has_end_points6 = v.wired.has_end_points6;
        };
        has_node = v.has_node;
        has_target = v.has_target;
        has_target6 = v.has_target6;
      } in
      let done : Returns (λ _. IsOnDevice) ((ensure_bound N E >>= rest) called) =
        Returns-bind (λ _. IsOnDevice) (ensure_bound N E) rest called
          (ensure_bound-IsHalfBound called ready refl) rest-IsOnDevice in
      ground (arith, passes, done)
