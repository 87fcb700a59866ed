-- ===== src/Socket/Sending/Owner.antt =====
-- Sending in rudp-socket-impl.cc takes no end point from another socket.
use rudpns.Prelude.{
  Bool, not, arith, ℕ, ℤ, Option, some, none, if◌then◌else◌, minus_one, Option-cases, inl, inr,
}
use rudpns.Ns3.{Ns3, Env, af_no_support}
use rudpns.State.{State, Result, M, ◌>>◌, pure, set_errno}
use rudpns.L4.Datagram.{l4_send, l4_send6}
use rudpns.Ns3.Owner.{Probe}
use rudpns.Socket.Owner.{Owns, StaysOwned, StaysOwned-bind}
use rudpns.Socket.Binding.{ensure_bound, ensure_bound6}
use rudpns.Socket.Binding.Owner.{IsFresh, ensure_bound-StaysOwned, ensure_bound6-StaysOwned}
use rudpns.Socket.Sending.{
  hand_down, hand_down6, send_bound, send_bound6, do_send_to, refuse_again, do_send_to_again,
  do_send_to6_again, send_to_inet, send_to_inet6, do_send_to6, send_to_target, do_send_to_address,
  bind_default, with_port, send_default, do_send, send, send_to, tag_tos, tag_tclass, tag_ttl,
  tag_hop_limit, tag_dont_fragment,
}

module _ (N : Ns3) (E : Env N) (is_it : Probe N) (o : Option ℕ) where
  abbrev Stays : {A : Type 0} → State N → Result (A × State N) → Type 0
  Stays s = StaysOwned N is_it o s.socket.this

  hand_down-StaysOwned :
      (p : N.Packet) (a : N.Ipv4Address) (port : ℕ) (s : State N)
      → Owns N is_it o s
      → Stays s (hand_down N E p a port s)
  unfolding hand_down l4_send
  hand_down-StaysOwned p a port s v = ground arith

  hand_down6-StaysOwned :
      (p : N.Packet) (a : N.Ipv6Address) (port : ℕ) (s : State N)
      → Owns N is_it o s
      → Stays s (hand_down6 N E p a port s)
  unfolding hand_down6 l4_send6
  hand_down6-StaysOwned p a port s v = ground arith

  send_bound-StaysOwned :
      (p : N.Packet) (a : N.Ipv4Address) (port : ℕ) (b : Bool) (s : State N)
      → Owns N is_it o s
      → Stays s ((if not b then pure minus_one else send_bound N E p a port) s)
  unfolding send_bound
  send_bound-StaysOwned p a port b s v =
      let q = tag_dont_fragment N s.socket (tag_ttl N s.socket a (tag_tos N s.socket p)) in
      ground (arith, hand_down-StaysOwned q a port s v)

  send_bound6-StaysOwned :
      (p : N.Packet) (a : N.Ipv6Address) (port : ℕ) (b : Bool) (s : State N)
      → Owns N is_it o s
      → Stays s ((if not b then pure minus_one else send_bound6 N E p a port) s)
  unfolding send_bound6
  send_bound6-StaysOwned p a port b s v =
      let q = tag_hop_limit N s.socket a (tag_tclass N s.socket p) in
      ground (arith, hand_down6-StaysOwned q a port s v)

module _ (N : Ns3) (E : Env N) (is_it : Probe N) (fresh : IsFresh N E is_it) (o : Option ℕ) where
  abbrev Still : {A : Type 0} → ℕ → Result (A × State N) → Type 0
  Still n r = StaysOwned N is_it o n r

  do_send_to-StaysOwned :
      (p : N.Packet) (a : N.Ipv4Address) (port : ℕ) (s : State N)
      → Owns N is_it o s
      → Still s.socket.this (do_send_to N E p a port s)
  unfolding do_send_to
  do_send_to-StaysOwned p a port s v =
      StaysOwned-bind N is_it o s.socket.this (ensure_bound N E) _ s
        (ensure_bound-StaysOwned N E is_it fresh o s v)
        (λ b t w. send_bound-StaysOwned N E is_it o p a port b t w)

  do_send_to6-StaysOwned :
      (p : N.Packet) (a : N.Ipv6Address) (port : ℕ) (s : State N)
      → Owns N is_it o s
      → Still s.socket.this (do_send_to6 N E p a port s)
  unfolding do_send_to6
  do_send_to6-StaysOwned p a port s v = elim (Option-cases (N.ipv4_mapped a)) [
    | inr (b, e) ↦ rw (e, do_send_to6) (do_send_to-StaysOwned p b port s v)
    | inl e ↦
        rw (e, do_send_to6)
          (StaysOwned-bind N is_it o s.socket.this (ensure_bound6 N E) _ s
            (ensure_bound6-StaysOwned N E is_it fresh o s v)
            (λ b t w. send_bound6-StaysOwned N E is_it o p a port b t w))
  ]

  send_to_target-StaysOwned :
      (p : N.Packet) (otherwise : M N ℤ) (a : Option (N.Ipv4Address × ℕ))
      (b : Option (N.Ipv6Address × ℕ)) (s : State N)
      → Owns N is_it o s
      → Still s.socket.this (otherwise s)
      → Still s.socket.this (send_to_target N E p otherwise a b s)
  unfolding send_to_target
  send_to_target-StaysOwned p otherwise (some (a, port)) b s v h =
      do_send_to-StaysOwned p a port s v
  send_to_target-StaysOwned p otherwise none (some (b, port)) s v h =
      do_send_to6-StaysOwned p b port s v
  send_to_target-StaysOwned p otherwise none none s v h = h

  do_send_to_address-StaysOwned :
      (p : N.Packet) (a : N.Address) (s : State N)
      → Owns N is_it o s
      → Still s.socket.this (do_send_to_address N E p a s)
  unfolding do_send_to_address
  do_send_to_address-StaysOwned p a s v =
      let port = s.socket.default_port in
      let ends : Still s.socket.this ((pure {N = N} minus_one) s) = ground arith in
      let fails : Still s.socket.this ((do set_errno {N = N} af_no_support; pure minus_one) s) =
        ground arith in
      ground (
        arith,
        send_to_target-StaysOwned p (pure minus_one) (N.inet a) (N.inet6 a) s v ends,
        send_to_target-StaysOwned p (do set_errno af_no_support; pure minus_one)
            (with_port port (N.as_ipv4 s.socket.default_address))
            (with_port port (N.as_ipv6 s.socket.default_address)) s v fails,
      )

  bind_default-StaysOwned :
      (s : State N) → Owns N is_it o s → Still s.socket.this (bind_default N E s)
  unfolding bind_default
  bind_default-StaysOwned s v = ground (
    arith,
    ensure_bound-StaysOwned N E is_it fresh o s v,
    ensure_bound6-StaysOwned N E is_it fresh o s v,
  )

  send_default-StaysOwned :
      (p : N.Packet) (b : Bool) (s : State N)
      → Owns N is_it o s
      → Still s.socket.this ((if not b then pure minus_one else send_default N E p) s)
  unfolding send_default
  send_default-StaysOwned p b s v =
      ground (arith, do_send_to_address-StaysOwned p s.socket.default_address s v)

  pub send-StaysOwned :
      (p : N.Packet) (s : State N) → Owns N is_it o s → Still s.socket.this (send N E p s)
  unfolding send do_send
  send-StaysOwned p s v =
      let sent =
        StaysOwned-bind N is_it o s.socket.this (bind_default N E) _ s (bind_default-StaysOwned s v)
          (λ b t w. send_default-StaysOwned p b t w) in
      ground (arith, sent)

  refuse_again-StaysOwned :
      (p : N.Packet) (b : Bool) (s : State N)
      → Owns N is_it o s
      → Still s.socket.this ((if not b then pure minus_one else refuse_again N E p) s)
  unfolding refuse_again
  refuse_again-StaysOwned p b s v = ground arith

  do_send_to_again-StaysOwned :
      (p : N.Packet) (s : State N)
      → Owns N is_it o s
      → Still s.socket.this (do_send_to_again N E p s)
  unfolding do_send_to_again
  do_send_to_again-StaysOwned p s v =
      StaysOwned-bind N is_it o s.socket.this (ensure_bound N E) _ s
        (ensure_bound-StaysOwned N E is_it fresh o s v) (refuse_again-StaysOwned p)

  do_send_to6_again-StaysOwned :
      (p : N.Packet) (a : N.Ipv6Address) (port : ℕ) (s : State N)
      → Owns N is_it o s
      → Still s.socket.this (do_send_to6_again N E p a port s)
  unfolding do_send_to6_again
  do_send_to6_again-StaysOwned p a port s v = elim (Option-cases (N.ipv4_mapped a)) [
    | inr (b, e) ↦ rw (e, do_send_to6_again) (do_send_to-StaysOwned p b port s v)
    | inl e ↦
        rw (e, do_send_to6_again)
          (StaysOwned-bind N is_it o s.socket.this (ensure_bound6 N E) _ s
            (ensure_bound6-StaysOwned N E is_it fresh o s v) (refuse_again-StaysOwned p))
  ]

  send_to_inet-StaysOwned :
      (p : N.Packet) (a : N.Ipv4Address) (port : ℕ) (s : State N)
      → Owns N is_it o s
      → Still s.socket.this (send_to_inet N E p a port s)
  unfolding send_to_inet
  send_to_inet-StaysOwned p a port s v = ground (
    arith,
    do_send_to_again-StaysOwned (tag_tos N s.socket p) s v,
    do_send_to-StaysOwned p a port s v,
  )

  send_to_inet6-StaysOwned :
      (p : N.Packet) (a : N.Ipv6Address) (port : ℕ) (s : State N)
      → Owns N is_it o s
      → Still s.socket.this (send_to_inet6 N E p a port s)
  unfolding send_to_inet6
  send_to_inet6-StaysOwned p a port s v = ground (
    arith,
    do_send_to6_again-StaysOwned (tag_tclass N s.socket p) a port s v,
    do_send_to6-StaysOwned p a port s v,
  )

  pub send_to-StaysOwned :
      (p : N.Packet) (a : N.Address) (s : State N)
      → Owns N is_it o s
      → Still s.socket.this (send_to N E p a s)
  unfolding send_to
  send_to-StaysOwned p address s v = elim (Option-cases (N.inet address)) [
    | inr ((a, port), is4) ↦ rw (is4, send_to) (send_to_inet-StaysOwned p a port s v)
    | inl no4 ↦ elim (Option-cases (N.inet6 address)) [
      | inr ((a, port), is6) ↦ rw (no4, is6, send_to) (send_to_inet6-StaysOwned p a port s v)
      | inl no6 ↦ ground arith
    ]
  ]
