-- ===== src/Socket/Sending/Frames.antt =====
-- What sending in rudp-socket-impl.cc leaves alone.
use rudpns.Prelude.{
  Bool, not, arith, ℕ, ℤ, Option, some, none, if◌then◌else◌, minus_one, Option-cases, inl, inr,
}
use rudpns.Ns3.{Ns3, Env, af_no_support}
use rudpns.State.{State, M, ◌>>◌, pure, set_errno}
use rudpns.L4.Datagram.{l4_send, l4_send6}
use rudpns.Socket.Frame.{Frames, Frames-bind}
use rudpns.Socket.Binding.{ensure_bound, ensure_bound6}
use rudpns.Socket.Binding.Frames.{ensure_bound-Frames, ensure_bound6-Frames}
use rudpns.Socket.Sending.{
  hand_down, hand_down6, send_bound, send_bound6, do_send_to, refuse_again, do_send_to_again,
  do_send_to6_again, send_to_inet, send_to_inet6, do_send_to6, send_to_target, do_send_to_address,
  bind_default, with_port, send_default, do_send, send, send_to, tag_tos, tag_tclass, tag_ttl,
  tag_hop_limit, tag_dont_fragment,
}

module _ (N : Ns3) (E : Env N) where
  hand_down-Frames :
      (p : N.Packet) (a : N.Ipv4Address) (port : ℕ) (s : State N)
      → Frames N s (hand_down N E p a port s)
  unfolding hand_down l4_send
  hand_down-Frames p a port s = ground arith

  hand_down6-Frames :
      (p : N.Packet) (a : N.Ipv6Address) (port : ℕ) (s : State N)
      → Frames N s (hand_down6 N E p a port s)
  unfolding hand_down6 l4_send6
  hand_down6-Frames p a port s = ground arith

  send_bound-Frames :
      (p : N.Packet) (a : N.Ipv4Address) (port : ℕ) (b : Bool) (s : State N)
      → Frames N s ((if not b then pure minus_one else send_bound N E p a port) s)
  unfolding send_bound
  send_bound-Frames p a port b s =
      let q = tag_dont_fragment N s.socket (tag_ttl N s.socket a (tag_tos N s.socket p)) in
      ground (arith, hand_down-Frames q a port s)

  send_bound6-Frames :
      (p : N.Packet) (a : N.Ipv6Address) (port : ℕ) (b : Bool) (s : State N)
      → Frames N s ((if not b then pure minus_one else send_bound6 N E p a port) s)
  unfolding send_bound6
  send_bound6-Frames p a port b s =
      let q = tag_hop_limit N s.socket a (tag_tclass N s.socket p) in
      ground (arith, hand_down6-Frames q a port s)

  do_send_to-Frames :
      (p : N.Packet) (a : N.Ipv4Address) (port : ℕ) (s : State N)
      → Frames N s (do_send_to N E p a port s)
  unfolding do_send_to
  do_send_to-Frames p a port s =
      Frames-bind N (ensure_bound N E) _ s (ensure_bound-Frames N E s) (send_bound-Frames p a port)

  do_send_to6-Frames :
      (p : N.Packet) (a : N.Ipv6Address) (port : ℕ) (s : State N)
      → Frames N s (do_send_to6 N E p a port s)
  unfolding do_send_to6
  do_send_to6-Frames p a port s = elim (Option-cases (N.ipv4_mapped a)) [
    | inr (b, e) ↦ rw (e, do_send_to6) (do_send_to-Frames p b port s)
    | inl e ↦
        rw (e, do_send_to6)
          (Frames-bind N (ensure_bound6 N E) _ s (ensure_bound6-Frames N E s)
            (send_bound6-Frames p a port))
  ]

  send_to_target-Frames :
      (p : N.Packet) (otherwise : M N ℤ) (a : Option (N.Ipv4Address × ℕ))
      (b : Option (N.Ipv6Address × ℕ)) (s : State N)
      → Frames N s (otherwise s)
      → Frames N s (send_to_target N E p otherwise a b s)
  unfolding send_to_target
  send_to_target-Frames p otherwise (some (a, port)) b s h = do_send_to-Frames p a port s
  send_to_target-Frames p otherwise none (some (b, port)) s h = do_send_to6-Frames p b port s
  send_to_target-Frames p otherwise none none s h = h

  do_send_to_address-Frames :
      (p : N.Packet) (a : N.Address) (s : State N) → Frames N s (do_send_to_address N E p a s)
  unfolding do_send_to_address
  do_send_to_address-Frames p a s =
      let port = s.socket.default_port in
      let ends : Frames N s ((pure {N = N} minus_one) s) = ground arith in
      let fails : Frames N s ((do set_errno {N = N} af_no_support; pure minus_one) s) =
        ground arith in
      ground (
        arith,
        send_to_target-Frames p (pure minus_one) (N.inet a) (N.inet6 a) s ends,
        send_to_target-Frames p (do set_errno af_no_support; pure minus_one)
            (with_port port (N.as_ipv4 s.socket.default_address))
            (with_port port (N.as_ipv6 s.socket.default_address)) s fails,
      )

  bind_default-Frames : (s : State N) → Frames N s (bind_default N E s)
  unfolding bind_default
  bind_default-Frames s = ground (arith, ensure_bound-Frames N E s, ensure_bound6-Frames N E s)

  send_default-Frames :
      (p : N.Packet) (b : Bool) (s : State N)
      → Frames N s ((if not b then pure minus_one else send_default N E p) s)
  unfolding send_default
  send_default-Frames p b s = ground (arith, do_send_to_address-Frames p s.socket.default_address s)

  pub send-Frames : (p : N.Packet) (s : State N) → Frames N s (send N E p s)
  unfolding send do_send
  send-Frames p s =
      let sent =
        Frames-bind N (bind_default N E) _ s (bind_default-Frames s) (send_default-Frames p) in
      ground (arith, sent)

  refuse_again-Frames :
      (p : N.Packet) (b : Bool) (s : State N)
      → Frames N s ((if not b then pure minus_one else refuse_again N E p) s)
  unfolding refuse_again
  refuse_again-Frames p b s = ground arith

  do_send_to_again-Frames : (p : N.Packet) (s : State N) → Frames N s (do_send_to_again N E p s)
  unfolding do_send_to_again
  do_send_to_again-Frames p s =
      Frames-bind N (ensure_bound N E) _ s (ensure_bound-Frames N E s) (refuse_again-Frames p)

  do_send_to6_again-Frames :
      (p : N.Packet) (a : N.Ipv6Address) (port : ℕ) (s : State N)
      → Frames N s (do_send_to6_again N E p a port s)
  unfolding do_send_to6_again
  do_send_to6_again-Frames p a port s = elim (Option-cases (N.ipv4_mapped a)) [
    | inr (b, e) ↦ rw (e, do_send_to6_again) (do_send_to-Frames p b port s)
    | inl e ↦
        rw (e, do_send_to6_again)
          (Frames-bind N (ensure_bound6 N E) _ s (ensure_bound6-Frames N E s)
            (refuse_again-Frames p))
  ]

  send_to_inet-Frames :
      (p : N.Packet) (a : N.Ipv4Address) (port : ℕ) (s : State N)
      → Frames N s (send_to_inet N E p a port s)
  unfolding send_to_inet
  send_to_inet-Frames p a port s =
      ground (arith, do_send_to_again-Frames (tag_tos N s.socket p) s, do_send_to-Frames p a port s)

  send_to_inet6-Frames :
      (p : N.Packet) (a : N.Ipv6Address) (port : ℕ) (s : State N)
      → Frames N s (send_to_inet6 N E p a port s)
  unfolding send_to_inet6
  send_to_inet6-Frames p a port s = ground (
    arith,
    do_send_to6_again-Frames (tag_tclass N s.socket p) a port s,
    do_send_to6-Frames p a port s,
  )

  pub send_to-Frames : (p : N.Packet) (a : N.Address) (s : State N) → Frames N s (send_to N E p a s)
  unfolding send_to
  send_to-Frames p address s = elim (Option-cases (N.inet address)) [
    | inr ((a, port), is4) ↦ rw (is4, send_to) (send_to_inet-Frames p a port s)
    | inl no4 ↦ elim (Option-cases (N.inet6 address)) [
      | inr ((a, port), is6) ↦ rw (no4, is6, send_to) (send_to_inet6-Frames p a port s)
      | inl no6 ↦ ground arith
    ]
  ]
