-- ===== src/Socket/Sending/Ended.antt =====
-- Sending in rudp-socket-impl.cc when there are no end points any more.
use rudpns.Prelude.{◌≡◌, ℕ, ℤ, Option, none, some, minus_one, arith, Option-cases, inl, inr}
use rudpns.Ns3.{Ns3, Env, Trace, af_no_support}
use rudpns.State.{fault, null_dereference, State, M, pure, set_errno, ◌>>◌}
use rudpns.L4.{l4_allocate, l4_allocate6}
use rudpns.Socket.Binding.{
  take_end_point, bind_ephemeral, bind_ephemeral6, ensure_bound, ensure_bound6,
}
use rudpns.Socket.Sending.{
  do_send_to, do_send_to_again, do_send_to6_again, send_to_inet, send_to_inet6, do_send_to6,
  send_to_target, do_send_to_address, bind_default, with_port, send_default, do_send, send, send_to,
  tag_tos, tag_tclass,
}
use rudpns.Socket.Ended.{IsEnded, StaysEnded}

module _ (N : Ns3) (E : Env N) (u : Trace N) (c : ℕ) (s : State N) (v : IsEnded N u c s) where
  pub do_send_to-gone :
      (p : N.Packet) (a : N.Ipv4Address) (port : ℕ)
      → do_send_to N E p a port s ≡ fault null_dereference
  unfolding do_send_to ensure_bound bind_ephemeral take_end_point l4_allocate
  do_send_to-gone p a port = ground arith

  pub do_send_to6-gone :
      (p : N.Packet) (a : N.Ipv6Address) (port : ℕ)
      → do_send_to6 N E p a port s ≡ fault null_dereference
  unfolding do_send_to6 do_send_to ensure_bound ensure_bound6 bind_ephemeral bind_ephemeral6
      take_end_point l4_allocate l4_allocate6
  do_send_to6-gone p a port = ground arith

  do_send_to-StaysEnded :
      (p : N.Packet) (a : N.Ipv4Address) (port : ℕ) → StaysEnded N u c (do_send_to N E p a port s)
  do_send_to-StaysEnded p a port = ground (arith, do_send_to-gone p a port)

  do_send_to6-StaysEnded :
      (p : N.Packet) (a : N.Ipv6Address) (port : ℕ) → StaysEnded N u c (do_send_to6 N E p a port s)
  do_send_to6-StaysEnded p a port = ground (arith, do_send_to6-gone p a port)

  send_to_target-StaysEnded :
      (p : N.Packet) (otherwise : M N ℤ) (a : Option (N.Ipv4Address × ℕ))
      (b : Option (N.Ipv6Address × ℕ))
      → StaysEnded N u c (otherwise s)
      → StaysEnded N u c (send_to_target N E p otherwise a b s)
  unfolding send_to_target
  send_to_target-StaysEnded p otherwise (some (a, port)) b h = do_send_to-StaysEnded p a port
  send_to_target-StaysEnded p otherwise none (some (b, port)) h = do_send_to6-StaysEnded p b port
  send_to_target-StaysEnded p otherwise none none h = h

  do_send_to_address-StaysEnded :
      (p : N.Packet) (a : N.Address) → StaysEnded N u c (do_send_to_address N E p a s)
  unfolding do_send_to_address
  do_send_to_address-StaysEnded p a =
      let port = s.socket.default_port in
      let ends : StaysEnded N u c ((pure {N = N} minus_one) s) = ground arith in
      let fails : StaysEnded N u c ((do set_errno {N = N} af_no_support; pure minus_one) s) =
        ground arith in
      ground (
        arith,
        send_to_target-StaysEnded p (pure minus_one) (N.inet a) (N.inet6 a) ends,
        send_to_target-StaysEnded p (do set_errno af_no_support; pure minus_one)
            (with_port port (N.as_ipv4 s.socket.default_address))
            (with_port port (N.as_ipv6 s.socket.default_address)) fails,
      )

  pub send-StaysEnded : (p : N.Packet) → StaysEnded N u c (send N E p s)
  unfolding send do_send bind_default send_default ensure_bound ensure_bound6 bind_ephemeral
      bind_ephemeral6
  send-StaysEnded p = ground (arith, do_send_to_address-StaysEnded p s.socket.default_address)

  do_send_to_again-gone : (p : N.Packet) → do_send_to_again N E p s ≡ fault null_dereference
  unfolding do_send_to_again ensure_bound bind_ephemeral take_end_point l4_allocate
  do_send_to_again-gone p = ground arith

  do_send_to6_again-gone :
      (p : N.Packet) (a : N.Ipv6Address) (port : ℕ)
      → do_send_to6_again N E p a port s ≡ fault null_dereference
  unfolding do_send_to6_again do_send_to ensure_bound ensure_bound6 bind_ephemeral bind_ephemeral6
      take_end_point l4_allocate l4_allocate6
  do_send_to6_again-gone p a port = ground arith

  send_to_inet-StaysEnded :
      (p : N.Packet) (a : N.Ipv4Address) (port : ℕ) → StaysEnded N u c (send_to_inet N E p a port s)
  unfolding send_to_inet
  send_to_inet-StaysEnded p a port =
      ground (arith, do_send_to_again-gone (tag_tos N s.socket p), do_send_to-gone p a port)

  send_to_inet6-StaysEnded :
      (p : N.Packet) (a : N.Ipv6Address) (port : ℕ)
      → StaysEnded N u c (send_to_inet6 N E p a port s)
  unfolding send_to_inet6
  send_to_inet6-StaysEnded p a port =
      ground
        (arith, do_send_to6_again-gone (tag_tclass N s.socket p) a port, do_send_to6-gone p a port)

  pub send_to-StaysEnded : (p : N.Packet) (a : N.Address) → StaysEnded N u c (send_to N E p a s)
  unfolding send_to
  send_to-StaysEnded p address = elim (Option-cases (N.inet address)) [
    | inr ((a, port), is4) ↦ rw (is4, send_to) (send_to_inet-StaysEnded p a port)
    | inl no4 ↦ elim (Option-cases (N.inet6 address)) [
      | inr ((a, port), is6) ↦ rw (no4, is6, send_to) (send_to_inet6-StaysEnded p a port)
      | inl no6 ↦ ground arith
    ]
  ]
