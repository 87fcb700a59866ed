-- ===== src/Socket/Sending/Outcome.antt =====
-- What the sending functions of rudp-socket-impl.cc return, against the packets that go down.
use rudpns.Prelude.{
  ℕ, ◌+◌, ◌≤◌, ◌≡◌, refl, ℤ, pos, negsuc, minus_one, Bool, true, false, Option, none, some, [], ◌∷◌,
  arith, if◌then◌else◌, not, Option-cases, inl, inr,
}
use rudpns.Ns3.{
  Ns3, Env, Trace, Call, af_no_support, down, down6, ip_tos, ip_ttl, ipv6_tclass, ipv6_hop_limit,
  dont_fragment,
}
use rudpns.Ns3.Laws.{TagLaws}
use rudpns.State.{Socket, State, Result, ok, fault, M, pure, set_errno, ◌>>◌}
use rudpns.Socket.Binding.{ensure_bound, ensure_bound6}
use rudpns.Socket.Sending.{
  tag_tos, tag_ttl, tag_dont_fragment, tag_tclass, tag_hop_limit, tx_available, hand_down,
  hand_down6, with_port, send_to_target, bind_default, send_default, send_bound, send_bound6,
  do_send_to, refuse_again, do_send_to_again, do_send_to6_again, send_to_inet, send_to_inet6,
  do_send_to6, do_send_to_address, do_send, send, send_to,
}

module _ (N : Ns3) where
  -- The packets given to the layer below.
  abbrev pub is_down : Call N → ℕ
  is_down (down target p source destination protocol r) = 1
  is_down (down6 target p source destination protocol r) = 1
  is_down _ = 0

  abbrev pub downs : Trace N → ℕ
  downs [] = 0
  downs (c ∷ t) = is_down c + downs t

  -- A call that returns -1 gives nothing down. One that returns a size gives one packet down, and the
  -- size is at most that of the largest datagram.
  abbrev pub Sends : Trace N → Result (ℤ × State N) → Type 0
  Sends t (fault f) = Unit {0}
  Sends t (ok (pos n, s)) = (downs s.trace ≡ downs t + 1) × (n ≤ tx_available)
  Sends t (ok (negsuc k, s)) = (k ≡ 0) × (downs s.trace ≡ downs t)

  abbrev Silent : Trace N → Result (Bool × State N) → Type 0
  Silent t (fault f) = Unit {0}
  Silent t (ok (b, s)) = downs s.trace ≡ downs t

  after_bound :
      (t : Trace N) (r : Result (Bool × State N)) (k : M N ℤ)
      → Silent t r
      → ((s : State N) → Sends s.trace (k s))
      → Sends t (elim r [ ok (b, s) ↦ (if not b then pure minus_one else k) s | fault f ↦ fault f ])
  after_bound t (fault f) k q h = tt
  after_bound t (ok (false, s)) k q h = (refl, q)
  after_bound t (ok (true, s)) k q h = moved (k s) (h s)
    where
      moved : (r : Result (ℤ × State N)) → Sends s.trace r → Sends t r
      moved (fault f) v = tt
      moved (ok (pos n, s')) v = (omega (arith, q), v.1)
      moved (ok (negsuc n, s')) v = (v.0, omega (arith, q))

module _ (N : Ns3) (E : Env N) where
  ensure_bound-Silent : (s : State N) → Silent N s.trace (ensure_bound N E s)
  unfolding ensure_bound
  ensure_bound-Silent s = ground arith

  ensure_bound6-Silent : (s : State N) → Silent N s.trace (ensure_bound6 N E s)
  unfolding ensure_bound6
  ensure_bound6-Silent s = ground arith

  hand_down-Sends :
      (p : N.Packet) (a : N.Ipv4Address) (port : ℕ) (s : State N)
      → N.get_size p ≤ tx_available
      → Sends N s.trace (hand_down N E p a port s)
  unfolding hand_down
  hand_down-Sends p a port s fits = ground arith

  hand_down6-Sends :
      (p : N.Packet) (a : N.Ipv6Address) (port : ℕ) (s : State N)
      → N.get_size p ≤ tx_available
      → Sends N s.trace (hand_down6 N E p a port s)
  unfolding hand_down6
  hand_down6-Sends p a port s fits = ground arith

  module _ (laws : TagLaws N) where
    pub size-tag_dont_fragment :
        (s : Socket N) (p : N.Packet) → N.get_size (tag_dont_fragment N s p) ≡ N.get_size p
    unfolding tag_dont_fragment
    size-tag_dont_fragment s p = ground (
      arith,
      laws.size-remove_dont_fragment p,
      laws.size-tag (dont_fragment s.mtu_discover) (N.remove_dont_fragment p).1,
    )

    pub size-tag_tos : (s : Socket N) (p : N.Packet) → N.get_size (tag_tos N s p) ≡ N.get_size p
    unfolding tag_tos
    size-tag_tos s p = ground (arith, laws.size-tag (ip_tos s.options.get_ip_tos) p)

    pub size-tag_ttl :
        (s : Socket N) (a : N.Ipv4Address) (p : N.Packet)
        → N.get_size (tag_ttl N s a p) ≡ N.get_size p
    unfolding tag_ttl
    size-tag_ttl s a p = ground (arith, laws.size-tag (ip_ttl s.options.get_ip_ttl) p)

    pub size-tag_tclass :
        (s : Socket N) (p : N.Packet) → N.get_size (tag_tclass N s p) ≡ N.get_size p
    unfolding tag_tclass
    size-tag_tclass s p = ground (arith, laws.size-tag (ipv6_tclass s.options.get_ipv6_tclass) p)

    pub size-tag_hop_limit :
        (s : Socket N) (a : N.Ipv6Address) (p : N.Packet)
        → N.get_size (tag_hop_limit N s a p) ≡ N.get_size p
    unfolding tag_hop_limit
    size-tag_hop_limit s a p =
        ground (arith, laws.size-tag (ipv6_hop_limit s.options.get_ipv6_hop_limit) p)

    send_bound-Sends :
        (p : N.Packet) (a : N.Ipv4Address) (port : ℕ) (s : State N)
        → Sends N s.trace (send_bound N E p a port s)
    unfolding send_bound
    send_bound-Sends p a port s =
        let q = tag_ttl N s.socket a (tag_tos N s.socket p) in
        ground (
          arith,
          size-tag_tos s.socket p,
          size-tag_ttl s.socket a (tag_tos N s.socket p),
          size-tag_dont_fragment s.socket q,
          hand_down-Sends (tag_dont_fragment N s.socket q) a port s,
        )

    send_bound6-Sends :
        (p : N.Packet) (a : N.Ipv6Address) (port : ℕ) (s : State N)
        → Sends N s.trace (send_bound6 N E p a port s)
    unfolding send_bound6
    send_bound6-Sends p a port s = ground (
      arith,
      size-tag_tclass s.socket p,
      size-tag_hop_limit s.socket a (tag_tclass N s.socket p),
      hand_down6-Sends (tag_hop_limit N s.socket a (tag_tclass N s.socket p)) a port s,
    )

    do_send_to-Sends :
        (p : N.Packet) (a : N.Ipv4Address) (port : ℕ) (s : State N)
        → Sends N s.trace (do_send_to N E p a port s)
    unfolding do_send_to
    do_send_to-Sends p a port s =
        after_bound N s.trace (ensure_bound N E s) (send_bound N E p a port) (ensure_bound-Silent s)
          (send_bound-Sends p a port)

    do_send_to6-Sends :
        (p : N.Packet) (a : N.Ipv6Address) (port : ℕ) (s : State N)
        → Sends N s.trace (do_send_to6 N E p a port s)
    unfolding do_send_to6
    do_send_to6-Sends p a port s = elim (Option-cases (N.ipv4_mapped a)) [
      | inr (b, e) ↦ rw (e, Sends) (do_send_to-Sends p b port s)
      | inl e ↦
          rw (e, Sends)
            (after_bound N s.trace (ensure_bound6 N E s) (send_bound6 N E p a port)
              (ensure_bound6-Silent s) (send_bound6-Sends p a port))
    ]

    send_to_target-Sends :
        (p : N.Packet) (otherwise : M N ℤ) (a : Option (N.Ipv4Address × ℕ))
        (b : Option (N.Ipv6Address × ℕ)) (s : State N)
        → Sends N s.trace (otherwise s)
        → Sends N s.trace (send_to_target N E p otherwise a b s)
    unfolding send_to_target
    send_to_target-Sends p otherwise (some (a, port)) b s h = do_send_to-Sends p a port s
    send_to_target-Sends p otherwise none (some (b, port)) s h = do_send_to6-Sends p b port s
    send_to_target-Sends p otherwise none none s h = h

    do_send_to_address-Sends :
        (p : N.Packet) (a : N.Address) (s : State N)
        → Sends N s.trace (do_send_to_address N E p a s)
    unfolding do_send_to_address
    do_send_to_address-Sends p a s =
        let port = s.socket.default_port in
        ground (
          arith,
          send_to_target-Sends p (pure minus_one) (N.inet a) (N.inet6 a) s (refl, refl),
          send_to_target-Sends p (do set_errno af_no_support; pure minus_one)
              (with_port port (N.as_ipv4 s.socket.default_address))
              (with_port port (N.as_ipv6 s.socket.default_address)) s (refl, refl),
        )

    bind_default-Silent : (s : State N) → Silent N s.trace (bind_default N E s)
    unfolding bind_default
    bind_default-Silent s = ground (arith, ensure_bound-Silent s, ensure_bound6-Silent s)

    send_default-Sends : (p : N.Packet) (s : State N) → Sends N s.trace (send_default N E p s)
    unfolding send_default
    send_default-Sends p s = ground (arith, do_send_to_address-Sends p s.socket.default_address s)

    -- `Send`.
    pub send-Sends : (p : N.Packet) (s : State N) → Sends N s.trace (send N E p s)
    unfolding send do_send
    send-Sends p s =
        let sent =
          after_bound N s.trace (bind_default N E s) (send_default N E p) (bind_default-Silent s)
            (send_default-Sends p) in
        ground (arith, sent)

    refuse_again-Sends : (p : N.Packet) (s : State N) → Sends N s.trace (refuse_again N E p s)
    unfolding refuse_again
    refuse_again-Sends p s = ground arith

    do_send_to_again-Sends :
        (p : N.Packet) (s : State N) → Sends N s.trace (do_send_to_again N E p s)
    unfolding do_send_to_again
    do_send_to_again-Sends p s =
        after_bound N s.trace (ensure_bound N E s) (refuse_again N E p) (ensure_bound-Silent s)
          (refuse_again-Sends p)

    do_send_to6_again-Sends :
        (p : N.Packet) (a : N.Ipv6Address) (port : ℕ) (s : State N)
        → Sends N s.trace (do_send_to6_again N E p a port s)
    unfolding do_send_to6_again
    do_send_to6_again-Sends p a port s = elim (Option-cases (N.ipv4_mapped a)) [
      | inr (b, e) ↦ rw (e, Sends) (do_send_to-Sends p b port s)
      | inl e ↦
          rw (e, Sends)
            (after_bound N s.trace (ensure_bound6 N E s) (refuse_again N E p)
              (ensure_bound6-Silent s) (refuse_again-Sends p))
    ]

    send_to_inet-Sends :
        (p : N.Packet) (a : N.Ipv4Address) (port : ℕ) (s : State N)
        → Sends N s.trace (send_to_inet N E p a port s)
    unfolding send_to_inet
    send_to_inet-Sends p a port s =
        ground (arith, do_send_to_again-Sends (tag_tos N s.socket p) s, do_send_to-Sends p a port s)

    send_to_inet6-Sends :
        (p : N.Packet) (a : N.Ipv6Address) (port : ℕ) (s : State N)
        → Sends N s.trace (send_to_inet6 N E p a port s)
    unfolding send_to_inet6
    send_to_inet6-Sends p a port s = ground (
      arith,
      do_send_to6_again-Sends (tag_tclass N s.socket p) a port s,
      do_send_to6-Sends p a port s,
    )

    -- `SendTo`.
    pub send_to-Sends :
        (p : N.Packet) (a : N.Address) (s : State N) → Sends N s.trace (send_to N E p a s)
    unfolding send_to
    send_to-Sends p address s = elim (Option-cases (N.inet address)) [
      | inr ((a, port), is4) ↦ rw (is4, Sends) (send_to_inet-Sends p a port s)
      | inl no4 ↦ elim (Option-cases (N.inet6 address)) [
        | inr ((a, port), is6) ↦ rw (no4, is6, Sends) (send_to_inet6-Sends p a port s)
        | inl no6 ↦ ground arith
      ]
    ]
