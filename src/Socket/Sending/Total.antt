-- ===== src/Socket/Sending/Total.antt =====
-- That the sending functions of rudp-socket-impl.cc return, and what they then did.
use rudpns.Prelude.{
  ℕ, ◌≡◌, minus_one, ℤ, Bool, true, false, ◌&&◌, Option, none, some, is_some, not, arith,
  Option-cases, inl, inr, if◌then◌else◌,
}
use rudpns.Ns3.{Ns3, Env, af_no_support}
use rudpns.Ns3.Laws.{TagLaws}
use rudpns.State.{
  State, ok, fault, assertion, ◌>>=◌, Result, M, pure, set_errno, ◌>>◌, Returns, Returns-bind,
}
use rudpns.L4.Datagram.{l4_send, l4_send6}
use rudpns.Socket.Binding.{ensure_bound, ensure_bound6}
use rudpns.Socket.Binding.Ready.{
  IsReady, Serves, IsBound, IsBound6, ensure_bound-IsBound, ensure_bound6-IsBound6,
}
use rudpns.Socket.Sending.{
  hand_down, hand_down6, send_bound, send_bound6, do_send_to, refuse_again, do_send_to_again,
  do_send_to6_again, send_to_inet, send_to_inet6, do_send_to6, send_to_target, do_send_to_address,
  bind_default, with_port, send_default, do_send, send, send_to, tag_tos, tag_tclass, tag_ttl,
  tag_hop_limit, tag_dont_fragment,
}
use rudpns.Socket.Sending.Outcome.{Sends, send-Sends, send_to-Sends}

module _ (N : Ns3) where
  abbrev pub Ends : {A : Type 0} → Result (A × State N) → Type 0
  Ends = Returns (λ _ _. Unit {0})

  -- It returns, or else `tagged` holds and an assertion has failed.
  abbrev pub Concludes : {A : Type 0} → (tagged : Bool) → Result (A × State N) → Type 0
  Concludes tagged (ok (a, t)) = Unit {0}
  Concludes tagged (fault f) = (tagged ≡ true) × (f ≡ assertion)

  -- `SendTo` tags a packet for this address, and `DoSendTo` for it is to tag it once more.
  abbrev pub tags_first : State N → N.Address → Bool
  tags_first s address =
      if is_some (N.inet address)
      then s.socket.options.is_manual_ip_tos
      else is_some (N.inet6 address) && s.socket.options.is_manual_ipv6_tclass

  Ends-Concludes :
      {A : Type 0} (tagged : Bool) (r : Result (A × State N)) → Ends r → Concludes tagged r
  Ends-Concludes tagged (ok (a, t)) e = tt
  Ends-Concludes tagged (fault f) e = absurd e

  tagged-Concludes :
      {A : Type 0} (tagged : Bool) (m k : M N A) (s : State N)
      → Concludes true (m s)
      → Ends (k s)
      → Concludes tagged ((if tagged then m else k) s)
  tagged-Concludes true m k s c e = c
  tagged-Concludes false m k s c e = Ends-Concludes false (k s) e

  Concludes-bind :
      {A B : Type 0} (P : A → State N → Type 0) (tagged : Bool) (m : M N A) (k : A → M N B)
      (s : State N)
      → Returns P (m s)
      → ((a : A) (t : State N) → Concludes tagged (k a t))
      → Concludes tagged ((m >>= k) s)
  Concludes-bind {A} {B} P tagged m k s = go (m s)
    where
      go :
          (r : Result (A × State N))
          → Returns P r
          → ((a : A) (t : State N) → Concludes tagged (k a t))
          → Concludes tagged (elim r [ ok (a, t) ↦ k a t | fault f ↦ fault f ])
      go (ok (a, t)) p next = next a t
      go (fault f) p next = absurd p

module _ (N : Ns3) (E : Env N) (serves : Serves N E) where
  hand_down-Ends :
      (p : N.Packet) (a : N.Ipv4Address) (port : ℕ) (s : State N)
      → IsReady N s
      → is_some s.socket.end_point ≡ true
      → Ends N (hand_down N E p a port s)
  unfolding hand_down l4_send
  hand_down-Ends p a port s v e = elim (Option-cases s.socket.node) [
    | inr (node, h) ↦ ground (arith, v.wired.has_rudp, v.has_target, serves.node_ipv4 s.trace node)
    | inl h ↦ absurd (ground (arith, v.has_node))
  ]

  hand_down6-Ends :
      (p : N.Packet) (a : N.Ipv6Address) (port : ℕ) (s : State N)
      → IsReady N s
      → is_some s.socket.end_point6 ≡ true
      → Ends N (hand_down6 N E p a port s)
  unfolding hand_down6 l4_send6
  hand_down6-Ends p a port s v e = elim (Option-cases s.socket.node) [
    | inr (node, h) ↦ ground (arith, v.wired.has_rudp, v.has_target6, serves.node_ipv6 s.trace node)
    | inl h ↦ absurd (ground (arith, v.has_node))
  ]

  send_bound-Ends :
      (p : N.Packet) (a : N.Ipv4Address) (port : ℕ) (b : Bool) (s : State N)
      → IsBound N E b s
      → Ends N ((if not b then pure minus_one else send_bound N E p a port) s)
  unfolding send_bound
  send_bound-Ends p a port false s v = tt
  send_bound-Ends p a port true s v =
      let q = tag_dont_fragment N s.socket (tag_ttl N s.socket a (tag_tos N s.socket p)) in
      ground (arith, hand_down-Ends q a port s v.0 v.1)

  send_bound6-Ends :
      (p : N.Packet) (a : N.Ipv6Address) (port : ℕ) (b : Bool) (s : State N)
      → IsBound6 N E b s
      → Ends N ((if not b then pure minus_one else send_bound6 N E p a port) s)
  unfolding send_bound6
  send_bound6-Ends p a port false s v = tt
  send_bound6-Ends p a port true s v =
      let q = tag_hop_limit N s.socket a (tag_tclass N s.socket p) in
      ground (arith, hand_down6-Ends q a port s v.0 v.1)

  do_send_to-Ends :
      (p : N.Packet) (a : N.Ipv4Address) (port : ℕ) (s : State N)
      → IsReady N s
      → Ends N (do_send_to N E p a port s)
  unfolding do_send_to
  do_send_to-Ends p a port s v =
      Returns-bind (λ _ _. Unit {0}) (ensure_bound N E) _ s (ensure_bound-IsBound N E serves s v)
        (send_bound-Ends p a port)

  do_send_to6-Ends :
      (p : N.Packet) (a : N.Ipv6Address) (port : ℕ) (s : State N)
      → IsReady N s
      → Ends N (do_send_to6 N E p a port s)
  unfolding do_send_to6
  do_send_to6-Ends p a port s v = elim (Option-cases (N.ipv4_mapped a)) [
    | inr (b, e) ↦ rw (e, do_send_to6) (do_send_to-Ends p b port s v)
    | inl e ↦
        rw (e, do_send_to6)
          (Returns-bind (λ _ _. Unit {0}) (ensure_bound6 N E) _ s
            (ensure_bound6-IsBound6 N E serves s v) (send_bound6-Ends p a port))
  ]

  send_to_target-Ends :
      (p : N.Packet) (otherwise : M N ℤ) (a : Option (N.Ipv4Address × ℕ))
      (b : Option (N.Ipv6Address × ℕ)) (s : State N)
      → IsReady N s
      → Ends N (otherwise s)
      → Ends N (send_to_target N E p otherwise a b s)
  unfolding send_to_target
  send_to_target-Ends p otherwise (some (a, port)) b s v h = do_send_to-Ends p a port s v
  send_to_target-Ends p otherwise none (some (b, port)) s v h = do_send_to6-Ends p b port s v
  send_to_target-Ends p otherwise none none s v h = h

  do_send_to_address-Ends :
      (p : N.Packet) (a : N.Address) (s : State N)
      → IsReady N s
      → Ends N (do_send_to_address N E p a s)
  unfolding do_send_to_address
  do_send_to_address-Ends p a s v =
      let port = s.socket.default_port in
      ground (
        arith,
        send_to_target-Ends p (pure minus_one) (N.inet a) (N.inet6 a) s v tt,
        send_to_target-Ends p (do set_errno af_no_support; pure minus_one)
            (with_port port (N.as_ipv4 s.socket.default_address))
            (with_port port (N.as_ipv6 s.socket.default_address)) s v tt,
      )

  bind_default-IsReady : (s : State N) → IsReady N s → Returns (λ _. IsReady N) (bind_default N E s)
  unfolding bind_default
  bind_default-IsReady s v =
      ground (arith, v, ensure_bound-IsBound N E serves s v, ensure_bound6-IsBound6 N E serves s v)

  send_default-Ends :
      (p : N.Packet) (b : Bool) (s : State N)
      → IsReady N s
      → Ends N ((if not b then pure minus_one else send_default N E p) s)
  unfolding send_default
  send_default-Ends p false s v = tt
  send_default-Ends p true s v =
      ground (arith, do_send_to_address-Ends p s.socket.default_address s v)

  send-Ends : (p : N.Packet) (s : State N) → IsReady N s → Ends N (send N E p s)
  unfolding send do_send
  send-Ends p s v =
      let ended =
        Returns-bind (λ _ _. Unit {0}) (bind_default N E) _ s (bind_default-IsReady s v)
          (send_default-Ends p) in
      ground (arith, ended)

  refuse_again-Concludes :
      (p : N.Packet) (b : Bool) (s : State N)
      → Concludes N true ((if not b then pure minus_one else refuse_again N E p) s)
  unfolding refuse_again
  refuse_again-Concludes p b s = ground arith

  do_send_to_again-Concludes :
      (p : N.Packet) (s : State N) → IsReady N s → Concludes N true (do_send_to_again N E p s)
  unfolding do_send_to_again
  do_send_to_again-Concludes p s v =
      Concludes-bind N _ true (ensure_bound N E) _ s (ensure_bound-IsBound N E serves s v)
        (refuse_again-Concludes p)

  do_send_to6_again-Concludes :
      (p : N.Packet) (a : N.Ipv6Address) (port : ℕ) (s : State N)
      → IsReady N s
      → Concludes N true (do_send_to6_again N E p a port s)
  unfolding do_send_to6_again
  do_send_to6_again-Concludes p a port s v = elim (Option-cases (N.ipv4_mapped a)) [
    | inr (b, e) ↦
        rw (e, do_send_to6_again)
          (Ends-Concludes N true (do_send_to N E p b port s) (do_send_to-Ends p b port s v))
    | inl e ↦
        rw (e, do_send_to6_again)
          (Concludes-bind N _ true (ensure_bound6 N E) _ s (ensure_bound6-IsBound6 N E serves s v)
            (refuse_again-Concludes p))
  ]

  send_to_inet-Concludes :
      (p : N.Packet) (a : N.Ipv4Address) (port : ℕ) (s : State N)
      → IsReady N s
      → Concludes N s.socket.options.is_manual_ip_tos (send_to_inet N E p a port s)
  unfolding send_to_inet do_send_to_again
  send_to_inet-Concludes p a port s v =
      let p' = tag_tos N s.socket p in
      tagged-Concludes N s.socket.options.is_manual_ip_tos (do_send_to_again N E p')
        (do_send_to N E p a port) s (do_send_to_again-Concludes p' s v)
        (do_send_to-Ends p a port s v)

  send_to_inet6-Concludes :
      (p : N.Packet) (a : N.Ipv6Address) (port : ℕ) (s : State N)
      → IsReady N s
      → Concludes N s.socket.options.is_manual_ipv6_tclass (send_to_inet6 N E p a port s)
  unfolding send_to_inet6 do_send_to6_again
  send_to_inet6-Concludes p a port s v =
      let p' = tag_tclass N s.socket p in
      tagged-Concludes N s.socket.options.is_manual_ipv6_tclass (do_send_to6_again N E p' a port)
        (do_send_to6 N E p a port) s (do_send_to6_again-Concludes p' a port s v)
        (do_send_to6-Ends p a port s v)

  send_to-Concludes :
      (p : N.Packet) (address : N.Address) (s : State N)
      → IsReady N s
      → Concludes N (tags_first N s address) (send_to N E p address s)
  unfolding send_to
  send_to-Concludes p address s v = elim (Option-cases (N.inet address)) [
    | inr ((a, port), is4) ↦ rw (is4, send_to) (send_to_inet-Concludes p a port s v)
    | inl no4 ↦ elim (Option-cases (N.inet6 address)) [
      | inr ((a, port), is6) ↦ rw (no4, is6, send_to) (send_to_inet6-Concludes p a port s v)
      | inl no6 ↦ rw (no4, no6, send_to) tt
    ]
  ]

  -- On a node with IPv4 and IPv6 whose ports do not run out, `Send` returns, from every socket that is
  -- ready, connected or not, bound or not, shut down or not, for every packet and every address.
  -- `SendTo` returns, too, or else it ends in a failed assertion, and that only where it has tagged the
  -- packet itself. A return of -1 gave nothing to the layer below; a return of a size gave it one
  -- packet, and the size is at most that of the largest datagram.
  pub sending_returns :
      (laws : TagLaws N) (p : N.Packet) (address : N.Address) (s : State N)
      → IsReady N s
      → (Ends N (send N E p s) × Sends N s.trace (send N E p s))
        × (Concludes N (tags_first N s address) (send_to N E p address s)
            × Sends N s.trace (send_to N E p address s))
  sending_returns laws p address s v = (
    (send-Ends p s v, send-Sends N E laws p s),
    (send_to-Concludes p address s v, send_to-Sends N E laws p address s),
  )
