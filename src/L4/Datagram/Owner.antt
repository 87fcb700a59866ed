-- ===== src/L4/Datagram/Owner.antt =====
-- Receiving in rudp-l4-protocol.cc changes no callback, nor the object itself.
use rudpns.Prelude.{
  ℕ, ◌≡◌, refl, Option, none, List, [], ◌∷◌, arith, if◌then◌else◌, Option-cases, inl, inr,
}
use rudpns.Header.{new_header, serialized_size}
use rudpns.Ns3.{Ns3, Env, Ipv4Header, Ipv6Header, forward_up, forward_up6}
use rudpns.Ns3.Owner.{Probe, owner, once}
use rudpns.State.{State, Result, ok, fault, M, pure}
use rudpns.L4.Datagram.Fanout.{found, found6, mapped_header}
use rudpns.Header.Wire.{deserialize}
use rudpns.L4.Datagram.{
  RxStatus, rx_endpoint_unreach, forward_all, forward_all6, dispatch, dispatch6, peek_header,
  receive, receive6, receive_icmp, receive_icmp6,
}

module _ (N : Ns3) (is_it : Probe N) where
  -- The end point calls whom it called before, the object is as it was, and no end point was given
  -- back.
  abbrev pub IsQuiet : {A : Type 0} → State N → Result (A × State N) → Type 0
  IsQuiet s (fault f) = Unit {0}
  IsQuiet s (ok (a, t)) =
      (owner N is_it t.trace ≡ owner N is_it s.trace)
      × (t.l4 ≡ s.l4)
      × (once N is_it t.trace ≡ once N is_it s.trace)

  forward_all-IsQuiet :
      (eps : List N.Ipv4EndPoint) (p : N.Packet) (h : Ipv4Header N.Ipv4Address) (port : ℕ)
      (i : N.Ipv4Interface) (s : State N)
      → IsQuiet s (forward_all N eps p h port i s)
  unfolding forward_all
  forward_all-IsQuiet [] p h port i s = (refl, refl, refl)
  forward_all-IsQuiet (e ∷ es) p h port i s =
      forward_all-IsQuiet es p h port i (record s { trace = forward_up e p h port i ∷ s.trace })

  forward_all6-IsQuiet :
      (eps : List N.Ipv6EndPoint) (p : N.Packet) (h : Ipv6Header N.Ipv6Address) (port : ℕ)
      (i : Option N.Ipv6Interface) (s : State N)
      → IsQuiet s (forward_all6 N eps p h port i s)
  unfolding forward_all6
  forward_all6-IsQuiet [] p h port i s = (refl, refl, refl)
  forward_all6-IsQuiet (e ∷ es) p h port i s =
      forward_all6-IsQuiet es p h port i (record s { trace = forward_up6 e p h port i ∷ s.trace })

  dispatch6-IsQuiet :
      (eps : List N.Ipv6EndPoint) (p : N.Packet) (h : Ipv6Header N.Ipv6Address) (port : ℕ)
      (i : Option N.Ipv6Interface) (s : State N)
      → IsQuiet s (dispatch6 N eps p h port i s)
  unfolding dispatch6
  dispatch6-IsQuiet [] p h port i s = (refl, refl, refl)
  dispatch6-IsQuiet (e ∷ es) p h port i s =
      ground (arith, forward_all6-IsQuiet (e ∷ es) p h port i s)

  dispatch-IsQuiet :
      (eps : List N.Ipv4EndPoint) (p : N.Packet) (h : Ipv4Header N.Ipv4Address) (port : ℕ)
      (i : N.Ipv4Interface) (k : M N RxStatus) (s : State N)
      → IsQuiet s (k s)
      → IsQuiet s (dispatch N eps p h port i k s)
  unfolding dispatch
  dispatch-IsQuiet [] p h port i k s q = q
  dispatch-IsQuiet (e ∷ es) p h port i k s q =
      ground (arith, forward_all-IsQuiet (e ∷ es) p h port i s)

  pub receive6-IsQuiet :
      (E : Env N) (p : N.Packet) (h : Ipv6Header N.Ipv6Address) (i : Option N.Ipv6Interface)
      (s : State N)
      → IsQuiet s (receive6 N E p h i s)
  unfolding receive6 peek_header
  receive6-IsQuiet E p h i s =
      elim (Option-cases
        (deserialize N.iterator (new_header (E.uninitialised s.trace)) (N.buffer p))) [
          | inl e ↦ ground (arith, e)
          | inr (r, e) ↦
              let body = N.remove_at_start serialized_size p in
              ground (arith, e, dispatch6-IsQuiet (found6 N E r h i s) body h r.source_port i s)
        ]

  pub receive-IsQuiet :
      (E : Env N) (p : N.Packet) (h : Ipv4Header N.Ipv4Address) (i : N.Ipv4Interface) (s : State N)
      → IsQuiet s (receive N E p h i s)
  unfolding receive peek_header
  receive-IsQuiet E p h i s =
      elim (Option-cases
        (deserialize N.iterator (new_header (E.uninitialised s.trace)) (N.buffer p))) [
          | inl e ↦ ground (arith, e)
          | inr (r, e) ↦
              let body = N.remove_at_start serialized_size p in
              let none_found =
                if E.has_ipv6_l3 s.trace
                then receive6 N E p (mapped_header N E h) none
                else pure rx_endpoint_unreach in
              let tried : IsQuiet s (none_found s) =
                ground (arith, receive6-IsQuiet E p (mapped_header N E h) none s) in
              ground (
                arith,
                e,
                dispatch-IsQuiet (found N E r h i s) body h r.source_port i none_found s tried,
              )
        ]

  pub receive_icmp-IsQuiet :
      (E : Env N) (source : N.Ipv4Address) (ttl type code info : ℕ) (from to : N.Ipv4Address)
      (payload : List ℕ) (s : State N)
      → IsQuiet s (receive_icmp N E source ttl type code info from to payload s)
  unfolding receive_icmp
  receive_icmp-IsQuiet E source ttl type code info from to payload s = ground arith

  pub receive_icmp6-IsQuiet :
      (E : Env N) (source : N.Ipv6Address) (ttl type code info : ℕ) (from to : N.Ipv6Address)
      (payload : List ℕ) (s : State N)
      → IsQuiet s (receive_icmp6 N E source ttl type code info from to payload s)
  unfolding receive_icmp6
  receive_icmp6-IsQuiet E source ttl type code info from to payload s = ground arith
