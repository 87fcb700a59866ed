-- ===== src/L4/Datagram/Fanout.antt =====
-- Which end points a datagram or an ICMP report goes to, in rudp-l4-protocol.cc.
use rudpns.Prelude.{
  ℕ, ◌≡◌, refl, ap, true, Option, none, some, List, [], ◌∷◌, arith, if◌then◌else◌, is_some, ◌||◌,
}
use rudpns.Header.{RudpHeader, new_header, serialized_size}
use rudpns.Header.Wire.{deserialize}
use rudpns.Ns3.{Ns3, Env, Trace, Ipv4Header, Ipv6Header, forward_up, forward_up6}
use rudpns.State.{State, Result, ok, fault, M, pure}
use rudpns.L4.{prot_number}
use rudpns.L4.Datagram.{
  RxStatus, rx_ok, rx_csum_failed, rx_endpoint_unreach, forward_all, forward_all6, dispatch,
  dispatch6, peek_header, receive, receive6,
}

module _ (N : Ns3) where
  -- One call for each end point, the last one first.
  abbrev pub each :
      List N.Ipv4EndPoint
      → N.Packet
      → Ipv4Header N.Ipv4Address
      → (port : ℕ) → N.Ipv4Interface
      → Trace N
      → Trace N
  each [] p h port i t = t
  each (ep ∷ eps) p h port i t = each eps p h port i (forward_up ep p h port i ∷ t)

  abbrev pub each6 :
      List N.Ipv6EndPoint
      → N.Packet
      → Ipv6Header N.Ipv6Address
      → (port : ℕ) → Option N.Ipv6Interface
      → Trace N
      → Trace N
  each6 [] p h port i t = t
  each6 (ep ∷ eps) p h port i t = each6 eps p h port i (forward_up6 ep p h port i ∷ t)

  forward_all-each :
      (eps : List N.Ipv4EndPoint) (p : N.Packet) (h : Ipv4Header N.Ipv4Address) (port : ℕ)
      (i : N.Ipv4Interface) (s : State N)
      → forward_all N eps p h port i s ≡ ok (tt, record s { trace = each eps p h port i s.trace })
  unfolding forward_all
  forward_all-each [] p h port i s = refl
  forward_all-each (ep ∷ eps) p h port i s =
      forward_all-each eps p h port i (record s { trace = forward_up ep p h port i ∷ s.trace })

  forward_all6-each6 :
      (eps : List N.Ipv6EndPoint) (p : N.Packet) (h : Ipv6Header N.Ipv6Address) (port : ℕ)
      (i : Option N.Ipv6Interface) (s : State N)
      → forward_all6 N eps p h port i s ≡ ok (tt, record s { trace = each6 eps p h port i s.trace })
  unfolding forward_all6
  forward_all6-each6 [] p h port i s = refl
  forward_all6-each6 (ep ∷ eps) p h port i s =
      forward_all6-each6 eps p h port i (record s { trace = forward_up6 ep p h port i ∷ s.trace })

  abbrev pub otherwise6 :
      List N.Ipv6EndPoint
      → N.Packet
      → Ipv6Header N.Ipv6Address
      → (port : ℕ) → Option N.Ipv6Interface
      → State N
      → Result (RxStatus × State N)
  otherwise6 [] p h port i s = ok (rx_endpoint_unreach, s)
  otherwise6 (ep ∷ eps) p h port i s =
      ok (rx_ok, record s { trace = each6 (ep ∷ eps) p h port i s.trace })

  dispatch6-each6 :
      (eps : List N.Ipv6EndPoint) (p : N.Packet) (h : Ipv6Header N.Ipv6Address) (port : ℕ)
      (i : Option N.Ipv6Interface) (s : State N)
      → dispatch6 N eps p h port i s ≡ otherwise6 eps p h port i s
  unfolding dispatch6
  dispatch6-each6 [] p h port i s = refl
  dispatch6-each6 (ep ∷ eps) p h port i s =
      ap (elim [ ok (_, s') ↦ ok (rx_ok, s') | fault f ↦ fault f ])
        (forward_all6-each6 (ep ∷ eps) p h port i s)

  -- The result of `dispatch` in closed form.
  abbrev pub otherwise :
      List N.Ipv4EndPoint
      → N.Packet
      → Ipv4Header N.Ipv4Address
      → (port : ℕ) → N.Ipv4Interface
      → M N RxStatus
      → State N
      → Result (RxStatus × State N)
  otherwise [] p h port i k s = k s
  otherwise (ep ∷ eps) p h port i k s =
      ok (rx_ok, record s { trace = each (ep ∷ eps) p h port i s.trace })

  dispatch-each :
      (eps : List N.Ipv4EndPoint) (p : N.Packet) (h : Ipv4Header N.Ipv4Address) (port : ℕ)
      (i : N.Ipv4Interface) (k : M N RxStatus) (s : State N)
      → dispatch N eps p h port i k s ≡ otherwise eps p h port i k s
  unfolding dispatch
  dispatch-each [] p h port i k s = refl
  dispatch-each (ep ∷ eps) p h port i k s =
      ap (elim [ ok (_, s') ↦ ok (rx_ok, s') | fault f ↦ fault f ])
        (forward_all-each (ep ∷ eps) p h port i s)

module _ (N : Ns3) (E : Env N) where
  abbrev pub found :
      RudpHeader → Ipv4Header N.Ipv4Address → N.Ipv4Interface → State N → List N.Ipv4EndPoint
  found r h i s = E.lookup s.trace h.destination r.destination_port h.source r.source_port i

  abbrev pub found6 :
      RudpHeader → Ipv6Header N.Ipv6Address → Option N.Ipv6Interface → State N → List N.Ipv6EndPoint
  found6 r h i s = E.lookup6 s.trace h.destination r.destination_port h.source r.source_port i

  -- The header under which `Receive` for IPv4 tries IPv6.
  abbrev pub mapped_header : Ipv4Header N.Ipv4Address → Ipv6Header N.Ipv6Address
  mapped_header h = record N.new_ipv6_header {
    source = N.make_ipv4_mapped h.source;
    destination = N.make_ipv4_mapped h.destination;
  }

  module _ (p : N.Packet) (r : RudpHeader) (s : State N)
      (read : deserialize N.iterator (new_header (E.uninitialised s.trace)) (N.buffer p)
        ≡ some r) where
    -- `Receive` for IPv4 of a packet whose header reads as `r`. A bad checksum ends it; the end points
    -- that match the addresses and the ports each get the packet without its header, once and in order;
    -- where none does, IPv6 is tried if the node has it, under mapped addresses and with no interface,
    -- and else the result says so. On the first and the last of these nothing is called or changed.
    pub receive_branches :
        (h : Ipv4Header N.Ipv4Address) (i : N.Ipv4Interface)
        → s.l4.has_end_points ≡ true
        → receive N E p h i s ≡ (
            if E.checksum_ok s.trace h.source h.destination prot_number p
            then otherwise N
                (found r h i s)
                (N.remove_at_start serialized_size p)
                h
                r.source_port
                i
                (if E.has_ipv6_l3 s.trace
                  then receive6 N E p (mapped_header h) none
                  else pure rx_endpoint_unreach)
                s
            else ok (rx_csum_failed, s))
    unfolding receive peek_header
    receive_branches h i e = ground (
      arith,
      dispatch-each N (found r h i s) (N.remove_at_start serialized_size p) h r.source_port i
          (if E.has_ipv6_l3 s.trace
            then receive6 N E p (mapped_header h) none
            else pure rx_endpoint_unreach)
          s,
    )

    pub receive_one :
        (h : Ipv4Header N.Ipv4Address) (i : N.Ipv4Interface) (ep : N.Ipv4EndPoint)
        → s.l4.has_end_points ≡ true
        → E.checksum_ok s.trace h.source h.destination prot_number p ≡ true
        → found r h i s ≡ ep ∷ []
        → receive N E p h i s
          ≡ ok (
            rx_ok,
            record s {
              trace =
                  forward_up ep (N.remove_at_start serialized_size p) h r.source_port i ∷ s.trace;
            },
          )
    receive_one h i ep e c f = ground (arith, receive_branches h i e)

    -- `Receive` for IPv6. A bad checksum ends it, unless the source is a mapped IPv4 address; then the
    -- end points that match each get the packet without its header, once and in order, with the
    -- interface that was given; without one the result says so.
    pub receive6_branches :
        (h : Ipv6Header N.Ipv6Address) (i : Option N.Ipv6Interface)
        → s.l4.has_end_points6 ≡ true
        → receive6 N E p h i s ≡ (
            if E.checksum_ok6 s.trace h.source h.destination prot_number p
              || is_some (N.ipv4_mapped h.source)
            then otherwise6 N
                (found6 r h i s)
                (N.remove_at_start serialized_size p)
                h
                r.source_port
                i
                s
            else ok (rx_csum_failed, s))
    unfolding receive6 peek_header
    receive6_branches h i e = ground (
      arith,
      dispatch6-each6 N (found6 r h i s) (N.remove_at_start serialized_size p) h r.source_port i s,
    )

    pub receive6_one :
        (h : Ipv6Header N.Ipv6Address) (i : Option N.Ipv6Interface) (ep : N.Ipv6EndPoint)
        → s.l4.has_end_points6 ≡ true
        → E.checksum_ok6 s.trace h.source h.destination prot_number p ≡ true
        → found6 r h i s ≡ ep ∷ []
        → receive6 N E p h i s
          ≡ ok (
            rx_ok,
            record s {
              trace =
                  forward_up6 ep (N.remove_at_start serialized_size p) h r.source_port i ∷ s.trace;
            },
          )
    receive6_one h i ep e c f = ground (arith, receive6_branches h i e)
