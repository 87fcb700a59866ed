-- ===== src/L4/Datagram/Ended.antt =====
-- Receiving in rudp-l4-protocol.cc once the object was disposed of.
use rudpns.Prelude.{ℕ, Option, List, Option-cases, inl, inr, arith}
use rudpns.Ns3.{Ns3, Env, Ipv4Header, Ipv6Header}
use rudpns.State.{State}
use rudpns.Header.{new_header}
use rudpns.Header.Wire.{deserialize}
use rudpns.L4.Datagram.{peek_header, receive, receive6, receive_icmp, receive_icmp6}
use rudpns.L4.Aggregate.Ended.{IsGone, StaysGone}

module _ (N : Ns3) (E : Env N) (s : State N) (v : IsGone N s) where
  pub receive6-StaysGone :
      (p : N.Packet) (h : Ipv6Header N.Ipv6Address) (i : Option N.Ipv6Interface)
      → StaysGone N s (receive6 N E p h i s)
  unfolding receive6 peek_header
  receive6-StaysGone p h i =
      elim (Option-cases
        (deserialize N.iterator (new_header (E.uninitialised s.trace)) (N.buffer p))) [
          | inl e ↦ ground (arith, e)
          | inr (r, e) ↦ ground (arith, e)
        ]

  pub receive-StaysGone :
      (p : N.Packet) (h : Ipv4Header N.Ipv4Address) (i : N.Ipv4Interface)
      → StaysGone N s (receive N E p h i s)
  unfolding receive peek_header
  receive-StaysGone p h i =
      elim (Option-cases
        (deserialize N.iterator (new_header (E.uninitialised s.trace)) (N.buffer p))) [
          | inl e ↦ ground (arith, e)
          | inr (r, e) ↦ ground (arith, e)
        ]

  pub receive_icmp-StaysGone :
      (source : N.Ipv4Address) (ttl type code info : ℕ) (from to : N.Ipv4Address) (payload : List ℕ)
      → StaysGone N s (receive_icmp N E source ttl type code info from to payload s)
  unfolding receive_icmp
  receive_icmp-StaysGone source ttl type code info from to payload = ground arith

  pub receive_icmp6-StaysGone :
      (source : N.Ipv6Address) (ttl type code info : ℕ) (from to : N.Ipv6Address) (payload : List ℕ)
      → StaysGone N s (receive_icmp6 N E source ttl type code info from to payload s)
  unfolding receive_icmp6
  receive_icmp6-StaysGone source ttl type code info from to payload = ground arith
