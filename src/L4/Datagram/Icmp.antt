-- ===== src/L4/Datagram/Icmp.antt =====
-- The ports of an ICMP report, in rudp-l4-protocol.cc.
use rudpns.Prelude.{
  ℕ, ◌+◌, ◌*◌, ◌/◌, ◌%◌, ◌^◌, ◌<◌, ◌≡◌, ap, true, none, some, List, ◌∷◌, arith, bit_or,
}
use rudpns.Prelude.Bits.{bit_or_split, bit_or-zero}
use rudpns.Ns3.{Ns3, Env, forward_icmp, forward_icmp6}
use rudpns.State.{State, ok}
use rudpns.L4.Datagram.{receive_icmp, receive_icmp6, icmp_ports}

joined_bytes : (a b : ℕ) → a < 256 → b < 256 → bit_or (a * 2 ^ 8 % 2 ^ 16) b ≡ a * 256 + b
joined_bytes a b ha hb = omega (
  arith,
  ap (λ (t : ℕ). bit_or t b) (let e : a * 2 ^ 8 % 2 ^ 16 ≡ a * 2 ^ 8 = omega arith in e),
  bit_or_split 8 a b,
  ap (bit_or a) (let e : b / 2 ^ 8 ≡ 0 = omega arith in e),
  bit_or-zero a,
)

module _ (N : Ns3) (E : Env N) where
  -- `ReceiveIcmp`, of either family, reads two ports from the first four bytes of its payload, each
  -- with its high byte first, and reports to the end point for them and the payload's addresses;
  -- where there is none, nothing is called or changed.
  pub receive_icmp-ports :
      (source from to : N.Ipv4Address) (source6 from6 to6 : N.Ipv6Address)
      (ttl type code info a b c d : ℕ) (rest : List ℕ) (s : State N)
      → s.l4.has_end_points ≡ true
      → s.l4.has_end_points6 ≡ true
      → a < 256
      → b < 256
      → c < 256
      → d < 256
      → (receive_icmp N E source ttl type code info from to (a ∷ b ∷ c ∷ d ∷ rest) s
          ≡ elim (E.simple_lookup s.trace from (a * 256 + b) to (c * 256 + d)) [
            | none ↦ ok (tt, s)
            | some ep ↦
                ok (tt, record s { trace = forward_icmp ep source ttl type code info ∷ s.trace })
          ])
        × (receive_icmp6 N E source6 ttl type code info from6 to6 (a ∷ b ∷ c ∷ d ∷ rest) s
            ≡ elim (E.simple_lookup6 s.trace from6 (a * 256 + b) to6 (c * 256 + d)) [
              | none ↦ ok (tt, s)
              | some ep ↦
                  ok
                    (tt, record s { trace = forward_icmp6 ep source6 ttl type code info ∷ s.trace })
            ])
  unfolding receive_icmp receive_icmp6 icmp_ports
  receive_icmp-ports source from to source6 from6 to6 ttl type code info a b c d rest s e e6 ha hb
        hc hd =
      let high = joined_bytes a b ha hb in
      let low = joined_bytes c d hc hd in (ground (arith, high, low), ground (arith, high, low))
