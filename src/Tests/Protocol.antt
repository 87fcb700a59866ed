-- ===== src/Tests/Protocol.antt =====
-- The protocol object at concrete states: rudp-l4-protocol.cc.
use rudpns.Prelude.{ℕ, ◌≡◌, refl, true, some, none, ◌++◌, [], ◌∷◌, arith}
use rudpns.Header.{RudpHeader, new_header, serialized_size}
use rudpns.Header.Wire.{serialize, deserialize}
use rudpns.Header.Wire.RoundTrip.{restored, deserialize-serialize}
use rudpns.Ns3.{Ipv6Header, Env, forward_up, forward_up6, forward_icmp}
use rudpns.State.{State, ok, fault, null_dereference, Returns}
use rudpns.L4.{new_l4}
use rudpns.L4.Aggregate.{notify_new_aggregate}
use rudpns.L4.Aggregate.Lifecycle.{IsInserted, notify-IsInserted}
use rudpns.L4.Datagram.{receive, receive6, receive_icmp, receive_icmp6, rx_ok}
use rudpns.L4.Datagram.Icmp.{receive_icmp-ports}
use rudpns.L4.Datagram.Fanout.{mapped_header, receive_branches, receive6_branches}
use rudpns.Socket.Receiving.{receive_up6}
use rudpns.Socket.Receiving.Fallback.{receive_up6-receive}
use rudpns.Tests.World.{
  iterator_laws, TestPacket, ns3, env, memory, memory-IsTyped, memory-IsPacked, start, ip_header,
  ip_header6,
}

-- A protocol object that was just made.
abbrev fresh : State ns3
fresh = record start { l4 = new_l4 ns3 }

fresh-IsInserted : IsInserted ns3 fresh
unfolding new_l4
fresh-IsInserted = record { ipv4 = refl; ipv6 = refl }

notify-IsInserted_example : Returns (λ _. IsInserted ns3) (notify_new_aggregate ns3 env true fresh)
notify-IsInserted_example = notify-IsInserted ns3 env true 50 fresh (λ t. refl) fresh-IsInserted

-- An object that no node holds.
abbrev nowhere : Env ns3
nowhere = record env { own_node = λ t. none }

receive_icmp-ports_example :
    (receive_icmp ns3 env 22 64 3 3 0 20 21 (1 ∷ 2 ∷ 0 ∷ 80 ∷ []) start
      ≡ ok (tt, record start { trace = forward_icmp 7 22 64 3 3 0 ∷ [] }))
    × (receive_icmp6 ns3 env 22 64 3 3 0 20 21 (1 ∷ 2 ∷ 0 ∷ 80 ∷ []) start ≡ ok (tt, start))
receive_icmp-ports_example =
    receive_icmp-ports ns3 env 22 20 21 22 20 21 64 3 3 0 1 2 0 80 [] start refl refl (omega arith)
      (omega arith) (omega arith) (omega arith)

-- A packet with a header in front of its bytes.
abbrev datagram : TestPacket
datagram = record { tags = []; bytes = serialize ns3.iterator memory 19 ++ 0 ∷ 0 ∷ 1 ∷ 2 ∷ 3 ∷ [] }

abbrev header : RudpHeader
header = restored (new_header memory) memory 19

datagram-read : deserialize ns3.iterator (new_header memory) datagram.bytes ≡ some header
datagram-read =
    deserialize-serialize ns3.iterator iterator_laws (new_header memory) memory 19
      (0 ∷ 0 ∷ 1 ∷ 2 ∷ 3 ∷ []) memory-IsTyped memory-IsPacked

abbrev body : TestPacket
body = ns3.remove_at_start serialized_size datagram

receive_branches_example :
    receive ns3 env datagram ip_header 3 start
    ≡ ok (
      rx_ok,
      record start {
        trace = forward_up 8 body ip_header 1 3 ∷ forward_up 7 body ip_header 1 3 ∷ [];
      },
    )
receive_branches_example =
    receive_branches ns3 env datagram header start datagram-read ip_header 3 refl

receive6_branches_example :
    receive6 ns3 env datagram ip_header6 none start
    ≡ ok (
      rx_ok,
      record start {
        trace = forward_up6 8 body ip_header6 1 none ∷ forward_up6 7 body ip_header6 1 none ∷ [];
      },
    )
receive6_branches_example =
    receive6_branches ns3 env datagram header start datagram-read ip_header6 none refl

-- A node with IPv6 where only an IPv6 end point takes what comes.
abbrev falling_back : Env ns3
falling_back = record env {
  lookup = λ t a port b port' i. [];
  lookup6 = λ t a port b port' i. 8 ∷ [];
  has_ipv6_l3 = λ t. true;
}

abbrev mapped : Ipv6Header ℕ
mapped = mapped_header ns3 falling_back ip_header

receive_up6-receive_example :
    (receive ns3 falling_back datagram ip_header 3 start
      ≡ ok (rx_ok, record start { trace = forward_up6 8 body mapped 1 none ∷ [] }))
    × (receive_up6 ns3 body mapped 1 none
          (record start { trace = forward_up6 8 body mapped 1 none ∷ [] })
        ≡ fault null_dereference)
receive_up6-receive_example =
    receive_up6-receive ns3 falling_back datagram header start datagram-read ip_header 3 8 refl refl
      refl refl refl refl refl refl refl
