-- ===== src/Tests/Hosts6.antt =====
-- A datagram of IPv6 for one of two sockets: rudp-l4-protocol.cc and rudp-socket-impl.cc.
use rudpns.Prelude.{◌∷◌, ◌≡◌, refl, false, pos, some, arith}
use native.Mathlib.Decide.{ℕ_discrete}
use rudpns.Ns3.{Env, forward_up6}
use rudpns.Ns3.Owner.{ipv6_end_point}
use rudpns.State.{ok}
use rudpns.L4.{new_l4, l4_allocate6}
use rudpns.L4.Aggregate.{create_socket, new_socket}
use rudpns.L4.Datagram.{receive6}
use rudpns.Socket.Binding.{bind_ephemeral6}
use rudpns.Socket.Reach.{step, binds_ephemeral6}
use rudpns.Socket.Receiving.Inbox.{arrives6, tagged6}
use rudpns.Socket.Receiving.Inbox.Arrival.{ipv6_arrival}
use rudpns.Socket.Sending.{do_send_to6}
use rudpns.Socket.Sending.Datagram6.{sent6}
use rudpns.Host.{
  Host, view, on_object, create, call, deliver, Reaches, starts, creates, calls_socket,
}
use rudpns.Host.Network6.{deliver-do_send_to6}
use rudpns.Host.Sharing.{GivesTo}
use rudpns.Tests.World.{
  ns3, socket, packet, ip_header6, tag_laws, buffer_laws, bound_start, bound_start-IsReady,
  TestPacket,
}
use rudpns.Tests.Sparing.{same, sparing_by, sparing_by-IsFresh, after, start, one, two}

abbrev sparing : Env ns3
sparing = sparing_by false

abbrev first_bound6 : Host ns3
first_bound6 = after (call ns3 sparing 0 binds_ephemeral6 two) two

abbrev both_bound6 : Host ns3
both_bound6 = after (call ns3 sparing 1 binds_ephemeral6 first_bound6) first_bound6

reached6 : Reaches ns3 sparing start both_bound6
unfolding new_l4 create create_socket new_socket call step bind_ephemeral6 l4_allocate6 ℕ_discrete
reached6 =
    calls_socket {h = first_bound6}
      (calls_socket {h = two}
        (creates {h = one} (creates {h = start} starts socket refl) socket refl) 0 binds_ephemeral6
        (omega arith) refl)
      1 binds_ephemeral6 (omega arith) refl

deliver-do_send_to6_example :
    (q body : TestPacket) × (j k : Host ns3) × (do_send_to6 ns3 sparing packet 31 80 bound_start
      ≡ ok (pos 3, sent6 ns3 sparing bound_start 6 q 8 31 3))
    × (on_object ns3 sparing both_bound6
          (receive6 ns3 sparing q ip_header6 (some 3) (view ns3 both_bound6 0))
        ≡ ok j)
    × (j.calls ≡ forward_up6 10 body ip_header6 5000 (some 3) ∷ both_bound6.calls)
    × (deliver ns3 sparing same (ipv6_end_point 10) (arrives6 body ip_header6 5000 3) j ≡ ok k)
    × GivesTo ns3 both_bound6 1 0 (ipv6_arrival body ip_header6 5000 3) k
    × (ns3.buffer (tagged6 ns3 (both_bound6.numbered 1) body ip_header6 5000 3) ≡ packet.bytes)
unfolding new_l4 create create_socket new_socket call step bind_ephemeral6 l4_allocate6 ℕ_discrete
deliver-do_send_to6_example =
    deliver-do_send_to6 ns3 buffer_laws tag_laws sparing sparing same (sparing_by-IsFresh false)
      {h = both_bound6} (λ n. socket) packet 31 80 8 10 6 ip_header6 3 1 0 bound_start
      bound_start-IsReady refl refl refl refl (omega arith) refl (omega arith) (omega arith)
      reached6 (λ q. refl) refl (omega arith) refl (omega arith)
