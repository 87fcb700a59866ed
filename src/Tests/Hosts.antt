-- ===== src/Tests/Hosts.antt =====
-- Two sockets of one object: rudp-l4-protocol.cc and rudp-socket-impl.cc.
use rudpns.Prelude.{◌≡◌, refl, false, some, pos, [], ◌∷◌, arith}
use native.Mathlib.Decide.{ℕ_discrete}
use rudpns.Ns3.{Env, forward_up}
use rudpns.Ns3.Owner.{ipv4_end_point}
use rudpns.State.{ok, Returns, Socket}
use rudpns.L4.{new_l4, l4_allocate}
use rudpns.L4.Aggregate.{create_socket, new_socket}
use rudpns.Socket.Binding.{bind_ephemeral}
use rudpns.Socket.Reach.{step}
use rudpns.Socket.Receiving.Inbox.{arrives, tagged, run}
use rudpns.Socket.Receiving.Inbox.Arrival.{Arrival, ipv4_arrival, event_of, queued}
use rudpns.L4.Datagram.{receive}
use rudpns.Socket.Sending.{do_send_to}
use rudpns.Socket.Sending.Datagram.{sent}
use rudpns.Host.Reading.{drains-deliver}
use rudpns.Socket.Receiving.Inbox.Drain.{Drained, drains}
use rudpns.Host.Network.{deliver-do_send_to}
use rudpns.Host.{Host, view, on_object, create, call, deliver}
use rudpns.Host.Sharing.{GivesTo, Reaches-unshared, deliver-holder}
use rudpns.Tests.World.{
  ns3, l4, socket, untagged_options, packet, ip_header, tag_laws, buffer_laws, bound_start,
  bound_start-IsReady, TestPacket,
}
use rudpns.Tests.Sparing
use rudpns.Tests.Sparing.{same, sparing_by, sparing_by-IsFresh, after, reached}

abbrev sparing : Env ns3
sparing = sparing_by false

abbrev both_bound : Host ns3
both_bound = Sparing.both_bound false

abbrev arrival : Arrival ns3
arrival = ipv4_arrival packet ip_header 80 3

Reaches-unshared_example : ¬ ((both_bound.numbered 1).end_point ≡ some 9)
unfolding new_l4 create create_socket new_socket call step bind_ephemeral l4_allocate ℕ_discrete
Reaches-unshared_example =
    Reaches-unshared ns3 sparing same (sparing_by-IsFresh false) {h = both_bound} (λ n. socket) 0 1
      (ipv4_end_point 9) reached (omega arith) (omega arith) refl (omega arith)

deliver-holder_example :
    (k : Host ns3) × (deliver ns3 sparing same (ipv4_end_point 10) (event_of ns3 arrival) both_bound
      ≡ ok k)
    × GivesTo ns3 both_bound 1 0 arrival k
unfolding new_l4 create create_socket new_socket call step bind_ephemeral l4_allocate ℕ_discrete
deliver-holder_example =
    deliver-holder ns3 sparing same (sparing_by-IsFresh false) {h = both_bound} (λ n. socket)
      tag_laws 1 0 (ipv4_end_point 10) arrival reached (omega arith) refl (omega arith)

-- The two sockets got the two end points.
both_bound_test :
    ((both_bound.numbered 0).end_point ≡ some 9) × ((both_bound.numbered 1).end_point ≡ some 10)
unfolding new_l4 create create_socket new_socket call step bind_ephemeral l4_allocate ℕ_discrete
both_bound_test = (refl, refl)

deliver-do_send_to_example :
    (q body : TestPacket) × (j k : Host ns3) × (do_send_to ns3 sparing packet 20 80 bound_start
      ≡ ok (pos 3, sent ns3 sparing bound_start 4 q 7 20 3))
    × (on_object ns3 sparing both_bound (receive ns3 sparing q ip_header 3 (view ns3 both_bound 0))
        ≡ ok j)
    × (j.calls ≡ forward_up 10 body ip_header 5000 3 ∷ both_bound.calls)
    × (deliver ns3 sparing same (ipv4_end_point 10) (arrives body ip_header 5000 3) j ≡ ok k)
    × GivesTo ns3 both_bound 1 0 (ipv4_arrival body ip_header 5000 3) k
    × (ns3.buffer (tagged ns3 (both_bound.numbered 1) body ip_header 5000 3) ≡ packet.bytes)
unfolding new_l4 create create_socket new_socket call step bind_ephemeral l4_allocate ℕ_discrete
deliver-do_send_to_example =
    deliver-do_send_to ns3 buffer_laws tag_laws sparing sparing same (sparing_by-IsFresh false)
      {h = both_bound} (λ n. socket) packet 20 80 7 10 4 ip_header 3 1 0 bound_start
      bound_start-IsReady refl refl refl (omega arith) refl (omega arith) (omega arith) reached
      (λ q. refl) refl (omega arith) refl (omega arith)

-- An installed object with one socket, which creates another.
abbrev installed : Host ns3
installed = record { numbered = λ n. socket; object = l4; calls = [] }

abbrev untagged : Socket ns3
untagged = record socket { options = untagged_options }

abbrev grown : Host ns3
grown = after (create ns3 untagged installed) installed

drains-deliver_example :
    (k : Host ns3) × (deliver ns3 sparing same (ipv4_end_point 10) (event_of ns3 arrival) both_bound
      ≡ ok k)
    × Returns
        (Drained ns3 (queued ns3 (both_bound.numbered 1) arrival ∷ []))
        (run ns3 (drains ns3 100 (queued ns3 (both_bound.numbered 1) arrival ∷ [])) (view ns3 k 1))
unfolding new_l4 create create_socket new_socket call step bind_ephemeral l4_allocate ℕ_discrete
drains-deliver_example =
    drains-deliver ns3 sparing same (sparing_by-IsFresh false) {h = both_bound} (λ n. socket)
      tag_laws 1 (ipv4_end_point 10) arrival 100 reached (omega arith) refl refl (omega arith) tt
      (omega arith)
