-- ===== src/Tests/Routes.antt =====
-- Datagrams by a route, by IPv6, and an end point taken and given back: rudp-socket-impl.cc.
use rudpns.Prelude.{◌≡◌, refl, pos, some, arith}
use rudpns.Header.{RudpHeader, serialized_size}
use rudpns.Header.Wire.{deserialize}
use rudpns.Ns3.{Env}
use rudpns.State.{ok}
use rudpns.Socket.Sending.{do_send_to, do_send_to6}
use rudpns.Socket.Sending.Routed.{IsUnaddressed, routed, do_send_to-routed}
use rudpns.Socket.Sending.Routed6.{IsUnaddressed6, routed6, do_send_to6-routed}
use rudpns.Tests.World.{
  TestPacket, ns3, env, buffer_laws, tag_laws, bound_start, bound_start-IsReady, packet,
}

bound_start-IsUnaddressed : IsUnaddressed ns3 env bound_start 7 50
bound_start-IsUnaddressed = record {
  wired = bound_start-IsReady.wired;
  node_set = refl;
  has_ipv4 = refl;
  end_point_set = refl;
  local_any = refl;
  opened = refl;
}

do_send_to-routed_example :
    (q : TestPacket) × (do_send_to ns3 env packet 21 80 bound_start
      ≡ ok (pos 3, routed ns3 env bound_start 4 q 10 21 3))
    × (ns3.buffer (ns3.remove_at_start serialized_size q) ≡ packet.bytes)
    × ((g : RudpHeader)
        → (h : RudpHeader) × (deserialize ns3.iterator g (ns3.buffer q) ≡ some h)
          × (h.source_port ≡ 5000)
          × (h.destination_port ≡ 80))
do_send_to-routed_example =
    do_send_to-routed ns3 env buffer_laws tag_laws packet 21 80 7 50 10 4 bound_start
      bound_start-IsUnaddressed refl (omega arith) refl refl (omega arith) (omega arith)

-- Sockets on IPv6 are bound to no address there.
abbrev unaddressed : Env ns3
unaddressed = record env { local_address6 = λ t ep. 0 }

unaddressed-IsUnaddressed6 : IsUnaddressed6 ns3 unaddressed bound_start 8 50
unaddressed-IsUnaddressed6 = record {
  wired = bound_start-IsReady.wired;
  node_set = refl;
  has_ipv6 = refl;
  end_point_set = refl;
  local_any = refl;
  opened = refl;
}

do_send_to6-routed_example :
    (q : TestPacket) × (do_send_to6 ns3 unaddressed packet 31 80 bound_start
      ≡ ok (pos 3, routed6 ns3 unaddressed bound_start 6 q 10 31 3))
    × (ns3.buffer (ns3.remove_at_start serialized_size q) ≡ packet.bytes)
    × ((g : RudpHeader)
        → (h : RudpHeader) × (deserialize ns3.iterator g (ns3.buffer q) ≡ some h)
          × (h.source_port ≡ 5000)
          × (h.destination_port ≡ 80))
do_send_to6-routed_example =
    do_send_to6-routed ns3 unaddressed buffer_laws tag_laws packet 31 80 8 50 10 6 bound_start
      unaddressed-IsUnaddressed6 refl refl (omega arith) refl refl (omega arith) (omega arith)
