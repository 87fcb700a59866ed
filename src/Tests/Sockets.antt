-- ===== src/Tests/Sockets.antt =====
-- Binding, connecting and closing at concrete states: rudp-socket-impl.cc.
use rudpns.Prelude.{◌≡◌, refl, true, some, [], ◌∷◌, pos, minus_one}
use rudpns.Ns3.{
  port_only, address_port, set_destroy_callback6, set_icmp_callback6, set_rx_callback6, allocate6,
  badf, shutdown,
}
use rudpns.State.{State, ok, fault, assertion, Returns, ◌>>◌}
use rudpns.Socket.Binding.{request, bind, bind_to_net_device}
use rudpns.Socket.Binding.Device.{IsOnDevice, bind_to_net_device-IsOnDevice}
use rudpns.Socket.Binding.Outcome.{bound, bind-inet, bind6_replaces, send_exhausted_asserts}
use rudpns.Socket.Closing.{close}
use rudpns.Socket.Closing.Release.{IsWired, closed, close_twice}
use rudpns.Socket.Closing.AfterClose.{send_rebinds_closed}
use rudpns.Socket.Sending.{do_send_to}
use rudpns.Tests.World.{
  env-Serves, start-IsReady, ns3, env, exhausted, inet_address, inet6_address, socket, start,
  bound_start, packet,
}

start-IsWired : IsWired ns3 start
start-IsWired = record { has_rudp = refl; has_end_points = refl; has_end_points6 = refl }

bound_start-IsWired : IsWired ns3 bound_start
bound_start-IsWired = record { has_rudp = refl; has_end_points = refl; has_end_points6 = refl }

bind-inet_example :
    bind ns3 env (inet_address 0 80) start ≡ bound ns3 env start (port_only 80) 80 (some 9)
bind-inet_example = bind-inet ns3 env (inet_address 0 80) 0 80 start start-IsWired refl refl refl

-- The socket with an IPv6 end point alone.
abbrev only6 : State ns3
only6 = record start { socket = record socket { end_point6 = some 8 } }

only6-IsWired : IsWired ns3 only6
only6-IsWired = record { has_rudp = refl; has_end_points = refl; has_end_points6 = refl }

bind6_replaces_example :
    bind ns3 env (inet6_address 30 80) only6
    ≡ ok (
      pos 0,
      record only6 {
        socket = record only6.socket { end_point6 = some 9 };
        trace =
            set_destroy_callback6 9 (some 0)
            ∷ set_icmp_callback6 9 0
            ∷ set_rx_callback6 9 0
            ∷ allocate6 (address_port 30 80)
            ∷ [];
      },
    )
unfolding request
bind6_replaces_example =
    bind6_replaces ns3 env (inet6_address 30 80) 30 80 8 9 only6 only6-IsWired refl refl refl refl
      refl

bind_to_net_device-IsOnDevice_example :
    Returns
      (λ _. IsOnDevice ns3 env env-Serves (some 77))
      (bind_to_net_device ns3 env (some 77) start)
bind_to_net_device-IsOnDevice_example =
    bind_to_net_device-IsOnDevice ns3 env env-Serves (some 77) start start-IsReady refl

send_exhausted_asserts_example : do_send_to ns3 exhausted packet 20 80 only6 ≡ fault assertion
send_exhausted_asserts_example =
    send_exhausted_asserts ns3 exhausted packet 20 80 8 only6 only6-IsWired refl refl refl

close_twice_example :
    (close ns3 bound_start ≡ ok (pos 0, closed ns3 bound_start))
    × (close ns3 (closed ns3 bound_start)
        ≡ ok (
          minus_one,
          record (closed ns3 bound_start) {
            socket = record (closed ns3 bound_start).socket { errno = badf };
          },
        ))
close_twice_example = close_twice ns3 bound_start bound_start-IsWired refl

send_rebinds_closed_example :
    Returns
      (λ r s'.
        (r ≡ minus_one)
        × (s'.socket.errno ≡ shutdown)
        × (s'.socket.end_point ≡ some 9)
        × (s'.socket.shutdown_send ≡ true))
      ((close ns3 >> do_send_to ns3 env packet 20 80) bound_start)
send_rebinds_closed_example =
    send_rebinds_closed ns3 env packet 20 80 9 bound_start bound_start-IsWired refl refl
