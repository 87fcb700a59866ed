-- ===== src/Socket/Closing/AfterClose.antt =====
-- What a closed socket of rudp-socket-impl.cc still does.
use rudpns.Prelude.{◌&&◌, false, ℤ, ℕ, ◌≡◌, minus_one, true, false, Option, some, arith}
use rudpns.Ns3.{Ns3, Env, shutdown, ephemeral, Ipv4Header, Ipv6Header}
use rudpns.State.{◌>>◌, State, ok, Returns}
use rudpns.Socket.Binding.{ensure_bound}
use rudpns.Socket.Closing.{close, shutdown_receiving}
use rudpns.Socket.Closing.Release.{close_twice, IsWired, closed}
use rudpns.Socket.Sending.{do_send_to}
use rudpns.Socket.Receiving.{receive_up, receive_up6}

module _ (N : Ns3) where
  -- After `ShutdownRecv` the socket takes in no packet: the callbacks of its end points, for IPv4
  -- and for IPv6, leave everything as it was.
  pub shutdown_receives_nothing :
      (s : State N) (p : N.Packet) (h : Ipv4Header N.Ipv4Address) (h6 : Ipv6Header N.Ipv6Address)
      (port : ℕ) (i : N.Ipv4Interface) (i6 : Option N.Ipv6Interface)
      → Returns
          (λ _ s'.
            (receive_up N p h port i s' ≡ ok (tt, s'))
            × (receive_up6 N p h6 port i6 s' ≡ ok (tt, s')))
          (shutdown_receiving N s)
  unfolding shutdown_receiving receive_up receive_up6
  shutdown_receives_nothing s p h h6 port i i6 = ground arith

module _ (N : Ns3) (E : Env N) where
  abbrev TookEndPoint : N.Ipv4EndPoint → ℤ → State N → Type 0
  TookEndPoint ep r s =
      (r ≡ minus_one)
      × (s.socket.errno ≡ shutdown)
      × (s.socket.end_point ≡ some ep)
      × (s.socket.shutdown_send ≡ true)

  do_send_to-closed :
      (p : N.Packet) (a : N.Ipv4Address) (port : ℕ) (ep : N.Ipv4EndPoint) (s : State N)
      → IsWired N s
      → E.allocated (closed N s).trace ephemeral ≡ some ep
      → Returns (TookEndPoint ep) (do_send_to N E p a port (closed N s))
  unfolding do_send_to ensure_bound
  do_send_to-closed p a port ep s w e = ground (arith, w.has_rudp, w.has_end_points)

  -- `DoSendTo` for IPv4 after `Close`, where a port is left: it takes a new end point before it
  -- refuses with ERROR_SHUTDOWN, and the socket, shut for sending, is left with that end point.
  pub send_rebinds_closed :
      (p : N.Packet) (a : N.Ipv4Address) (port : ℕ) (ep : N.Ipv4EndPoint) (s : State N)
      → IsWired N s
      → (s.socket.shutdown_recv && s.socket.shutdown_send) ≡ false
      → E.allocated (closed N s).trace ephemeral ≡ some ep
      → Returns
          (λ r s'.
            (r ≡ minus_one)
            × (s'.socket.errno ≡ shutdown)
            × (s'.socket.end_point ≡ some ep)
            × (s'.socket.shutdown_send ≡ true))
          ((close N >> do_send_to N E p a port) s)
  send_rebinds_closed p a port ep s w o e =
      rw ((close_twice N s w o).0, Returns) (do_send_to-closed p a port ep s w e)
