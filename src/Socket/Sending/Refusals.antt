-- ===== src/Socket/Sending/Refusals.antt =====
-- The error returns of the sending functions of rudp-socket-impl.cc, and what a connected socket sends.
use rudpns.Prelude.{
  if◌then◌else◌, ltb, ◌||◌, ℕ, ◌≡◌, refl, ap, ◌∙◌, minus_one, true, false, some, arith,
}
use rudpns.Ns3.{Ns3, Env, shutdown, msg_size}
use rudpns.Ns3.Laws.{AddressLaws}
use rudpns.State.{State, ok, fault, ◌>>◌}
use rudpns.Socket.{connect}
use rudpns.Socket.Names.{connected_to, connect-inet}
use rudpns.Socket.Binding.{ensure_bound}
use rudpns.Socket.Sending.{
  tx_available, send_bound, do_send_to, send_to_target, do_send_to_address, bind_default,
  send_default, do_send, send,
}

module _ (N : Ns3) (E : Env N) where
  -- With an end point at hand, `DoSendTo` for IPv4 refuses when sending is shut down or the packet is
  -- too large, with the error for the first if both hold; it does nothing else then.
  pub do_send_to_refusals :
      (p : N.Packet) (a : N.Ipv4Address) (port : ℕ) (ep : N.Ipv4EndPoint) (s : State N)
      → s.socket.end_point ≡ some ep
      → (s.socket.shutdown_send || ltb tx_available (N.get_size p)) ≡ true
      → let error = if s.socket.shutdown_send then shutdown else msg_size in
        do_send_to N E p a port s
        ≡ ok (minus_one, record s { socket = record s.socket { errno = error } })
  unfolding do_send_to ensure_bound send_bound
  do_send_to_refusals p a port ep s e h = ground arith

  send_connected :
      (laws : AddressLaws N) (p : N.Packet) (a : N.Ipv4Address) (s : State N)
      → s.socket.connected ≡ true
      → s.socket.default_address ≡ N.of_ipv4 a
      → s.socket.shutdown_send ≡ false
      → send N E p s ≡ do_send_to N E p a s.socket.default_port s
  unfolding send do_send bind_default send_default do_send_to_address send_to_target
  send_connected laws p a s c d o = ground (
    arith,
    laws.inet-of_ipv4 a,
    laws.inet6-of_ipv4 a,
    laws.as_ipv4-of_ipv4 a,
    ap N.inet d,
    ap N.inet6 d,
    ap N.as_ipv4 d,
  )

  -- After `Connect` to an IPv4 socket address, `Send` is `DoSendTo` to that address and port, as
  -- long as sending is not shut down.
  pub send-connect :
      (laws : AddressLaws N) (p : N.Packet) (address : N.Address) (a : N.Ipv4Address) (port : ℕ)
      (s : State N)
      → N.inet address ≡ some (a, port)
      → s.socket.shutdown_send ≡ false
      → (connect N address >> send N E p) s
        ≡ do_send_to N E p a port (connected_to N s (N.of_ipv4 a) port)
  send-connect laws p address a port s e o =
      ap (elim [ ok (_, s') ↦ send N E p s' | fault f ↦ fault f ])
        (connect-inet N address a port s e)
      ∙ send_connected laws p a (connected_to N s (N.of_ipv4 a) port) refl refl o
