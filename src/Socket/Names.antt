-- ===== src/Socket/Names.antt =====
-- `Connect` and `GetPeerName` of rudp-socket-impl.cc.
use rudpns.Prelude.{ℕ, ◌≡◌, ◌∷◌, refl, ap, ◌∙◌, pos, some, none, arith, true}
use rudpns.Ns3.{Ns3, notify_connection_succeeded}
use rudpns.Ns3.Laws.{AddressLaws}
use rudpns.State.{State, ◌>>◌, ok, fault}
use rudpns.Socket.{connect, get_peer_name}

module _ (N : Ns3) where
  -- The state after a `Connect` that succeeds.
  abbrev pub connected_to : State N → N.Address → ℕ → State N
  connected_to s address port = record s {
    socket = record s.socket { default_address = address; default_port = port; connected = true };
    trace = notify_connection_succeeded ∷ s.trace;
  }

  pub connect-inet :
      (address : N.Address) (a : N.Ipv4Address) (port : ℕ) (s : State N)
      → N.inet address ≡ some (a, port)
      → connect N address s ≡ ok (pos 0, connected_to s (N.of_ipv4 a) port)
  unfolding connect
  connect-inet address a port s e = ground arith

  connect-inet6 :
      (address : N.Address) (a : N.Ipv6Address) (port : ℕ) (s : State N)
      → N.inet address ≡ none
      → N.inet6 address ≡ some (a, port)
      → connect N address s ≡ ok (pos 0, connected_to s (N.of_ipv6 a) port)
  unfolding connect
  connect-inet6 address a port s e e6 = ground arith

  get_peer_name-as_ipv4 :
      (a : N.Ipv4Address) (s : State N)
      → s.socket.connected ≡ true
      → N.as_ipv4 s.socket.default_address ≡ some a
      → get_peer_name N s ≡ ok ((pos 0, some (N.of_inet a s.socket.default_port)), s)
  unfolding get_peer_name
  get_peer_name-as_ipv4 a s c e = ground arith

  get_peer_name-as_ipv6 :
      (a : N.Ipv6Address) (s : State N)
      → s.socket.connected ≡ true
      → N.as_ipv4 s.socket.default_address ≡ none
      → N.as_ipv6 s.socket.default_address ≡ some a
      → get_peer_name N s ≡ ok ((pos 0, some (N.of_inet6 a s.socket.default_port)), s)
  unfolding get_peer_name
  get_peer_name-as_ipv6 a s c e e6 = ground arith

  -- After `Connect` to an address and a port, of IPv4 or of IPv6, the socket is connected with that
  -- address and port for its defaults, and `GetPeerName` returns 0 and writes the socket address of
  -- the two, and changes nothing.
  pub get_peer_name-connect :
      (laws : AddressLaws N) (a : N.Ipv4Address) (b : N.Ipv6Address) (port : ℕ) (s : State N)
      → ((connect N (N.of_inet a port) >> get_peer_name N) s
          ≡ ok ((pos 0, some (N.of_inet a port)), connected_to s (N.of_ipv4 a) port))
        × ((connect N (N.of_inet6 b port) >> get_peer_name N) s
            ≡ ok ((pos 0, some (N.of_inet6 b port)), connected_to s (N.of_ipv6 b) port))
  get_peer_name-connect laws a b port s = (
    ap (elim [ ok (_, s') ↦ get_peer_name N s' | fault f ↦ fault f ])
          (connect-inet (N.of_inet a port) a port s (laws.inet-of_inet a port))
        ∙ get_peer_name-as_ipv4 a (connected_to s (N.of_ipv4 a) port) refl (laws.as_ipv4-of_ipv4 a),
    ap (elim [ ok (_, s') ↦ get_peer_name N s' | fault f ↦ fault f ])
          (connect-inet6 (N.of_inet6 b port) b port s (laws.inet-of_inet6 b port)
            (laws.inet6-of_inet6 b port))
        ∙ get_peer_name-as_ipv6 b (connected_to s (N.of_ipv6 b) port) refl (laws.as_ipv4-of_ipv6 b)
            (laws.as_ipv6-of_ipv6 b),
  )
