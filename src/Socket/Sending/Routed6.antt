-- ===== src/Socket/Sending/Routed6.antt =====
-- The datagram that `DoSendTo` for IPv6 of rudp-socket-impl.cc sends by a route, from a socket that is
-- bound to no address.
use rudpns.Prelude.{ℕ, ◌≡◌, ◌≤◌, ◌<◌, ◌^◌, ◌∙◌, ap, pos, some, none, true, false, ◌∷◌, arith}
use rudpns.Header.{RudpHeader, serialized_size}
use rudpns.Header.Wire.{deserialize}
use rudpns.Ns3.{Ns3, Env, Routing, route, down6, notify_data_sent}
use rudpns.Ns3.Laws.{TagLaws, BufferLaws}
use rudpns.State.{State, ok}
use rudpns.L4.{prot_number}
use rudpns.L4.Datagram.{l4_send6}
use rudpns.L4.Datagram.EndToEnd.{read-l4_send6}
use rudpns.Socket.Closing.Release.{IsWired}
use rudpns.Socket.Sending.{tx_available, hand_down6, do_send_to6}
use rudpns.Socket.Sending.Datagram6.{tagged6, buffer-tagged6, size-tagged6, do_send_to6-hand_down6}

module _ (N : Ns3) (E : Env N) where
  -- The socket is open for sending and bound to a port of a node with IPv6, but to no address.
  pub record IsUnaddressed6 (s : State N) (ep : N.Ipv6EndPoint) (node : N.Node) : Type 0 where
    pub wired : IsWired N s
    pub node_set : s.socket.node ≡ some node
    pub has_ipv6 : E.node_ipv6 s.trace node ≡ true
    pub end_point_set : s.socket.end_point6 ≡ some ep
    pub local_any : N.is_any6 (E.local_address6 s.trace ep) ≡ true
    pub opened : s.socket.shutdown_send ≡ false

  -- What routing answers for a packet to an address.
  abbrev pub answer6 : State N → N.Packet → N.Ipv6Address → Routing N.Ipv6Route
  answer6 s p a =
      E.route_output6 s.trace (tagged6 N s.socket a p) a N.udp_prot_number s.socket.bound_net_device

  -- The state after a packet went down by a route.
  abbrev pub routed6 :
      State N → N.DownTarget6 → N.Packet → N.Ipv6Route → N.Ipv6Address → ℕ → State N
  routed6 s target q r a size = record s {
    trace =
        notify_data_sent size ∷ down6 target q (N.route_source6 r) a prot_number (some r) ∷ s.trace;
  }

  hand_down6-routed :
      (p q : N.Packet) (a : N.Ipv6Address) (port : ℕ) (ep : N.Ipv6EndPoint) (node : N.Node)
      (r : N.Ipv6Route) (target : N.DownTarget6) (s : State N)
      → IsUnaddressed6 s ep node
      → E.has_routing6 s.trace node ≡ true
      → E.route_output6 s.trace p a N.udp_prot_number s.socket.bound_net_device ≡ route r
      → l4_send6 N E p (N.route_source6 r) a (E.local_port6 s.trace ep) port (some r) s
        ≡ ok (
          tt,
          record s { trace = down6 target q (N.route_source6 r) a prot_number (some r) ∷ s.trace },
        )
      → hand_down6 N E p a port s ≡ ok (pos (N.get_size p), routed6 s target q r a (N.get_size p))
  unfolding hand_down6
  hand_down6-routed p q a port ep node r target s v has found sends =
      ground (arith, v.wired.has_rudp, v.node_set, v.has_ipv6, v.end_point_set, v.local_any)

  -- `DoSendTo` for IPv6, to an address that is not a mapped one, of a socket that is open for sending and bound to a port of a node with IPv6, but
  -- to no address, for a packet that fits and for which routing finds a route: it returns the
  -- packet's size, and one packet went down with the route, from the route's source address under
  -- protocol 254. Whoever reads its header gets the socket's port and the port asked for, and the
  -- bytes behind it are those of the packet sent.
  pub do_send_to6-routed :
      (buffers : BufferLaws N) (tags : TagLaws N) (p : N.Packet) (a : N.Ipv6Address) (port : ℕ)
      (ep : N.Ipv6EndPoint) (node : N.Node) (r : N.Ipv6Route) (target : N.DownTarget6) (s : State N)
      → IsUnaddressed6 s ep node
      → N.ipv4_mapped a ≡ none
      → s.l4.down_target6 ≡ some target
      → N.get_size p ≤ tx_available
      → E.has_routing6 s.trace node ≡ true
      → answer6 s p a ≡ route r
      → E.local_port6 s.trace ep < 2 ^ 16
      → port < 2 ^ 16
      → (q : N.Packet) × (do_send_to6 N E p a port s
          ≡ ok (pos (N.get_size p), routed6 s target q r a (N.get_size p)))
        × (N.buffer (N.remove_at_start serialized_size q) ≡ N.buffer p)
        × ((g : RudpHeader)
            → (h : RudpHeader) × (deserialize N.iterator g (N.buffer q) ≡ some h)
              × (h.source_port ≡ E.local_port6 s.trace ep)
              × (h.destination_port ≡ port))
  do_send_to6-routed buffers tags p a port ep node r target s v m d fits has found lo hi =
      let tp = tagged6 N s.socket a p in
      let (q, sends, bytes, reads) =
        read-l4_send6 N E buffers tp (N.route_source6 r) a (E.local_port6 s.trace ep) port (some r)
          target s d lo hi in
      (
        q,
        do_send_to6-hand_down6 N E p a port ep s m v.end_point_set v.opened fits
            ∙ hand_down6-routed tp q a port ep node r target s v has found sends
            ∙ ap (λ n. ok (pos n, routed6 s target q r a n)) (size-tagged6 N E tags s.socket a p),
        bytes ∙ buffer-tagged6 N buffers s.socket a p,
        reads,
      )
