-- ===== src/Socket/Sending/Routed.antt =====
-- The datagram that `DoSendTo` of rudp-socket-impl.cc sends by a route, from a socket that is bound to
-- no address.
use rudpns.Prelude.{
  ℕ, ◌≡◌, ◌≤◌, ◌<◌, ◌^◌, ◌∙◌, ap, pos, minus_one, some, true, false, ◌∷◌, if◌then◌else◌, arith,
}
use rudpns.Header.{RudpHeader, serialized_size}
use rudpns.Header.Wire.{deserialize}
use rudpns.Ns3.{
  Ns3, Env, Routing, route, no_route, SocketErrno, no_route_to_host, down, notify_data_sent,
}
use rudpns.Ns3.Laws.{TagLaws, BufferLaws}
use rudpns.State.{State, ok}
use rudpns.L4.{prot_number}
use rudpns.L4.Datagram.{l4_send}
use rudpns.L4.Datagram.EndToEnd.{read-l4_send}
use rudpns.Socket.Closing.Release.{IsWired}
use rudpns.Socket.Sending.{tx_available, hand_down, do_send_to}
use rudpns.Socket.Sending.Datagram.{tagged, buffer-tagged, size-tagged, do_send_to-hand_down}

module _ (N : Ns3) (E : Env N) where
  -- The socket is open for sending and bound to a port of a node with IPv4, but to no address.
  pub record IsUnaddressed (s : State N) (ep : N.Ipv4EndPoint) (node : N.Node) : Type 0 where
    pub wired : IsWired N s
    pub node_set : s.socket.node ≡ some node
    pub has_ipv4 : E.node_ipv4 s.trace node ≡ true
    pub end_point_set : s.socket.end_point ≡ some ep
    pub local_any : N.is_any (E.local_address s.trace ep) ≡ true
    pub opened : s.socket.shutdown_send ≡ false

  -- What routing answers for a packet to an address.
  abbrev pub answer : State N → N.Packet → N.Ipv4Address → Routing N.Ipv4Route
  answer s p a =
      E.route_output s.trace (tagged N s.socket a p) a N.udp_prot_number s.socket.bound_net_device

  -- The state after a packet went down by a route.
  abbrev pub routed : State N → N.DownTarget → N.Packet → N.Ipv4Route → N.Ipv4Address → ℕ → State N
  routed s target q r a size = record s {
    trace =
        notify_data_sent size ∷ down target q (N.route_source r) a prot_number (some r) ∷ s.trace;
  }

  hand_down-routed :
      (p q : N.Packet) (a : N.Ipv4Address) (port : ℕ) (ep : N.Ipv4EndPoint) (node : N.Node)
      (r : N.Ipv4Route) (target : N.DownTarget) (s : State N)
      → IsUnaddressed s ep node
      → E.has_routing s.trace node ≡ true
      → E.route_output s.trace p a N.udp_prot_number s.socket.bound_net_device ≡ route r
      → l4_send N E p (N.route_source r) a (E.local_port s.trace ep) port (some r) s
        ≡ ok (
          tt,
          record s { trace = down target q (N.route_source r) a prot_number (some r) ∷ s.trace },
        )
      → hand_down N E p a port s ≡ ok (pos (N.get_size p), routed s target q r a (N.get_size p))
  unfolding hand_down
  hand_down-routed p q a port ep node r target s v has found sends =
      ground (arith, v.wired.has_rudp, v.node_set, v.has_ipv4, v.end_point_set, v.local_any)

  -- `DoSendTo` of a socket that is open for sending and bound to a port of a node with IPv4, but
  -- to no address, for a packet that fits and for which routing finds a route: it returns the
  -- packet's size, and one packet went down with the route, from the route's source address under
  -- protocol 254. Whoever reads its header gets the socket's port and the port asked for, and the
  -- bytes behind it are those of the packet sent.
  pub do_send_to-routed :
      (buffers : BufferLaws N) (tags : TagLaws N) (p : N.Packet) (a : N.Ipv4Address) (port : ℕ)
      (ep : N.Ipv4EndPoint) (node : N.Node) (r : N.Ipv4Route) (target : N.DownTarget) (s : State N)
      → IsUnaddressed s ep node
      → s.l4.down_target ≡ some target
      → N.get_size p ≤ tx_available
      → E.has_routing s.trace node ≡ true
      → answer s p a ≡ route r
      → E.local_port s.trace ep < 2 ^ 16
      → port < 2 ^ 16
      → (q : N.Packet) × (do_send_to N E p a port s
          ≡ ok (pos (N.get_size p), routed s target q r a (N.get_size p)))
        × (N.buffer (N.remove_at_start serialized_size q) ≡ N.buffer p)
        × ((g : RudpHeader)
            → (h : RudpHeader) × (deserialize N.iterator g (N.buffer q) ≡ some h)
              × (h.source_port ≡ E.local_port s.trace ep)
              × (h.destination_port ≡ port))
  do_send_to-routed buffers tags p a port ep node r target s v d fits has found lo hi =
      let tp = tagged N s.socket a p in
      let (q, sends, bytes, reads) =
        read-l4_send N E buffers tp (N.route_source r) a (E.local_port s.trace ep) port (some r)
          target s d lo hi in
      (
        q,
        do_send_to-hand_down N E p a port ep s v.end_point_set v.opened fits
            ∙ hand_down-routed tp q a port ep node r target s v has found sends
            ∙ ap (λ n. ok (pos n, routed s target q r a n)) (size-tagged N E tags s.socket a p),
        bytes ∙ buffer-tagged N buffers s.socket a p,
        reads,
      )

  -- `DoSendTo` of a socket that is open for sending and bound to a port of a node with IPv4, but
  -- to no address, for a packet that fits, with no routing protocol, or with one that finds no
  -- route, returns -1 with the error for that, which is the one that routing gave in the second
  -- case, and does nothing else.
  pub do_send_to-unrouted :
      (p : N.Packet) (a : N.Ipv4Address) (port : ℕ) (ep : N.Ipv4EndPoint) (node : N.Node)
      (e : SocketErrno) (s : State N)
      → IsUnaddressed s ep node
      → N.get_size p ≤ tx_available
      → answer s p a ≡ no_route e
      → do_send_to N E p a port s
        ≡ ok (
          minus_one,
          record s {
            socket = record s.socket {
              errno = if E.has_routing s.trace node then e else no_route_to_host;
            };
          },
        )
  unfolding hand_down
  do_send_to-unrouted p a port ep node e s v fits found =
      let tp = tagged N s.socket a p in
      do_send_to-hand_down N E p a port ep s v.end_point_set v.opened fits
      ∙ ground (arith, v.wired.has_rudp, v.node_set, v.has_ipv4, v.end_point_set, v.local_any)
