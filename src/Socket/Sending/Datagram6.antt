-- ===== src/Socket/Sending/Datagram6.antt =====
-- The datagram that `DoSendTo` for IPv6 of rudp-socket-impl.cc gives to the layer below, read from
-- its bytes.
use rudpns.Prelude.{
  ℕ, ◌≡◌, ◌≤◌, ◌<◌, ◌^◌, ◌∙◌, ap, pos, some, none, Option-cases, inl, inr, false, ◌∷◌, arith,
}
use rudpns.Header.{RudpHeader, serialized_size}
use rudpns.Header.Wire.{deserialize}
use rudpns.Ns3.{Ns3, Env, down6, notify_send, notify_data_sent}
use rudpns.Ns3.Laws.{TagLaws, BufferLaws}
use rudpns.State.{Socket, State, ok}
use rudpns.L4.{prot_number}
use rudpns.L4.Datagram.{l4_send6}
use rudpns.L4.Datagram.EndToEnd.{read-l4_send6}
use rudpns.Socket.Binding.{ensure_bound6}
use rudpns.Socket.Binding.Ready.{IsReady}
use rudpns.Socket.Sending.{
  tx_available, tag_tclass, tag_hop_limit, hand_down6, send_bound6, do_send_to6,
}
use rudpns.Socket.Sending.Outcome.{size-tag_tclass, size-tag_hop_limit}

module _ (N : Ns3) where
  abbrev pub tagged6 : Socket N → N.Ipv6Address → N.Packet → N.Packet
  tagged6 s a p = tag_hop_limit N s a (tag_tclass N s p)

  pub buffer-tagged6 :
      (laws : BufferLaws N) (s : Socket N) (a : N.Ipv6Address) (p : N.Packet)
      → N.buffer (tagged6 s a p) ≡ N.buffer p
  unfolding tag_tclass tag_hop_limit
  buffer-tagged6 laws s a p = grind (arith, laws.buffer-tag)

module _ (N : Ns3) (E : Env N) where
  pub size-tagged6 :
      (laws : TagLaws N) (s : Socket N) (a : N.Ipv6Address) (p : N.Packet)
      → N.get_size (tagged6 N s a p) ≡ N.get_size p
  size-tagged6 laws s a p =
      size-tag_hop_limit N E laws s a (tag_tclass N s p) ∙ size-tag_tclass N E laws s p

  -- The state after a packet went down from a local address.
  abbrev pub sent6 :
      State N → N.DownTarget6 → N.Packet → N.Ipv6EndPoint → N.Ipv6Address → ℕ → State N
  sent6 s target q ep a size = record s {
    trace =
        notify_send tx_available
        ∷ notify_data_sent size
        ∷ down6 target q (E.local_address6 s.trace ep) a prot_number none
        ∷ s.trace;
  }

  hand_down6-sent6 :
      (p q : N.Packet) (a : N.Ipv6Address) (port : ℕ) (ep : N.Ipv6EndPoint) (target : N.DownTarget6)
      (s : State N)
      → IsReady N s
      → s.socket.end_point6 ≡ some ep
      → N.is_any6 (E.local_address6 s.trace ep) ≡ false
      → l4_send6 N E p (E.local_address6 s.trace ep) a (E.local_port6 s.trace ep) port none s
        ≡ ok (
          tt,
          record s {
            trace = down6 target q (E.local_address6 s.trace ep) a prot_number none ∷ s.trace;
          },
        )
      → hand_down6 N E p a port s ≡ ok (pos (N.get_size p), sent6 s target q ep a (N.get_size p))
  unfolding hand_down6
  hand_down6-sent6 p q a port ep target s v e local sends = elim (Option-cases s.socket.node) [
    | inl h ↦ absurd (ground (arith, v.has_node))
    | inr (node, h) ↦ ground (arith, v.wired.has_rudp)
  ]

  pub do_send_to6-hand_down6 :
      (p : N.Packet) (a : N.Ipv6Address) (port : ℕ) (ep : N.Ipv6EndPoint) (s : State N)
      → N.ipv4_mapped a ≡ none
      → s.socket.end_point6 ≡ some ep
      → s.socket.shutdown_send ≡ false
      → N.get_size p ≤ tx_available
      → do_send_to6 N E p a port s ≡ hand_down6 N E (tagged6 N s.socket a p) a port s
  unfolding do_send_to6 ensure_bound6 send_bound6
  do_send_to6-hand_down6 p a port ep s m e opened fits = ground arith

  -- `DoSendTo` for IPv6, to an address that is not a mapped one, of a socket that is ready, open for
  -- sending and bound to a local IPv6 address returns the packet's size for a packet that fits. One
  -- packet went down to the IPv6 target, from that address under protocol 254, and the application was
  -- told of the size sent and of the room there is. Whoever reads its header gets the socket's port
  -- and the port asked for, and the bytes behind it are those of the packet sent.
  pub do_send_to6-sent6 :
      (buffers : BufferLaws N) (tags : TagLaws N) (p : N.Packet) (a : N.Ipv6Address) (port : ℕ)
      (ep : N.Ipv6EndPoint) (target : N.DownTarget6) (s : State N)
      → IsReady N s
      → N.ipv4_mapped a ≡ none
      → s.l4.down_target6 ≡ some target
      → s.socket.end_point6 ≡ some ep
      → s.socket.shutdown_send ≡ false
      → N.get_size p ≤ tx_available
      → N.is_any6 (E.local_address6 s.trace ep) ≡ false
      → E.local_port6 s.trace ep < 2 ^ 16
      → port < 2 ^ 16
      → (q : N.Packet) × (do_send_to6 N E p a port s
          ≡ ok (pos (N.get_size p), sent6 s target q ep a (N.get_size p)))
        × (N.buffer (N.remove_at_start serialized_size q) ≡ N.buffer p)
        × ((g : RudpHeader)
            → (r : RudpHeader) × (deserialize N.iterator g (N.buffer q) ≡ some r)
              × (r.source_port ≡ E.local_port6 s.trace ep)
              × (r.destination_port ≡ port))
  do_send_to6-sent6 buffers tags p a port ep target s v m d e opened fits local lo hi =
      let tp = tagged6 N s.socket a p in
      let from = E.local_address6 s.trace ep in
      let (q, sends, bytes, reads) =
        read-l4_send6 N E buffers tp from a (E.local_port6 s.trace ep) port none target s d lo hi in
      (
        q,
        do_send_to6-hand_down6 p a port ep s m e opened fits
            ∙ hand_down6-sent6 tp q a port ep target s v e local sends
            ∙ ap (λ n. ok (pos n, sent6 s target q ep a n)) (size-tagged6 tags s.socket a p),
        bytes ∙ buffer-tagged6 N buffers s.socket a p,
        reads,
      )
