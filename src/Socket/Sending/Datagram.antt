-- ===== src/Socket/Sending/Datagram.antt =====
-- The datagram that `DoSendTo` of rudp-socket-impl.cc gives to the layer below, read from its bytes.
use rudpns.Prelude.{
  ℕ, ◌≡◌, ◌≤◌, ◌<◌, ◌^◌, ◌∙◌, ap, pos, some, none, Option-cases, inl, inr, false, ◌∷◌, arith,
}
use rudpns.Header.{RudpHeader, serialized_size}
use rudpns.Header.Wire.{deserialize}
use rudpns.Ns3.{Ns3, Env, down, notify_send, notify_data_sent}
use rudpns.Ns3.Laws.{TagLaws, BufferLaws}
use rudpns.State.{Socket, State, ok}
use rudpns.L4.{prot_number}
use rudpns.L4.Datagram.{l4_send}
use rudpns.L4.Datagram.EndToEnd.{read-l4_send}
use rudpns.Socket.Binding.{ensure_bound}
use rudpns.Socket.Binding.Ready.{IsReady}
use rudpns.Socket.Sending.{
  tx_available, tag_tos, tag_ttl, tag_dont_fragment, hand_down, send_bound, do_send_to,
}
use rudpns.Socket.Sending.Outcome.{size-tag_tos, size-tag_ttl, size-tag_dont_fragment}

module _ (N : Ns3) where
  abbrev pub tagged : Socket N → N.Ipv4Address → N.Packet → N.Packet
  tagged s a p = tag_dont_fragment N s (tag_ttl N s a (tag_tos N s p))

  pub buffer-tagged :
      (laws : BufferLaws N) (s : Socket N) (a : N.Ipv4Address) (p : N.Packet)
      → N.buffer (tagged s a p) ≡ N.buffer p
  unfolding tag_tos tag_ttl tag_dont_fragment
  buffer-tagged laws s a p = grind (arith, laws.buffer-tag, laws.buffer-remove_dont_fragment)

module _ (N : Ns3) (E : Env N) where
  pub size-tagged :
      (laws : TagLaws N) (s : Socket N) (a : N.Ipv4Address) (p : N.Packet)
      → N.get_size (tagged N s a p) ≡ N.get_size p
  size-tagged laws s a p =
      size-tag_dont_fragment N E laws s (tag_ttl N s a (tag_tos N s p))
      ∙ size-tag_ttl N E laws s a (tag_tos N s p)
      ∙ size-tag_tos N E laws s p

  -- The state after a packet went down from a local address.
  abbrev pub sent : State N → N.DownTarget → N.Packet → N.Ipv4EndPoint → N.Ipv4Address → ℕ → State N
  sent s target q ep a size = record s {
    trace =
        notify_send tx_available
        ∷ notify_data_sent size
        ∷ down target q (E.local_address s.trace ep) a prot_number none
        ∷ s.trace;
  }

  hand_down-sent :
      (p q : N.Packet) (a : N.Ipv4Address) (port : ℕ) (ep : N.Ipv4EndPoint) (target : N.DownTarget)
      (s : State N)
      → IsReady N s
      → s.socket.end_point ≡ some ep
      → N.is_any (E.local_address s.trace ep) ≡ false
      → l4_send N E p (E.local_address s.trace ep) a (E.local_port s.trace ep) port none s
        ≡ ok (
          tt,
          record s {
            trace = down target q (E.local_address s.trace ep) a prot_number none ∷ s.trace;
          },
        )
      → hand_down N E p a port s ≡ ok (pos (N.get_size p), sent s target q ep a (N.get_size p))
  unfolding hand_down
  hand_down-sent p q a port ep target s v e local sends = elim (Option-cases s.socket.node) [
    | inl h ↦ absurd (ground (arith, v.has_node))
    | inr (node, h) ↦ ground (arith, v.wired.has_rudp)
  ]

  pub do_send_to-hand_down :
      (p : N.Packet) (a : N.Ipv4Address) (port : ℕ) (ep : N.Ipv4EndPoint) (s : State N)
      → s.socket.end_point ≡ some ep
      → s.socket.shutdown_send ≡ false
      → N.get_size p ≤ tx_available
      → do_send_to N E p a port s ≡ hand_down N E (tagged N s.socket a p) a port s
  unfolding do_send_to ensure_bound send_bound
  do_send_to-hand_down p a port ep s e opened fits = ground arith

  -- `DoSendTo` of a socket that is ready, open for sending and bound to a local IPv4 address returns
  -- the packet's size for a packet that fits. One packet went down, from that address under protocol
  -- 254, and the application was told of the size sent and of the room there is. The header of the
  -- packet that went down reads as the socket's port and the port asked for, whoever reads it, and
  -- the bytes behind it are those of the packet sent.
  pub do_send_to-sent :
      (buffers : BufferLaws N) (tags : TagLaws N) (p : N.Packet) (a : N.Ipv4Address) (port : ℕ)
      (ep : N.Ipv4EndPoint) (target : N.DownTarget) (s : State N)
      → IsReady N s
      → s.l4.down_target ≡ some target
      → s.socket.end_point ≡ some ep
      → s.socket.shutdown_send ≡ false
      → N.get_size p ≤ tx_available
      → N.is_any (E.local_address s.trace ep) ≡ false
      → E.local_port s.trace ep < 2 ^ 16
      → port < 2 ^ 16
      → (q : N.Packet) × (do_send_to N E p a port s
          ≡ ok (pos (N.get_size p), sent s target q ep a (N.get_size p)))
        × (N.buffer (N.remove_at_start serialized_size q) ≡ N.buffer p)
        × ((g : RudpHeader)
            → (r : RudpHeader) × (deserialize N.iterator g (N.buffer q) ≡ some r)
              × (r.source_port ≡ E.local_port s.trace ep)
              × (r.destination_port ≡ port))
  do_send_to-sent buffers tags p a port ep target s v d e opened fits local lo hi =
      let tp = tagged N s.socket a p in
      let from = E.local_address s.trace ep in
      let (q, sends, bytes, reads) =
        read-l4_send N E buffers tp from a (E.local_port s.trace ep) port none target s d lo hi in
      (
        q,
        do_send_to-hand_down p a port ep s e opened fits
            ∙ hand_down-sent tp q a port ep target s v e local sends
            ∙ ap (λ n. ok (pos n, sent s target q ep a n)) (size-tagged tags s.socket a p),
        bytes ∙ buffer-tagged N buffers s.socket a p,
        reads,
      )
