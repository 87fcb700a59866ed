-- ===== src/Host/Network6.antt =====
-- From `DoSendTo` for IPv6 of a socket at one node to the queue of a socket at another, among all the
-- sockets there: rudp-socket-impl.cc and rudp-l4-protocol.cc.
use rudpns.Prelude.{
  refl, ℕ, ◌<◌, ◌≤◌, ◌^◌, ◌≡◌, ◌≢◌, ap, ◌∙◌, true, false, pos, some, none, if◌then◌else◌, [], ◌∷◌,
  arith,
}
use rudpns.Header.{RudpHeader, new_header, serialized_size}
use rudpns.Header.Wire.{deserialize}
use rudpns.Ns3.{Ns3, Env, Ipv6Header, forward_up6, packet_info6, socket_address}
use rudpns.Ns3.Laws.{TagLaws, BufferLaws}
use rudpns.Ns3.Owner.{is_at, Same, EndPoint, ipv6_end_point}
use rudpns.State.{State, Socket, ok}
use rudpns.L4.{prot_number}
use rudpns.L4.Datagram.{receive6, rx_ok}
use rudpns.L4.Datagram.Fanout.{receive6_one}
use rudpns.Socket.Binding.Owner.{IsFresh}
use rudpns.Socket.Binding.Ready.{IsReady}
use rudpns.Socket.Sending.{do_send_to6, tx_available}
use rudpns.Socket.Sending.Datagram6.{sent6, do_send_to6-sent6}
use rudpns.Socket.Receiving.{tag_received6}
use rudpns.Socket.Receiving.Tags.{buffer-tag_received6}
use rudpns.Socket.Receiving.Inbox.{arrives6, tagged6}
use rudpns.Socket.Receiving.Inbox.Arrival.{ipv6_arrival}
use rudpns.Host.{Host, new_host, view, on_object, deliver, Reaches, receives6}
use rudpns.Host.Sharing.{GivesTo, new-AllOwn, deliver-holder}

module _ (N : Ns3) (buffers : BufferLaws N) (tags : TagLaws N) where
  buffer-tagged6 :
      (s : Socket N) (body p : N.Packet) (header : Ipv6Header N.Ipv6Address) (port : ℕ)
      (i : N.Ipv6Interface)
      → N.buffer body ≡ N.buffer p
      → N.buffer (tagged6 N s body header port i) ≡ N.buffer p
  buffer-tagged6 s body p header port i e =
      let info = N.set_recv_if6 (N.remove_packet_info6 body).0 (N.if_index6 i) in
      let q = (N.remove_packet_info6 body).1 in
      let with_info =
        if s.options.is_recv_pkt_info then N.add_packet_tag (packet_info6 info) q else body in
      buffers.buffer-tag (socket_address (N.of_inet6 header.source port))
        (tag_received6 N s with_info header)
      ∙ buffer-tag_received6 N buffers s with_info header
      ∙ ground (
        arith,
        e,
        buffers.buffer-tag (packet_info6 info) q,
        buffers.buffer-remove_packet_info6 body,
      )

  module _ (E F : Env N) (same : Same N)
      (fresh : (ep : EndPoint N) → IsFresh N F (is_at N same ep)) where
    -- A packet that one node hands down, received and delivered at another.
    received :
        {h : Host N} (memory : ℕ → Socket N) (q p : N.Packet) (sport port : ℕ)
        (header : Ipv6Header N.Ipv6Address) (i : N.Ipv6Interface) (n m : ℕ) (ep : N.Ipv6EndPoint)
        → N.buffer (N.remove_at_start serialized_size q) ≡ N.buffer p
        → ((g : RudpHeader)
            → (r : RudpHeader) × (deserialize N.iterator g (N.buffer q) ≡ some r)
              × (r.source_port ≡ sport)
              × (r.destination_port ≡ port))
        → Reaches N F (new_host N memory) h
        → F.checksum_ok6 h.calls header.source header.destination prot_number q ≡ true
        → F.lookup6 h.calls header.destination port header.source sport (some i) ≡ ep ∷ []
        → n < h.object.created
        → (h.numbered n).end_point6 ≡ some ep
        → m ≢ n
        → (j k : Host N) × (on_object N F h (receive6 N F q header (some i) (view N h 0)) ≡ ok j)
          × (j.calls
              ≡ forward_up6 ep (N.remove_at_start serialized_size q) header sport (some i)
                ∷ h.calls)
          × (deliver N F same
                (ipv6_end_point ep)
                (arrives6 (N.remove_at_start serialized_size q) header sport i)
                j
              ≡ ok k)
          × GivesTo N h n m (ipv6_arrival (N.remove_at_start serialized_size q) header sport i) k
    received {h} memory q p sport port header i n m ep bytes reads reached good found there held
          differ =
        let (r, read, from_port, to_port) = reads (new_header (F.uninitialised h.calls)) in
        let body = N.remove_at_start serialized_size q in
        let eps = (new-AllOwn N F (is_at N same) fresh memory reached).end_points6 in
        let j = record h { calls = forward_up6 ep body header sport (some i) ∷ h.calls } in
        let looked_up =
          ap (λ x. F.lookup6 h.calls header.destination x header.source r.source_port (some i))
            to_port
          ∙ ap (λ x. F.lookup6 h.calls header.destination port header.source x (some i)) from_port
          ∙ found in
        let gets : on_object N F h (receive6 N F q header (some i) (view N h 0)) ≡ ok j =
          ap (on_object N F h) (
            receive6_one N F q r (view N h 0) read header (some i) ep eps good looked_up
            ∙ ap
                (λ x. ok (
                  rx_ok,
                  record (view N h 0) { trace = forward_up6 ep body header x (some i) ∷ h.calls },
                ))
                from_port) in
        let (k, delivers, given) =
          deliver-holder N F same fresh {h = j} memory tags n m (ipv6_end_point ep)
            (ipv6_arrival body header sport i) (receives6 reached q header (some i) gets) there held
            differ in
        (j, k, gets, refl, delivers, given)

    -- `DoSendTo` for IPv6, to an address that is not a mapped one, of a ready socket that is open
    -- for sending and bound to a local address hands one packet down for a packet that fits. Let
    -- another node's protocol object receive it, in any state that the object and its sockets
    -- reach from its constructor, where allocation gives no end point that calls a socket, the
    -- checksums are good, and one end point is found for the addresses and ports. Then `Receive`
    -- forwards the packet without its header to that end point, once and with the port that it was
    -- sent from, and calls nothing else. What is forwarded comes to the socket which has the end
    -- point, and to no other: its queue gets what `accepted` says, one packet or none, whose bytes
    -- are those that were sent.
    pub deliver-do_send_to6 :
        {h : Host N} (memory : ℕ → Socket N) (p : N.Packet) (a : N.Ipv6Address) (port : ℕ)
        (from ep : N.Ipv6EndPoint) (target : N.DownTarget6) (header : Ipv6Header N.Ipv6Address)
        (i : N.Ipv6Interface) (n m : ℕ) (s : State N)
        → IsReady N s
        → N.ipv4_mapped a ≡ none
        → s.l4.down_target6 ≡ some target
        → s.socket.end_point6 ≡ some from
        → s.socket.shutdown_send ≡ false
        → N.get_size p ≤ tx_available
        → N.is_any6 (E.local_address6 s.trace from) ≡ false
        → E.local_port6 s.trace from < 2 ^ 16
        → port < 2 ^ 16
        → Reaches N F (new_host N memory) h
        → ((q : N.Packet)
            → F.checksum_ok6 h.calls header.source header.destination prot_number q ≡ true)
        → F.lookup6 h.calls header.destination port header.source
            (E.local_port6 s.trace from)
            (some i)
          ≡ ep ∷ []
        → n < h.object.created
        → (h.numbered n).end_point6 ≡ some ep
        → m ≢ n
        → let sport = E.local_port6 s.trace from in
          (q body : N.Packet) × (j k : Host N) × (do_send_to6 N E p a port s
            ≡ ok (pos (N.get_size p), sent6 N E s target q from a (N.get_size p)))
          × (on_object N F h (receive6 N F q header (some i) (view N h 0)) ≡ ok j)
          × (j.calls ≡ forward_up6 ep body header sport (some i) ∷ h.calls)
          × (deliver N F same (ipv6_end_point ep) (arrives6 body header sport i) j ≡ ok k)
          × GivesTo N h n m (ipv6_arrival body header sport i) k
          × (N.buffer (tagged6 N (h.numbered n) body header sport i) ≡ N.buffer p)
    deliver-do_send_to6 {h} memory p a port from ep target header i n m s v mapped d e opened fits
          local lo hi reached good found there held differ =
        let sport = E.local_port6 s.trace from in
        let (q, sends, bytes, reads) =
          do_send_to6-sent6 N E buffers tags p a port from target s v mapped d e opened fits local
            lo hi in
        let body = N.remove_at_start serialized_size q in
        let (j, k, gets, forwards, delivers, given) =
          received {h = h} memory q p sport port header i n m ep bytes reads reached (good q) found
            there held differ in
        (
          q,
          body,
          j,
          k,
          sends,
          gets,
          forwards,
          delivers,
          given,
          buffer-tagged6 (h.numbered n) body p header sport i bytes,
        )
