-- ===== src/Host/Network.antt =====
-- From `DoSendTo` of a socket at one node to the queue of a socket at another, among all the sockets
-- there: rudp-socket-impl.cc and rudp-l4-protocol.cc.
use rudpns.Prelude.{refl, ℕ, ◌<◌, ◌≤◌, ◌^◌, ◌≡◌, ◌≢◌, ap, ◌∙◌, true, false, pos, some, [], ◌∷◌}
use rudpns.Header.{RudpHeader, new_header, serialized_size}
use rudpns.Header.Wire.{deserialize}
use rudpns.Ns3.{Ns3, Env, Ipv4Header, forward_up, socket_address}
use rudpns.Ns3.Laws.{TagLaws, BufferLaws}
use rudpns.Ns3.Owner.{is_at, Same, EndPoint, ipv4_end_point}
use rudpns.State.{State, Socket, ok}
use rudpns.L4.{prot_number}
use rudpns.L4.Datagram.{receive, rx_ok}
use rudpns.L4.Datagram.Fanout.{receive_one}
use rudpns.Socket.Binding.Owner.{IsFresh}
use rudpns.Socket.Binding.Ready.{IsReady}
use rudpns.Socket.Sending.{do_send_to, tx_available}
use rudpns.Socket.Sending.Datagram.{sent, do_send_to-sent}
use rudpns.Socket.Receiving.{tag_received}
use rudpns.Socket.Receiving.Tags.{buffer-tag_received}
use rudpns.Socket.Receiving.Inbox.{arrives, tagged}
use rudpns.Socket.Receiving.Inbox.Arrival.{ipv4_arrival}
use rudpns.Host.{Host, new_host, view, on_object, deliver, Reaches, receives4}
use rudpns.Host.Sharing.{GivesTo, new-AllOwn, deliver-holder}

module _ (N : Ns3) (buffers : BufferLaws N) (tags : TagLaws N) where
  buffer-tagged :
      (s : Socket N) (body p : N.Packet) (header : Ipv4Header N.Ipv4Address) (port : ℕ)
      (i : N.Ipv4Interface)
      → N.buffer body ≡ N.buffer p
      → N.buffer (tagged N s body header port i) ≡ N.buffer p
  buffer-tagged s body p header port i e =
      buffers.buffer-tag (socket_address (N.of_inet header.source port))
        (tag_received N s body header i)
      ∙ buffer-tag_received N buffers s body header i
      ∙ e

  module _ (E F : Env N) (same : Same N)
      (fresh : (ep : EndPoint N) → IsFresh N F (is_at N same ep)) where
    -- A packet that one node hands down, received and delivered at another.
    received :
        {h : Host N} (memory : ℕ → Socket N) (q p : N.Packet) (sport port : ℕ)
        (header : Ipv4Header N.Ipv4Address) (i : N.Ipv4Interface) (n m : ℕ) (ep : N.Ipv4EndPoint)
        → N.buffer (N.remove_at_start serialized_size q) ≡ N.buffer p
        → ((g : RudpHeader)
            → (r : RudpHeader) × (deserialize N.iterator g (N.buffer q) ≡ some r)
              × (r.source_port ≡ sport)
              × (r.destination_port ≡ port))
        → Reaches N F (new_host N memory) h
        → F.checksum_ok h.calls header.source header.destination prot_number q ≡ true
        → F.lookup h.calls header.destination port header.source sport i ≡ ep ∷ []
        → n < h.object.created
        → (h.numbered n).end_point ≡ some ep
        → m ≢ n
        → (j k : Host N) × (on_object N F h (receive N F q header i (view N h 0)) ≡ ok j)
          × (j.calls ≡ forward_up ep (N.remove_at_start serialized_size q) header sport i ∷ h.calls)
          × (deliver N F same
                (ipv4_end_point ep)
                (arrives (N.remove_at_start serialized_size q) header sport i)
                j
              ≡ ok k)
          × GivesTo N h n m (ipv4_arrival (N.remove_at_start serialized_size q) header sport i) k
    received {h} memory q p sport port header i n m ep bytes reads reached good found there held
          differ =
        let (r, read, from_port, to_port) = reads (new_header (F.uninitialised h.calls)) in
        let body = N.remove_at_start serialized_size q in
        let eps = (new-AllOwn N F (is_at N same) fresh memory reached).end_points in
        let j = record h { calls = forward_up ep body header sport i ∷ h.calls } in
        let looked_up =
          ap (λ x. F.lookup h.calls header.destination x header.source r.source_port i) to_port
          ∙ ap (λ x. F.lookup h.calls header.destination port header.source x i) from_port
          ∙ found in
        let gets : on_object N F h (receive N F q header i (view N h 0)) ≡ ok j =
          ap (on_object N F h) (
            receive_one N F q r (view N h 0) read header i ep eps good looked_up
            ∙ ap
                (λ x.
                  ok (
                    rx_ok,
                    record (view N h 0) { trace = forward_up ep body header x i ∷ h.calls },
                  ))
                from_port) in
        let (k, delivers, given) =
          deliver-holder N F same fresh {h = j} memory tags n m (ipv4_end_point ep)
            (ipv4_arrival body header sport i) (receives4 reached q header i gets) there held
            differ in
        (j, k, gets, refl, delivers, given)

    -- `DoSendTo` of a ready socket that is open for sending and bound to a local address hands one
    -- packet down for a packet that fits. Let another node's protocol object receive it, in any
    -- state that the object and its sockets reach from its constructor, where allocation gives no
    -- end point that calls a socket, the checksums are good, and one end point is found for the
    -- addresses and ports. Then `Receive` forwards the packet without its header to that end
    -- point, once and with the port that it was sent from, and calls nothing else. What is
    -- forwarded comes to the socket which has the end point, and to no other: its queue gets what
    -- `accepted` says, one packet or none, whose bytes are those that were sent.
    pub deliver-do_send_to :
        {h : Host N} (memory : ℕ → Socket N) (p : N.Packet) (a : N.Ipv4Address) (port : ℕ)
        (from ep : N.Ipv4EndPoint) (target : N.DownTarget) (header : Ipv4Header N.Ipv4Address)
        (i : N.Ipv4Interface) (n m : ℕ) (s : State N)
        → IsReady N s
        → s.l4.down_target ≡ some target
        → s.socket.end_point ≡ some from
        → s.socket.shutdown_send ≡ false
        → N.get_size p ≤ tx_available
        → N.is_any (E.local_address s.trace from) ≡ false
        → E.local_port s.trace from < 2 ^ 16
        → port < 2 ^ 16
        → Reaches N F (new_host N memory) h
        → ((q : N.Packet)
            → F.checksum_ok h.calls header.source header.destination prot_number q ≡ true)
        → F.lookup h.calls header.destination port header.source (E.local_port s.trace from) i
          ≡ ep ∷ []
        → n < h.object.created
        → (h.numbered n).end_point ≡ some ep
        → m ≢ n
        → let sport = E.local_port s.trace from in
          (q body : N.Packet) × (j k : Host N) × (do_send_to N E p a port s
            ≡ ok (pos (N.get_size p), sent N E s target q from a (N.get_size p)))
          × (on_object N F h (receive N F q header i (view N h 0)) ≡ ok j)
          × (j.calls ≡ forward_up ep body header sport i ∷ h.calls)
          × (deliver N F same (ipv4_end_point ep) (arrives body header sport i) j ≡ ok k)
          × GivesTo N h n m (ipv4_arrival body header sport i) k
          × (N.buffer (tagged N (h.numbered n) body header sport i) ≡ N.buffer p)
    deliver-do_send_to {h} memory p a port from ep target header i n m s v d e opened fits local lo
          hi reached good found there held differ =
        let sport = E.local_port s.trace from in
        let (q, sends, bytes, reads) =
          do_send_to-sent N E buffers tags p a port from target s v d e opened fits local lo hi in
        let body = N.remove_at_start serialized_size q in
        let (j, k, gets, forwards, delivers, given) =
          received {h = h} memory q p sport port header i n m ep bytes reads reached (good q) found
            there held differ in
        (
          q,
          body,
          j,
          k,
          sends,
          gets,
          forwards,
          delivers,
          given,
          buffer-tagged (h.numbered n) body p header sport i bytes,
        )
