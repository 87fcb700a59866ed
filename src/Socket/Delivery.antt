-- ===== src/Socket/Delivery.antt =====
-- A datagram from `Send` of rudp-l4-protocol.cc at one node, through `Receive` at another, to the
-- `ForwardUp` and the `RecvFrom` of a socket of rudp-socket-impl.cc.
use rudpns.Prelude.{
  ℕ, ◌≡◌, ◌≤◌, ◌<◌, ◌^◌, ◌%◌, ◌+◌, ◌∙◌, sym, ap, some, none, Option, true, false, List, [], ◌∷◌,
  length, arith,
}
use rudpns.Header.{new_header, serialized_size}
use rudpns.Ns3.{Ns3, Env, Ipv4Header, down, forward_up, socket_address}
use rudpns.Ns3.Laws.{TagLaws, BufferLaws}
use rudpns.State.{State, ok, Returns, ◌>>◌, Result, fault}
use rudpns.L4.{prot_number}
use rudpns.L4.Datagram.{l4_send, receive, rx_ok}
use rudpns.L4.Datagram.EndToEnd.{read-l4_send}
use rudpns.L4.Datagram.Fanout.{receive_one}
use rudpns.Socket.Receiving.{receive_up, recv_from, tag_received}
use rudpns.Socket.Receiving.Tags.{recv_from-receive_up, buffer-tag_received}

module _ (N : Ns3) where
  -- The application got a packet with the given bytes from the given address, and the queue is empty.
  abbrev pub Gets : List ℕ → N.Address → Option (N.Packet × N.Address) → State N → Type 0
  Gets bytes from got s =
      (p : N.Packet) × (got ≡ some (p, from))
      × (N.buffer p ≡ bytes)
      × (s.socket.delivery_queue ≡ [])

module _ (N : Ns3) (E : Env N) (buffers : BufferLaws N) (tags : TagLaws N) where
  size-same_bytes : (p q : N.Packet) → N.buffer p ≡ N.buffer q → N.get_size p ≡ N.get_size q
  size-same_bytes p q e = buffers.size-buffer p ∙ ap length e ∙ sym (buffers.size-buffer q)

  recv_from-Gets :
      (p body : N.Packet) (h : Ipv4Header N.Ipv4Address) (port : ℕ) (i : N.Ipv4Interface)
      (max_size : ℕ) (s : State N)
      → N.buffer body ≡ N.buffer p
      → s.socket.shutdown_recv ≡ false
      → s.socket.delivery_queue ≡ []
      → N.get_size p ≤ max_size
      → (s.socket.rx_available + N.get_size p) % 2 ^ 32 ≤ s.socket.rcv_buf_size
      → Returns
          (Gets N (N.buffer p) (N.of_inet h.source port))
          ((receive_up N body h port i >> recv_from N max_size) s)
  recv_from-Gets p body h port i m s e opened empty fits room =
      let size = size-same_bytes body p e in
      weaken _
        (recv_from-receive_up N tags body h port i m s opened empty (omega arith) (omega arith))
    where
      weaken :
          (r : Result (Option (N.Packet × N.Address) × State N))
          → Returns
              (λ got s'.
                (got
                  ≡ some (
                    N.add_packet_tag
                        (socket_address (N.of_inet h.source port))
                        (tag_received N s.socket body h i),
                    N.of_inet h.source port,
                  ))
                × (s'.socket.delivery_queue ≡ []))
              r
          → Returns (Gets N (N.buffer p) (N.of_inet h.source port)) r
      weaken (ok (got, s')) (g, q) =
          (_, g, buffers.buffer-tag _ _ ∙ buffer-tag_received N buffers s.socket body h i ∙ e, q)
      weaken (fault f) v = v

  -- A packet sent by one protocol object and received by another, whose checksum is good and for whose
  -- addresses and ports one end point is found there. The sender gives one packet to the layer below.
  -- The receiver, given it, hands that end point one packet with the port that it was sent from. If the
  -- end point's socket is open and empty and has room, it is the next that `RecvFrom` gives, with the
  -- sender's address and port and with the bytes that were sent.
  pub recv_from-receive-l4_send :
      (p : N.Packet) (a b : N.Ipv4Address) (sport dport : ℕ) (target : N.DownTarget)
      (h : Ipv4Header N.Ipv4Address) (i : N.Ipv4Interface) (ep : N.Ipv4EndPoint) (max_size : ℕ)
      (s t : State N)
      → s.l4.down_target ≡ some target
      → sport < 2 ^ 16
      → dport < 2 ^ 16
      → t.l4.has_end_points ≡ true
      → ((q : N.Packet) → E.checksum_ok t.trace h.source h.destination prot_number q ≡ true)
      → E.lookup t.trace h.destination dport h.source sport i ≡ ep ∷ []
      → t.socket.shutdown_recv ≡ false
      → t.socket.delivery_queue ≡ []
      → N.get_size p ≤ max_size
      → (t.socket.rx_available + N.get_size p) % 2 ^ 32 ≤ t.socket.rcv_buf_size
      → (q body : N.Packet) × (l4_send N E p a b sport dport none s
          ≡ ok (tt, record s { trace = down target q a b prot_number none ∷ s.trace }))
        × (receive N E q h i t
            ≡ ok (rx_ok, record t { trace = forward_up ep body h sport i ∷ t.trace }))
        × Returns (Gets N (N.buffer p) (N.of_inet h.source sport)) (
            (receive_up N body h sport i >> recv_from N max_size)
              (record t { trace = forward_up ep body h sport i ∷ t.trace }))
  recv_from-receive-l4_send p a b sport dport target h i ep m s t d lo hi eps good found opened
        empty fits room =
      let (q, sends, bytes, reads) =
        read-l4_send N E buffers p a b sport dport none target s d lo hi in
      let (r, read, from_port, to_port) = reads (new_header (E.uninitialised t.trace)) in
      let body = N.remove_at_start serialized_size q in
      let looked_up =
        ap (λ x. E.lookup t.trace h.destination x h.source r.source_port i) to_port
        ∙ ap (λ x. E.lookup t.trace h.destination dport h.source x i) from_port
        ∙ found in
      (
        q,
        body,
        sends,
        receive_one N E q r t read h i ep eps (good q) looked_up
            ∙ ap (λ x. ok (rx_ok, record t { trace = forward_up ep body h x i ∷ t.trace }))
                from_port,
        recv_from-Gets p body h sport i m
            (record t { trace = forward_up ep body h sport i ∷ t.trace }) bytes opened empty fits
            room,
      )
