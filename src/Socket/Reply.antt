-- ===== src/Socket/Reply.antt =====
-- The answer to a datagram: `RecvFrom` of rudp-socket-impl.cc, and then `SendTo` to the address that it
-- gave.
use rudpns.Prelude.{ℕ, ◌+◌, ◌%◌, ◌^◌, ◌≡◌, ◌≤◌, ◌<◌, ◌∙◌, ap, pos, some, false, Option, [], is_some}
use rudpns.Header.{RudpHeader, serialized_size}
use rudpns.Header.Wire.{deserialize}
use rudpns.Ns3.{Ns3, Env, Trace, Ipv4Header, socket_address}
use rudpns.Ns3.Laws.{AddressLaws, TagLaws, BufferLaws}
use rudpns.State.{State, Result, ok, fault, Returns, ◌>>◌}
use rudpns.Socket.Binding.Ready.{IsReady}
use rudpns.Socket.Receiving.{receive_up, recv_from, tag_received}
use rudpns.Socket.Receiving.Tags.{recv_from-receive_up, buffer-tag_received}
use rudpns.Socket.Receiving.Sender.{SameSender, recv_from-receive_up-SameSender}
use rudpns.Socket.Sending.{tx_available, send_to}
use rudpns.Socket.Sending.Datagram.{sent}
use rudpns.Socket.Sending.Answer.{send_to-sent}

module _ (N : Ns3) (E : Env N) where
  -- The application got a packet of the bytes of `body`, and an address. `SendTo` to it, of `answer`,
  -- sends one packet from the end point `ep` to the address `to`, whose header has the port `port`.
  abbrev pub Answers :
      (body answer : N.Packet)
      → N.Ipv4EndPoint
      → N.DownTarget
      → (to : N.Ipv4Address) → (port : ℕ) → Option (N.Packet × N.Address)
      → State N
      → Type 0
  Answers body answer ep target to port got u =
      (p : N.Packet) × (from : N.Address) × (got ≡ some (p, from))
      × (N.buffer p ≡ N.buffer body)
      × ((q : N.Packet) × (send_to N E answer from u
            ≡ ok (pos (N.get_size answer), sent N E u target q ep to (N.get_size answer)))
          × (N.buffer (N.remove_at_start serialized_size q) ≡ N.buffer answer)
          × ((g : RudpHeader)
              → (r : RudpHeader) × (deserialize N.iterator g (N.buffer q) ≡ some r)
                × (r.source_port ≡ E.local_port u.trace ep)
                × (r.destination_port ≡ port)))

  SameSender-IsReady :
      {A : Type 0} (a : A) (t u : State N) → SameSender N t (ok (a, u)) → IsReady N t → IsReady N u
  SameSender-IsReady a t u (_, _, node, rudp, l4, _) v = record {
    wired = record {
      has_rudp = rudp ∙ v.wired.has_rudp;
      has_end_points = ap (λ l. l.has_end_points) l4 ∙ v.wired.has_end_points;
      has_end_points6 = ap (λ l. l.has_end_points6) l4 ∙ v.wired.has_end_points6;
    };
    has_node = ap is_some node ∙ v.has_node;
    has_target = ap (λ l. is_some l.down_target) l4 ∙ v.has_target;
    has_target6 = ap (λ l. is_some l.down_target6) l4 ∙ v.has_target6;
  }

  -- A datagram comes to a socket that is ready, bound to a local IPv4 address, open both ways and
  -- empty, that has room for it and on which the ToS is not set by hand. Then `RecvFrom` reads it, and `SendTo` to the address that
  -- `RecvFrom` gave answers it: one packet goes down, from the socket's local address to the address
  -- that the datagram came from, and its header, whoever reads it, has the socket's port and the port
  -- that the datagram came from. The bytes behind the header are those of the answer.
  pub send_to-recv_from :
      (addresses : AddressLaws N) (buffers : BufferLaws N) (tags : TagLaws N)
      (body answer : N.Packet) (h : Ipv4Header N.Ipv4Address) (port : ℕ) (i : N.Ipv4Interface)
      (max_size : ℕ) (ep : N.Ipv4EndPoint) (target : N.DownTarget) (t : State N)
      → IsReady N t
      → t.l4.down_target ≡ some target
      → t.socket.options.is_manual_ip_tos ≡ false
      → t.socket.end_point ≡ some ep
      → t.socket.shutdown_send ≡ false
      → t.socket.shutdown_recv ≡ false
      → t.socket.delivery_queue ≡ []
      → N.get_size body ≤ max_size
      → (t.socket.rx_available + N.get_size body) % 2 ^ 32 ≤ t.socket.rcv_buf_size
      → N.get_size answer ≤ tx_available
      → ((c : Trace N) → N.is_any (E.local_address c ep) ≡ false)
      → ((c : Trace N) → E.local_port c ep < 2 ^ 16)
      → port < 2 ^ 16
      → Returns
          (Answers body answer ep target h.source port)
          ((receive_up N body h port i >> recv_from N max_size) t)
  send_to-recv_from addresses buffers tags body answer h port i m ep target t v d untagged e sending
        receiving empty fits room fit local lo hi =
      go _ (recv_from-receive_up N tags body h port i m t receiving empty fits room)
        (recv_from-receive_up-SameSender N body h port i m t)
    where
      from : N.Address
      from = N.of_inet h.source port

      go :
          (r : Result (Option (N.Packet × N.Address) × State N))
          → Returns
              (λ got u.
                (got
                  ≡ some (
                    N.add_packet_tag (socket_address from) (tag_received N t.socket body h i),
                    from,
                  ))
                × (u.socket.delivery_queue ≡ []))
              r
          → SameSender N t r
          → Returns (Answers body answer ep target h.source port) r
      go (ok (got, u)) (g, _) kept = (
        _,
        from,
        g,
        buffers.buffer-tag _ _ ∙ buffer-tag_received N buffers t.socket body h i,
        send_to-sent N E buffers tags answer from h.source port ep target u
            (addresses.inet-of_inet h.source port) (ap (λ o. o.is_manual_ip_tos) kept.5 ∙ untagged)
            (SameSender-IsReady got t u kept v) (ap (λ l. l.down_target) kept.4 ∙ d) (kept.0 ∙ e)
            (kept.1 ∙ sending) fit (local u.trace) (lo u.trace) hi,
      )
      go (fault f) g kept = g
