-- ===== src/Socket/Receiving/Tags.antt =====
-- What a receiver learns of a packet's sender, and what a socket that no longer receives does, in
-- rudp-socket-impl.cc.
use rudpns.Prelude.{ℕ, ◌+◌, ◌%◌, ◌^◌, ◌≤◌, ◌≡◌, false, some, [], arith}
use rudpns.Ns3.{Ns3, Ipv4Header, Ipv6Header, socket_address}
use rudpns.Ns3.Laws.{TagLaws, BufferLaws}
use rudpns.State.{Socket, State, Returns, ◌>>◌}
use rudpns.Socket.Receiving.Inbox.Refinement.{size-tag_received}
use rudpns.Socket.Receiving.{recv, recv_from, enqueue, receive_up, tag_received, tag_received6}

module _ (N : Ns3) where
  pub buffer-tag_received :
      (laws : BufferLaws N) (s : Socket N) (p : N.Packet) (h : Ipv4Header N.Ipv4Address)
      (i : N.Ipv4Interface)
      → N.buffer (tag_received N s p h i) ≡ N.buffer p
  unfolding tag_received
  buffer-tag_received laws s p h i = grind (arith, laws.buffer-tag, laws.buffer-remove_packet_info)

  pub buffer-tag_received6 :
      (laws : BufferLaws N) (s : Socket N) (p : N.Packet) (h : Ipv6Header N.Ipv6Address)
      → N.buffer (tag_received6 N s p h) ≡ N.buffer p
  unfolding tag_received6
  buffer-tag_received6 laws s p h = grind (arith, laws.buffer-tag)

  -- An IPv4 datagram that comes to a socket with an empty queue, open for receiving and with room
  -- for it, is what the next `RecvFrom` reads that takes its size, with the address and the port
  -- that it was sent from. The queue is then empty again.
  pub recv_from-receive_up :
      (laws : TagLaws N) (p : N.Packet) (h : Ipv4Header N.Ipv4Address) (port : ℕ)
      (i : N.Ipv4Interface) (max_size : ℕ) (s : State N)
      → s.socket.shutdown_recv ≡ false
      → s.socket.delivery_queue ≡ []
      → N.get_size p ≤ max_size
      → (s.socket.rx_available + N.get_size p) % 2 ^ 32 ≤ s.socket.rcv_buf_size
      → Returns
          (λ got s'.
            (got
              ≡ some (
                N.add_packet_tag
                    (socket_address (N.of_inet h.source port))
                    (tag_received N s.socket p h i),
                N.of_inet h.source port,
              ))
            × (s'.socket.delivery_queue ≡ []))
          ((receive_up N p h port i >> recv_from N max_size) s)
  unfolding receive_up enqueue recv_from recv
  recv_from-receive_up laws p h port i m s opened empty fits room =
      let from = N.of_inet h.source port in
      ground (
        arith,
        size-tag_received N laws s.socket p h i,
        laws.peek-tag from (tag_received N s.socket p h i),
        laws.size-tag (socket_address from) (tag_received N s.socket p h i),
      )
