-- ===== src/Socket/Receiving.antt =====
-- `Recv`, `RecvFrom`, `ForwardUp` and `ForwardUp6` of rudp-socket-impl.cc. Sizes are `uint32_t`.
pub mod Counter
pub mod Tags
pub mod Sender
pub mod Inbox
pub mod Fallback
use rudpns.Prelude.{
  ℕ, ◌+◌, ◌-◌, ◌%◌, ◌^◌, Bool, true, false, Option, none, some, List, [], ◌∷◌, ◌++◌, is_some, leb,
  if◌then◌else◌,
}
use rudpns.Ns3.{
  Ns3, Env, Ipv4Header, Ipv6Header, again, ip_tos, ip_ttl, ipv6_tclass, ipv6_hop_limit, packet_info,
  packet_info6, socket_address, notify_data_recv, drop_trace,
}
use rudpns.State.{
  Socket, State, M, pure, ◌>>=◌, ◌>>◌, skip, emit, this_socket, modify, set_errno, assert, deref,
}

module _ (N : Ns3) where
  -- `Recv`, by what its queue holds. Its flags are not used.
  recv_queue : (max_size : ℕ) → List N.Packet → M N (Option N.Packet)
  recv_queue max_size [] = do set_errno again; pure none
  recv_queue max_size (p ∷ rest) =
      if leb (N.get_size p) max_size
      then (do
        modify (λ s. record s {
          delivery_queue = rest;
          rx_available = (s.rx_available + 2 ^ 32 - N.get_size p % 2 ^ 32) % 2 ^ 32;
        })
        pure (some p))
      else pure none

  pub recv : (max_size : ℕ) → M N (Option N.Packet)
  unfolding recv_queue
  recv max_size = do s ← this_socket; recv_queue max_size s.delivery_queue

  -- `RecvFrom`: the packet and the address that its tag has, if there is a packet.
  pub recv_from : (max_size : ℕ) → M N (Option (N.Packet × N.Address))
  unfolding recv
  recv_from max_size = do
    packet ← recv max_size
    elim packet [
      | none ↦ pure none
      | some p ↦ elim (N.peek_socket_address p) [
        | none ↦ do assert false; pure none
        | some from ↦ pure (some (p, from))
      ]
    ]

  -- The last part of `ForwardUp` and of `ForwardUp6`: the packet is queued with the address that it
  -- comes from, if there is room, and else dropped.
  enqueue : N.Packet → (from : N.Address) → M N (Unit {0})
  enqueue p from = do
    s ← this_socket
    if leb ((s.rx_available + N.get_size p) % 2 ^ 32) s.rcv_buf_size
        then (do
          let tagged = N.add_packet_tag (socket_address from) p
          modify (λ s. record s {
            delivery_queue = s.delivery_queue ++ tagged ∷ [];
            rx_available = (s.rx_available + N.get_size tagged) % 2 ^ 32;
          })
          emit notify_data_recv)
        else emit (drop_trace p)

  pub tag_received : Socket N → N.Packet → Ipv4Header N.Ipv4Address → N.Ipv4Interface → N.Packet
  tag_received s p header interface =
      let p =
        if s.options.is_recv_pkt_info
        then (let (info, q) = N.remove_packet_info p in
            N.add_packet_tag (packet_info (N.set_recv_if info (N.if_index interface))) q)
        else p in
      let p = if s.options.is_ip_recv_tos then N.add_packet_tag (ip_tos header.tos) p else p in
      if s.options.is_ip_recv_ttl then N.add_packet_tag (ip_ttl header.ttl) p else p

  -- `ForwardUp`.
  unfoldable pub receive_up :
      N.Packet → Ipv4Header N.Ipv4Address → (port : ℕ) → N.Ipv4Interface → M N (Unit {0})
  unfolding enqueue tag_received
  receive_up p header port interface = do
    s ← this_socket
    if s.shutdown_recv
        then skip
        else enqueue (tag_received s p header interface) (N.of_inet header.source port)

  -- The packet information wants an interface.
  pub tag_info6 : Socket N → N.Packet → Option N.Ipv6Interface → M N N.Packet
  tag_info6 s p interface =
      if s.options.is_recv_pkt_info
      then (do
        i ← deref interface
        let (info, q) = N.remove_packet_info6 p
        pure (N.add_packet_tag (packet_info6 (N.set_recv_if6 info (N.if_index6 i))) q))
      else pure p

  pub tag_received6 : Socket N → N.Packet → Ipv6Header N.Ipv6Address → N.Packet
  tag_received6 s p header =
      let p =
        if s.options.is_ipv6_recv_tclass
        then N.add_packet_tag (ipv6_tclass header.traffic_class) p
        else p in
      if s.options.is_ipv6_recv_hop_limit
      then N.add_packet_tag (ipv6_hop_limit header.hop_limit) p
      else p

  -- `ForwardUp6`.
  unfoldable pub receive_up6 :
      N.Packet → Ipv6Header N.Ipv6Address → (port : ℕ) → Option N.Ipv6Interface → M N (Unit {0})
  unfolding enqueue tag_info6 tag_received6
  receive_up6 p header port interface = do
    s ← this_socket
    if s.shutdown_recv then skip else do
      p ← tag_info6 s p interface
      enqueue (tag_received6 s p header) (N.of_inet6 header.source port)
