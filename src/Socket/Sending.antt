-- ===== src/Socket/Sending.antt =====
-- `Send`, `SendTo`, `DoSend` and the three functions `DoSendTo` of rudp-socket-impl.cc.
pub mod Outcome
pub mod Refusals
pub mod Total
pub mod Frames
pub mod Owner
pub mod Ended
pub mod Datagram
pub mod Answer
pub mod Routed
pub mod Datagram6
pub mod Routed6
use rudpns.Prelude.{
  ℕ, ℤ, pos, minus_one, Bool, true, false, ◌&&◌, not, Option, none, some, is_some, ltb, ◌==◌,
  if◌then◌else◌,
}
use rudpns.Ns3.{
  Ns3, Env, not_conn, shutdown, msg_size, af_no_support, no_route_to_host, ip_tos, ip_ttl,
  ipv6_tclass, ipv6_hop_limit, dont_fragment, route, no_route, notify_data_sent, notify_send,
}
use rudpns.State.{
  Socket, State, M, pure, ◌>>=◌, ◌>>◌, skip, emit, this_socket, ask, set_errno, deref, raise,
  assertion,
}
use rudpns.L4.{need}
use rudpns.L4.Datagram.{l4_send, l4_send6}
use rudpns.Socket.Binding.{bind_ephemeral, bind_ephemeral6, ensure_bound, ensure_bound6}

-- `GetTxAvailable`, which is `MAX_IPV4_RUDP_DATAGRAM_SIZE`.
abbrev pub tx_available : ℕ
tx_available = 65507

abbrev with_port : {A : Type 0} → ℕ → Option A → Option (A × ℕ)
with_port port none = none
with_port port (some a) = some (a, port)

module _ (N : Ns3) where
  -- The tags of an outgoing packet, one function for each block of the source.
  unfoldable pub tag_tos : Socket N → N.Packet → N.Packet
  tag_tos s p =
      if s.options.is_manual_ip_tos then N.add_packet_tag (ip_tos s.options.get_ip_tos) p else p

  unfoldable pub tag_ttl : Socket N → (destination : N.Ipv4Address) → N.Packet → N.Packet
  tag_ttl s destination p =
      if s.options.is_manual_ip_ttl
        && (not (s.options.get_ip_ttl == 0)
            && (not (N.is_multicast destination) && not (N.is_broadcast destination)))
      then N.add_packet_tag (ip_ttl s.options.get_ip_ttl) p
      else p

  -- A tag that is found is removed, and not put back.
  unfoldable pub tag_dont_fragment : Socket N → N.Packet → N.Packet
  tag_dont_fragment s p =
      let (found, p') = N.remove_dont_fragment p in
      if found then p' else N.add_packet_tag (dont_fragment s.mtu_discover) p'

  unfoldable pub tag_tclass : Socket N → N.Packet → N.Packet
  tag_tclass s p =
      if s.options.is_manual_ipv6_tclass
      then N.add_packet_tag (ipv6_tclass s.options.get_ipv6_tclass) p
      else p

  unfoldable pub tag_hop_limit : Socket N → (destination : N.Ipv6Address) → N.Packet → N.Packet
  tag_hop_limit s destination p =
      if s.options.is_manual_ipv6_hop_limit
        && (not (s.options.get_ipv6_hop_limit == 0) && not (N.is_multicast6 destination))
      then N.add_packet_tag (ipv6_hop_limit s.options.get_ipv6_hop_limit) p
      else p

module _ (N : Ns3) (E : Env N) where
  -- Lines 517 and 542 to 585 of `DoSendTo` for IPv4: the packet, its tags put on, goes down from the
  -- local address, or else from the address that the route gives.
  pub hand_down : N.Packet → (destination : N.Ipv4Address) → (port : ℕ) → M N ℤ
  unfolding l4_send
  hand_down p destination port = do
    s ← this_socket
    node ← deref s.node
    has_ipv4 ← ask (λ t. E.node_ipv4 t node)
    ep ← deref s.end_point
    local ← ask (λ t. E.local_address t ep)
    local_port ← ask (λ t. E.local_port t ep)
    if not (N.is_any local)
        then (do
          need N s.has_rudp
          l4_send N E p local destination local_port port none
          emit (notify_data_sent (N.get_size p))
          emit (notify_send tx_available)
          pure (pos (N.get_size p)))
        else do
          need N has_ipv4
          has_routing ← ask (λ t. E.has_routing t node)
          if not has_routing then (do set_errno no_route_to_host; pure minus_one) else do
            answer ← ask (λ t. E.route_output t p destination N.udp_prot_number s.bound_net_device)
            elim answer [
              | no_route errno ↦ do set_errno errno; pure minus_one
              | route r ↦ do
                need N s.has_rudp
                l4_send N E p (N.route_source r) destination local_port port (some r)
                emit (notify_data_sent (N.get_size p))
                pure (pos (N.get_size p))
            ]

  pub hand_down6 : N.Packet → (destination : N.Ipv6Address) → (port : ℕ) → M N ℤ
  unfolding l4_send6
  hand_down6 p destination port = do
    s ← this_socket
    node ← deref s.node
    has_ipv6 ← ask (λ t. E.node_ipv6 t node)
    ep ← deref s.end_point6
    local ← ask (λ t. E.local_address6 t ep)
    local_port ← ask (λ t. E.local_port6 t ep)
    if not (N.is_any6 local)
        then (do
          need N s.has_rudp
          l4_send6 N E p local destination local_port port none
          emit (notify_data_sent (N.get_size p))
          emit (notify_send tx_available)
          pure (pos (N.get_size p)))
        else do
          need N has_ipv6
          has_routing ← ask (λ t. E.has_routing6 t node)
          if not has_routing then (do set_errno no_route_to_host; pure minus_one) else do
            answer ← ask (λ t. E.route_output6 t p destination N.udp_prot_number s.bound_net_device)
            elim answer [
              | no_route errno ↦ do set_errno errno; pure minus_one
              | route r ↦ do
                need N s.has_rudp
                l4_send6 N E p (N.route_source6 r) destination local_port port (some r)
                emit (notify_data_sent (N.get_size p))
                pure (pos (N.get_size p))
            ]

  -- `DoSendTo (p, Ipv4Address, port)` once there is an end point, and the whole of it.
  send_bound : N.Packet → (destination : N.Ipv4Address) → (port : ℕ) → M N ℤ
  unfolding tag_tos tag_ttl tag_dont_fragment hand_down
  send_bound p destination port = do
    s ← this_socket
    if s.shutdown_send
        then (do set_errno shutdown; pure minus_one)
        else if ltb tx_available (N.get_size p)
        then (do set_errno msg_size; pure minus_one)
        else hand_down (tag_dont_fragment N s (tag_ttl N s destination (tag_tos N s p))) destination
            port

  unfoldable pub do_send_to : N.Packet → (destination : N.Ipv4Address) → (port : ℕ) → M N ℤ
  unfolding ensure_bound send_bound
  do_send_to p destination port = do
    bound ← ensure_bound N E
    if not bound then pure minus_one else send_bound p destination port

  -- The same of `DoSendTo (p, Ipv6Address, port)`.
  send_bound6 : N.Packet → (destination : N.Ipv6Address) → (port : ℕ) → M N ℤ
  unfolding tag_tclass tag_hop_limit hand_down6
  send_bound6 p destination port = do
    s ← this_socket
    if s.shutdown_send
        then (do set_errno shutdown; pure minus_one)
        else if ltb tx_available (N.get_size p)
        then (do set_errno msg_size; pure minus_one)
        else hand_down6 (tag_hop_limit N s destination (tag_tclass N s p)) destination port

  unfoldable pub do_send_to6 : N.Packet → (destination : N.Ipv6Address) → (port : ℕ) → M N ℤ
  unfolding do_send_to ensure_bound6 send_bound6
  do_send_to6 p destination port = elim (N.ipv4_mapped destination) [
    | some mapped ↦ do_send_to p mapped port
    | none ↦ do
      bound ← ensure_bound6 N E
      if not bound then pure minus_one else send_bound6 p destination port
  ]

  -- The chains of tests on the class of an address; `otherwise` is done with an address of neither.
  send_to_target :
      N.Packet
      → (otherwise : M N ℤ) → Option (N.Ipv4Address × ℕ)
      → Option (N.Ipv6Address × ℕ)
      → M N ℤ
  unfolding do_send_to do_send_to6
  send_to_target p otherwise (some (a, port)) b = do_send_to p a port
  send_to_target p otherwise none (some (b, port)) = do_send_to6 p b port
  send_to_target p otherwise none none = otherwise

  -- `DoSendTo (p, const Address &)`: a connected socket takes its default address instead.
  pub do_send_to_address : N.Packet → N.Address → M N ℤ
  unfolding send_to_target
  do_send_to_address p address = do
    s ← this_socket
    if not s.connected
        then send_to_target p (pure minus_one) (N.inet address) (N.inet6 address)
        else send_to_target p (do set_errno af_no_support; pure minus_one)
            (with_port s.default_port (N.as_ipv4 s.default_address))
            (with_port s.default_port (N.as_ipv6 s.default_address))

  -- The first part of `DoSend`. Its tests are on the class of a socket address, and `Connect` stores an
  -- address of the other class.
  bind_default : M N Bool
  unfolding ensure_bound ensure_bound6
  bind_default = do
    s ← this_socket
    if not (is_some s.end_point) && is_some (N.inet s.default_address)
        then ensure_bound N E
        else if not (is_some s.end_point6) && is_some (N.inet6 s.default_address)
        then ensure_bound6 N E
        else pure true

  -- The rest of it, and the whole.
  send_default : N.Packet → M N ℤ
  unfolding do_send_to_address
  send_default p = do
    s ← this_socket
    if s.shutdown_send
        then (do set_errno shutdown; pure minus_one)
        else do_send_to_address p s.default_address

  pub do_send : N.Packet → M N ℤ
  unfolding bind_default send_default
  do_send p = do bound ← bind_default; if not bound then pure minus_one else send_default p

  -- `Send`. Its flags are not used.
  pub send : N.Packet → M N ℤ
  unfolding do_send
  send p = do
    s ← this_socket
    if not s.connected then (do set_errno not_conn; pure minus_one) else do_send p

  -- `DoSendTo` of a packet that has the tag already which it adds itself, once there is an end point:
  -- `AddPacketTag` asserts that a packet has no tag of the kind.
  refuse_again : N.Packet → M N ℤ
  refuse_again p = do
    s ← this_socket
    if s.shutdown_send
        then (do set_errno shutdown; pure minus_one)
        else if ltb tx_available (N.get_size p)
        then (do set_errno msg_size; pure minus_one)
        else raise assertion

  -- The whole of it: for IPv4 the ToS tag is there, and for IPv6 the one of the traffic class, which the
  -- function for IPv4 does not add.
  pub do_send_to_again : N.Packet → M N ℤ
  unfolding ensure_bound refuse_again
  do_send_to_again p = do
    bound ← ensure_bound N E
    if not bound then pure minus_one else refuse_again p

  pub do_send_to6_again : N.Packet → (destination : N.Ipv6Address) → (port : ℕ) → M N ℤ
  unfolding do_send_to ensure_bound6 refuse_again
  do_send_to6_again p destination port = elim (N.ipv4_mapped destination) [
    | some mapped ↦ do_send_to p mapped port
    | none ↦ do bound ← ensure_bound6 N E; if not bound then pure minus_one else refuse_again p
  ]

  -- The two blocks of `SendTo`, which tag the packet before `DoSendTo` tags it.
  pub send_to_inet : N.Packet → (destination : N.Ipv4Address) → (port : ℕ) → M N ℤ
  unfolding do_send_to do_send_to_again tag_tos
  send_to_inet p destination port = do
    s ← this_socket
    if s.options.is_manual_ip_tos
        then do_send_to_again (tag_tos N s p)
        else do_send_to p destination port

  pub send_to_inet6 : N.Packet → (destination : N.Ipv6Address) → (port : ℕ) → M N ℤ
  unfolding do_send_to6 do_send_to6_again tag_tclass
  send_to_inet6 p destination port = do
    s ← this_socket
    if s.options.is_manual_ipv6_tclass
        then do_send_to6_again (tag_tclass N s p) destination port
        else do_send_to6 p destination port

  -- `SendTo`.
  pub send_to : N.Packet → N.Address → M N ℤ
  unfolding send_to_inet send_to_inet6
  send_to p address = elim (N.inet address) [
    | some (a, port) ↦ send_to_inet p a port
    | none ↦ elim (N.inet6 address) [
      | some (a, port) ↦ send_to_inet6 p a port
      | none ↦ pure minus_one
    ]
  ]
