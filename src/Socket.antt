-- ===== src/Socket.antt =====
-- rudp-socket-impl.h and rudp-socket-impl.cc: the socket. The children follow the source: binding an
-- end point, sending, receiving, and closing.
pub mod Binding
pub mod Closing
pub mod Sending
pub mod Receiving
pub mod Names
pub mod Base
pub mod Attributes
pub mod Frame
pub mod Reach
pub mod Ended
pub mod Owner
pub mod Delivery
pub mod Reply
use rudpns.Prelude.{ℕ, ℤ, pos, minus_one, Bool, true, false, Option, none, some}
use rudpns.Ns3.{
  Ns3, Env, SocketErrno, not_conn, op_not_supp, Ipv4Header, Ipv6Header, notify_connection_succeeded,
  icmp, icmp6,
}
use rudpns.State.{
  Socket, State, M, pure, ◌>>=◌, ◌>>◌, skip, emit, this_socket, modify, set_errno, assert,
}

-- `Socket::SocketType`, and `GetSocketType`.
data SocketType : Type 0 where
  sock_stream sock_seqpacket sock_dgram sock_raw : SocketType

get_socket_type : SocketType
get_socket_type = sock_dgram

module _ (N : Ns3) where
  -- `GetErrno`, `GetNode`, `GetRxAvailable`, `GetRcvBufSize` and `GetMtuDiscover`.
  get_errno : Socket N → SocketErrno
  get_errno s = s.errno

  get_node : Socket N → Option N.Node
  get_node s = s.node

  get_rx_available : Socket N → ℕ
  get_rx_available s = s.rx_available

  get_rcv_buf_size : Socket N → ℕ
  get_rcv_buf_size s = s.rcv_buf_size

  get_mtu_discover : Socket N → Bool
  get_mtu_discover s = s.mtu_discover

  -- `SetNode`, and `SetRudp`, which is given a pointer that is not null.
  unfoldable pub socket_set_node : Option N.Node → Socket N → Socket N
  socket_set_node node s = record s { node = node }

  unfoldable pub socket_set_rudp : Socket N → Socket N
  socket_set_rudp s = record s { has_rudp = true }

  unfoldable pub set_rcv_buf_size : ℕ → M N (Unit {0})
  set_rcv_buf_size size = modify (λ s. record s { rcv_buf_size = size })

  pub set_mtu_discover : Bool → M N (Unit {0})
  set_mtu_discover discover = modify (λ s. record s { mtu_discover = discover })

  -- `Destroy` and `Destroy6`, the callbacks that an end point makes when it is deleted.
  unfoldable pub destroy : M N (Unit {0})
  destroy = modify (λ s. record s { end_point = none })

  unfoldable pub destroy6 : M N (Unit {0})
  destroy6 = modify (λ s. record s { end_point6 = none })

  -- `Connect`. An address of another class leaves `m_errno` as it was.
  unfoldable pub connect : N.Address → M N ℤ
  connect address = elim (N.inet address) [
    | some (ipv4, port) ↦ do
      modify (λ s. record s {
        default_address = N.of_ipv4 ipv4;
        default_port = port;
        connected = true;
      })
      emit notify_connection_succeeded
      pure (pos 0)
    | none ↦ elim (N.inet6 address) [
      | some (ipv6, port) ↦ do
        modify (λ s. record s {
          default_address = N.of_ipv6 ipv6;
          default_port = port;
          connected = true;
        })
        emit notify_connection_succeeded
        pure (pos 0)
      | none ↦ pure minus_one
    ]
  ]

  -- `Listen`.
  unfoldable pub listen : M N ℤ
  listen = do set_errno op_not_supp; pure minus_one

  -- `GetPeerName`: the result, and the address if one was written. The assertion is `NS_ASSERT_MSG`.
  unfoldable pub get_peer_name : M N (ℤ × Option N.Address)
  get_peer_name = do
    s ← this_socket
    elim s.connected [
      | false ↦ do set_errno not_conn; pure (minus_one, none)
      | true ↦ elim (N.as_ipv4 s.default_address) [
        | some ipv4 ↦ pure (pos 0, some (N.of_inet ipv4 s.default_port))
        | none ↦ elim (N.as_ipv6 s.default_address) [
          | some ipv6 ↦ pure (pos 0, some (N.of_inet6 ipv6 s.default_port))
          | none ↦ do assert false; pure (pos 0, none)
        ]
      ]
    ]

  -- `ForwardIcmp` and `ForwardIcmp6`.
  pub forward_icmp_up : N.Ipv4Address → (ttl type code info : ℕ) → M N (Unit {0})
  forward_icmp_up source ttl type code info = do
    s ← this_socket
    elim s.icmp_callback [ none ↦ skip | some f ↦ emit (icmp f source ttl type code info) ]

  pub forward_icmp_up6 : N.Ipv6Address → (ttl type code info : ℕ) → M N (Unit {0})
  forward_icmp_up6 source ttl type code info = do
    s ← this_socket
    elim s.icmp_callback6 [ none ↦ skip | some f ↦ emit (icmp6 f source ttl type code info) ]

module _ (N : Ns3) (E : Env N) where
  -- `GetSockName`.
  get_sock_name : State N → N.Address
  get_sock_name s = elim s.socket.end_point [
    | some ep ↦ N.of_inet (E.local_address s.trace ep) (E.local_port s.trace ep)
    | none ↦ elim s.socket.end_point6 [
      | some ep ↦ N.of_inet6 (E.local_address6 s.trace ep) (E.local_port6 s.trace ep)
      | none ↦ N.of_inet N.zero_address 0
    ]
  ]
