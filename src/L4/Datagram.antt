-- ===== src/L4/Datagram.antt =====
-- `Send`, `Receive` and `ReceiveIcmp` of rudp-l4-protocol.cc. The checksum is what ns-3 says: the
-- functions that the source calls for it are not those of `RudpHeader`.
pub mod Fanout
pub mod EndToEnd
pub mod Icmp
pub mod Owner
pub mod Ended
use rudpns.Prelude.{
  ℕ, ◌+◌, ◌*◌, ◌%◌, ◌^◌, Bool, true, false, ◌&&◌, not, Option, none, some, List, [], ◌∷◌, bit_or,
  if◌then◌else◌, is_some,
}
use rudpns.Header.{RudpHeader, new_header, set_source_port, set_destination_port, serialized_size}
use rudpns.Header.Wire.{serialize, deserialize}
use rudpns.Ns3.{
  Ns3, Env, Ipv4Header, Ipv6Header, down, down6, forward_up, forward_up6, forward_icmp,
  forward_icmp6,
}
use rudpns.State.{M, State, buffer_overrun, pure, raise, ◌>>=◌, ◌>>◌, skip, emit, get, ask, deref}
use rudpns.L4.{need, prot_number}

-- `IpL4Protocol::RxStatus`, as far as it is used.
pub data RxStatus : Type 0 where
  rx_ok rx_csum_failed rx_endpoint_unreach : RxStatus

-- The ports that `ReceiveIcmp` reads: `payload[0] << 8 | payload[1]`, and the next two bytes.
pub icmp_ports : List ℕ → ℕ × ℕ
icmp_ports (a ∷ b ∷ c ∷ d ∷ _) = (bit_or (a * 2 ^ 8 % 2 ^ 16) b, bit_or (c * 2 ^ 8 % 2 ^ 16) d)
icmp_ports _ = (0, 0)

-- A header as `Send` builds it.
unfoldable pub outgoing : (sport dport : ℕ) → RudpHeader → RudpHeader
unfolding new_header set_source_port set_destination_port
outgoing sport dport memory = set_source_port (set_destination_port (new_header memory) dport) sport

module _ (N : Ns3) where
  -- `AddHeader`: room of `GetSerializedSize ()` bytes, at whose start `Serialize` writes.
  unfoldable pub add_header : RudpHeader → N.Packet → N.Packet
  add_header h p =
      N.add_at_start serialized_size (serialize N.iterator h (N.get_size p + serialized_size)) p

  -- `PeekHeader`.
  unfoldable pub peek_header : RudpHeader → N.Packet → M N RudpHeader
  peek_header h p = elim (deserialize N.iterator h (N.buffer p)) [
    | none ↦ raise buffer_overrun
    | some h' ↦ pure h'
  ]

  -- The loops over the end points found: each gets a copy.
  pub forward_all :
      List N.Ipv4EndPoint
      → N.Packet
      → Ipv4Header N.Ipv4Address
      → (port : ℕ) → N.Ipv4Interface
      → M N (Unit {0})
  forward_all [] packet header port interface = skip
  forward_all (ep ∷ eps) packet header port interface = do
    emit (forward_up ep packet header port interface)
    forward_all eps packet header port interface

  pub forward_all6 :
      List N.Ipv6EndPoint
      → N.Packet
      → Ipv6Header N.Ipv6Address
      → (port : ℕ) → Option N.Ipv6Interface
      → M N (Unit {0})
  forward_all6 [] packet header port interface = skip
  forward_all6 (ep ∷ eps) packet header port interface = do
    emit (forward_up6 ep packet header port interface)
    forward_all6 eps packet header port interface

  -- What is done with the end points found. For IPv4 the last argument says what, if there is none.
  dispatch :
      List N.Ipv4EndPoint
      → N.Packet
      → Ipv4Header N.Ipv4Address
      → (port : ℕ) → N.Ipv4Interface
      → M N RxStatus
      → M N RxStatus
  unfolding forward_all
  dispatch [] packet header port interface otherwise = otherwise
  dispatch (ep ∷ eps) packet header port interface otherwise = do
    forward_all (ep ∷ eps) packet header port interface
    pure rx_ok

  dispatch6 :
      List N.Ipv6EndPoint
      → N.Packet
      → Ipv6Header N.Ipv6Address
      → (port : ℕ) → Option N.Ipv6Interface
      → M N RxStatus
  unfolding forward_all6
  dispatch6 [] packet header port interface = pure rx_endpoint_unreach
  dispatch6 (ep ∷ eps) packet header port interface = do
    forward_all6 (ep ∷ eps) packet header port interface
    pure rx_ok

module _ (N : Ns3) (E : Env N) where
  -- The functions `Send` with a route, and those without, which pass 0.
  unfoldable pub l4_send :
      N.Packet
      → (source destination : N.Ipv4Address) → (sport dport : ℕ) → Option N.Ipv4Route
      → M N (Unit {0})
  unfolding outgoing add_header
  l4_send packet source destination sport dport route = do
    memory ← ask E.uninitialised
    s ← get
    target ← deref s.l4.down_target
    emit (
        down target (add_header N (outgoing sport dport memory) packet) source destination
          prot_number route)

  unfoldable pub l4_send6 :
      N.Packet
      → (source destination : N.Ipv6Address) → (sport dport : ℕ) → Option N.Ipv6Route
      → M N (Unit {0})
  unfolding outgoing add_header
  l4_send6 packet source destination sport dport route = do
    memory ← ask E.uninitialised
    s ← get
    target ← deref s.l4.down_target6
    emit (
        down6 target (add_header N (outgoing sport dport memory) packet) source destination
          prot_number route)

  -- `Receive` for IPv6. The header is removed before the checksum is tested, and a packet from a mapped
  -- address passes the test.
  pub receive6 : N.Packet → Ipv6Header N.Ipv6Address → Option N.Ipv6Interface → M N RxStatus
  unfolding peek_header dispatch6
  receive6 packet header interface = do
    memory ← ask E.uninitialised
    h ← peek_header N (new_header memory) packet
    checked ← ask (λ t. E.checksum_ok6 t header.source header.destination prot_number packet)
    if not checked && not (is_some (N.ipv4_mapped header.source)) then pure rx_csum_failed else do
      s ← get
      need N s.l4.has_end_points6
      found ← ask (λ t.
          E.lookup6 t header.destination h.destination_port header.source h.source_port interface)
      dispatch6 N found (N.remove_at_start serialized_size packet) header h.source_port interface

  -- `Receive` for IPv4. A packet that no end point takes is tried on IPv6, under mapped addresses and
  -- with no interface.
  pub receive : N.Packet → Ipv4Header N.Ipv4Address → N.Ipv4Interface → M N RxStatus
  unfolding peek_header dispatch receive6
  receive packet header interface = do
    memory ← ask E.uninitialised
    h ← peek_header N (new_header memory) packet
    checked ← ask (λ t. E.checksum_ok t header.source header.destination prot_number packet)
    if not checked then pure rx_csum_failed else do
      s ← get
      need N s.l4.has_end_points
      found ← ask (λ t.
          E.lookup t header.destination h.destination_port header.source h.source_port interface)
      has_ipv6 ← ask E.has_ipv6_l3
      dispatch N found (N.remove_at_start serialized_size packet) header h.source_port interface (
          if has_ipv6
          then receive6 packet
              (record N.new_ipv6_header {
                source = N.make_ipv4_mapped header.source;
                destination = N.make_ipv4_mapped header.destination;
              })
              none
          else pure rx_endpoint_unreach)

  -- The functions `ReceiveIcmp`.
  pub receive_icmp :
      N.Ipv4Address
      → (ttl type code info : ℕ) → (payload_source payload_destination : N.Ipv4Address)
      → (payload : List ℕ) → M N (Unit {0})
  unfolding icmp_ports
  receive_icmp source ttl type code info from to payload = do
    let (sport, dport) = icmp_ports payload
    s ← get
    need N s.l4.has_end_points
    found ← ask (λ t. E.simple_lookup t from sport to dport)
    elim found [ none ↦ skip | some ep ↦ emit (forward_icmp ep source ttl type code info) ]

  pub receive_icmp6 :
      N.Ipv6Address
      → (ttl type code info : ℕ) → (payload_source payload_destination : N.Ipv6Address)
      → (payload : List ℕ) → M N (Unit {0})
  unfolding icmp_ports
  receive_icmp6 source ttl type code info from to payload = do
    let (sport, dport) = icmp_ports payload
    s ← get
    need N s.l4.has_end_points6
    found ← ask (λ t. E.simple_lookup6 t from sport to dport)
    elim found [ none ↦ skip | some ep ↦ emit (forward_icmp6 ep source ttl type code info) ]
