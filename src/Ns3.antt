-- ===== src/Ns3.antt =====
-- What the source uses of ns-3 and does not implement: types, pure functions on addresses and
-- packets, the calls that are made, and the answers that come back. All of it is a parameter of the
-- model: `Ns3` and `Env` are taken by every definition that needs them.
pub mod Laws
pub mod Owner
pub mod Used
use rudpns.Header.Buffer.{Iterator}
use rudpns.Prelude.{ℕ, Bool, Option, List}
use rudpns.Header.{RudpHeader}

-- `Socket::SocketErrno`: the enumerators that the source names, and those that only routing gives.
pub data SocketErrno : Type 0 where
  not_error not_conn shutdown msg_size af_no_support no_route_to_host again badf inval : SocketErrno
  addr_in_use addr_not_avail op_not_supp : SocketErrno
  from_routing : ℕ → SocketErrno

-- The fields of ns-3's IP headers that the source reads or writes.
pub record Ipv4Header (A : Type 0) : Type 0 where
  pub source : A
  pub destination : A
  pub tos : ℕ
  pub ttl : ℕ

pub record Ipv6Header (A : Type 0) : Type 0 where
  pub source : A
  pub destination : A
  pub traffic_class : ℕ
  pub hop_limit : ℕ

-- The packet tags that the source adds. `I` and `J` are the packet information of IPv4 and IPv6.
pub data Tag (A I J : Type 0) : Type 0 where
  ip_tos ip_ttl ipv6_tclass ipv6_hop_limit : ℕ → Tag A I J
  dont_fragment : Bool → Tag A I J
  packet_info : I → Tag A I J
  packet_info6 : J → Tag A I J
  socket_address : A → Tag A I J

-- Pointers are values of these types; `Option` where the source tests one for null.
pub record Ns3 : Type 1 where
  pub Packet : Type 0
  pub Ipv4Address : Type 0
  pub Ipv6Address : Type 0
  pub Address : Type 0
  pub Ipv4EndPoint : Type 0
  pub Ipv6EndPoint : Type 0
  pub Ipv4Route : Type 0
  pub Ipv6Route : Type 0
  pub Ipv4Interface : Type 0
  pub Ipv6Interface : Type 0
  pub Ipv4PacketInfo : Type 0
  pub Ipv6PacketInfo : Type 0
  pub NetDevice : Type 0
  pub Node : Type 0
  pub DownTarget : Type 0
  pub DownTarget6 : Type 0
  pub IcmpCallback : Type 0
  pub IcmpCallback6 : Type 0
  -- `IsMatchingType` with `ConvertFrom` of the four address classes, and the conversions back.
  pub inet : Address → Option (Ipv4Address × ℕ)
  pub inet6 : Address → Option (Ipv6Address × ℕ)
  pub as_ipv4 : Address → Option Ipv4Address
  pub as_ipv6 : Address → Option Ipv6Address
  pub of_inet : Ipv4Address → ℕ → Address
  pub of_inet6 : Ipv6Address → ℕ → Address
  pub of_ipv4 : Ipv4Address → Address
  pub of_ipv6 : Ipv6Address → Address
  pub no_address : Address
  -- `== Ipv4Address::GetAny ()` and the like.
  pub is_any : Ipv4Address → Bool
  pub is_multicast : Ipv4Address → Bool
  pub is_broadcast : Ipv4Address → Bool
  pub zero_address : Ipv4Address
  pub is_any6 : Ipv6Address → Bool
  pub is_multicast6 : Ipv6Address → Bool
  pub ipv4_mapped : Ipv6Address → Option Ipv4Address
  pub make_ipv4_mapped : Ipv4Address → Ipv6Address
  pub new_ipv6_header : Ipv6Header Ipv6Address
  -- `AddHeader` makes room at the front and lets the header write there; `buffer` is what a header
  -- reads; `RemoveHeader` takes the room away. `Copy` is the packet itself: packets are values here.
  pub iterator : Iterator
  pub get_size : Packet → ℕ
  pub buffer : Packet → List ℕ
  pub add_at_start : (room : ℕ) → (written : List ℕ) → Packet → Packet
  pub remove_at_start : (room : ℕ) → Packet → Packet
  pub add_packet_tag : Tag Address Ipv4PacketInfo Ipv6PacketInfo → Packet → Packet
  pub remove_dont_fragment : Packet → Bool × Packet
  pub remove_packet_info : Packet → Ipv4PacketInfo × Packet
  pub remove_packet_info6 : Packet → Ipv6PacketInfo × Packet
  pub set_recv_if : Ipv4PacketInfo → ℕ → Ipv4PacketInfo
  pub set_recv_if6 : Ipv6PacketInfo → ℕ → Ipv6PacketInfo
  pub peek_socket_address : Packet → Option Address
  -- `GetDevice ()->GetIfIndex ()`, and `GetSource` of a route.
  pub if_index : Ipv4Interface → ℕ
  pub if_index6 : Ipv6Interface → ℕ
  pub route_source : Ipv4Route → Ipv4Address
  pub route_source6 : Ipv6Route → Ipv6Address
  -- `UdpL4Protocol::PROT_NUMBER`, and `MakeCallback (&Ipv4::Send, ipv4)` with its like.
  pub udp_prot_number : ℕ
  pub ipv4_send : DownTarget
  pub ipv6_send : DownTarget6

-- Which of the overloads of `Ipv4EndPointDemux::Allocate` is called (`Ipv6EndPointDemux` has the same).
pub data Request (A : Type 0) : Type 0 where
  ephemeral : Request A
  address_only : A → Request A
  port_only : ℕ → Request A
  address_port : A → ℕ → Request A
  connection : A → ℕ → A → ℕ → Request A

-- The calls out of the module that change something there.
pub data Call (N : Ns3) : Type 0 where
  allocate : Request N.Ipv4Address → Call N
  allocate6 : Request N.Ipv6Address → Call N
  deallocate : N.Ipv4EndPoint → Call N
  deallocate6 : N.Ipv6EndPoint → Call N
  set_rx_callback set_icmp_callback : N.Ipv4EndPoint → (socket : ℕ) → Call N
  set_rx_callback6 set_icmp_callback6 : N.Ipv6EndPoint → (socket : ℕ) → Call N
  set_destroy_callback : N.Ipv4EndPoint → (socket : Option ℕ) → Call N
  set_destroy_callback6 : N.Ipv6EndPoint → (socket : Option ℕ) → Call N
  set_rx_enabled : N.Ipv4EndPoint → Bool → Call N
  set_rx_enabled6 : N.Ipv6EndPoint → Bool → Call N
  bind_end_point : N.Ipv4EndPoint → Option N.NetDevice → Call N
  bind_end_point6 : N.Ipv6EndPoint → Option N.NetDevice → Call N
  forward_up :
      N.Ipv4EndPoint → N.Packet → Ipv4Header N.Ipv4Address → (port : ℕ) → N.Ipv4Interface → Call N
  forward_up6 :
      N.Ipv6EndPoint
      → N.Packet
      → Ipv6Header N.Ipv6Address
      → (port : ℕ) → Option N.Ipv6Interface
      → Call N
  forward_icmp : N.Ipv4EndPoint → N.Ipv4Address → (ttl type code info : ℕ) → Call N
  forward_icmp6 : N.Ipv6EndPoint → N.Ipv6Address → (ttl type code info : ℕ) → Call N
  icmp : N.IcmpCallback → N.Ipv4Address → (ttl type code info : ℕ) → Call N
  icmp6 : N.IcmpCallback6 → N.Ipv6Address → (ttl type code info : ℕ) → Call N
  down :
      N.DownTarget
      → N.Packet
      → (source destination : N.Ipv4Address) → (protocol : ℕ) → Option N.Ipv4Route
      → Call N
  down6 :
      N.DownTarget6
      → N.Packet
      → (source destination : N.Ipv6Address) → (protocol : ℕ) → Option N.Ipv6Route
      → Call N
  insert insert6 delete_end_points delete_end_points6 : Call N
  aggregate_factory : N.Node → Call N
  base_notify_new_aggregate base_do_dispose : Call N
  notify_data_sent notify_send : ℕ → Call N
  notify_data_recv notify_connection_succeeded ipv6_leave_group : Call N
  base_bind_to_net_device : Option N.NetDevice → Call N
  drop_trace : N.Packet → Call N

-- The calls made so far, the last one first.
abbrev pub Trace : Ns3 → Type 0
Trace N = List (Call N)

pub data Routing (R : Type 0) : Type 0 where
  route : R → Routing R
  no_route : SocketErrno → Routing R

-- Answers of ns-3, each a function of the calls made before. `uninitialised` is what the memory of a
-- new header holds. `deleted` is the socket whose destroy callback an end point makes when it is
-- deleted, and `all_deleted` are the sockets that those of a demultiplexer call which is deleted.
-- `device_passes` is the sanity check that the base class makes of a device to which a socket of the
-- node is to be bound; the program asserts where it is `false`.
pub record Env (N : Ns3) : Type 0 where
  pub allocated : Trace N → Request N.Ipv4Address → Option N.Ipv4EndPoint
  pub allocated6 : Trace N → Request N.Ipv6Address → Option N.Ipv6EndPoint
  pub local_address : Trace N → N.Ipv4EndPoint → N.Ipv4Address
  pub local_port : Trace N → N.Ipv4EndPoint → ℕ
  pub local_address6 : Trace N → N.Ipv6EndPoint → N.Ipv6Address
  pub local_port6 : Trace N → N.Ipv6EndPoint → ℕ
  pub lookup :
      Trace N → N.Ipv4Address → ℕ → N.Ipv4Address → ℕ → N.Ipv4Interface → List N.Ipv4EndPoint
  pub lookup6 :
      Trace N → N.Ipv6Address → ℕ → N.Ipv6Address → ℕ → Option N.Ipv6Interface → List N.Ipv6EndPoint
  pub simple_lookup : Trace N → N.Ipv4Address → ℕ → N.Ipv4Address → ℕ → Option N.Ipv4EndPoint
  pub simple_lookup6 : Trace N → N.Ipv6Address → ℕ → N.Ipv6Address → ℕ → Option N.Ipv6EndPoint
  pub own_node : Trace N → Option N.Node
  pub own_ipv4 : Trace N → Bool
  pub has_ipv6_l3 : Trace N → Bool
  pub device_passes : Trace N → Option N.Node → Option N.NetDevice → Bool
  pub node_ipv4 : Trace N → N.Node → Bool
  pub node_ipv6 : Trace N → N.Node → Bool
  pub has_routing : Trace N → N.Node → Bool
  pub has_routing6 : Trace N → N.Node → Bool
  pub route_output :
      Trace N → N.Packet → N.Ipv4Address → (protocol : ℕ) → Option N.NetDevice → Routing N.Ipv4Route
  pub route_output6 :
      Trace N → N.Packet → N.Ipv6Address → (protocol : ℕ) → Option N.NetDevice → Routing N.Ipv6Route
  pub checksum_ok :
      Trace N → (source destination : N.Ipv4Address) → (protocol : ℕ) → N.Packet → Bool
  pub checksum_ok6 :
      Trace N → (source destination : N.Ipv6Address) → (protocol : ℕ) → N.Packet → Bool
  pub uninitialised : Trace N → RudpHeader
  pub deleted : Trace N → N.Ipv4EndPoint → Option ℕ
  pub deleted6 : Trace N → N.Ipv6EndPoint → Option ℕ
  pub all_deleted : Trace N → List ℕ
  pub all_deleted6 : Trace N → List ℕ
