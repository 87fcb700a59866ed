-- ===== src/Types.antt =====
-- The types that the functions `GetTypeId` register, in rudp-header.cc, rudp-l4-protocol.cc,
-- rudp-socket.cc, rudp-socket-impl.cc and rudp-socket-factory.cc.
use Prim.Native.String.{String}
use rudpns.Prelude.{◌≡◌, refl, Bool, true, false, List, [], ◌∷◌, map}
use rudpns.Socket.Attributes.{
  attribute_name, rcv_buf_size_attribute, ip_ttl_attribute, mtu_discover_attribute,
  icmp_callback_attribute, icmp_callback6_attribute,
}

pub record TypeId : Type 0 where
  pub name : String
  pub parent : String
  pub group : String
  pub constructible : Bool
  pub attributes : List String
  pub trace_sources : List String

header_type_id : TypeId
header_type_id = record {
  name = "ns3::RudpHeader";
  parent = "ns3::Header";
  group = "Internet";
  constructible = true;
  attributes = [];
  trace_sources = [];
}

l4_type_id : TypeId
l4_type_id = record {
  name = "ns3::RudpL4Protocol";
  parent = "ns3::IpL4Protocol";
  group = "Internet";
  constructible = true;
  attributes = "SocketList" ∷ [];
  trace_sources = [];
}

rudp_socket_type_id : TypeId
unfolding attribute_name
rudp_socket_type_id = record {
  name = "ns3::RudpSocket";
  parent = "ns3::Socket";
  group = "Internet";
  constructible = false;
  attributes =
      map attribute_name (rcv_buf_size_attribute ∷ ip_ttl_attribute ∷ mtu_discover_attribute ∷ []);
  trace_sources = [];
}

rudp_socket_impl_type_id : TypeId
unfolding attribute_name
rudp_socket_impl_type_id = record {
  name = "ns3::RudpSocketImpl";
  parent = "ns3::RudpSocket";
  group = "Internet";
  constructible = true;
  attributes = map attribute_name (icmp_callback_attribute ∷ icmp_callback6_attribute ∷ []);
  trace_sources = "Drop" ∷ [];
}

socket_factory_type_id : TypeId
socket_factory_type_id = record {
  name = "ns3::RudpSocketFactory";
  parent = "ns3::SocketFactory";
  group = "Internet";
  constructible = false;
  attributes = [];
  trace_sources = [];
}

-- The parent of the socket's class is the abstract class that is registered for it.
parent-rudp_socket : rudp_socket_impl_type_id.parent ≡ rudp_socket_type_id.name
unfolding rudp_socket_impl_type_id rudp_socket_type_id
parent-rudp_socket = refl
