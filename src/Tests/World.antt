-- ===== src/Tests/World.antt =====
-- A small ns-3 for the tests: addresses are numbers, packets are bytes with tags, and every answer is
-- fixed. It satisfies the laws that the results use.
use rudpns.Header.Buffer.{Iterator, IteratorLaws}
use rudpns.Prelude.{
  ◌*◌, ◌/◌, ◌%◌, ◌^◌, ap, ℕ, zero, suc, ◌+◌, ◌-◌, ◌<◌, ◌≡◌, refl, Bool, true, false, Option, none,
  some, List, [], ◌∷◌, ◌++◌, length, drop, ltb, ◌==◌, if◌then◌else◌, arith,
}
use rudpns.Header.{RudpHeader, IsTyped, IsPacked}
use rudpns.Ns3.{
  Ns3, Env, not_error, Ipv4Header, Ipv6Header, Tag, dont_fragment, socket_address, route,
}
use rudpns.Ns3.Laws.{AddressLaws, TagLaws, BufferLaws}
use rudpns.Socket.Binding.Ready.{IsReady, Serves}
use rudpns.State.{L4, Socket, SocketOptions, State}

pub data TestAddress : Type 0 where
  inet_address inet6_address : ℕ → ℕ → TestAddress
  ipv4_address ipv6_address : ℕ → TestAddress
  no_class : TestAddress

abbrev pub TestTag : Type 0
TestTag = Tag TestAddress ℕ ℕ

pub record TestPacket : Type 0 where
  pub tags : List TestTag
  pub bytes : List ℕ

abbrev to_inet : TestAddress → Option (ℕ × ℕ)
to_inet (inet_address a port) = some (a, port)
to_inet _ = none

abbrev to_inet6 : TestAddress → Option (ℕ × ℕ)
to_inet6 (inet6_address a port) = some (a, port)
to_inet6 _ = none

abbrev to_ipv4 : TestAddress → Option ℕ
to_ipv4 (ipv4_address a) = some a
to_ipv4 _ = none

abbrev to_ipv6 : TestAddress → Option ℕ
to_ipv6 (ipv6_address a) = some a
to_ipv6 _ = none

abbrev zeros : ℕ → List ℕ
zeros zero = []
zeros (suc n) = 0 ∷ zeros n

pub length-zeros : (n : ℕ) → length (zeros n) ≡ n
length-zeros zero = refl
length-zeros (suc n) = omega (arith, length-zeros n)

abbrev has_dont_fragment : List TestTag → Bool
has_dont_fragment [] = false
has_dont_fragment (dont_fragment b ∷ ts) = true
has_dont_fragment (_ ∷ ts) = has_dont_fragment ts

abbrev without_dont_fragment : List TestTag → List TestTag
without_dont_fragment [] = []
without_dont_fragment (dont_fragment b ∷ ts) = ts
without_dont_fragment (t ∷ ts) = t ∷ without_dont_fragment ts

abbrev sender : List TestTag → Option TestAddress
sender [] = none
sender (socket_address a ∷ ts) = some a
sender (_ ∷ ts) = sender ts

abbrev read_u16 : List ℕ → Option (ℕ × List ℕ)
read_u16 (a ∷ b ∷ rest) = some ((a * 256 + b) % 2 ^ 16, rest)
read_u16 _ = none

abbrev read_u32 : List ℕ → Option (ℕ × List ℕ)
read_u32 (a ∷ b ∷ c ∷ d ∷ rest) = some ((a * 2 ^ 24 + b * 2 ^ 16 + c * 2 ^ 8 + d) % 2 ^ 32, rest)
read_u32 _ = none

-- The byte of the highest digits comes first.
abbrev pub test_iterator : Iterator
test_iterator = record {
  write_hton_u16 = λ n. n / 256 % 256 ∷ n % 256 ∷ [];
  write_hton_u32 = λ n. n / 2 ^ 24 % 256 ∷ n / 2 ^ 16 % 256 ∷ n / 2 ^ 8 % 256 ∷ n % 256 ∷ [];
  read_ntoh_u16 = read_u16;
  read_ntoh_u32 = read_u32;
}

u16_bytes : (n : ℕ) → (n / 256 % 256 * 256 + n % 256) % 2 ^ 16 ≡ n % 2 ^ 16
u16_bytes n = omega arith

u32_bytes :
    (n : ℕ)
    → (n / 2 ^ 24 % 256 * 2 ^ 24 + n / 2 ^ 16 % 256 * 2 ^ 16 + n / 2 ^ 8 % 256 * 2 ^ 8 + n % 256)
        % 2 ^ 32
      ≡ n % 2 ^ 32
u32_bytes n = omega arith

u16_below : (buffer rest : List ℕ) (n : ℕ) → read_u16 buffer ≡ some (n, rest) → n < 2 ^ 16
u16_below [] rest n e = ground (arith, e)
u16_below (a ∷ []) rest n e = ground (arith, e)
u16_below (a ∷ b ∷ bytes) rest n e = ground (arith, e)

u32_below : (buffer rest : List ℕ) (n : ℕ) → read_u32 buffer ≡ some (n, rest) → n < 2 ^ 32
u32_below [] rest n e = ground (arith, e)
u32_below (a ∷ []) rest n e = ground (arith, e)
u32_below (a ∷ b ∷ []) rest n e = ground (arith, e)
u32_below (a ∷ b ∷ c ∷ []) rest n e = ground (arith, e)
u32_below (a ∷ b ∷ c ∷ d ∷ bytes) rest n e = ground (arith, e)

pub iterator_laws : IteratorLaws test_iterator
iterator_laws = record {
  length-write_hton_u16 = λ n. refl;
  length-write_hton_u32 = λ n. refl;
  read_ntoh_u16-write_hton_u16 = λ n rest. ap (λ m. some (m, rest)) (u16_bytes n);
  read_ntoh_u32-write_hton_u32 = λ n rest. ap (λ m. some (m, rest)) (u32_bytes n);
  read_ntoh_u16-lt = u16_below;
  read_ntoh_u32-lt = u32_below;
}

-- IPv4 addresses are mapped to the numbers from 1000 on.
abbrev pub ns3 : Ns3
ns3 = record {
  Packet = TestPacket;
  Ipv4Address = ℕ;
  Ipv6Address = ℕ;
  Address = TestAddress;
  Ipv4EndPoint = ℕ;
  Ipv6EndPoint = ℕ;
  Ipv4Route = ℕ;
  Ipv6Route = ℕ;
  Ipv4Interface = ℕ;
  Ipv6Interface = ℕ;
  Ipv4PacketInfo = ℕ;
  Ipv6PacketInfo = ℕ;
  NetDevice = ℕ;
  Node = ℕ;
  DownTarget = ℕ;
  DownTarget6 = ℕ;
  IcmpCallback = ℕ;
  IcmpCallback6 = ℕ;
  inet = to_inet;
  inet6 = to_inet6;
  as_ipv4 = to_ipv4;
  as_ipv6 = to_ipv6;
  of_inet = inet_address;
  of_inet6 = inet6_address;
  of_ipv4 = ipv4_address;
  of_ipv6 = ipv6_address;
  no_address = no_class;
  is_any = λ a. a == 0;
  is_multicast = λ a. a == 224;
  is_broadcast = λ a. a == 255;
  zero_address = 0;
  is_any6 = λ a. a == 0;
  is_multicast6 = λ a. a == 255;
  ipv4_mapped = λ a. if ltb a 1000 then none else some (a - 1000);
  make_ipv4_mapped = λ a. a + 1000;
  new_ipv6_header = record { source = 0; destination = 0; traffic_class = 0; hop_limit = 64 };
  iterator = test_iterator;
  get_size = λ p. length p.bytes;
  buffer = λ p. p.bytes;
  add_at_start =
      λ room written p. record p { bytes = written ++ (zeros (room - length written) ++ p.bytes) };
  remove_at_start = λ room p. record p { bytes = drop room p.bytes };
  add_packet_tag = λ t p. record p { tags = t ∷ p.tags };
  remove_dont_fragment =
      λ p. (has_dont_fragment p.tags, record p { tags = without_dont_fragment p.tags });
  remove_packet_info = λ p. (0, p);
  remove_packet_info6 = λ p. (0, p);
  set_recv_if = λ info n. n;
  set_recv_if6 = λ info n. n;
  peek_socket_address = λ p. sender p.tags;
  if_index = λ i. i;
  if_index6 = λ i. i;
  route_source = λ r. r;
  route_source6 = λ r. r;
  udp_prot_number = 17;
  ipv4_send = 4;
  ipv6_send = 6;
}

abbrev pub address_laws : AddressLaws ns3
address_laws = record {
  inet-of_inet = λ a port. refl;
  inet6-of_inet6 = λ a port. refl;
  inet-of_inet6 = λ a port. refl;
  as_ipv4-of_ipv4 = λ a. refl;
  as_ipv6-of_ipv6 = λ a. refl;
  as_ipv4-of_ipv6 = λ a. refl;
  inet-of_ipv4 = λ a. refl;
  inet6-of_ipv4 = λ a. refl;
  inet-of_ipv6 = λ a. refl;
  inet6-of_ipv6 = λ a. refl;
}

abbrev pub tag_laws : TagLaws ns3
tag_laws = record {
  size-tag = λ t p. refl;
  size-remove_packet_info = λ p. refl;
  size-remove_packet_info6 = λ p. refl;
  size-remove_dont_fragment = λ p. refl;
  peek-tag = λ a p. refl;
}

abbrev pub buffer_laws : BufferLaws ns3
buffer_laws = record {
  iterator_laws = iterator_laws;
  buffer-add_at_start = λ room written p fits.
      (zeros (room - length written), refl, omega (arith, length-zeros (room - length written)));
  buffer-remove_at_start = λ room p. refl;
  buffer-tag = λ t p. refl;
  buffer-remove_packet_info = λ p. refl;
  buffer-remove_packet_info6 = λ p. refl;
  buffer-remove_dont_fragment = λ p. refl;
  size-buffer = λ p. refl;
}

-- What a new header's memory holds.
abbrev pub memory : RudpHeader
memory = record {
  source_port = 1;
  destination_port = 2;
  payload_size = 3;
  sequence_number = 4;
  message_number = 5;
  type_bits = 6;
  position_flag = 1;
  inorder_flag = true;
  control_flag = true;
}

pub memory-IsTyped : IsTyped memory
memory-IsTyped = record {
  source_port = omega arith;
  destination_port = omega arith;
  payload_size = omega arith;
  sequence_number = omega arith;
  message_number = omega arith;
  type_bits = omega arith;
  position_flag = omega arith;
}

pub memory-IsPacked : IsPacked memory
memory-IsPacked = record {
  sequence_number = omega arith;
  message_number = omega arith;
  type_bits = omega arith;
  position_flag = omega arith;
}

-- End points 7 and 8 take what comes for address 20; allocation gives end point 9.
abbrev pub env : Env ns3
env = record {
  deleted = λ t ep. none;
  deleted6 = λ t ep. none;
  all_deleted = λ t. [];
  all_deleted6 = λ t. [];
  allocated = λ t r. some 9;
  allocated6 = λ t r. some 9;
  local_address = λ t ep. 0;
  local_port = λ t ep. 5000;
  local_address6 = λ t ep. 30;
  local_port6 = λ t ep. 5000;
  lookup = λ t a port b port' i. if a == 20 then 7 ∷ 8 ∷ [] else [];
  lookup6 = λ t a port b port' i. if a == 20 then 7 ∷ 8 ∷ [] else [];
  simple_lookup = λ t a port b port'. if port == 258 then some 7 else none;
  simple_lookup6 = λ t a port b port'. none;
  own_node = λ t. some 50;
  own_ipv4 = λ t. true;
  has_ipv6_l3 = λ t. false;
  device_passes = λ t node device. true;
  node_ipv4 = λ t node. true;
  node_ipv6 = λ t node. true;
  has_routing = λ t node. true;
  has_routing6 = λ t node. true;
  route_output = λ t p a protocol device. route 10;
  route_output6 = λ t p a protocol device. route 10;
  checksum_ok = λ t a b protocol p. true;
  checksum_ok6 = λ t a b protocol p. true;
  uninitialised = λ t. memory;
}

-- The ports have run out.
abbrev pub exhausted : Env ns3
exhausted = record env { allocated = λ t r. none; allocated6 = λ t r. none }

abbrev pub options : SocketOptions
options = record {
  is_manual_ip_tos = true;
  get_ip_tos = 16;
  is_manual_ip_ttl = true;
  get_ip_ttl = 64;
  is_manual_ipv6_tclass = true;
  get_ipv6_tclass = 8;
  is_manual_ipv6_hop_limit = false;
  get_ipv6_hop_limit = 0;
  is_recv_pkt_info = true;
  is_ip_recv_tos = true;
  is_ip_recv_ttl = true;
  is_ipv6_recv_tclass = true;
  is_ipv6_recv_hop_limit = false;
}

-- The same, with no ToS and no traffic class set by hand.
abbrev pub untagged_options : SocketOptions
untagged_options = record options { is_manual_ip_tos = false; is_manual_ipv6_tclass = false }

-- An open socket of the node, with no end point.
abbrev pub socket : Socket ns3
socket = record {
  this = 0;
  end_point = none;
  end_point6 = none;
  node = some 50;
  has_rudp = true;
  icmp_callback = none;
  icmp_callback6 = none;
  default_address = no_class;
  default_port = 0;
  errno = not_error;
  shutdown_send = false;
  shutdown_recv = false;
  connected = false;
  delivery_queue = [];
  rx_available = 0;
  rcv_buf_size = 8;
  mtu_discover = true;
  bound_net_device = none;
  options = options;
}

abbrev pub l4 : L4 ns3
l4 = record {
  l4_node = some 50;
  has_end_points = true;
  has_end_points6 = true;
  sockets = 0 ∷ [];
  created = 1;
  down_target = some 4;
  down_target6 = some 6;
}

abbrev pub start : State ns3
start = record { socket = socket; l4 = l4; trace = [] }

-- The socket with end points of both families.
abbrev pub bound_start : State ns3
bound_start = record start { socket = record socket { end_point = some 7; end_point6 = some 8 } }

abbrev pub untagged_start : State ns3
untagged_start = record bound_start {
  socket = record bound_start.socket { options = untagged_options };
}

abbrev pub packet : TestPacket
packet = record { tags = []; bytes = 1 ∷ 2 ∷ 3 ∷ [] }

abbrev pub ip_header : Ipv4Header ℕ
ip_header = record { source = 21; destination = 20; tos = 4; ttl = 5 }

abbrev pub ip_header6 : Ipv6Header ℕ
ip_header6 = record { source = 21; destination = 20; traffic_class = 4; hop_limit = 5 }

pub env-Serves : Serves ns3 env
env-Serves = record {
  node_ipv4 = λ t node. refl;
  node_ipv6 = λ t node. refl;
  allocated = λ t r. refl;
  allocated6 = λ t r. refl;
}

pub start-IsReady : IsReady ns3 start
start-IsReady = record {
  wired = record { has_rudp = refl; has_end_points = refl; has_end_points6 = refl };
  has_node = refl;
  has_target = refl;
  has_target6 = refl;
}

pub untagged_start-IsReady : IsReady ns3 untagged_start
untagged_start-IsReady = record {
  wired = record { has_rudp = refl; has_end_points = refl; has_end_points6 = refl };
  has_node = refl;
  has_target = refl;
  has_target6 = refl;
}

pub bound_start-IsReady : IsReady ns3 bound_start
bound_start-IsReady = record {
  wired = record { has_rudp = refl; has_end_points = refl; has_end_points6 = refl };
  has_node = refl;
  has_target = refl;
  has_target6 = refl;
}
