-- ===== src/Ns3/Laws.antt =====
-- What the source relies on of ns-3's addresses and packets, as its documentation has it.
use rudpns.Header.Buffer.{IteratorLaws}
use rudpns.Prelude.{ℕ, ◌+◌, ◌≤◌, ◌≡◌, none, some, List, ◌++◌, drop, length}
use rudpns.Ns3.{Ns3, Tag, socket_address}

-- An `Address` is of one class, and converts back to what it was made of.
pub record AddressLaws (N : Ns3) : Type 0 where
  pub inet-of_inet : (a : N.Ipv4Address) (port : ℕ) → N.inet (N.of_inet a port) ≡ some (a, port)
  pub inet6-of_inet6 : (a : N.Ipv6Address) (port : ℕ) → N.inet6 (N.of_inet6 a port) ≡ some (a, port)
  pub inet-of_inet6 : (a : N.Ipv6Address) (port : ℕ) → N.inet (N.of_inet6 a port) ≡ none
  pub as_ipv4-of_ipv4 : (a : N.Ipv4Address) → N.as_ipv4 (N.of_ipv4 a) ≡ some a
  pub as_ipv6-of_ipv6 : (a : N.Ipv6Address) → N.as_ipv6 (N.of_ipv6 a) ≡ some a
  pub as_ipv4-of_ipv6 : (a : N.Ipv6Address) → N.as_ipv4 (N.of_ipv6 a) ≡ none
  pub inet-of_ipv4 : (a : N.Ipv4Address) → N.inet (N.of_ipv4 a) ≡ none
  pub inet6-of_ipv4 : (a : N.Ipv4Address) → N.inet6 (N.of_ipv4 a) ≡ none
  pub inet-of_ipv6 : (a : N.Ipv6Address) → N.inet (N.of_ipv6 a) ≡ none
  pub inet6-of_ipv6 : (a : N.Ipv6Address) → N.inet6 (N.of_ipv6 a) ≡ none

-- Tags do not count in a packet's size, nor change its bytes.
pub record TagLaws (N : Ns3) : Type 0 where
  pub size-tag :
      (t : Tag N.Address N.Ipv4PacketInfo N.Ipv6PacketInfo) (p : N.Packet)
      → N.get_size (N.add_packet_tag t p) ≡ N.get_size p
  pub size-remove_packet_info :
      (p : N.Packet) → N.get_size (N.remove_packet_info p).1 ≡ N.get_size p
  pub size-remove_packet_info6 :
      (p : N.Packet) → N.get_size (N.remove_packet_info6 p).1 ≡ N.get_size p
  pub size-remove_dont_fragment :
      (p : N.Packet) → N.get_size (N.remove_dont_fragment p).1 ≡ N.get_size p
  pub peek-tag :
      (a : N.Address) (p : N.Packet)
      → N.peek_socket_address (N.add_packet_tag (socket_address a) p) ≡ some a

-- Tags stand outside the buffer. `AddHeader`: the written bytes stand first, the rest of the room and the packet's bytes behind.
pub record BufferLaws (N : Ns3) : Type 0 where
  pub iterator_laws : IteratorLaws N.iterator
  pub buffer-add_at_start :
      (room : ℕ) (written : List ℕ) (p : N.Packet)
      → length written ≤ room
      → (spare : List ℕ) × (N.buffer (N.add_at_start room written p)
          ≡ written ++ (spare ++ N.buffer p))
        × (length written + length spare ≡ room)
  pub buffer-remove_at_start :
      (room : ℕ) (p : N.Packet) → N.buffer (N.remove_at_start room p) ≡ drop room (N.buffer p)
  pub buffer-tag :
      (t : Tag N.Address N.Ipv4PacketInfo N.Ipv6PacketInfo) (p : N.Packet)
      → N.buffer (N.add_packet_tag t p) ≡ N.buffer p
  pub buffer-remove_packet_info : (p : N.Packet) → N.buffer (N.remove_packet_info p).1 ≡ N.buffer p
  pub buffer-remove_packet_info6 :
      (p : N.Packet) → N.buffer (N.remove_packet_info6 p).1 ≡ N.buffer p
  pub buffer-remove_dont_fragment :
      (p : N.Packet) → N.buffer (N.remove_dont_fragment p).1 ≡ N.buffer p
  pub size-buffer : (p : N.Packet) → N.get_size p ≡ length (N.buffer p)
