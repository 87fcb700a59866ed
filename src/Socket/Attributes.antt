-- ===== src/Socket/Attributes.antt =====
-- The attributes that `RudpSocket::GetTypeId` of rudp-socket.cc and `RudpSocketImpl::GetTypeId` of
-- rudp-socket-impl.cc register: their names, initial values, checkers and accessors.
use Prim.Native.String.{String}
use rudpns.Prelude.{ℕ, ◌^◌, ◌≡◌, refl, Bool, true, false, Option, none, ltb}
use rudpns.Ns3.{Ns3}
use rudpns.State.{Socket, SocketOptions, State, ok, Returns, M, modify}
use rudpns.L4.Aggregate.{new_socket}
use rudpns.Socket.{set_rcv_buf_size, set_mtu_discover}
use rudpns.Socket.Base.{RudpSocket, rudp_socket_impl}

pub data Attribute : Type 0 where
  rcv_buf_size_attribute ip_ttl_attribute mtu_discover_attribute : Attribute
  icmp_callback_attribute icmp_callback6_attribute : Attribute

unfoldable pub attribute_name : Attribute → String
attribute_name rcv_buf_size_attribute = "RcvBufSize"
attribute_name ip_ttl_attribute = "IpTtl"
attribute_name mtu_discover_attribute = "MtuDiscover"
attribute_name icmp_callback_attribute = "IcmpCallback"
attribute_name icmp_callback6_attribute = "IcmpCallback6"

module _ (N : Ns3) where
  pub data AttributeValue : Type 0 where
    uinteger : ℕ → AttributeValue
    boolean : Bool → AttributeValue
    callback : Option N.IcmpCallback → AttributeValue
    callback6 : Option N.IcmpCallback6 → AttributeValue

  pub initial_value : Attribute → AttributeValue
  initial_value rcv_buf_size_attribute = uinteger 131072
  initial_value ip_ttl_attribute = uinteger 0
  initial_value mtu_discover_attribute = boolean false
  initial_value icmp_callback_attribute = callback none
  initial_value icmp_callback6_attribute = callback6 none

  -- The checkers: the class of the value, and the range of `uint32_t` or `uint8_t`.
  unfoldable pub checks : Attribute → AttributeValue → Bool
  checks rcv_buf_size_attribute (uinteger n) = ltb n (2 ^ 32)
  checks ip_ttl_attribute (uinteger n) = ltb n (2 ^ 8)
  checks mtu_discover_attribute (boolean b) = true
  checks icmp_callback_attribute (callback f) = true
  checks icmp_callback6_attribute (callback6 f) = true
  checks _ _ = false

  module _ (B : RudpSocket N) (set_ip_ttl : ℕ → SocketOptions → SocketOptions) where
    -- The accessors that write and those that read. `SetIpTtl` and `GetIpTtl` are ns-3's, of the base
    -- class. A value of another class is refused by the checker before it comes here.
    pub set_attribute : Attribute → AttributeValue → M N (Unit {0})
    set_attribute rcv_buf_size_attribute (uinteger n) = B.set_size n
    set_attribute ip_ttl_attribute (uinteger n) =
        modify (λ s. record s { options = set_ip_ttl n s.options })
    set_attribute mtu_discover_attribute (boolean b) = B.set_discover b
    set_attribute icmp_callback_attribute (callback f) =
        modify (λ s. record s { icmp_callback = f })
    set_attribute icmp_callback6_attribute (callback6 f) =
        modify (λ s. record s { icmp_callback6 = f })
    set_attribute _ _ = λ s. ok (tt, s)

    pub get_attribute : Attribute → State N → AttributeValue
    get_attribute rcv_buf_size_attribute s = uinteger (B.get_size s)
    get_attribute ip_ttl_attribute s = uinteger s.socket.options.get_ip_ttl
    get_attribute mtu_discover_attribute s = boolean (B.get_discover s)
    get_attribute icmp_callback_attribute s = callback s.socket.icmp_callback
    get_attribute icmp_callback6_attribute s = callback6 s.socket.icmp_callback6

  -- What the model's new socket has is what its initial values set: but for the options of the base
  -- class, they change nothing.
  initial-new_socket :
      (set_ip_ttl : ℕ → SocketOptions → SocketOptions) (a : Attribute) (memory : Socket N)
      (s : State N) (o : SocketOptions)
      → let fresh = record s { socket = new_socket N memory } in
        Returns
          (λ _ t. record t.socket { options = o } ≡ record (new_socket N memory) { options = o })
          (set_attribute (rudp_socket_impl N) set_ip_ttl a (initial_value a) fresh)
  unfolding set_attribute initial_value new_socket rudp_socket_impl set_rcv_buf_size
      set_mtu_discover
  initial-new_socket set_ip_ttl rcv_buf_size_attribute memory s o = refl
  initial-new_socket set_ip_ttl ip_ttl_attribute memory s o = refl
  initial-new_socket set_ip_ttl mtu_discover_attribute memory s o = refl
  initial-new_socket set_ip_ttl icmp_callback_attribute memory s o = refl
  initial-new_socket set_ip_ttl icmp_callback6_attribute memory s o = refl
