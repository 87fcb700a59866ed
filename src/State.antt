-- ===== src/State.antt =====
-- The state that the functions of the module act on, and how they are composed. A function runs on
-- one socket (its `this`), the protocol object of the node, and the trace of the calls out.
use rudpns.Prelude.{ℕ, Bool, true, false, Option, none, some, List, ◌∷◌}
use rudpns.Ns3.{Ns3, SocketErrno, Call, Trace}

-- The members of `RudpL4Protocol`. A socket is known by its number, that of its creation.
pub record L4 (N : Ns3) : Type 0 where
  pub l4_node : Option N.Node
  pub has_end_points : Bool
  pub has_end_points6 : Bool
  pub sockets : List ℕ
  pub created : ℕ
  pub down_target : Option N.DownTarget
  pub down_target6 : Option N.DownTarget6

-- What the getters of the base class `Socket` answer.
pub record SocketOptions : Type 0 where
  pub is_manual_ip_tos : Bool
  pub get_ip_tos : ℕ
  pub is_manual_ip_ttl : Bool
  pub get_ip_ttl : ℕ
  pub is_manual_ipv6_tclass : Bool
  pub get_ipv6_tclass : ℕ
  pub is_manual_ipv6_hop_limit : Bool
  pub get_ipv6_hop_limit : ℕ
  pub is_recv_pkt_info : Bool
  pub is_ip_recv_tos : Bool
  pub is_ip_recv_ttl : Bool
  pub is_ipv6_recv_tclass : Bool
  pub is_ipv6_recv_hop_limit : Bool

-- The members of `RudpSocketImpl`; `has_rudp` is `m_rudp != 0`. The last two are the base class's.
pub record Socket (N : Ns3) : Type 0 where
  pub this : ℕ
  pub end_point : Option N.Ipv4EndPoint
  pub end_point6 : Option N.Ipv6EndPoint
  pub node : Option N.Node
  pub has_rudp : Bool
  pub icmp_callback : Option N.IcmpCallback
  pub icmp_callback6 : Option N.IcmpCallback6
  pub default_address : N.Address
  pub default_port : ℕ
  pub errno : SocketErrno
  pub shutdown_send : Bool
  pub shutdown_recv : Bool
  pub connected : Bool
  pub delivery_queue : List N.Packet
  pub rx_available : ℕ
  pub rcv_buf_size : ℕ
  pub mtu_discover : Bool
  pub bound_net_device : Option N.NetDevice
  pub options : SocketOptions

pub record State (N : Ns3) : Type 0 where
  pub socket : Socket N
  pub l4 : L4 N
  pub trace : Trace N

-- A failed `NS_ASSERT`, a member call through a null pointer, a read past the end of a buffer.
pub data Fault : Type 0 where
  assertion null_dereference buffer_overrun : Fault

pub data Result (A : Type 0) : Type 0 where
  ok : A → Result A
  fault : Fault → Result A

abbrev pub M : Ns3 → Type 0 → Type 0
M N A = State N → Result (A × State N)

module _ {N : Ns3} where
  abbrev pub pure : {A : Type 0} → A → M N A
  pure a s = ok (a, s)

  abbrev pub raise : {A : Type 0} → Fault → M N A
  raise f s = fault f

  infixl 5 ◌>>=◌ ◌>>◌
  abbrev pub ◌>>=◌ : {A B : Type 0} → M N A → (A → M N B) → M N B
  ◌>>=◌ m k s = elim (m s) [ ok (a, s') ↦ k a s' | fault f ↦ fault f ]

  abbrev pub ◌>>◌ : {A B : Type 0} → M N A → M N B → M N B
  m >> n = m >>= λ _. n

  abbrev pub skip : M N (Unit {0})
  skip = pure tt

  abbrev pub emit : Call N → M N (Unit {0})
  emit c s = ok (tt, record s { trace = c ∷ s.trace })

  abbrev pub get : M N (State N)
  get s = ok (s, s)

  abbrev pub this_socket : M N (Socket N)
  this_socket s = ok (s.socket, s)

  -- An answer of ns-3 after the calls made so far.
  abbrev pub ask : {A : Type 0} → (Trace N → A) → M N A
  ask f s = ok (f s.trace, s)

  abbrev pub modify : (Socket N → Socket N) → M N (Unit {0})
  modify f s = ok (tt, record s { socket = f s.socket })

  abbrev pub modify_l4 : (L4 N → L4 N) → M N (Unit {0})
  modify_l4 f s = ok (tt, record s { l4 = f s.l4 })

  -- `NS_ASSERT`.
  abbrev pub assert : Bool → M N (Unit {0})
  assert true = pure tt
  assert false = raise assertion

  -- `*p`.
  abbrev pub deref : {A : Type 0} → Option A → M N A
  deref none = raise null_dereference
  deref (some a) = pure a

  abbrev pub set_errno : SocketErrno → M N (Unit {0})
  set_errno e = modify (λ s. record s { errno = e })

-- Total correctness of a run: it makes no fault, and its result and final state satisfy `P`.
abbrev pub Returns : {N : Ns3} {A : Type 0} → (A → State N → Type 0) → Result (A × State N) → Type 0
Returns P (ok (a, s)) = P a s
Returns P (fault f) = ⊥

-- The rule for a sequence.
pub Returns-bind :
    {N : Ns3} {A B : Type 0} {P : A → State N → Type 0} (Q : B → State N → Type 0) (m : M N A)
    (k : A → M N B) (s : State N)
    → Returns P (m s)
    → ((a : A) (s' : State N) → P a s' → Returns Q (k a s'))
    → Returns Q ((m >>= k) s)
Returns-bind {N} {A} {B} {P} Q m k s = go (m s)
  where
    go :
        (r : Result (A × State N))
        → Returns P r
        → ((a : A) (s' : State N) → P a s' → Returns Q (k a s'))
        → Returns Q (elim r [ ok (a, s') ↦ k a s' | fault f ↦ fault f ])
    go (ok (a, s')) p next = next a s' p
    go (fault f) p next = absurd p
