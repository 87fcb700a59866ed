-- ===== src/L4.antt =====
-- rudp-l4-protocol.h and rudp-l4-protocol.cc, and rudp-socket-factory-impl.cc: the protocol object
-- of a node, which owns the end points and the sockets.
pub mod Aggregate
pub mod Datagram
use rudpns.Prelude.{
  ℕ, suc, ◌+◌, Bool, true, false, ◌&&◌, ◌||◌, not, Option, none, some, List, [], ◌∷◌, ◌++◌, is_some,
  if◌then◌else◌,
}
use rudpns.Ns3.{
  Ns3, Env, SocketErrno, not_error, Request, Call, allocate, allocate6, deallocate, deallocate6,
  insert, insert6, aggregate_factory, base_notify_new_aggregate, base_do_dispose, delete_end_points,
  delete_end_points6,
}
use rudpns.State.{
  L4, Socket, SocketOptions, State, M, Fault, null_dereference, pure, raise, ◌>>=◌, ◌>>◌, skip,
  emit, get, ask, modify_l4, deref,
}

-- `RudpL4Protocol::PROT_NUMBER`.
abbrev pub prot_number : ℕ
prot_number = 254

get_protocol_number : ℕ
get_protocol_number = prot_number

module _ (N : Ns3) where
  -- `RudpL4Protocol::RudpL4Protocol`.
  unfoldable pub new_l4 : L4 N
  new_l4 = record {
    l4_node = none;
    has_end_points = true;
    has_end_points6 = true;
    sockets = [];
    created = 0;
    down_target = none;
    down_target6 = none;
  }

  -- A use of `m_endPoints` or `m_endPoints6`, which `DoDispose` sets to null.
  abbrev pub need : Bool → M N (Unit {0})
  need present = if present then skip else raise null_dereference

  pub set_node : N.Node → M N (Unit {0})
  set_node node = modify_l4 (λ l. record l { l4_node = some node })

  pub set_down_target : N.DownTarget → M N (Unit {0})
  set_down_target callback = modify_l4 (λ l. record l { down_target = some callback })

  pub set_down_target6 : N.DownTarget6 → M N (Unit {0})
  set_down_target6 callback = modify_l4 (λ l. record l { down_target6 = some callback })

  -- `GetDownTarget` and `GetDownTarget6`.
  get_down_target : M N (Option N.DownTarget)
  get_down_target s = pure s.l4.down_target s

  get_down_target6 : M N (Option N.DownTarget6)
  get_down_target6 s = pure s.l4.down_target6 s

  -- `DeAllocate` of either kind of end point.
  unfoldable pub l4_deallocate : N.Ipv4EndPoint → M N (Unit {0})
  l4_deallocate ep = do s ← get; need s.l4.has_end_points; emit (deallocate ep)

  unfoldable pub l4_deallocate6 : N.Ipv6EndPoint → M N (Unit {0})
  l4_deallocate6 ep = do s ← get; need s.l4.has_end_points6; emit (deallocate6 ep)

module _ (N : Ns3) (E : Env N) where
  -- The five functions `Allocate`, one for each overload of the demultiplexer's, and `Allocate6`.
  unfoldable pub l4_allocate : Request N.Ipv4Address → M N (Option N.Ipv4EndPoint)
  l4_allocate r = do
    s ← get
    need N s.l4.has_end_points
    answer ← ask (λ t. E.allocated t r)
    emit (allocate r)
    pure answer

  unfoldable pub l4_allocate6 : Request N.Ipv6Address → M N (Option N.Ipv6EndPoint)
  l4_allocate6 r = do
    s ← get
    need N s.l4.has_end_points6
    answer ← ask (λ t. E.allocated6 t r)
    emit (allocate6 r)
    pure answer
