-- ===== src/L4/Aggregate.antt =====
-- `RudpL4Protocol::NotifyNewAggregate`, `DoDispose` and `CreateSocket` of rudp-l4-protocol.cc, the
-- constructor of `RudpSocketImpl`, and rudp-socket-factory-impl.cc.
pub mod Lifecycle
pub mod Creation
pub mod Owner
pub mod Ended
use rudpns.Prelude.{
  ℕ, ◌+◌, Bool, true, false, ◌&&◌, ◌||◌, not, Option, none, some, [], ◌∷◌, ◌++◌, is_some,
  if◌then◌else◌,
}
use rudpns.Ns3.{
  Ns3, Env, not_error, insert, insert6, aggregate_factory, base_notify_new_aggregate,
  base_do_dispose, delete_end_points, delete_end_points6,
}
use rudpns.State.{
  L4, Socket, State, M, pure, ◌>>=◌, ◌>>◌, skip, emit, get, ask, modify_l4, deref, assert,
}
use rudpns.Socket.{socket_set_node, socket_set_rudp}
use rudpns.L4.{set_node, set_down_target, set_down_target6}

module _ (N : Ns3) where
  -- Lines 113 to 123: a target is set at most once.
  notify_targets : (ipv4 ipv6 : Bool) → M N (Unit {0})
  unfolding set_down_target set_down_target6
  notify_targets ipv4 ipv6 = do
    s ← get
    if ipv4 && not (is_some s.l4.down_target)
        then (do emit insert; set_down_target N N.ipv4_send)
        else skip
    s ← get
    if ipv6 && not (is_some s.l4.down_target6)
        then (do emit insert6; set_down_target6 N N.ipv6_send)
        else skip
    emit base_notify_new_aggregate

  -- Lines 97 to 106. The factory is created with a pointer to this object.
  notify_node : (again : M N (Unit {0})) → (node : N.Node) → (ipv4 ipv6 : Bool) → M N (Unit {0})
  unfolding set_node
  notify_node again node ipv4 ipv6 = do
    s ← get
    if not (is_some s.l4.l4_node) && (ipv4 || ipv6)
        then (do set_node N node; emit (aggregate_factory node); again)
        else skip

  -- The members that `RudpSocketImpl::RudpSocketImpl` and the attributes of the class (with the
  -- defaults of rudp-socket.cc) set; the argument holds the others.
  unfoldable pub new_socket : Socket N → Socket N
  new_socket memory = record memory {
    end_point = none;
    end_point6 = none;
    node = none;
    has_rudp = false;
    icmp_callback = none;
    icmp_callback6 = none;
    errno = not_error;
    shutdown_send = false;
    shutdown_recv = false;
    connected = false;
    delivery_queue = [];
    rx_available = 0;
    rcv_buf_size = 131072;
    mtu_discover = false;
    bound_net_device = none;
  }

  -- `CreateSocket`.
  unfoldable pub create_socket : Socket N → M N (Socket N)
  unfolding new_socket socket_set_node socket_set_rudp
  create_socket memory = do
    s ← get
    let numbered = record (new_socket memory) { this = s.l4.created }
    let socket = socket_set_rudp N (socket_set_node N s.l4.l4_node numbered)
    modify_l4 (λ l. record l { sockets = l.sockets ++ l.created ∷ []; created = l.created + 1 })
    pure socket

  -- The loop that clears the pointers of `m_sockets` and the `clear` after it leave no socket.
  unfoldable pub do_dispose : M N (Unit {0})
  do_dispose = do
    modify_l4 (λ l. record l { sockets = [] })
    s ← get
    if s.l4.has_end_points
        then (do emit delete_end_points; modify_l4 (λ l. record l { has_end_points = false }))
        else skip
    s ← get
    if s.l4.has_end_points6
        then (do emit delete_end_points6; modify_l4 (λ l. record l { has_end_points6 = false }))
        else skip
    modify_l4 (λ l. record l { l4_node = none; down_target = none; down_target6 = none })
    emit base_do_dispose

module _ (N : Ns3) (E : Env N) where
  -- One run of `NotifyNewAggregate`, with what happens during its call of `AggregateObject`. The node
  -- is used on line 95 before it is tested on line 99.
  notify_run : (again : M N (Unit {0})) → M N (Unit {0})
  unfolding notify_targets notify_node
  notify_run again = do
    found ← ask E.own_node
    ipv4 ← ask E.own_ipv4
    node ← deref found
    ipv6 ← ask (λ t. E.node_ipv6 t node)
    notify_node N again node ipv4 ipv6
    notify_targets N ipv4 ipv6

  -- `AggregateObject` may notify this very object; the run inside finds `m_node` set.
  pub notify_new_aggregate : (notifies_again : Bool) → M N (Unit {0})
  unfolding notify_run
  notify_new_aggregate notifies_again =
      notify_run (if notifies_again then notify_run skip else skip)

-- `RudpSocketFactoryImpl`: its pointer to the protocol object.
pub record Factory : Type 0 where
  pub factory_rudp : Bool

pub new_factory : Factory
new_factory = record { factory_rudp = false }

pub factory_set_rudp : Factory → Factory
factory_set_rudp f = record f { factory_rudp = true }

pub factory_do_dispose : Factory → Factory
factory_do_dispose f = record f { factory_rudp = false }

module _ (N : Ns3) where
  -- `RudpSocketFactoryImpl::CreateSocket`.
  pub factory_create_socket : Factory → Socket N → M N (Socket N)
  unfolding create_socket
  factory_create_socket f memory = do
    deref (if f.factory_rudp then some tt else none)
    create_socket N memory

  -- `RudpSocketFactoryImpl::~RudpSocketFactoryImpl`.
  pub destroy_factory : Factory → M N (Unit {0})
  destroy_factory f = assert (not f.factory_rudp)
