-- ===== src/Socket/Binding/Ready.antt =====
-- That a socket with all it needs has an end point once it sends, in rudp-socket-impl.cc.
use rudpns.Prelude.{◌≡◌, Bool, true, is_some, arith}
use rudpns.Ns3.{Ns3, Env, Trace, Request, ephemeral}
use rudpns.State.{State, Returns}
use rudpns.L4.{l4_allocate, l4_allocate6}
use rudpns.Socket.Binding.{
  ensure_bound, ensure_bound6, bind_ephemeral, bind_ephemeral6, take_end_point, take_end_point6,
  finish_bind,
}
use rudpns.Socket.Closing.Release.{IsWired}

module _ (N : Ns3) where
  -- A socket that `CreateSocket` made on a node with IPv4 and IPv6, whose protocol object was inserted
  -- into both and not disposed of.
  pub record IsReady (s : State N) : Type 0 where
    pub wired : IsWired N s
    pub has_node : is_some s.socket.node ≡ true
    pub has_target : is_some s.l4.down_target ≡ true
    pub has_target6 : is_some s.l4.down_target6 ≡ true

module _ (N : Ns3) (E : Env N) where
  -- What ns-3 answers there: the node has both protocols, and the ports do not run out.
  pub record Serves : Type 0 where
    pub node_ipv4 : (t : Trace N) (node : N.Node) → E.node_ipv4 t node ≡ true
    pub node_ipv6 : (t : Trace N) (node : N.Node) → E.node_ipv6 t node ≡ true
    pub allocated : (t : Trace N) (r : Request N.Ipv4Address) → is_some (E.allocated t r) ≡ true
    pub allocated6 : (t : Trace N) (r : Request N.Ipv6Address) → is_some (E.allocated6 t r) ≡ true

  abbrev pub IsBound : Bool → State N → Type 0
  IsBound b s = IsReady N s × (is_some s.socket.end_point ≡ true)

  abbrev pub IsBound6 : Bool → State N → Type 0
  IsBound6 b s = IsReady N s × (is_some s.socket.end_point6 ≡ true)

  module _ (serves : Serves) (s : State N) (v : IsReady N s) where
    pub ensure_bound-IsBound : Returns IsBound (ensure_bound N E s)
    unfolding ensure_bound bind_ephemeral take_end_point finish_bind l4_allocate
    ensure_bound-IsBound = ground (
      arith,
      v.wired.has_rudp,
      v.wired.has_end_points,
      v.wired.has_end_points6,
      v.has_node,
      v.has_target,
      v.has_target6,
      serves.allocated s.trace ephemeral,
    )

    pub ensure_bound6-IsBound6 : Returns IsBound6 (ensure_bound6 N E s)
    unfolding ensure_bound6 bind_ephemeral6 take_end_point6 finish_bind l4_allocate6
    ensure_bound6-IsBound6 = ground (
      arith,
      v.wired.has_rudp,
      v.wired.has_end_points,
      v.wired.has_end_points6,
      v.has_node,
      v.has_target,
      v.has_target6,
      serves.allocated6 s.trace ephemeral,
    )
