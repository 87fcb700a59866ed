-- ===== src/L4/Aggregate/Lifecycle.antt =====
-- The protocol object of rudp-l4-protocol.cc from its aggregation to its disposal.
use rudpns.Prelude.{
  ℕ, ◌+◌, ◌≡◌, refl, Bool, true, false, none, some, [], ◌∷◌, ◌++◌, arith, if◌then◌else◌, is_some,
}
use rudpns.Ns3.{
  Ns3, Env, Trace, Request, insert, insert6, aggregate_factory, base_do_dispose, delete_end_points,
  delete_end_points6,
}
use rudpns.State.{State, ok, fault, null_dereference, M, skip, Returns, Returns-bind}
use rudpns.L4.{
  set_node, set_down_target, set_down_target6, l4_allocate, l4_allocate6, l4_deallocate,
  l4_deallocate6,
}
use rudpns.L4.Aggregate.{notify_targets, notify_node, notify_run, notify_new_aggregate, do_dispose}

module _ (N : Ns3) where
  -- The calls of `Ipv4::Insert`, and of `Ipv6::Insert`.
  abbrev pub inserts : Trace N → ℕ
  inserts [] = 0
  inserts (insert ∷ t) = 1 + inserts t
  inserts (_ ∷ t) = inserts t

  abbrev pub inserts6 : Trace N → ℕ
  inserts6 [] = 0
  inserts6 (insert6 ∷ t) = 1 + inserts6 t
  inserts6 (_ ∷ t) = inserts6 t

  -- The object is inserted into a protocol at most once, and exactly if its down target is set.
  pub record IsInserted (s : State N) : Type 0 where
    pub ipv4 : inserts s.trace ≡ (if is_some s.l4.down_target then 1 else 0)
    pub ipv6 : inserts6 s.trace ≡ (if is_some s.l4.down_target6 then 1 else 0)

  notify_targets-IsInserted :
      (ipv4 ipv6 : Bool) (s : State N)
      → IsInserted s
      → Returns (λ _. IsInserted) (notify_targets N ipv4 ipv6 s)
  unfolding notify_targets set_down_target set_down_target6
  notify_targets-IsInserted ipv4 ipv6 s v = ground (arith, v.ipv4, v.ipv6)

  -- A run inside that keeps the insertions.
  abbrev Keeps : M N (Unit {0}) → Type 0
  Keeps again = (s : State N) → IsInserted s → Returns (λ _. IsInserted) (again s)

  notify_node-IsInserted :
      (again : M N (Unit {0})) (node : N.Node) (ipv4 ipv6 : Bool) (s : State N)
      → Keeps again
      → IsInserted s
      → Returns (λ _. IsInserted) (notify_node N again node ipv4 ipv6 s)
  unfolding notify_node set_node
  notify_node-IsInserted again node ipv4 ipv6 s keeps v =
      let inner = record s {
        l4 = record s.l4 { l4_node = some node };
        trace = aggregate_factory node ∷ s.trace;
      } in
      ground (arith, v, keeps inner (record { ipv4 = v.ipv4; ipv6 = v.ipv6 }))

  -- The state that `DoDispose` leaves.
  abbrev pub disposed : State N → State N
  disposed s = record s {
    l4 = record s.l4 {
      l4_node = none;
      has_end_points = false;
      has_end_points6 = false;
      sockets = [];
      down_target = none;
      down_target6 = none;
    };
    trace =
        base_do_dispose ∷ (if s.l4.has_end_points6 then delete_end_points6 ∷ [] else [])
        ++ ((if s.l4.has_end_points then delete_end_points ∷ [] else []) ++ s.trace);
  }

module _ (N : Ns3) (E : Env N) where
  module _ (node : N.Node) (found : (t : Trace N) → E.own_node t ≡ some node) where
    notify_run-IsInserted :
        (again : M N (Unit {0})) (s : State N)
        → Keeps N again
        → IsInserted N s
        → Returns (λ _. IsInserted N) (notify_run N E again s)
    unfolding notify_run
    notify_run-IsInserted again s keeps v =
        let ipv4 = E.own_ipv4 s.trace in
        let ipv6 = E.node_ipv6 s.trace node in
        rw (found s.trace) (
          Returns-bind _ (notify_node N again node ipv4 ipv6) _ s
            (notify_node-IsInserted N again node ipv4 ipv6 s keeps v)
            λ _ t w. notify_targets-IsInserted N ipv4 ipv6 t w)

    notify_found :
        (notifies_again : Bool) (s : State N)
        → IsInserted N s
        → Returns (λ _. IsInserted N) (notify_new_aggregate N E notifies_again s)
    unfolding notify_new_aggregate
    notify_found true s v =
        notify_run-IsInserted (notify_run N E skip) s
          (λ t w. notify_run-IsInserted skip t (λ u x. x) w) v
    notify_found false s v = notify_run-IsInserted skip s (λ u x. x) v

  -- On a node, a notification, also one that comes again from within, makes no fault and keeps the
  -- object inserted at most once into IPv4 and at most once into IPv6, and exactly if its down
  -- target there is set.
  pub notify-IsInserted :
      (notifies_again : Bool) (node : N.Node) (s : State N)
      → ((t : Trace N) → E.own_node t ≡ some node)
      → IsInserted N s
      → Returns (λ _. IsInserted N) (notify_new_aggregate N E notifies_again s)
  notify-IsInserted notifies_again node s h v = notify_found node h notifies_again s v

  -- With no node `NotifyNewAggregate` goes through a null pointer, before it tests for that.
  pub notify_no_node :
      (notifies_again : Bool) (s : State N)
      → E.own_node s.trace ≡ none
      → notify_new_aggregate N E notifies_again s ≡ fault null_dereference
  unfolding notify_new_aggregate notify_run
  notify_no_node notifies_again s h = ground arith

  -- `DoDispose` leaves no socket, no node and no target, and deletes each set of end points that is
  -- there. `Allocate` and `DeAllocate` go through a null pointer after it. A second `DoDispose`
  -- only calls the base class.
  pub do_dispose-disposed :
      (s : State N)
      → (do_dispose N s ≡ ok (tt, disposed N s))
        × ((r : Request N.Ipv4Address) → l4_allocate N E r (disposed N s) ≡ fault null_dereference)
        × ((r : Request N.Ipv6Address) → l4_allocate6 N E r (disposed N s) ≡ fault null_dereference)
        × ((ep : N.Ipv4EndPoint) → l4_deallocate N ep (disposed N s) ≡ fault null_dereference)
        × ((ep : N.Ipv6EndPoint) → l4_deallocate6 N ep (disposed N s) ≡ fault null_dereference)
        × (do_dispose N (disposed N s)
            ≡ ok (tt, record (disposed N s) { trace = base_do_dispose ∷ (disposed N s).trace }))
  unfolding do_dispose l4_allocate l4_allocate6 l4_deallocate l4_deallocate6
  do_dispose-disposed s = (ground arith, λ r. refl, λ r. refl, λ ep. refl, λ ep. refl, refl)
