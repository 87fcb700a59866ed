-- ===== src/L4/Aggregate/Owner.antt =====
-- The life cycle of the object of rudp-l4-protocol.cc changes no callback, and creates no socket but by
-- `CreateSocket`.
use rudpns.Prelude.{
  ◌≡◌, refl, Bool, true, false, some, is_some, arith, if◌then◌else◌, Option-cases, inl, inr, ◌∷◌,
}
use rudpns.Ns3.{Ns3, Env, aggregate_factory}
use rudpns.Ns3.Owner.{Probe, owner, once}
use rudpns.State.{State, Result, ok, fault, M, skip}
use rudpns.L4.{set_node, set_down_target, set_down_target6}
use rudpns.L4.Aggregate.{notify_targets, notify_node, notify_run, notify_new_aggregate}

module _ (N : Ns3) (is_it : Probe N) where
  -- The end point calls whom it called before, the sockets are those of before, and so is whether the
  -- object has its end points. No end point was given back.
  abbrev pub SameSockets : {A : Type 0} → State N → Result (A × State N) → Type 0
  SameSockets s (fault f) = Unit {0}
  SameSockets s (ok (a, t)) =
      (owner N is_it t.trace ≡ owner N is_it s.trace)
      × (t.l4.created ≡ s.l4.created)
      × (t.l4.has_end_points ≡ s.l4.has_end_points)
      × (t.l4.has_end_points6 ≡ s.l4.has_end_points6)
      × (once N is_it t.trace ≡ once N is_it s.trace)

  notify_targets-SameSockets :
      (ipv4 ipv6 : Bool) (s : State N) → SameSockets s (notify_targets N ipv4 ipv6 s)
  unfolding notify_targets set_down_target set_down_target6
  notify_targets-SameSockets ipv4 ipv6 s = ground arith

  notify_run-SameSockets :
      (E : Env N) (again : M N (Unit {0})) (s : State N)
      → ((t : State N) → SameSockets t (again t))
      → SameSockets s (notify_run N E again s)
  unfolding notify_run notify_node notify_targets set_node set_down_target set_down_target6
  notify_run-SameSockets E again s h = elim (Option-cases (E.own_node s.trace)) [
    | inl e ↦ ground (arith, e)
    | inr (node, e) ↦
        let inner = record s {
          l4 = record s.l4 { l4_node = some node };
          trace = aggregate_factory node ∷ s.trace;
        } in
        ground (arith, e, h inner)
  ]

  pub notify_new_aggregate-SameSockets :
      (E : Env N) (again : Bool) (s : State N) → SameSockets s (notify_new_aggregate N E again s)
  unfolding notify_new_aggregate
  notify_new_aggregate-SameSockets E false s =
      notify_run-SameSockets E skip s (λ t. (refl, refl, refl, refl, refl))
  notify_new_aggregate-SameSockets E true s =
      notify_run-SameSockets E (notify_run N E skip) s
        (λ t. notify_run-SameSockets E skip t (λ u. (refl, refl, refl, refl, refl)))

module _ (N : Ns3) (E : Env N) where
  -- The object is on a node and inserted into both protocols.
  pub record IsInstalled (s : State N) : Type 0 where
    pub on_node : is_some s.l4.l4_node ≡ true
    pub target : is_some s.l4.down_target ≡ true
    pub target6 : is_some s.l4.down_target6 ≡ true

  abbrev pub SameObject : {A : Type 0} → State N → Result (A × State N) → Type 0
  SameObject s (fault f) = Unit {0}
  SameObject s (ok (a, t)) = t.l4 ≡ s.l4

  -- Then a notification changes it no more.
  notify_run-SameObject :
      (again : M N (Unit {0})) (s : State N) → IsInstalled s → SameObject s (notify_run N E again s)
  unfolding notify_run notify_node notify_targets set_node set_down_target set_down_target6
  notify_run-SameObject again s v = ground (arith, v.on_node, v.target, v.target6)

  pub notify_new_aggregate-SameObject :
      (again : Bool) (s : State N) → IsInstalled s → SameObject s (notify_new_aggregate N E again s)
  unfolding notify_new_aggregate
  notify_new_aggregate-SameObject again s v =
      notify_run-SameObject (if again then notify_run N E skip else skip) s v
