-- ===== src/L4/Aggregate/Ended.antt =====
-- The life cycle of an object of rudp-l4-protocol.cc once it was disposed of.
use rudpns.Prelude.{◌≡◌, refl, Bool, true, false, some, ◌∷◌, Option-cases, inl, inr, arith}
use rudpns.Ns3.{Ns3, Env, aggregate_factory}
use rudpns.Ns3.Used.{used}
use rudpns.State.{State, Result, ok, fault, M, skip}
use rudpns.L4.{set_node, set_down_target, set_down_target6}
use rudpns.L4.Aggregate.{notify_targets, notify_node, notify_run, notify_new_aggregate}

module _ (N : Ns3) where
  -- It has no end points, uses none, and creates no socket but by `CreateSocket`.
  abbrev pub IsGone : State N → Type 0
  IsGone s = (s.l4.has_end_points ≡ false) × (s.l4.has_end_points6 ≡ false)

  abbrev pub StaysGone : {A : Type 0} → State N → Result (A × State N) → Type 0
  StaysGone s (fault f) = Unit {0}
  StaysGone s (ok (a, t)) =
      (t.l4.has_end_points ≡ false)
      × (t.l4.has_end_points6 ≡ false)
      × (t.l4.created ≡ s.l4.created)
      × (used N t.trace ≡ used N s.trace)

module _ (N : Ns3) (E : Env N) where
  notify_run-StaysGone :
      (again : M N (Unit {0})) (s : State N)
      → IsGone N s
      → ((t : State N) → IsGone N t → StaysGone N t (again t))
      → StaysGone N s (notify_run N E again s)
  unfolding notify_run notify_node notify_targets set_node set_down_target set_down_target6
  notify_run-StaysGone again s v h = elim (Option-cases (E.own_node s.trace)) [
    | inl e ↦ ground (arith, e)
    | inr (node, e) ↦
        let inner = record s {
          l4 = record s.l4 { l4_node = some node };
          trace = aggregate_factory node ∷ s.trace;
        } in
        ground (arith, e, h inner v)
  ]

  pub notify_new_aggregate-StaysGone :
      (again : Bool) (s : State N) → IsGone N s → StaysGone N s (notify_new_aggregate N E again s)
  unfolding notify_new_aggregate
  notify_new_aggregate-StaysGone false s v =
      notify_run-StaysGone skip s v (λ t w. (w.0, w.1, refl, refl))
  notify_new_aggregate-StaysGone true s v =
      notify_run-StaysGone (notify_run N E skip) s v
        (λ t w. notify_run-StaysGone skip t w (λ x y. (y.0, y.1, refl, refl)))
