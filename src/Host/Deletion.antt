-- ===== src/Host/Deletion.antt =====
-- The end of the protocol object of rudp-l4-protocol.cc, with the calls of rudp-socket-impl.cc that the
-- end points make when ns-3 deletes them.
pub mod Teardown
pub mod EitherOrder
pub mod Ended
pub mod Silence
use rudpns.Prelude.{◌+◌, ltb, ℕ, ◌≡◌, true, Option, some, List, [], ◌∷◌, if◌then◌else◌, member}
use rudpns.Ns3.{Ns3, Env, Trace, delete_end_points, delete_end_points6}
use rudpns.Ns3.Owner.{
  owner, on_deletion, destroys_at, Same, EndPoint, ipv4_end_point, ipv6_end_point,
}
use rudpns.State.{Result, ok, fault}
use rudpns.L4.Aggregate.{do_dispose}
use rudpns.Socket.Closing.{destroy_socket}
use rudpns.Socket.Reach.{Operation, is_destroyed, is_destroyed6}
use rudpns.Host.{Host, view, leave, call}

-- An end point that is deleted makes its destroy callback, if that is set.
pub record DeletionLaws (N : Ns3) (E : Env N) (same : Same N) : Type 0 where
  pub deleted_calls :
      (ep : EndPoint N) (t : Trace N) (n : ℕ)
      → owner N (destroys_at N same ep) t ≡ some n
      → on_deletion E ep t ≡ some n
  pub all_deleted_calls :
      (e : N.Ipv4EndPoint) (t : Trace N) (n : ℕ)
      → owner N (destroys_at N same (ipv4_end_point e)) t ≡ some n
      → member n (E.all_deleted t) ≡ true
  pub all_deleted_calls6 :
      (e : N.Ipv6EndPoint) (t : Trace N) (n : ℕ)
      → owner N (destroys_at N same (ipv6_end_point e)) t ≡ some n
      → member n (E.all_deleted6 t) ≡ true

module _ (N : Ns3) (E : Env N) where
  -- A callback of several sockets, one after the other.
  unfoldable pub each : List ℕ → Operation N → Host N → Result (Host N)
  each [] op h = ok h
  each (n ∷ ns) op h = elim (call N E n op h) [ ok k ↦ each ns op k | fault f ↦ fault f ]

  -- How often the demultiplexer of a family was deleted.
  abbrev pub deletions : Trace N → ℕ
  deletions [] = 0
  deletions (delete_end_points ∷ t) = 1 + deletions t
  deletions (_ ∷ t) = deletions t

  abbrev pub deletions6 : Trace N → ℕ
  deletions6 [] = 0
  deletions6 (delete_end_points6 ∷ t) = 1 + deletions6 t
  deletions6 (_ ∷ t) = deletions6 t

  -- `DoDispose` of the object, and what its `delete m_endPoints` and `delete m_endPoints6` call, if it
  -- made them: `Destroy` and `Destroy6` of sockets. Those change the sockets alone, which `DoDispose`
  -- does not read, so they stand behind it.
  unfoldable pub dispose : Host N → Result (Host N)
  unfolding each
  dispose h = elim (do_dispose N (view N h 0)) [
    | ok (_, t) ↦
        let called =
          if ltb (deletions h.calls) (deletions t.trace) then E.all_deleted h.calls else [] in
        let called6 =
          if ltb (deletions6 h.calls) (deletions6 t.trace) then E.all_deleted6 h.calls else [] in
        elim (each called is_destroyed (record h { object = t.l4; calls = t.trace })) [
          | ok k ↦ each called6 is_destroyed6 k
          | fault f ↦ fault f
        ]
    | fault f ↦ fault f
  ]
