-- ===== src/Tests/Teardowns.antt =====
-- The ends of two sockets and of their object: rudp-l4-protocol.cc and rudp-socket-impl.cc.
use rudpns.Prelude.{◌<◌, ℕ, ◌≡◌, refl, true, false, none, some, List, [], ◌∷◌, arith, member}
use native.Mathlib.Decide.{ℕ_discrete}
use rudpns.Ns3.{
  base_do_dispose, delete_end_points, delete_end_points6, Env, Trace, set_destroy_callback,
  set_destroy_callback6,
}
use rudpns.Ns3.Owner.{
  EndPoint, owner, on_deletion, destroys_at, Probe, ipv4_end_point, ipv6_end_point,
}
use rudpns.State.{ok, fault, null_dereference, Returns}
use rudpns.L4.{new_l4, l4_allocate}
use rudpns.L4.Aggregate.{create_socket, new_socket, do_dispose}
use rudpns.Socket.Binding.{bind_ephemeral}
use rudpns.Socket.Reach.{step, binds_ephemeral, closes}
use rudpns.Socket.Sending.{do_send_to, do_send_to6}
use rudpns.Socket.Closing.{close}
use rudpns.Socket.Closing.AfterDispose.{orphan}
use rudpns.Socket.Closing.Destruction.{IsTornDown}
use rudpns.Socket.Binding.Owner.{IsFresh}
use rudpns.Host.{destruct, Reaches, starts, creates, calls_socket, Host, view, create, call}
use rudpns.Host.Deletion.{DeletionLaws, dispose, each}
use rudpns.Host.Deletion.Teardown.{dispose-detaches}
use rudpns.Host.Deletion.Silence.{dispose-silences}
use rudpns.Ns3.Used.{used}
use rudpns.Socket.{destroy, destroy6}
use rudpns.Host.Deletion.EitherOrder.{teardown_order}
use rudpns.Tests.World.{ns3, socket, packet}
use rudpns.Tests.Sparing
use rudpns.Tests.Sparing.{same, sparing_by, sparing_by-IsFresh, after, start, one, two}

-- The sockets that destroy callbacks were set to.
mentioned : Trace ns3 → List ℕ
mentioned [] = []
mentioned (set_destroy_callback e (some n) ∷ t) = n ∷ mentioned t
mentioned (set_destroy_callback6 e (some n) ∷ t) = n ∷ mentioned t
mentioned (_ ∷ t) = mentioned t

mentioned-owner :
    (is_it : Probe ns3) (t : Trace ns3) (n : ℕ)
    → is_it.of_destroy ≡ true
    → owner ns3 is_it t ≡ some n
    → member n (mentioned t) ≡ true
unfolding mentioned
mentioned-owner is_it [] n d e = ground arith
mentioned-owner is_it (set_destroy_callback ep none ∷ t) n d e =
    ground (arith, mentioned-owner is_it t n d)
mentioned-owner is_it (set_destroy_callback6 ep none ∷ t) n d e =
    ground (arith, mentioned-owner is_it t n d)
mentioned-owner is_it (c ∷ t) n d e = ground (arith, mentioned-owner is_it t n d)

abbrev sparing : Env ns3
sparing = record (sparing_by true) {
  deleted = λ t e. owner ns3 (destroys_at ns3 same (ipv4_end_point e)) t;
  deleted6 = λ t e. owner ns3 (destroys_at ns3 same (ipv6_end_point e)) t;
  all_deleted = mentioned;
  all_deleted6 = mentioned;
}

called-on_deletion :
    (ep : EndPoint ns3) (t : Trace ns3) (n : ℕ)
    → owner ns3 (destroys_at ns3 same ep) t ≡ some n
    → on_deletion sparing ep t ≡ some n
called-on_deletion (ipv4_end_point e) t n h = h
called-on_deletion (ipv6_end_point e) t n h = h

deletion_laws : DeletionLaws ns3 sparing same
deletion_laws = record {
  deleted_calls = called-on_deletion;
  all_deleted_calls = λ e t n. mentioned-owner (destroys_at ns3 same (ipv4_end_point e)) t n refl;
  all_deleted_calls6 = λ e t n. mentioned-owner (destroys_at ns3 same (ipv6_end_point e)) t n refl;
}

sparing-IsFresh : (ep : EndPoint ns3) → IsFresh ns3 sparing (destroys_at ns3 same ep)
sparing-IsFresh ep =
    let fresh = sparing_by-IsFresh true ep in record { fresh = fresh.fresh; fresh6 = fresh.fresh6 }

abbrev both_bound : Host ns3
both_bound = Sparing.both_bound true

-- The same calls, by the answers that `sparing` has.
reached_here : Reaches ns3 sparing start both_bound
unfolding new_l4 create create_socket new_socket call step bind_ephemeral l4_allocate ℕ_discrete
reached_here =
    calls_socket {h = Sparing.first_bound true}
      (calls_socket {h = two}
        (creates {h = one} (creates {h = start} starts socket refl) socket refl) 0 binds_ephemeral
        (omega arith) refl)
      1 binds_ephemeral (omega arith) refl

dispose-detaches_example :
    (k : Host ns3) × (dispose ns3 sparing both_bound ≡ ok k)
    × (k.calls ≡ base_do_dispose ∷ delete_end_points6 ∷ delete_end_points ∷ both_bound.calls)
    × (k.object ≡ record both_bound.object {
      l4_node = none;
      has_end_points = false;
      has_end_points6 = false;
      sockets = [];
      down_target = none;
      down_target6 = none;
    })
    × ((n : ℕ)
        → n < both_bound.object.created
        → k.numbered n ≡ record (both_bound.numbered n) { end_point = none; end_point6 = none })
unfolding new_l4 create create_socket new_socket call step bind_ephemeral l4_allocate ℕ_discrete
dispose-detaches_example =
    dispose-detaches ns3 sparing same sparing-IsFresh deletion_laws (λ n. socket) {h = both_bound}
      reached_here

abbrev disposed : Host ns3
disposed = after (dispose ns3 sparing both_bound) both_bound

-- The first socket is closed afterwards, and another is made.
abbrev shut : Host ns3
shut = after (call ns3 sparing 0 closes disposed) disposed

abbrev regrown : Host ns3
regrown = after (create ns3 socket shut) shut

dispose-silences_example :
    (used ns3 regrown.calls ≡ used ns3 disposed.calls)
    × (regrown.object.has_end_points ≡ false)
    × (regrown.object.has_end_points6 ≡ false)
    × ((regrown.numbered 2).end_point ≡ none)
    × ((regrown.numbered 2).end_point6 ≡ none)
    × (do_send_to ns3 sparing packet 20 80 (view ns3 regrown 2) ≡ fault null_dereference)
    × (do_send_to6 ns3 sparing packet 30 80 (view ns3 regrown 2) ≡ fault null_dereference)
    × Returns (λ _ t. used ns3 t.trace ≡ used ns3 disposed.calls) (close ns3 (view ns3 regrown 2))
unfolding new_l4 create create_socket new_socket call step bind_ephemeral l4_allocate ℕ_discrete
    dispose each do_dispose destroy destroy6 close mentioned
dispose-silences_example =
    dispose-silences ns3 sparing same sparing-IsFresh deletion_laws (λ n. socket) {h = both_bound}
      {k = disposed} {l = regrown} 2 80 packet 20 30 reached_here refl
      (creates {h = shut} (calls_socket {h = disposed} starts 0 closes (omega arith) refl) socket
        refl)
      (omega arith)

teardown_order_example :
    ((k l : Host ns3) × (destruct ns3 sparing 1 both_bound ≡ ok k)
      × IsTornDown ns3 (view ns3 k 1)
      × (k.numbered 0 ≡ both_bound.numbered 0)
      × (k.object ≡ both_bound.object)
      × (dispose ns3 sparing k ≡ ok l)
      × (view ns3 l 0 ≡ orphan ns3 (view ns3 k 0)))
    × ((j k : Host ns3) × (dispose ns3 sparing both_bound ≡ ok j)
        × (destruct ns3 sparing 1 j ≡ ok k)
        × IsTornDown ns3 (view ns3 k 1))
unfolding new_l4 create create_socket new_socket call step bind_ephemeral l4_allocate ℕ_discrete
teardown_order_example =
    teardown_order ns3 sparing same sparing-IsFresh deletion_laws (λ n. socket) {h = both_bound} 1 0
      reached_here (omega arith) (omega arith) refl (omega arith)
