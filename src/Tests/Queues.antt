-- ===== src/Tests/Queues.antt =====
-- Datagrams and reads of two sockets of one object, mixed: rudp-l4-protocol.cc and
-- rudp-socket-impl.cc.
use rudpns.Prelude.{ℕ, zero, suc, ◌<◌, ◌≡◌, refl, false, List, [], ◌∷◌, arith}
use native.Mathlib.Decide.{ℕ_discrete}
use rudpns.Ns3.{Env}
use rudpns.Ns3.Owner.{ipv4_end_point}
use rudpns.State.{ok}
use rudpns.L4.{new_l4, l4_allocate}
use rudpns.L4.Aggregate.{create_socket, new_socket}
use rudpns.Socket.Binding.{bind_ephemeral}
use rudpns.Socket.Reach.{step}
use rudpns.Socket.Receiving.Inbox.{IsExact, inbox}
use rudpns.Socket.Receiving.Inbox.Arrival.{ipv4_arrival}
use rudpns.Host.{Host, view, new_host, create, call, Reaches}
use rudpns.Host.Queues.{Happening, comes_for, reads_at, resizes_at, play, Answers, AllMeant, events}
use rudpns.Host.Queues.Interleaving.{play-interleaves}
use rudpns.Host.Queues.Refinement.{play-Refines}
use rudpns.Tests.World.{ns3, socket, packet, ip_header, tag_laws, TestPacket}
use rudpns.Tests.Sparing
use rudpns.Tests.Sparing.{same, sparing_by, sparing_by-IsFresh, reached}

abbrev sparing : Env ns3
sparing = sparing_by false

abbrev both_bound : Host ns3
both_bound = Sparing.both_bound false

abbrev mixed : List (Happening ns3 same)
mixed =
    comes_for (ipv4_end_point 10) (ipv4_arrival packet ip_header 80 3)
    ∷ comes_for (ipv4_end_point 9) (ipv4_arrival packet ip_header 81 3)
    ∷ reads_at 1 100
    ∷ resizes_at 0 50
    ∷ reads_at 0 100
    ∷ []

-- The same, one socket after the other.
abbrev apart : List (Happening ns3 same)
apart =
    comes_for (ipv4_end_point 9) (ipv4_arrival packet ip_header 81 3)
    ∷ resizes_at 0 50
    ∷ reads_at 0 100
    ∷ comes_for (ipv4_end_point 10) (ipv4_arrival packet ip_header 80 3)
    ∷ reads_at 1 100
    ∷ []

both-IsExact : (n : ℕ) → n < both_bound.object.created → IsExact ns3 200000 (view ns3 both_bound n)
unfolding new_l4 create create_socket new_socket call step bind_ephemeral l4_allocate ℕ_discrete
both-IsExact zero below = record {
  counted = refl;
  waiting_le = omega arith;
  capacity_le = omega arith;
}
both-IsExact (suc zero) below = record {
  counted = refl;
  waiting_le = omega arith;
  capacity_le = omega arith;
}
both-IsExact (suc (suc n)) below = let no : ⊥ = omega arith in absurd no

mixed-AllMeant : AllMeant ns3 same 200000 both_bound mixed
unfolding new_l4 create create_socket new_socket call step bind_ephemeral l4_allocate ℕ_discrete
mixed-AllMeant =
    let at_0 : (0 < both_bound.object.created) = omega arith in
    let at_1 : (1 < both_bound.object.created) = omega arith in
    (
      (omega arith, (1, at_1, refl)),
      (
        (omega arith, (0, at_0, refl)),
        (
          (omega arith, (1, at_1, refl)),
          ((omega arith, (0, at_0, refl)), ((omega arith, (0, at_0, refl)), tt)),
        ),
      ),
    )

apart-AllMeant : AllMeant ns3 same 200000 both_bound apart
unfolding new_l4 create create_socket new_socket call step bind_ephemeral l4_allocate ℕ_discrete
apart-AllMeant =
    let at_0 : (0 < both_bound.object.created) = omega arith in
    let at_1 : (1 < both_bound.object.created) = omega arith in
    (
      (omega arith, (0, at_0, refl)),
      (
        (omega arith, (0, at_0, refl)),
        (
          (omega arith, (0, at_0, refl)),
          ((omega arith, (1, at_1, refl)), ((omega arith, (1, at_1, refl)), tt)),
        ),
      ),
    )

same_parts :
    (n : ℕ)
    → n < both_bound.object.created
    → events ns3 same n (both_bound.numbered n) mixed
      ≡ events ns3 same n (both_bound.numbered n) apart
unfolding new_l4 create create_socket new_socket call step bind_ephemeral l4_allocate ℕ_discrete
same_parts zero below = refl
same_parts (suc zero) below = refl
same_parts (suc (suc n)) below = let no : ⊥ = omega arith in absurd no

play-Refines_example :
    (out : ℕ → List TestPacket) × (k : Host ns3) × (play ns3 same mixed both_bound ≡ ok (out, k))
    × Reaches ns3 sparing (new_host ns3 (λ n. socket)) k
    × ((n : ℕ) → n < both_bound.object.created → Answers ns3 same 200000 n mixed both_bound out k)
unfolding new_l4 create create_socket new_socket call step bind_ephemeral l4_allocate ℕ_discrete
play-Refines_example =
    play-Refines ns3 sparing same (sparing_by-IsFresh false) tag_laws 200000 (λ n. socket) mixed
      both_bound reached both-IsExact mixed-AllMeant

play-interleaves_example :
    (out out' : ℕ → List TestPacket) × (k k' : Host ns3) × (play ns3 same mixed both_bound
      ≡ ok (out, k))
    × (play ns3 same apart both_bound ≡ ok (out', k'))
    × ((n : ℕ)
        → n < both_bound.object.created
        → (out n ≡ out' n) × (inbox ns3 (view ns3 k n) ≡ inbox ns3 (view ns3 k' n)))
unfolding new_l4 create create_socket new_socket call step bind_ephemeral l4_allocate ℕ_discrete
play-interleaves_example =
    play-interleaves ns3 sparing same (sparing_by-IsFresh false) tag_laws 200000 (λ n. socket) mixed
      apart both_bound reached both-IsExact mixed-AllMeant apart-AllMeant same_parts
