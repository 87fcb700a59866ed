-- ===== src/Tests/Sparing.antt =====
-- Two sockets of one object, which allocation gives end points that call no socket yet:
-- rudp-l4-protocol.cc and rudp-socket-impl.cc.
use rudpns.Prelude.{
  ℕ, ◌≡◌, ◌&&◌, refl, ap, Bool, true, false, Option, none, some, is_some, [], ◌∷◌, arith,
}
use mathlib.Core.Path.{subst}
use native.Mathlib.Decide.{ℕ_discrete}
use rudpns.Ns3.{Env, Trace}
use rudpns.Ns3.Owner.{hook, owner, is_the, hits, Same, EndPoint, ipv4_end_point, ipv6_end_point}
use rudpns.State.{Result, ok, fault}
use rudpns.L4.{new_l4, l4_allocate}
use rudpns.L4.Aggregate.{create_socket, new_socket}
use rudpns.Socket.Binding.{bind_ephemeral}
use rudpns.Socket.Binding.Owner.{IsFresh}
use rudpns.Socket.Reach.{step, binds_ephemeral}
use rudpns.Host.{Host, new_host, create, call, Reaches, starts, creates, calls_socket}
use rudpns.Tests.World.{ns3, env, socket}

abbrev pub same : Same ns3
same = record { same4 = ℕ_discrete; same6 = ℕ_discrete }

-- For receive callbacks or for destroy callbacks.
abbrev pub calls_of : Bool → EndPoint ns3 → Trace ns3 → Option ℕ
calls_of b ep t = owner ns3 (hook ns3 b same ep) t

-- Of end points 9 and 10 the first that calls no socket.
abbrev spare : (called_by_9 called_by_10 : Option ℕ) → Option ℕ
spare none b = some 9
spare (some _) none = some 10
spare (some _) (some _) = none

-- What comes is for end point 10.
abbrev pub sparing_by : Bool → Env ns3
sparing_by b = record env {
  allocated = λ t r. spare (calls_of b (ipv4_end_point 9) t) (calls_of b (ipv4_end_point 10) t);
  allocated6 = λ t r. spare (calls_of b (ipv6_end_point 9) t) (calls_of b (ipv6_end_point 10) t);
  local_address = λ t ep. 20;
  lookup = λ t a port b port' i. 10 ∷ [];
  lookup6 = λ t a port b port' i. 10 ∷ [];
}

module _ (destroys : Bool) (family : ℕ → EndPoint ns3) (t : Trace ns3) where
  given-IsFresh :
      (c e : ℕ) (d : Dec (c ≡ e))
      → calls_of destroys (family c) t ≡ none
      → (elim d [ yes _ ↦ true | no _ ↦ false ] && is_some (calls_of destroys (family e) t)) ≡ false
  given-IsFresh c e (yes p) quiet =
      ap is_some (subst (λ x. calls_of destroys (family x) t ≡ none) p quiet)
  given-IsFresh c e (no differ) quiet = refl

  spare-IsFresh :
      (e : ℕ) (a b : Option ℕ)
      → calls_of destroys (family 9) t ≡ a
      → calls_of destroys (family 10) t ≡ b
      → (hits (is_the ℕ_discrete e) (spare a b) && is_some (calls_of destroys (family e) t)) ≡ false
  spare-IsFresh e none b p q = given-IsFresh 9 e (ℕ_discrete 9 e) p
  spare-IsFresh e (some _) none p q = given-IsFresh 10 e (ℕ_discrete 10 e) q
  spare-IsFresh e (some _) (some _) p q = refl

other_family : (o : Option ℕ) (b : Bool) → (hits (λ _. false) o && b) ≡ false
other_family none b = refl
other_family (some _) b = refl

pub sparing_by-IsFresh :
    (b : Bool) (ep : EndPoint ns3) → IsFresh ns3 (sparing_by b) (hook ns3 b same ep)
sparing_by-IsFresh b (ipv4_end_point e) = record {
  fresh = λ t r. spare-IsFresh b ipv4_end_point t e _ _ refl refl;
  fresh6 = λ t r. other_family _ _;
}
sparing_by-IsFresh b (ipv6_end_point e) = record {
  fresh = λ t r. other_family _ _;
  fresh6 = λ t r. spare-IsFresh b ipv6_end_point t e _ _ refl refl;
}

abbrev pub after : Result (Host ns3) → Host ns3 → Host ns3
after (ok k) h = k
after (fault f) h = h

abbrev pub start : Host ns3
start = new_host ns3 (λ n. socket)

abbrev pub one : Host ns3
one = after (create ns3 socket start) start

abbrev pub two : Host ns3
two = after (create ns3 socket one) one

module _ (b : Bool) where
  abbrev pub first_bound : Host ns3
  first_bound = after (call ns3 (sparing_by b) 0 binds_ephemeral two) two

  abbrev pub both_bound : Host ns3
  both_bound = after (call ns3 (sparing_by b) 1 binds_ephemeral first_bound) first_bound

pub reached : Reaches ns3 (sparing_by false) start (both_bound false)
unfolding new_l4 create create_socket new_socket call step bind_ephemeral l4_allocate ℕ_discrete
reached =
    calls_socket {h = first_bound false}
      (calls_socket {h = two}
        (creates {h = one} (creates {h = start} starts socket refl) socket refl) 0 binds_ephemeral
        (omega arith) refl)
      1 binds_ephemeral (omega arith) refl
