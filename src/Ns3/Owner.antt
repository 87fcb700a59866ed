-- ===== src/Ns3/Owner.antt =====
-- Whom an end point calls: the socket of rudp-socket-impl.cc that set the receive callback last, or the
-- destroy callback, as the calls made tell it.
use rudpns.Prelude.{
  ℕ, ◌≡◌, refl, Bool, true, false, not, is_some, ◌&&◌, ◌||◌, ◌==◌, if◌then◌else◌, Option, none,
  some, [], ◌∷◌,
}
use rudpns.Ns3.{
  Ns3, Env, Trace, set_rx_callback, set_rx_callback6, set_destroy_callback, set_destroy_callback6,
  deallocate, deallocate6, delete_end_points, delete_end_points6,
}

-- An end point of either family.
pub data EndPoint (N : Ns3) : Type 0 where
  ipv4_end_point : N.Ipv4EndPoint → EndPoint N
  ipv6_end_point : N.Ipv6EndPoint → EndPoint N

-- Tests that tell one end point from the others, the family that it is of, and which of its callbacks
-- is asked for.
pub record Probe (N : Ns3) : Type 0 where
  pub is_ipv4 : N.Ipv4EndPoint → Bool
  pub is_ipv6 : N.Ipv6EndPoint → Bool
  pub of_ipv4 : Bool
  pub of_destroy : Bool

abbrev pub hits : {A : Type 0} → (A → Bool) → Option A → Bool
hits is_it none = false
hits is_it (some e) = is_it e

abbrev pub is_the : {A : Type 0} → Discrete A → A → A → Bool
is_the same a b = elim (same b a) [ yes _ ↦ true | no _ ↦ false ]

pub is_the_self : {A : Type 0} (same : Discrete A) (a : A) → is_the same a a ≡ true
is_the_self same a = elim (same a a) as (λ d. elim d [ yes _ ↦ true | no _ ↦ false ] ≡ true) [
  | yes _ ↦ refl
  | no differ ↦ absurd (differ refl)
]

-- A callback leads to socket `n`.
abbrev pub is_socket : ℕ → Option ℕ → Bool
is_socket n none = false
is_socket n (some m) = m == n

-- The socket that an end point calls when it is deleted.
abbrev pub on_deletion : {N : Ns3} → Env N → EndPoint N → Trace N → Option ℕ
on_deletion E (ipv4_end_point e) t = E.deleted t e
on_deletion E (ipv6_end_point e) t = E.deleted6 t e

module _ (N : Ns3) where
  -- The test that no end point passes.
  abbrev pub nowhere : Probe N
  nowhere = record {
    is_ipv4 = λ e. false;
    is_ipv6 = λ e. false;
    of_ipv4 = false;
    of_destroy = false;
  }

  -- End points can be told apart.
  pub record Same : Type 0 where
    pub same4 : Discrete N.Ipv4EndPoint
    pub same6 : Discrete N.Ipv6EndPoint

  -- A callback of an end point.
  abbrev pub hook : (of_destroy : Bool) → Same → EndPoint N → Probe N
  hook b w (ipv4_end_point e) = record {
    is_ipv4 = is_the w.same4 e;
    is_ipv6 = λ _. false;
    of_ipv4 = true;
    of_destroy = b;
  }
  hook b w (ipv6_end_point e) = record {
    is_ipv4 = λ _. false;
    is_ipv6 = is_the w.same6 e;
    of_ipv4 = false;
    of_destroy = b;
  }

  -- The receive callback, and the destroy callback.
  abbrev pub is_at : Same → EndPoint N → Probe N
  is_at w ep = hook false w ep

  abbrev pub destroys_at : Same → EndPoint N → Probe N
  destroys_at w ep = hook true w ep

module _ (N : Ns3) (is_it : Probe N) where
  -- The end point of the test's own family.
  abbrev pub at4 : N.Ipv4EndPoint → Bool
  at4 e = is_it.of_ipv4 && is_it.is_ipv4 e

  abbrev pub at6 : N.Ipv6EndPoint → Bool
  at6 e = not is_it.of_ipv4 && is_it.is_ipv6 e

  -- The socket that the callback of the end point leads to, unless it was given back.
  abbrev pub owner : Trace N → Option ℕ
  owner [] = none
  owner (set_rx_callback e n ∷ t) = if at4 e && not is_it.of_destroy then some n else owner t
  owner (set_rx_callback6 e n ∷ t) = if at6 e && not is_it.of_destroy then some n else owner t
  owner (set_destroy_callback e o ∷ t) = if at4 e && is_it.of_destroy then o else owner t
  owner (set_destroy_callback6 e o ∷ t) = if at6 e && is_it.of_destroy then o else owner t
  owner (deallocate e ∷ t) = if at4 e then none else owner t
  owner (deallocate6 e ∷ t) = if at6 e then none else owner t
  owner (delete_end_points ∷ t) = if is_it.of_ipv4 then none else owner t
  owner (delete_end_points6 ∷ t) = if is_it.of_ipv4 then owner t else none
  owner (_ ∷ t) = owner t

  -- The end point is given back only while its receive callback leads to a socket, so between two times
  -- a socket sets that callback again.
  abbrev pub once : Trace N → Bool
  once [] = true
  once (deallocate e ∷ t) = (is_it.of_destroy || (not (at4 e) || is_some (owner t))) && once t
  once (deallocate6 e ∷ t) = (is_it.of_destroy || (not (at6 e) || is_some (owner t))) && once t
  once (_ ∷ t) = once t

pub once-nowhere : (N : Ns3) (t : Trace N) → once N (nowhere N) t ≡ true
once-nowhere N [] = refl
once-nowhere N (deallocate _ ∷ t) = once-nowhere N t
once-nowhere N (_ ∷ t) = once-nowhere N t
