-- ===== src/Host/Queues.antt =====
-- The receiving side of all the sockets of one object of rudp-l4-protocol.cc: what comes for the end
-- points and what the applications ask of rudp-socket-impl.cc, in the order that it happens.
pub mod Steps
pub mod Refinement
pub mod Interleaving
use rudpns.Prelude.{
  ℕ, ◌<◌, ◌≡◌, refl, ap, Bool, true, false, none, some, List, [], ◌∷◌, ◌++◌, ◌==◌, if◌then◌else◌,
  arith,
}
use rudpns.Ns3.{Ns3}
use rudpns.Ns3.Owner.{owner, is_at, Same, EndPoint}
use rudpns.State.{Socket, Result, ok, fault}
use rudpns.Socket.Owner.{holds}
use rudpns.Socket.Receiving.Inbox.{
  Event, reads, resizes, inbox, spec_run, Refines, inbox, perform, spec_run, Fits, Refines,
}
use rudpns.Socket.Receiving.Inbox.Arrival.{Arrival, event_of}
use rudpns.Host.{Host, view, leave}
use rudpns.Host.Steps.{AllOwn}

module _ (N : Ns3) (same : Same N) where
  -- A datagram comes for an end point, or the application calls a socket.
  pub data Happening : Type 0 where
    comes_for : EndPoint N → Arrival N → Happening
    reads_at resizes_at : (socket size : ℕ) → Happening

  abbrev pub event_at : Happening → Event N
  event_at (comes_for ep x) = event_of N x
  event_at (reads_at n m) = reads m
  event_at (resizes_at n c) = resizes c

  -- It is about socket `n`: that has the end point, or is called.
  abbrev pub concerns : ℕ → Socket N → Happening → Bool
  concerns n s (comes_for ep x) = holds N (is_at N same ep) s
  concerns n s (reads_at m _) = m == n
  concerns n s (resizes_at m _) = m == n

  -- What happens to socket `n` alone.
  abbrev pub events : ℕ → Socket N → List Happening → List (Event N)
  events n s [] = []
  events n s (a ∷ rest) = if concerns n s a then event_at a ∷ events n s rest else events n s rest

  -- Something that happens to socket `n`, with the packets that each application gets.
  unfoldable pub act : ℕ → Event N → Host N → Result ((ℕ → List N.Packet) × Host N)
  act n e h = elim (perform N e (view N h n)) [
    | ok (out, t) ↦ ok (λ m. if m == n then out else [], leave N n t h)
    | fault f ↦ fault f
  ]

  unfoldable pub happen : Happening → Host N → Result ((ℕ → List N.Packet) × Host N)
  unfolding act
  happen (comes_for ep x) h = elim (owner N (is_at N same ep) h.calls) [
    | none ↦ ok (λ m. [], h)
    | some n ↦ act n (event_of N x) h
  ]
  happen (reads_at n m) h = act n (reads m) h
  happen (resizes_at n c) h = act n (resizes c) h

  unfoldable pub play : List Happening → Host N → Result ((ℕ → List N.Packet) × Host N)
  unfolding happen
  play [] h = ok (λ m. [], h)
  play (a ∷ rest) h = elim (happen a h) [
    | ok (out, k) ↦ elim (play rest k) [
      | ok (later, l) ↦ ok (λ m. out m ++ later m, l)
      | fault f ↦ fault f
    ]
    | fault f ↦ fault f
  ]

  -- It is about a socket that was created, and cannot make a counter of received bytes wrap.
  abbrev pub Meant : ℕ → Host N → Happening → Type 0
  Meant bound h a =
      Fits N bound (event_at a)
      × ((n : ℕ) × (n < h.object.created) × (concerns n (h.numbered n) a ≡ true))

  abbrev pub AllMeant : ℕ → Host N → List Happening → Type 0
  AllMeant bound h [] = Unit {0}
  AllMeant bound h (a ∷ rest) = Meant bound h a × AllMeant bound h rest

  -- If two socket states have the same end points, the same things concern them.
  pub concerns-same :
      (n : ℕ) (s t : Socket N) (a : Happening)
      → t.end_point ≡ s.end_point
      → t.end_point6 ≡ s.end_point6
      → concerns n t a ≡ concerns n s a
  concerns-same n s t (comes_for ep x) e f = rw (e, f) refl
  concerns-same n s t (reads_at m _) e f = refl
  concerns-same n s t (resizes_at m _) e f = refl

  pub events-same :
      (n : ℕ) (s t : Socket N) (rest : List Happening)
      → t.end_point ≡ s.end_point
      → t.end_point6 ≡ s.end_point6
      → events n t rest ≡ events n s rest
  events-same n s t [] e f = refl
  events-same n s t (a ∷ rest) e f = rw (concerns-same n s t a e f, events-same n s t rest e f) refl

  -- What concerns a socket is done with it.
  pub happen-act :
      (n : ℕ) (a : Happening) (h : Host N)
      → AllOwn N (is_at N same) h
      → n < h.object.created
      → concerns n (h.numbered n) a ≡ true
      → happen a h ≡ act n (event_at a) h
  unfolding happen
  happen-act n (comes_for ep x) h v below c =
      let own = v.sockets n below in
      let called : owner N (is_at N same ep) h.calls ≡ some n =
        ground (arith, own.number, own.owns ep, c) in
      rw (called, happen) refl
  happen-act n (reads_at m k) h v below c =
      let e : m ≡ n = ground (arith, c) in ap (λ i. act i (reads k) h) e
  happen-act n (resizes_at m k) h v below c =
      let e : m ≡ n = ground (arith, c) in ap (λ i. act i (resizes k) h) e

  -- It concerns no other socket.
  pub concerns-other :
      (n m : ℕ) (a : Happening) (h : Host N)
      → AllOwn N (is_at N same) h
      → n < h.object.created
      → m < h.object.created
      → concerns n (h.numbered n) a ≡ true
      → (m == n) ≡ false
      → concerns m (h.numbered m) a ≡ false
  concerns-other n m (comes_for ep x) h v below below' c d =
      let own = v.sockets n below in
      let other = v.sockets m below' in
      let called : owner N (is_at N same ep) h.calls ≡ some n =
        ground (arith, own.number, own.owns ep, c) in
      ground (arith, called, other.number, other.owns ep, d)
  concerns-other n m (reads_at i k) h v below below' c d = ground (arith, c, d)
  concerns-other n m (resizes_at i k) h v below below' c d = ground (arith, c, d)

  -- Over all that happened, the packets that the application of socket `n` got, and what its buffer
  -- holds, are those of a bounded queue that its own events came to.
  abbrev pub Answers :
      (bound n : ℕ) → List Happening → Host N → (ℕ → List N.Packet) → Host N → Type 0
  Answers bound n rest h out k =
      Refines N bound (view N h n)
        (spec_run N (h.numbered n) (events n (h.numbered n) rest) (inbox N (view N h n))) (out n)
        (view N k n)
