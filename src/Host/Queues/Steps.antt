-- ===== src/Host/Queues/Steps.antt =====
-- One thing that happens to one socket of rudp-socket-impl.cc, and what the others keep.
use rudpns.Prelude.{
  ℕ, ◌<◌, ◌≡◌, refl, ◌∙◌, sym, true, false, List, [], ◌∷◌, ◌++◌, ◌==◌, if◌then◌else◌, arith,
  Bool-cases, inl, inr,
}
use mathlib.Core.Path.{subst}
use rudpns.Ns3.{Ns3, Env}
use rudpns.Ns3.Laws.{TagLaws}
use rudpns.Ns3.Owner.{Same}
use rudpns.State.{Socket, State, Result, ok, fault, Returns}
use rudpns.Socket.Frame.{KeepsAll}
use rudpns.Socket.Reach.{receives, step}
use rudpns.Socket.Receiving.Inbox.{
  Event, inbox, perform, spec_step, spec_run, IsExact, Fits, Refines,
}
use rudpns.Socket.Receiving.Inbox.Frames.{perform-Keeps, SameEnds, perform-SameEnds}
use rudpns.Socket.Receiving.Inbox.Refinement.{perform-Refines, Refines-cons}
use rudpns.Host.{Host, view, put, leave, call}
use rudpns.Host.Queues.{
  Answers, Happening, event_at, concerns, events, act, Meant, AllMeant, concerns-same, events-same,
}

module _ (N : Ns3) (E : Env N) (same : Same N) (laws : TagLaws N) (bound : ℕ) where
  -- One event of one socket, as the code does it.
  pub record Acts (n : ℕ) (e : Event N) (h : Host N) : Type 0 where
    pub out : List N.Packet
    pub left : State N
    pub acts : act N same n e h ≡ ok (λ m. if m == n then out else [], leave N n left h)
    pub called : call N E n (receives e) h ≡ ok (leave N n left h)
    pub refines :
        Refines N bound (view N h n) (spec_step N (h.numbered n) e (inbox N (view N h n))) out left
    pub same_object : left.l4 ≡ h.object
    pub same_end_point : left.socket.end_point ≡ (h.numbered n).end_point
    pub same_end_point6 : left.socket.end_point6 ≡ (h.numbered n).end_point6

  pub act-Acts :
      (n : ℕ) (e : Event N) (h : Host N)
      → IsExact N bound (view N h n)
      → Fits N bound e
      → Acts n e h
  unfolding act call step
  act-Acts n e h v small =
      go (perform N e (view N h n)) refl (perform-Refines N laws bound e (view N h n) v small)
        (perform-Keeps N e (view N h n)) (perform-SameEnds N e (view N h n))
    where
      go :
          (r : Result (List N.Packet × State N))
          → perform N e (view N h n) ≡ r
          → Returns
              (Refines N bound (view N h n) (spec_step N (h.numbered n) e (inbox N (view N h n))))
              r
          → KeepsAll N (view N h n) r
          → SameEnds N (view N h n) r
          → Acts n e h
      go (ok (out, t)) eq r k ends = record {
        out = out;
        left = t;
        acts = rw (eq, act) refl;
        called = rw (eq, call) refl;
        refines = r;
        same_object = k.same_l4;
        same_end_point = ends.0;
        same_end_point6 = ends.1;
      }
      go (fault f) eq r k ends = absurd r

  -- Of the socket that something happened to, and of another.
  pub this-Answers :
      (n : ℕ) (a : Happening N same) (rest : List (Happening N same)) (h l : Host N)
      (later : ℕ → List N.Packet)
      → concerns N same n (h.numbered n) a ≡ true
      → (n == n) ≡ true
      → (x : Acts n (event_at N same a) h)
      → Answers N same bound n rest (leave N n x.left h) later l
      → Answers N same bound n (a ∷ rest) h (λ m. (if m == n then x.out else []) ++ later m) l
  this-Answers n a rest h l later c self x after =
      let t = x.left in
      let s = h.numbered n in
      let at = λ (i : Socket N).
        Refines N bound (record t { socket = i })
          (spec_run N i (events N same n i rest) (inbox N (record t { socket = i }))) (later n)
          (view N l n) in
      let left : put N h.numbered n t.socket n ≡ t.socket = rw self refl in
      let follows : at t.socket = subst at left after in
      rw (self, c, sym (events-same N same n s t.socket rest x.same_end_point x.same_end_point6))
        (Refines-cons N laws bound (event_at N same a) (events N same n t.socket rest) (view N h n)
          t (view N l n) x.out (later n) x.refines follows)

  pub other-Answers :
      (n m : ℕ) (a : Happening N same) (rest : List (Happening N same)) (h l : Host N)
      (later : ℕ → List N.Packet)
      → concerns N same m (h.numbered m) a ≡ false
      → (m == n) ≡ false
      → (x : Acts n (event_at N same a) h)
      → Answers N same bound m rest (leave N n x.left h) later l
      → Answers N same bound m (a ∷ rest) h (λ m. (if m == n then x.out else []) ++ later m) l
  other-Answers n m a rest h l later c differ x after =
      let t = x.left in
      let at = λ (i : Socket N).
        Refines N bound (record t { socket = i })
          (spec_run N i (events N same m i rest) (inbox N (record t { socket = i }))) (later m)
          (view N l m) in
      let left : put N h.numbered n t.socket m ≡ h.numbered m = rw differ refl in
      let follows : at (h.numbered m) = subst at left after in
      rw (differ, c)
        record {
          same_output = follows.same_output;
          same_inbox = follows.same_inbox;
          exact = follows.exact;
          same_shutdown = follows.same_shutdown;
          same_options = follows.same_options;
        }

  -- What is meant for a socket is so after something happened to one.
  left-Meant :
      (n : ℕ) (a b : Happening N same) (h : Host N)
      → (x : Acts n (event_at N same a) h) → Meant N same bound h b
      → Meant N same bound (leave N n x.left h) b
  left-Meant n a b h x (fits, (m, below, c)) =
      let t = x.left in
      let keeps : concerns N same m (put N h.numbered n t.socket m) b ≡ true =
        elim (Bool-cases (m == n)) [
          | inl e ↦
              let p : n ≡ m = ground (arith, e) in
              let kept =
                concerns-same N same n (h.numbered n) t.socket b x.same_end_point
                  x.same_end_point6 in
              rw e (
                subst (λ i. concerns N same i t.socket b ≡ true) p
                  (kept ∙ subst (λ i. concerns N same i (h.numbered i) b ≡ true) (sym p) c))
          | inr e ↦ rw e c
        ] in
      (fits, (m, subst (λ o. m < o.created) (sym x.same_object) below, keeps))

  pub left-AllMeant :
      (n : ℕ) (a : Happening N same) (rest : List (Happening N same)) (h : Host N)
      → (x : Acts n (event_at N same a) h) → AllMeant N same bound h rest
      → AllMeant N same bound (leave N n x.left h) rest
  left-AllMeant n a [] h x v = tt
  left-AllMeant n a (b ∷ rest) h x (v, w) = (left-Meant n a b h x v, left-AllMeant n a rest h x w)

  pub left-IsExact :
      (n m : ℕ) (a : Happening N same) (h : Host N)
      → (x : Acts n (event_at N same a) h) → IsExact N bound (view N h m)
      → IsExact N bound (view N (leave N n x.left h) m)
  left-IsExact n m a h x v = elim (Bool-cases (m == n)) [
    | inl e ↦ rw e record {
      counted = x.refines.exact.counted;
      waiting_le = x.refines.exact.waiting_le;
      capacity_le = x.refines.exact.capacity_le;
    }
    | inr e ↦
        rw e record { counted = v.counted; waiting_le = v.waiting_le; capacity_le = v.capacity_le }
  ]
