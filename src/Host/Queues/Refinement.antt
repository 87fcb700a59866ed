-- ===== src/Host/Queues/Refinement.antt =====
-- All the sockets of one object of rudp-l4-protocol.cc receive as bounded queues that know nothing of
-- each other.
use rudpns.Prelude.{
  ℕ, ◌<◌, ◌≡◌, refl, sym, true, List, [], ◌∷◌, ◌++◌, ◌==◌, if◌then◌else◌, arith, Bool-cases, inl,
  inr,
}
use mathlib.Core.Path.{subst}
use rudpns.Ns3.{Ns3, Env}
use rudpns.Ns3.Laws.{TagLaws}
use rudpns.Ns3.Owner.{is_at, Same, EndPoint}
use rudpns.State.{Socket, ok}
use rudpns.Socket.Binding.Owner.{IsFresh}
use rudpns.Socket.Reach.{receives}
use rudpns.Socket.Receiving.Inbox.{IsExact}
use rudpns.Socket.Receiving.Inbox.Refinement.{Refines-nil}
use rudpns.Host.{Host, view, leave, new_host, Reaches, calls_socket}
use rudpns.Host.Sharing.{new-AllOwn}
use rudpns.Host.Queues.{
  Answers, Happening, event_at, concerns, play, AllMeant, happen-act, concerns-other,
}
use rudpns.Host.Queues.Steps.{
  Acts, act-Acts, this-Answers, other-Answers, left-AllMeant, left-IsExact,
}

module _ (N : Ns3) (E : Env N) (same : Same N)
    (fresh : (ep : EndPoint N) → IsFresh N E (is_at N same ep)) (laws : TagLaws N) (bound : ℕ) where
  module _ (memory : ℕ → Socket N) where
    abbrev AllAnswer : List (Happening N same) → Host N → Type 0
    AllAnswer rest h =
        (out : ℕ → List N.Packet) × (k : Host N) × (play N same rest h ≡ ok (out, k))
        × Reaches N E (new_host N memory) k
        × ((n : ℕ) → n < h.object.created → Answers N same bound n rest h out k)

    play-cons :
        (n : ℕ) (a : Happening N same) (rest : List (Happening N same)) (h : Host N)
        → Reaches N E (new_host N memory) h
        → n < h.object.created
        → concerns N same n (h.numbered n) a ≡ true
        → (x : Acts N E same laws bound n (event_at N same a) h)
        → AllAnswer rest (leave N n x.left h)
        → AllAnswer (a ∷ rest) h
    unfolding play
    play-cons n a rest h r below c x (later, l, plays, reached, answers) =
        let own = new-AllOwn N E (is_at N same) fresh memory r in
        (
          λ m. (if m == n then x.out else []) ++ later m,
          l,
          rw (happen-act N same n a h own below c, x.acts, plays, play) refl,
          reached,
          λ m there.
              let there' = subst (λ o. m < o.created) (sym x.same_object) there in
              elim (Bool-cases (m == n)) [
                | inl e ↦
                    let p : n ≡ m = ground (arith, e) in
                    let self : (n == n) ≡ true = subst (λ i. (i == n) ≡ true) (sym p) e in
                    subst
                      (λ i.
                        Answers N same bound i (a ∷ rest) h
                          (λ m. (if m == n then x.out else []) ++ later m) l)
                      p
                      (this-Answers N E same laws bound n a rest h l later c self x
                        (answers n (subst (λ o. n < o.created) (sym x.same_object) below)))
                | inr e ↦
                    other-Answers N E same laws bound n m a rest h l later
                      (concerns-other N same n m a h own below there c e) e x (answers m there')
              ],
        )

    -- Where allocation gives no end point that calls a socket, and in a state that an object and its
    -- sockets reach from its constructor, where every socket's counter is exact and neither its queue
    -- nor its buffer's size passes `bound`: over every sequence of datagrams for the end points of the
    -- sockets, of reads and of changes of the buffers' sizes, of all the sockets mixed in any way, that
    -- cannot make a counter's 32 bits overflow, the code makes no fault. What the application of each
    -- socket reads and what stays in the socket's buffer is what a bounded queue gives that was told
    -- of this socket's part of the sequence alone. The state at the end is one that is reached.
    pub play-Refines :
        (happenings : List (Happening N same)) (h : Host N)
        → Reaches N E (new_host N memory) h
        → ((n : ℕ) → n < h.object.created → IsExact N bound (view N h n))
        → AllMeant N same bound h happenings
        → (out : ℕ → List N.Packet) × (k : Host N) × (play N same happenings h ≡ ok (out, k))
          × Reaches N E (new_host N memory) k
          × ((n : ℕ) → n < h.object.created → Answers N same bound n happenings h out k)
    unfolding play
    play-Refines [] h r exact meant =
        (λ m. [], h, refl, r, λ n below. Refines-nil N laws bound (view N h n) (exact n below))
    play-Refines (a ∷ rest) h r exact ((fits, (n, below, c)), meant) =
        let x = act-Acts N E same laws bound n (event_at N same a) h (exact n below) fits in
        play-cons n a rest h r below c x (
          play-Refines rest (leave N n x.left h)
            (calls_socket r n (receives (event_at N same a)) below x.called)
            (λ m there.
              left-IsExact N E same laws bound n m a h x
                (exact m (subst (λ o. m < o.created) x.same_object there)))
            (left-AllMeant N E same laws bound n a rest h x meant))
