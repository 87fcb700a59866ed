-- ===== src/Host/Steps.antt =====
-- What every call keeps, over all the sockets of an object: rudp-l4-protocol.cc, rudp-socket-impl.cc.
use rudpns.Prelude.{
  ℕ, ◌<◌, ◌≡◌, refl, ap, ◌∙◌, true, false, not, ◌&&◌, Option, none, some, ◌==◌, arith, Bool-cases,
  inl, inr,
}
use mathlib.Core.Path.{subst}
use rudpns.Ns3.{Ns3, Env, Trace}
use rudpns.Ns3.Owner.{Probe, owner, once, once-nowhere, is_socket, EndPoint, nowhere}
use rudpns.State.{State, Result, ok, fault, Socket}
use rudpns.L4.{new_l4}
use rudpns.L4.Aggregate.{create_socket, new_socket}
use rudpns.Socket.{socket_set_node, socket_set_rudp}
use rudpns.Socket.Owner.{holds, Owns, StaysOwned}
use rudpns.Socket.Binding.Owner.{IsFresh}
use rudpns.Socket.Reach.{Operation, step, step-Sound, Sound}
use rudpns.Socket.Receiving.Counter.{IsCounted}
use rudpns.Host.{Host, view, put, leave, new_host, create, call, on_object}
use rudpns.L4.Aggregate.Owner.{SameSockets}
use rudpns.Host.Ownership.{step-StaysOwned}

module _ (N : Ns3) (probe : EndPoint N → Probe N) where
  abbrev pub OwnsNone : Probe N → Socket N → Trace N → Type 0
  OwnsNone is_it s t = (holds N is_it s && not (is_socket s.this (owner N is_it t))) ≡ false

  -- A socket has its number, its counter is right, and its end point calls it.
  pub record IsOwn (n : ℕ) (s : Socket N) (t : Trace N) : Type 0 where
    pub number : s.this ≡ n
    pub counted : IsCounted N s
    pub owns : (ep : EndPoint N) → OwnsNone (probe ep) s t

  -- Of every socket created, for an object that has its end points, none of which was given back twice.
  pub record AllOwn (h : Host N) : Type 0 where
    pub end_points : h.object.has_end_points ≡ true
    pub end_points6 : h.object.has_end_points6 ≡ true
    pub given_once : (ep : EndPoint N) → once N (probe ep) h.calls ≡ true
    pub sockets : (n : ℕ) → n < h.object.created → IsOwn n (h.numbered n) h.calls

  abbrev pub AllOwnIn : Result (Host N) → Type 0
  AllOwnIn (ok h) = AllOwn h
  AllOwnIn (fault f) = Unit {0}

  pub new_host-AllOwn : (memory : ℕ → Socket N) → AllOwn (new_host N memory)
  unfolding new_l4
  new_host-AllOwn memory = record {
    end_points = refl;
    end_points6 = refl;
    given_once = λ ep. refl;
    sockets = λ n below. let none_created : ⊥ = omega arith in absurd none_created;
  }

  -- Socket `n` after socket `m` was left as `a`.
  pub put-IsOwn :
      (f : ℕ → Socket N) (n m : ℕ) (a : Socket N) (t : Trace N)
      → ((n == m) ≡ true → IsOwn n a t)
      → ((n == m) ≡ false → IsOwn n (f n) t)
      → IsOwn n (put N f m a n) t
  put-IsOwn f n m a t this other = elim (Bool-cases (n == m)) [
    | inl e ↦ rw e (this e)
    | inr e ↦ rw e (other e)
  ]

  pub create-AllOwn : (memory : Socket N) (h : Host N) → AllOwn h → AllOwnIn (create N memory h)
  unfolding create create_socket new_socket socket_set_node socket_set_rudp
  create-AllOwn memory h v = record {
    end_points = v.end_points;
    end_points6 = v.end_points6;
    given_once = v.given_once;
    sockets = λ n below.
        put-IsOwn h.numbered n h.object.created _ h.calls
          (λ e. record { number = ground (arith, e); counted = refl; owns = λ ep. refl })
          (λ e. v.sockets n (ground (arith, e, below)));
  }

  -- A call of the object that changes no callback.
  pub on_object-AllOwn :
      {A : Type 0} (E : Env N) (h : Host N) (r : Result (A × State N))
      → AllOwn h
      → ((is_it : Probe N) → SameSockets N is_it (view N h 0) r)
      → AllOwnIn (on_object N E h r)
  on_object-AllOwn E h (fault f) v q = tt
  on_object-AllOwn E h (ok (a, t)) v q = record {
    end_points = (q (nowhere N)).2 ∙ v.end_points;
    end_points6 = (q (nowhere N)).3 ∙ v.end_points6;
    given_once = λ ep. (q (probe ep)).4 ∙ v.given_once ep;
    sockets = λ n below.
        let w = v.sockets n (subst (λ c. n < c) (q (nowhere N)).1 below) in
        record {
          number = w.number;
          counted = w.counted;
          owns = λ ep. ground (arith, w.owns ep, (q (probe ep)).0);
        };
  }

  -- An end point of socket `n` calls it still after socket `m` did something.
  pub keep-OwnsNone :
      (is_it : Probe N) (n m : ℕ) (h : Host N) (t : State N)
      → (n == m) ≡ false
      → (h.numbered n).this ≡ n
      → (h.numbered m).this ≡ m
      → OwnsNone is_it (h.numbered n) h.calls
      → OwnsNone is_it (h.numbered m) h.calls
      → once N is_it h.calls ≡ true
      → (Owns N is_it (some n) (view N h m)
          → StaysOwned N is_it {A = Unit {0}} (some n) (h.numbered m).this (ok (tt, t)))
      → OwnsNone is_it (h.numbered n) t.trace
  keep-OwnsNone is_it n m h t differ a b v w given stays =
      elim (Bool-cases (holds N is_it (h.numbered n))) [
        | inr e ↦ ground (arith, e)
        | inl e ↦
            let mine : owner N is_it h.calls ≡ some n = ground (arith, a, v, e) in
            let other : holds N is_it (h.numbered m) ≡ false = ground (arith, b, w, mine, differ) in
            ground (arith, a, (stays (other, mine, given)).0.1)
      ]

  module _ (E : Env N) (fresh : (ep : EndPoint N) → IsFresh N E (probe ep)) where
    pub call-AllOwn :
        (m : ℕ) (op : Operation N) (h : Host N)
        → AllOwn h
        → m < h.object.created
        → AllOwnIn (call N E m op h)
    unfolding call
    call-AllOwn m op h v there =
        go (step N E op (view N h m)) (step-Sound N E op (view N h m) (v.sockets m there).counted)
          (step-StaysOwned N E (nowhere N)
            (record { fresh = λ t r. ground arith; fresh6 = λ t r. ground arith }) none op
            (view N h m) (ground arith, once-nowhere N h.calls))
          λ ep o w. step-StaysOwned N E (probe ep) (fresh ep) o op (view N h m) w
      where
        go :
            (r : Result (Unit {0} × State N))
            → Sound N (view N h m) r
            → StaysOwned N (nowhere N) none (h.numbered m).this r
            → ((ep : EndPoint N) (o : Option ℕ)
                → Owns N (probe ep) o (view N h m)
                → StaysOwned N (probe ep) o (h.numbered m).this r)
            → AllOwnIn (elim r [ ok (_, t) ↦ ok (leave N m t h) | fault f ↦ fault f ])
        go (fault f) sound number stays = tt
        go (ok (u, t)) (k, counted) number stays = record {
          end_points = ap (λ l. l.has_end_points) k.same_l4 ∙ v.end_points;
          end_points6 = ap (λ l. l.has_end_points6) k.same_l4 ∙ v.end_points6;
          given_once = λ ep. (stays ep none ((v.sockets m there).owns ep, v.given_once ep)).0.1;
          sockets = λ n below.
              let old = v.sockets n (subst (λ l. n < l.created) k.same_l4 below) in
              put-IsOwn h.numbered n m t.socket t.trace
                (λ e. record {
                  number = ground (arith, e, (v.sockets m there).number, number.1);
                  counted = counted;
                  owns = λ ep. (stays ep none ((v.sockets m there).owns ep, v.given_once ep)).0.0;
                })
                (λ e. record {
                  number = old.number;
                  counted = old.counted;
                  owns = λ ep.
                      keep-OwnsNone (probe ep) n m h t e old.number (v.sockets m there).number
                        (old.owns ep) ((v.sockets m there).owns ep) (v.given_once ep)
                        (stays ep (some n));
                });
        }
