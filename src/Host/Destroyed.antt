-- ===== src/Host/Destroyed.antt =====
-- What the destructor of a socket of rudp-socket-impl.cc leaves of all the sockets of an object.
use rudpns.Prelude.{ℕ, ◌<◌, ap, ◌∙◌, ◌%◌, ◌^◌, sym, Option, none, some, arith}
use mathlib.Core.Path.{subst}
use rudpns.Ns3.{Ns3, Env, Trace}
use rudpns.Ns3.Owner.{Probe, EndPoint, is_socket, on_deletion, nowhere, once-nowhere}
use rudpns.State.{State, Result, ok, fault}
use rudpns.Socket.Closing.{destroy_socket}
use rudpns.Socket.Closing.Frames.{Leaves, destroy_socket-Leaves}
use rudpns.Socket.Closing.Owner.{destroy_socket-StaysOwned}
use rudpns.Socket.Owner.{Owns, StaysOwned}
use rudpns.Socket.Receiving.Counter.{total}
use rudpns.Host.{Host, view, leave, destruct}
use rudpns.Host.Steps.{AllOwn, AllOwnIn, put-IsOwn, keep-OwnsNone}

module _ (N : Ns3) (E : Env N) (probe : EndPoint N → Probe N) where
  pub destruct-AllOwn :
      (m : ℕ) (h : Host N)
      → AllOwn N probe h
      → m < h.object.created
      → AllOwnIn N probe (destruct N E m h)
  unfolding destruct
  destruct-AllOwn m h v there =
      let calls_back = λ (ep : EndPoint N) (t : Trace N). is_socket m (on_deletion E ep t) in
      go (destroy_socket N calls_back (view N h m))
        (destroy_socket-Leaves N calls_back (view N h m))
        (destroy_socket-StaysOwned N (nowhere N) none calls_back (view N h m)
          (ground arith, once-nowhere N h.calls))
        λ ep o w. destroy_socket-StaysOwned N (probe ep) o calls_back (view N h m) w
    where
      go :
          (r : Result (Unit {0} × State N))
          → Leaves N (view N h m) r
          → StaysOwned N (nowhere N) none (h.numbered m).this r
          → ((ep : EndPoint N) (o : Option ℕ)
              → Owns N (probe ep) o (view N h m)
              → StaysOwned N (probe ep) o (h.numbered m).this r)
          → AllOwnIn N probe (elim r [ ok (_, t) ↦ ok (leave N m t h) | fault f ↦ fault f ])
      go (fault f) leaves number stays = tt
      go (ok (u, t)) leaves number stays = record {
        end_points = ap (λ l. l.has_end_points) leaves.0 ∙ v.end_points;
        end_points6 = ap (λ l. l.has_end_points6) leaves.0 ∙ v.end_points6;
        given_once = λ ep. (stays ep none ((v.sockets m there).owns ep, v.given_once ep)).0.1;
        sockets = λ n below.
            let old = v.sockets n (subst (λ l. n < l.created) leaves.0 below) in
            put-IsOwn N probe h.numbered n m t.socket t.trace
              (λ e. record {
                number = ground (arith, e, (v.sockets m there).number, number.1);
                counted =
                    leaves.2
                    ∙ (v.sockets m there).counted
                    ∙ ap (λ q. total N q % 2 ^ 32) (sym leaves.1);
                owns = λ ep. (stays ep none ((v.sockets m there).owns ep, v.given_once ep)).0.0;
              })
              (λ e. record {
                number = old.number;
                counted = old.counted;
                owns = λ ep.
                    keep-OwnsNone N probe (probe ep) n m h t e old.number (v.sockets m there).number
                      (old.owns ep) ((v.sockets m there).owns ep) (v.given_once ep)
                      (stays ep (some n));
              });
      }
