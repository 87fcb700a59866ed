-- ===== src/Host/Reading.antt =====
-- That what comes for a socket is read, among all the sockets of an object of rudp-l4-protocol.cc.
use rudpns.Prelude.{ℕ, ◌+◌, ◌%◌, ◌^◌, ◌<◌, ◌≤◌, ◌≡◌, sym, ap, ◌∙◌, false, [], ◌∷◌, ◌++◌, arith}
use mathlib.Core.Path.{subst}
use rudpns.Ns3.{Ns3, Env}
use rudpns.Ns3.Laws.{TagLaws}
use rudpns.Ns3.Owner.{Same, EndPoint, is_at}
use rudpns.State.{Socket, Returns, ok}
use rudpns.Socket.Binding.Owner.{IsFresh}
use rudpns.Socket.Receiving.Counter.{total}
use rudpns.Socket.Receiving.Inbox.{run}
use rudpns.Socket.Receiving.Inbox.Arrival.{Arrival, event_of, came, queued, accepted, size-queued}
use rudpns.Socket.Receiving.Inbox.Drain.{AtMost, AtMost-append, drains, Drained, run-drains}
use rudpns.Host.{Host, Has, new_host, view, deliver, Reaches}
use rudpns.Host.Sharing.{new-AllOwn, deliver-Reaches}

module _ (N : Ns3) (E : Env N) (same : Same N)
    (fresh : (ep : EndPoint N) → IsFresh N E (is_at N same ep)) where
  all_accepted :
      (s : Socket N) (x : Arrival N)
      → s.shutdown_recv ≡ false
      → (total N s.delivery_queue + N.get_size (came N x)) % 2 ^ 32 ≤ s.rcv_buf_size
      → accepted N s x ≡ queued N s x ∷ []
  all_accepted s x opened room = ground arith

  -- Where allocation gives no end point that calls a socket, and in a state that an object and its
  -- sockets reach from its constructor: a datagram that comes for the end point of a socket that is
  -- open for receiving, with room for it, is read. It is delivered without a fault, and as many calls
  -- of `Recv` as packets then wait, which take each of them by its size, give those that waited before,
  -- in their order, and the datagram after them, and leave the queue empty and the counter 0.
  pub drains-deliver :
      {h : Host N} (memory : ℕ → Socket N) (laws : TagLaws N) (n : ℕ) (ep : EndPoint N)
      (x : Arrival N) (max_size : ℕ)
      → Reaches N E (new_host N memory) h
      → n < h.object.created
      → Has N ep (h.numbered n)
      → (h.numbered n).shutdown_recv ≡ false
      → (total N (h.numbered n).delivery_queue + N.get_size (came N x)) % 2 ^ 32
        ≤ (h.numbered n).rcv_buf_size
      → AtMost N max_size (h.numbered n).delivery_queue
      → N.get_size (came N x) ≤ max_size
      → let all = (h.numbered n).delivery_queue ++ queued N (h.numbered n) x ∷ [] in
        (k : Host N) × (deliver N E same ep (event_of N x) h ≡ ok k)
        × Returns (Drained N all) (run N (drains N max_size all) (view N k n))
  drains-deliver {h} memory laws n ep x max_size r there e opened room fits fit =
      let (k, delivers, (queue, others, object), r') =
        deliver-Reaches N E same fresh laws memory n (n + 1) ep x r there e (omega arith) in
      let all = (h.numbered n).delivery_queue ++ queued N (h.numbered n) x ∷ [] in
      let below : n < k.object.created = subst (λ l. n < l.created) (sym object) there in
      let waits : (k.numbered n).delivery_queue ≡ all =
        queue
        ∙ ap (λ xs. (h.numbered n).delivery_queue ++ xs)
            (all_accepted (h.numbered n) x opened room) in
      let all_fit =
        AtMost-append N max_size (h.numbered n).delivery_queue (queued N (h.numbered n) x) fits
          (omega (arith, fit, size-queued N laws (h.numbered n) x)) in
      let own = (new-AllOwn N E (is_at N same) fresh memory r').sockets n below in
      (k, delivers, run-drains N max_size all (view N k n) all_fit own.counted waits)
