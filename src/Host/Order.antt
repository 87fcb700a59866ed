-- ===== src/Host/Order.antt =====
-- That the order in which datagrams come for different sockets does not matter to them:
-- rudp-socket-impl.cc.
use rudpns.Prelude.{ℕ, ◌<◌, ◌≡◌, ◌≢◌, sym, ap, ◌∙◌, ◌++◌, arith}
use mathlib.Core.Path.{subst}
use rudpns.Ns3.{Ns3, Env}
use rudpns.Ns3.Laws.{TagLaws}
use rudpns.Ns3.Owner.{Same, EndPoint, is_at}
use rudpns.State.{Socket, ok}
use rudpns.Socket.Binding.Owner.{IsFresh}
use rudpns.Socket.Receiving.Inbox.Arrival.{Arrival, event_of, accepted}
use rudpns.Host.{Host, Has, new_host, deliver, Reaches}
use rudpns.Host.Sharing.{deliver-Reaches}

module _ (N : Ns3) where
  -- The queues of two sockets that got what they accept of an arrival each.
  abbrev pub BothGot : Host N → (n m : ℕ) → (x y : Arrival N) → Host N → Type 0
  BothGot h n m x y k =
      ((k.numbered n).delivery_queue ≡ (h.numbered n).delivery_queue ++ accepted N (h.numbered n) x)
      × ((k.numbered m).delivery_queue
          ≡ (h.numbered m).delivery_queue ++ accepted N (h.numbered m) y)

module _ (N : Ns3) (E : Env N) (same : Same N)
    (fresh : (ep : EndPoint N) → IsFresh N E (is_at N same ep)) (laws : TagLaws N)
    (memory : ℕ → Socket N) where
  -- One order.
  deliver_both :
      {h : Host N} (n m : ℕ) (ep ep' : EndPoint N) (x y : Arrival N)
      → Reaches N E (new_host N memory) h
      → n < h.object.created
      → m < h.object.created
      → Has N ep (h.numbered n)
      → Has N ep' (h.numbered m)
      → m ≢ n
      → (j k : Host N) × (deliver N E same ep (event_of N x) h ≡ ok j)
        × (deliver N E same ep' (event_of N y) j ≡ ok k)
        × BothGot N h n m x y k
  deliver_both {h} n m ep ep' x y r there there' e e' differ =
      let (j, first, (got, kept, object), r') =
        deliver-Reaches N E same fresh laws memory n m ep x r there e differ in
      let below : m < j.object.created = subst (λ l. m < l.created) (sym object) there' in
      let holds : Has N ep' (j.numbered m) = subst (Has N ep') (sym kept) e' in
      let (k, second, (got', kept', object'), r'') =
        deliver-Reaches N E same fresh laws memory m n ep' y r' below holds (omega arith) in
      (
        j,
        k,
        first,
        second,
        (
          ap (λ s. s.delivery_queue) kept' ∙ got,
          got' ∙ ap (λ s. s.delivery_queue ++ accepted N s y) kept,
        ),
      )

  -- Where allocation gives no end point that calls a socket, and in a state that an object and its
  -- sockets reach from its constructor: datagrams for the end points of two different sockets may come
  -- in either order. No delivery makes a fault, and each socket's queue ends as if only its own
  -- datagram had come, so the two orders leave the same queues.
  pub deliver_both-commutes :
      {h : Host N} (n m : ℕ) (ep ep' : EndPoint N) (x y : Arrival N)
      → Reaches N E (new_host N memory) h
      → n < h.object.created
      → m < h.object.created
      → Has N ep (h.numbered n)
      → Has N ep' (h.numbered m)
      → m ≢ n
      → (j k j' k' : Host N) × (deliver N E same ep (event_of N x) h ≡ ok j)
        × (deliver N E same ep' (event_of N y) j ≡ ok k)
        × (deliver N E same ep' (event_of N y) h ≡ ok j')
        × (deliver N E same ep (event_of N x) j' ≡ ok k')
        × BothGot N h n m x y k
        × ((k.numbered n).delivery_queue ≡ (k'.numbered n).delivery_queue)
        × ((k.numbered m).delivery_queue ≡ (k'.numbered m).delivery_queue)
  deliver_both-commutes n m ep ep' x y r there there' e e' differ =
      let (j, k, first, second, (a, b)) = deliver_both n m ep ep' x y r there there' e e' differ in
      let (j', k', first', second', (b', a')) =
        deliver_both m n ep' ep y x r there' there e' e (omega arith) in
      (j, k, j', k', first, second, first', second', (a, b), a ∙ sym a', b ∙ sym b')
