-- ===== src/Host/Queues/Interleaving.antt =====
-- How the calls of different sockets of rudp-socket-impl.cc are mixed does not show.
use rudpns.Prelude.{ℕ, ◌<◌, ◌≡◌, sym, ap, ◌∙◌, List}
use rudpns.Ns3.{Ns3, Env}
use rudpns.Ns3.Laws.{TagLaws}
use rudpns.Ns3.Owner.{is_at, Same, EndPoint}
use rudpns.State.{Socket, ok}
use rudpns.Socket.Binding.Owner.{IsFresh}
use rudpns.Socket.Receiving.Inbox.{Event, inbox, spec_run, IsExact}
use rudpns.Host.{Host, view, new_host, Reaches}
use rudpns.Host.Queues.{Happening, events, play, AllMeant}
use rudpns.Host.Queues.Refinement.{play-Refines}

module _ (N : Ns3) (E : Env N) (same : Same N)
    (fresh : (ep : EndPoint N) → IsFresh N E (is_at N same ep)) (laws : TagLaws N) (bound : ℕ)
    (memory : ℕ → Socket N) where
  -- Where allocation gives no end point that calls a socket, and in a state that an object and its
  -- sockets reach from its constructor, where every socket's counter is exact and neither its queue
  -- nor its buffer's size passes `bound`: two sequences of datagrams for the end points of the
  -- sockets, of reads and of changes of the buffers' sizes, that cannot make a counter's 32 bits
  -- overflow. If each socket's own part of the one is its part of the other, no matter how the parts
  -- are mixed, then both run without a fault, every application reads the same from both, and every
  -- socket is left with the same queue and the same size of its buffer.
  pub play-interleaves :
      (one other : List (Happening N same)) (h : Host N)
      → Reaches N E (new_host N memory) h
      → ((n : ℕ) → n < h.object.created → IsExact N bound (view N h n))
      → AllMeant N same bound h one
      → AllMeant N same bound h other
      → ((n : ℕ)
          → n < h.object.created
          → events N same n (h.numbered n) one ≡ events N same n (h.numbered n) other)
      → (out out' : ℕ → List N.Packet) × (k k' : Host N) × (play N same one h ≡ ok (out, k))
        × (play N same other h ≡ ok (out', k'))
        × ((n : ℕ)
            → n < h.object.created
            → (out n ≡ out' n) × (inbox N (view N k n) ≡ inbox N (view N k' n)))
  play-interleaves one other h r exact meant meant' parts =
      let (out, k, plays, _, answers) =
        play-Refines N E same fresh laws bound memory one h r exact meant in
      let (out', k', plays', _, answers') =
        play-Refines N E same fresh laws bound memory other h r exact meant' in
      (
        out,
        out',
        k,
        k',
        plays,
        plays',
        λ n below.
            let run =
              λ (es : List (Event N)). spec_run N (h.numbered n) es (inbox N (view N h n)) in
            let a = answers n below in
            let b = answers' n below in
            (
              a.same_output ∙ ap (λ es. (run es).0) (parts n below) ∙ sym b.same_output,
              a.same_inbox ∙ ap (λ es. (run es).1) (parts n below) ∙ sym b.same_inbox,
            ),
      )
