-- ===== src/Socket/Receiving/Inbox/Drain.antt =====
-- Reading a queue of rudp-socket-impl.cc to its end.
use rudpns.Prelude.{ℕ, ◌≤◌, ◌≡◌, ◌∙◌, ap, List, [], ◌∷◌, ◌++◌, arith}
use rudpns.Ns3.{Ns3}
use rudpns.State.{State, Returns, Returns-bind}
use rudpns.Socket.Receiving.{recv}
use rudpns.Socket.Receiving.Counter.{IsCounted}
use rudpns.Socket.Receiving.Inbox.{Event, reads, perform, run}

module _ (N : Ns3) where
  abbrev pub AtMost : (max_size : ℕ) → List N.Packet → Type 0
  AtMost m [] = Unit {0}
  AtMost m (p ∷ ps) = (N.get_size p ≤ m) × AtMost m ps

  pub AtMost-append :
      (m : ℕ) (ps : List N.Packet) (p : N.Packet)
      → AtMost m ps
      → N.get_size p ≤ m
      → AtMost m (ps ++ p ∷ [])
  AtMost-append m [] p fits fit = (fit, tt)
  AtMost-append m (q ∷ ps) p (h, fits) fit = (h, AtMost-append m ps p fits fit)

  -- As many reads as packets wait.
  abbrev pub drains : (max_size : ℕ) → List N.Packet → List (Event N)
  drains m [] = []
  drains m (p ∷ ps) = reads m ∷ drains m ps

  abbrev pub Drained : List N.Packet → List N.Packet → State N → Type 0
  Drained ps out t = (out ≡ ps) × (t.socket.delivery_queue ≡ []) × (t.socket.rx_available ≡ 0)

  reads-head :
      (m : ℕ) (p : N.Packet) (ps : List N.Packet) (s : State N)
      → N.get_size p ≤ m
      → IsCounted N s.socket
      → s.socket.delivery_queue ≡ p ∷ ps
      → Returns
          (λ out t. (out ≡ p ∷ []) × (t.socket.delivery_queue ≡ ps) × IsCounted N t.socket)
          (perform N (reads m) s)
  unfolding perform recv
  reads-head m p ps s fit v e = ground (arith, v, e)

  append-Drained :
      (p : N.Packet) (ps out rest : List N.Packet) (t : State N)
      → out ≡ p ∷ []
      → Drained ps rest t
      → Drained (p ∷ ps) (out ++ rest) t
  append-Drained p ps out rest t e (f, q, z) = (ap (λ xs. xs ++ rest) e ∙ ap (λ xs. p ∷ xs) f, q, z)

  -- A socket whose counter is right, read as often as packets wait by calls of `Recv` that take each
  -- of them by its size: the packets come out, all of them and in their order, and then the queue is
  -- empty and the counter 0.
  pub run-drains :
      (max_size : ℕ) (ps : List N.Packet) (s : State N)
      → AtMost max_size ps
      → IsCounted N s.socket
      → s.socket.delivery_queue ≡ ps
      → Returns (Drained ps) (run N (drains max_size ps) s)
  unfolding run
  run-drains m [] s fits v e = ground (arith, v, e)
  run-drains m (p ∷ ps) s (fit, fits) v e =
      Returns-bind (Drained (p ∷ ps)) (perform N (reads m)) _ s (reads-head m p ps s fit v e)
        λ out t (got, q, w).
          Returns-bind (Drained (p ∷ ps)) (run N (drains m ps)) _ t (run-drains m ps t fits w q)
            λ rest u d. append-Drained p ps out rest u got d
