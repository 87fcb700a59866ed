-- ===== src/Socket/Receiving/Counter.antt =====
-- `m_rxAvailable` against the queue of rudp-socket-impl.cc.
use rudpns.Prelude.{ℕ, ◌+◌, ◌%◌, ◌^◌, ◌≡◌, List, [], ◌∷◌, ◌++◌, arith}
use rudpns.Ns3.{Ns3}
use rudpns.State.{Socket}

module _ (N : Ns3) where
  -- The bytes that wait in a queue.
  abbrev pub total : List N.Packet → ℕ
  total [] = 0
  total (p ∷ ps) = N.get_size p + total ps

  pub total-append : (ps qs : List N.Packet) → total (ps ++ qs) ≡ total ps + total qs
  total-append [] qs = omega arith
  total-append (p ∷ ps) qs = omega (arith, total-append ps qs)

  -- The counter is the number of waiting bytes, as far as 32 bits hold it.
  abbrev pub IsCounted : Socket N → Type 0
  IsCounted s = s.rx_available ≡ total s.delivery_queue % 2 ^ 32
