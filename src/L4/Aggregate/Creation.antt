-- ===== src/L4/Aggregate/Creation.antt =====
-- `RudpL4Protocol::CreateSocket` of rudp-l4-protocol.cc: each socket is a new one.
use rudpns.Prelude.{ℕ, ◌<◌, ◌≡◌, ◌≢◌, ◌+◌, refl, none, true, false, ◌++◌, List, [], ◌∷◌, arith}
use rudpns.Ns3.{Ns3}
use rudpns.State.{Socket, State, Returns}
use rudpns.L4.Aggregate.{create_socket, new_socket}

abbrev pub AllBelow : ℕ → List ℕ → Type 0
AllBelow n [] = Unit {0}
AllBelow n (x ∷ xs) = (x < n) × AllBelow n xs

abbrev pub AllDiffer : ℕ → List ℕ → Type 0
AllDiffer n [] = Unit {0}
AllDiffer n (x ∷ xs) = (x ≢ n) × AllDiffer n xs

AllBelow→AllDiffer : (n : ℕ) (xs : List ℕ) → AllBelow n xs → AllDiffer n xs
AllBelow→AllDiffer n [] h = tt
AllBelow→AllDiffer n (x ∷ xs) (h, hs) = (omega arith, AllBelow→AllDiffer n xs hs)

AllBelow-append : (n : ℕ) (xs : List ℕ) → AllBelow n xs → AllBelow (n + 1) (xs ++ n ∷ [])
AllBelow-append n [] h = (omega arith, tt)
AllBelow-append n (x ∷ xs) (h, hs) = (omega arith, AllBelow-append n xs hs)

module _ (N : Ns3) where
  -- Where the sockets are numbered by their creation, `CreateSocket` keeps them so: the new one is
  -- the last of the list and none of those before it. It is on the protocol object's node and knows
  -- the object; it is neither bound, connected nor shut down, its queue is empty and its counter 0.
  pub create_socket-AllDiffer :
      (memory : Socket N) (s : State N)
      → AllBelow s.l4.created s.l4.sockets
      → Returns
          (λ socket s'.
            AllBelow s'.l4.created s'.l4.sockets
            × AllDiffer socket.this s.l4.sockets
            × (s'.l4.sockets ≡ s.l4.sockets ++ socket.this ∷ [])
            × ((socket.node ≡ s.l4.l4_node) × (socket.has_rudp ≡ true))
            × ((socket.end_point ≡ none) × (socket.end_point6 ≡ none))
            × ((socket.connected ≡ false)
                × (socket.shutdown_send ≡ false)
                × (socket.shutdown_recv ≡ false))
            × ((socket.delivery_queue ≡ []) × (socket.rx_available ≡ 0)))
          (create_socket N memory s)
  unfolding create_socket new_socket
  create_socket-AllDiffer memory s h = (
    AllBelow-append s.l4.created s.l4.sockets h,
    AllBelow→AllDiffer s.l4.created s.l4.sockets h,
    refl,
    (refl, refl),
    (refl, refl),
    (refl, refl, refl),
    (refl, refl),
  )
