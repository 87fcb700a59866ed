-- ===== src/Socket/Closing/Ended.antt =====
-- Closing in rudp-socket-impl.cc when there are no end points any more.
use rudpns.Prelude.{◌≡◌, ℕ, Bool, arith}
use rudpns.Ns3.{Ns3, Trace}
use rudpns.State.{Returns, State}
use rudpns.Ns3.Used.{used}
use rudpns.Ns3.Owner.{EndPoint}
use rudpns.Socket.Closing.{
  discard, discard6, destroy_socket, shutdown_sending, shutdown_receiving, give_back, give_back6,
  deallocate_end_point, close,
}
use rudpns.Socket.Ended.{IsEnded, StaysEnded}

module _ (N : Ns3) (u : Trace N) (c : ℕ) (s : State N) (v : IsEnded N u c s) where
  pub shutdown-StaysEnded :
      StaysEnded N u c (shutdown_sending N s) × StaysEnded N u c (shutdown_receiving N s)
  unfolding shutdown_sending shutdown_receiving
  shutdown-StaysEnded = ground arith

  pub close-StaysEnded : StaysEnded N u c (close N s)
  unfolding close deallocate_end_point give_back give_back6
  close-StaysEnded = ground arith

  pub close-gone : Returns (λ _ t. used N t.trace ≡ u) (close N s)
  unfolding close deallocate_end_point give_back give_back6
  close-gone = ground arith

  pub destroy_socket-StaysEnded :
      (calls_back : EndPoint N → Trace N → Bool) → StaysEnded N u c (destroy_socket N calls_back s)
  unfolding destroy_socket discard discard6
  destroy_socket-StaysEnded calls_back = ground arith
