-- ===== src/Socket/Closing/Frames.antt =====
-- What closing in rudp-socket-impl.cc leaves alone.
use rudpns.Prelude.{◌≡◌, refl, ◌∙◌, Bool, false, Option, none, some, arith}
use rudpns.Ns3.{Ns3, Trace}
use rudpns.Ns3.Owner.{EndPoint}
use rudpns.State.{State, Result, ok, fault, M, ◌>>=◌}
use rudpns.Socket.{destroy, destroy6}
use rudpns.L4.{l4_deallocate, l4_deallocate6}
use rudpns.Socket.Closing.{
  shutdown_sending, shutdown_receiving, give_back, give_back6, deallocate_end_point, close, discard,
  discard6, destroy_socket,
}
use rudpns.Socket.Frame.{Frames}

module _ (N : Ns3) where
  pub shutdown-Frames :
      (s : State N) → Frames N s (shutdown_sending N s) × Frames N s (shutdown_receiving N s)
  unfolding shutdown_sending shutdown_receiving
  shutdown-Frames s = ground arith

  pub close-Frames : (s : State N) → Frames N s (close N s)
  unfolding close deallocate_end_point give_back give_back6 l4_deallocate l4_deallocate6
  close-Frames s = ground arith

  -- The destructor leaves the object, the queue and the counter alone.
  abbrev pub Leaves : {A : Type 0} → State N → Result (A × State N) → Type 0
  Leaves s (fault f) = Unit {0}
  Leaves s (ok (a, t)) =
      (t.l4 ≡ s.l4)
      × (t.socket.delivery_queue ≡ s.socket.delivery_queue)
      × (t.socket.rx_available ≡ s.socket.rx_available)

  Leaves-bind :
      {A B : Type 0} (m : M N A) (k : A → M N B) (s : State N)
      → Leaves s (m s)
      → ((a : A) (t : State N) → Leaves t (k a t))
      → Leaves s ((m >>= k) s)
  Leaves-bind {A} {B} m k s = go (m s)
    where
      after :
          (t : State N) (r : Result (B × State N))
          → Leaves s (ok (tt {0}, t))
          → Leaves t r
          → Leaves s r
      after t (ok (b, u)) p q = (q.0 ∙ p.0, q.1 ∙ p.1, q.2 ∙ p.2)
      after t (fault f) p q = tt

      go :
          (r : Result (A × State N))
          → Leaves s r
          → ((a : A) (t : State N) → Leaves t (k a t))
          → Leaves s (elim r [ ok (a, t) ↦ k a t | fault f ↦ fault f ])
      go (ok (a, t)) p next = after t (k a t) p (next a t)
      go (fault f) p next = tt

  module _ (calls_back : EndPoint N → Trace N → Bool) where
    discard-Leaves : (e : Option N.Ipv4EndPoint) (s : State N) → Leaves s (discard N calls_back e s)
    unfolding discard destroy l4_deallocate
    discard-Leaves none s = ground arith
    discard-Leaves (some ep) s = ground arith

    discard6-Leaves :
        (e : Option N.Ipv6EndPoint) (s : State N) → Leaves s (discard6 N calls_back e s)
    unfolding discard6 destroy6 l4_deallocate6
    discard6-Leaves none s = ground arith
    discard6-Leaves (some ep) s = ground arith

    pub destroy_socket-Leaves : (s : State N) → Leaves s (destroy_socket N calls_back s)
    unfolding destroy_socket
    destroy_socket-Leaves s =
        let alone = record s { socket = record s.socket { node = none } } in
        Leaves-bind (discard N calls_back s.socket.end_point) _ alone
          (discard-Leaves s.socket.end_point alone)
          λ _ t.
            Leaves-bind (discard6 N calls_back s.socket.end_point6) _ t
              (discard6-Leaves s.socket.end_point6 t) λ _ u. (refl, refl, refl)

  -- It forgets the object.
  abbrev pub Forgets : {A : Type 0} → Result (A × State N) → Type 0
  Forgets (fault f) = Unit {0}
  Forgets (ok (a, t)) = t.socket.has_rudp ≡ false

  Forgets-bind :
      {A B : Type 0} (m : M N A) (k : A → M N B) (s : State N)
      → ((a : A) (t : State N) → Forgets (k a t))
      → Forgets ((m >>= k) s)
  Forgets-bind {A} {B} m k s = go (m s)
    where
      go :
          (r : Result (A × State N))
          → ((a : A) (t : State N) → Forgets (k a t))
          → Forgets (elim r [ ok (a, t) ↦ k a t | fault f ↦ fault f ])
      go (ok (a, t)) next = next a t
      go (fault f) next = tt

  pub destroy_socket-Forgets :
      (calls_back : EndPoint N → Trace N → Bool) (s : State N)
      → Forgets (destroy_socket N calls_back s)
  unfolding destroy_socket
  destroy_socket-Forgets calls_back s =
      Forgets-bind (discard N calls_back s.socket.end_point) _
        (record s { socket = record s.socket { node = none } })
        λ _ t. Forgets-bind (discard6 N calls_back s.socket.end_point6) _ t λ _ u. refl
