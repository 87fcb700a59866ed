-- ===== src/Socket/Receiving/Sender.antt =====
-- What receiving in rudp-socket-impl.cc leaves alone of the side that sends.
use rudpns.Prelude.{ℕ, ◌≡◌, ◌∙◌, arith}
use rudpns.Ns3.{Ns3, Ipv4Header}
use rudpns.State.{State, Result, ok, fault, M, ◌>>=◌, ◌>>◌}
use rudpns.Socket.Receiving.{recv, recv_from, enqueue, receive_up, tag_received}

module _ (N : Ns3) where
  abbrev pub SameSender : {A : Type 0} → State N → Result (A × State N) → Type 0
  SameSender s (fault f) = Unit {0}
  SameSender s (ok (a, t)) =
      (t.socket.end_point ≡ s.socket.end_point)
      × (t.socket.shutdown_send ≡ s.socket.shutdown_send)
      × (t.socket.node ≡ s.socket.node)
      × (t.socket.has_rudp ≡ s.socket.has_rudp)
      × (t.l4 ≡ s.l4)
      × (t.socket.options ≡ s.socket.options)

  SameSender-bind :
      {A B : Type 0} (m : M N A) (k : A → M N B) (s : State N)
      → SameSender s (m s)
      → ((a : A) (t : State N) → SameSender t (k a t))
      → SameSender s ((m >>= k) s)
  SameSender-bind {A} {B} m k s = go (m s)
    where
      after :
          (t : State N) (r : Result (B × State N))
          → SameSender s (ok (tt {0}, t))
          → SameSender t r
          → SameSender s r
      after t (ok (b, u)) p q = (q.0 ∙ p.0, q.1 ∙ p.1, q.2 ∙ p.2, q.3 ∙ p.3, q.4 ∙ p.4, q.5 ∙ p.5)
      after t (fault f) p q = tt

      go :
          (r : Result (A × State N))
          → SameSender s r
          → ((a : A) (t : State N) → SameSender t (k a t))
          → SameSender s (elim r [ ok (a, t) ↦ k a t | fault f ↦ fault f ])
      go (ok (a, t)) p next = after t (k a t) p (next a t)
      go (fault f) p next = tt

  enqueue-SameSender : (p : N.Packet) (a : N.Address) (s : State N) → SameSender s (enqueue N p a s)
  unfolding enqueue
  enqueue-SameSender p a s = ground arith

  receive_up-SameSender :
      (p : N.Packet) (h : Ipv4Header N.Ipv4Address) (port : ℕ) (i : N.Ipv4Interface) (s : State N)
      → SameSender s (receive_up N p h port i s)
  unfolding receive_up
  receive_up-SameSender p h port i s =
      ground (arith, enqueue-SameSender (tag_received N s.socket p h i) (N.of_inet h.source port) s)

  recv_from-SameSender : (m : ℕ) (s : State N) → SameSender s (recv_from N m s)
  unfolding recv_from recv
  recv_from-SameSender m s = ground arith

  pub recv_from-receive_up-SameSender :
      (p : N.Packet) (h : Ipv4Header N.Ipv4Address) (port : ℕ) (i : N.Ipv4Interface) (m : ℕ)
      (s : State N)
      → SameSender s ((receive_up N p h port i >> recv_from N m) s)
  recv_from-receive_up-SameSender p h port i m s =
      SameSender-bind (receive_up N p h port i) (λ _. recv_from N m) s
        (receive_up-SameSender p h port i s) (λ _ t. recv_from-SameSender m t)
