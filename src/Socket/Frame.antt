-- ===== src/Socket/Frame.antt =====
-- What no function of a socket in rudp-socket-impl.cc changes, but for the destructor: its node, its
-- protocol object and that object's state; and that a shutdown is never taken back.
use rudpns.Prelude.{◌≡◌, ◌∙◌, Bool, false, not, ◌&&◌, arith, ℕ}
use rudpns.Ns3.{Ns3}
use rudpns.State.{State, Result, ok, fault, M, ◌>>=◌}
use rudpns.Socket.{
  connect, listen, destroy, destroy6, set_mtu_discover, forward_icmp_up, forward_icmp_up6,
}

module _ (N : Ns3) where
  pub record Keeps (s t : State N) : Type 0 where
    pub same_node : t.socket.node ≡ s.socket.node
    pub same_rudp : t.socket.has_rudp ≡ s.socket.has_rudp
    pub same_l4 : t.l4 ≡ s.l4
    pub recv_stays_shut : (s.socket.shutdown_recv && not t.socket.shutdown_recv) ≡ false
    pub send_stays_shut : (s.socket.shutdown_send && not t.socket.shutdown_send) ≡ false

  -- The functions that do not receive leave the queue and its counter alone, too.
  pub record Frame (s t : State N) : Type 0 where
    pub keeps : Keeps s t
    pub same_queue : t.socket.delivery_queue ≡ s.socket.delivery_queue
    pub same_counter : t.socket.rx_available ≡ s.socket.rx_available

  abbrev pub Frames : {A : Type 0} → State N → Result (A × State N) → Type 0
  Frames s (fault f) = Unit {0}
  Frames s (ok (a, t)) = Frame s t

  abbrev pub KeepsAll : {A : Type 0} → State N → Result (A × State N) → Type 0
  KeepsAll s (fault f) = Unit {0}
  KeepsAll s (ok (a, t)) = Keeps s t

  stays_shut : (a b c : Bool) → (a && not b) ≡ false → (b && not c) ≡ false → (a && not c) ≡ false
  stays_shut a b c h k = ground arith

  pub Keeps-trans : (s t u : State N) → Keeps s t → Keeps t u → Keeps s u
  Keeps-trans s t u p q = record {
    same_node = q.same_node ∙ p.same_node;
    same_rudp = q.same_rudp ∙ p.same_rudp;
    same_l4 = q.same_l4 ∙ p.same_l4;
    recv_stays_shut = stays_shut _ _ _ p.recv_stays_shut q.recv_stays_shut;
    send_stays_shut = stays_shut _ _ _ p.send_stays_shut q.send_stays_shut;
  }

  Frame-trans : (s t u : State N) → Frame s t → Frame t u → Frame s u
  Frame-trans s t u p q = record {
    keeps = Keeps-trans s t u p.keeps q.keeps;
    same_queue = q.same_queue ∙ p.same_queue;
    same_counter = q.same_counter ∙ p.same_counter;
  }

  pub Frames-bind :
      {A B : Type 0} (m : M N A) (k : A → M N B) (s : State N)
      → Frames s (m s)
      → ((a : A) (t : State N) → Frames t (k a t))
      → Frames s ((m >>= k) s)
  Frames-bind {A} {B} m k s = go (m s)
    where
      after : (t : State N) → Frame s t → (r : Result (B × State N)) → Frames t r → Frames s r
      after t p (ok (b, u)) q = Frame-trans s t u p q
      after t p (fault f) q = tt

      go :
          (r : Result (A × State N))
          → Frames s r
          → ((a : A) (t : State N) → Frames t (k a t))
          → Frames s (elim r [ ok (a, t) ↦ k a t | fault f ↦ fault f ])
      go (ok (a, t)) p next = after t p (k a t) (next a t)
      go (fault f) p next = tt

  pub connect-Frames : (a : N.Address) (s : State N) → Frames s (connect N a s)
  unfolding connect
  connect-Frames a s = ground arith

  pub listen-Frames : (s : State N) → Frames s (listen N s)
  unfolding listen
  listen-Frames s = ground arith

  pub destroy-Frames : (s : State N) → Frames s (destroy N s) × Frames s (destroy6 N s)
  unfolding destroy destroy6
  destroy-Frames s = ground arith

  pub set_mtu_discover-Frames : (b : Bool) (s : State N) → Frames s (set_mtu_discover N b s)
  unfolding set_mtu_discover
  set_mtu_discover-Frames b s = ground arith

  pub forward_icmp_up-Frames :
      (a : N.Ipv4Address) (ttl type code info : ℕ) (s : State N)
      → Frames s (forward_icmp_up N a ttl type code info s)
  unfolding forward_icmp_up
  forward_icmp_up-Frames a ttl type code info s = ground arith

  pub forward_icmp_up6-Frames :
      (a : N.Ipv6Address) (ttl type code info : ℕ) (s : State N)
      → Frames s (forward_icmp_up6 N a ttl type code info s)
  unfolding forward_icmp_up6
  forward_icmp_up6-Frames a ttl type code info s = ground arith
