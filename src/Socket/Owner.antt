-- ===== src/Socket/Owner.antt =====
-- Whom an end point calls, against who has it, in rudp-socket-impl.cc.
use rudpns.Prelude.{ℕ, ◌≡◌, Bool, true, false, not, ◌&&◌, ◌||◌, Option, none, some, arith}
use mathlib.Core.Path.{subst}
use rudpns.Ns3.Owner.{Probe, hits, at4, at6, owner, once, is_socket}
use rudpns.Ns3.{Ns3}
use rudpns.State.{Socket, State, Result, ok, fault, M, ◌>>=◌}
use rudpns.Socket.{
  connect, listen, destroy, destroy6, set_mtu_discover, forward_icmp_up, forward_icmp_up6,
}

module _ (N : Ns3) (is_it : Probe N) where
  -- A socket has the end point.
  abbrev pub holds : Socket N → Bool
  holds s = hits (at4 N is_it) s.end_point || hits (at6 N is_it) s.end_point6

  -- With `none`: if the socket has the end point, then that calls it. With `some j`: the socket does
  -- not have the end point, which calls `j`.
  abbrev pub Owns : Option ℕ → State N → Type 0
  Owns none s =
      ((holds s.socket && not (is_socket s.socket.this (owner N is_it s.trace))) ≡ false)
      × (once N is_it s.trace ≡ true)
  Owns (some j) s =
      (holds s.socket ≡ false) × (owner N is_it s.trace ≡ some j) × (once N is_it s.trace ≡ true)

  abbrev pub StaysOwned : {A : Type 0} → Option ℕ → ℕ → Result (A × State N) → Type 0
  StaysOwned o n (fault f) = Unit {0}
  StaysOwned o n (ok (a, t)) = Owns o t × (t.socket.this ≡ n)

  pub StaysOwned-bind :
      {A B : Type 0} (o : Option ℕ) (n : ℕ) (m : M N A) (k : A → M N B) (s : State N)
      → StaysOwned o n (m s)
      → ((a : A) (t : State N) → Owns o t → StaysOwned o t.socket.this (k a t))
      → StaysOwned o n ((m >>= k) s)
  StaysOwned-bind {A} {B} o n m k s = go (m s)
    where
      go :
          (r : Result (A × State N))
          → StaysOwned o n r
          → ((a : A) (t : State N) → Owns o t → StaysOwned o t.socket.this (k a t))
          → StaysOwned o n (elim r [ ok (a, t) ↦ k a t | fault f ↦ fault f ])
      go (ok (a, t)) (v, e) next = subst (λ n. StaysOwned o n (k a t)) e (next a t v)
      go (fault f) v next = tt

  module _ (o : Option ℕ) (s : State N) (v : Owns o s) where
    pub connect-StaysOwned : (a : N.Address) → StaysOwned o s.socket.this (connect N a s)
    unfolding connect
    connect-StaysOwned a = ground arith

    pub listen-StaysOwned : StaysOwned o s.socket.this (listen N s)
    unfolding listen
    listen-StaysOwned = ground arith

    pub destroy-StaysOwned : StaysOwned o s.socket.this (destroy N s)
    unfolding destroy
    destroy-StaysOwned = ground arith

    pub destroy6-StaysOwned : StaysOwned o s.socket.this (destroy6 N s)
    unfolding destroy6
    destroy6-StaysOwned = ground arith

    pub set_mtu_discover-StaysOwned :
        (b : Bool) → StaysOwned o s.socket.this (set_mtu_discover N b s)
    unfolding set_mtu_discover
    set_mtu_discover-StaysOwned b = ground arith

    pub forward_icmp_up-StaysOwned :
        (a : N.Ipv4Address) (ttl type code info : ℕ)
        → StaysOwned o s.socket.this (forward_icmp_up N a ttl type code info s)
    unfolding forward_icmp_up
    forward_icmp_up-StaysOwned a ttl type code info = ground arith

    pub forward_icmp_up6-StaysOwned :
        (a : N.Ipv6Address) (ttl type code info : ℕ)
        → StaysOwned o s.socket.this (forward_icmp_up6 N a ttl type code info s)
    unfolding forward_icmp_up6
    forward_icmp_up6-StaysOwned a ttl type code info = ground arith
