-- ===== src/Socket/Ended.antt =====
-- Sockets of rudp-socket-impl.cc whose protocol object was disposed of, and that lost their end points
-- by it.
use rudpns.Prelude.{ℕ, ◌≡◌, Bool, false, none, arith}
use rudpns.Ns3.{Ns3, Trace}
use rudpns.State.{State, Result, ok, fault}
use rudpns.Socket.{
  connect, listen, destroy, destroy6, set_mtu_discover, forward_icmp_up, forward_icmp_up6,
}
use rudpns.Ns3.Used.{used}

module _ (N : Ns3) (u : Trace N) (c : ℕ) where
  -- There are no end points, `u` is what used them before, and `c` sockets were created.
  abbrev pub IsEnded : State N → Type 0
  IsEnded s =
      (s.socket.end_point ≡ none)
      × (s.socket.end_point6 ≡ none)
      × (s.l4.has_end_points ≡ false)
      × (s.l4.has_end_points6 ≡ false)
      × (used N s.trace ≡ u)
      × (s.l4.created ≡ c)

  abbrev pub StaysEnded : {A : Type 0} → Result (A × State N) → Type 0
  StaysEnded (fault f) = Unit {0}
  StaysEnded (ok (a, t)) = IsEnded t

module _ (N : Ns3) (u : Trace N) (c : ℕ) (s : State N) (v : IsEnded N u c s) where
  pub connect-StaysEnded : (a : N.Address) → StaysEnded N u c (connect N a s)
  unfolding connect
  connect-StaysEnded a = ground arith

  pub listen-StaysEnded : StaysEnded N u c (listen N s)
  unfolding listen
  listen-StaysEnded = ground arith

  pub destroy-StaysEnded : StaysEnded N u c (destroy N s) × StaysEnded N u c (destroy6 N s)
  unfolding destroy destroy6
  destroy-StaysEnded = ground arith

  pub set_mtu_discover-StaysEnded : (b : Bool) → StaysEnded N u c (set_mtu_discover N b s)
  unfolding set_mtu_discover
  set_mtu_discover-StaysEnded b = ground arith

  pub forward_icmp_up-StaysEnded :
      (a : N.Ipv4Address) (ttl type code info : ℕ)
      → StaysEnded N u c (forward_icmp_up N a ttl type code info s)
  unfolding forward_icmp_up
  forward_icmp_up-StaysEnded a ttl type code info = ground arith

  pub forward_icmp_up6-StaysEnded :
      (a : N.Ipv6Address) (ttl type code info : ℕ)
      → StaysEnded N u c (forward_icmp_up6 N a ttl type code info s)
  unfolding forward_icmp_up6
  forward_icmp_up6-StaysEnded a ttl type code info = ground arith
