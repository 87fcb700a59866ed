-- ===== src/Socket/Closing/Owner.antt =====
-- Closing in rudp-socket-impl.cc gives back the socket's own end point alone.
use rudpns.Prelude.{ℕ, ◌≡◌, refl, Bool, false, Option, none, some, arith}
use rudpns.Ns3.{Ns3, Trace}
use rudpns.State.{State, Result, ok, fault, modify, ◌>>◌}
use rudpns.Socket.{destroy, destroy6}
use rudpns.L4.{l4_deallocate, l4_deallocate6}
use rudpns.Socket.Closing.{
  shutdown_sending, shutdown_receiving, give_back, give_back6, deallocate_end_point, close, discard,
  discard6, destroy_socket,
}
use rudpns.Ns3.Owner.{Probe, EndPoint}
use rudpns.Socket.Owner.{Owns, StaysOwned}

module _ (N : Ns3) (is_it : Probe N) (o : Option ℕ) (s : State N) (v : Owns N is_it o s) where
  pub shutdown_sending-StaysOwned : StaysOwned N is_it o s.socket.this (shutdown_sending N s)
  unfolding shutdown_sending
  shutdown_sending-StaysOwned = ground arith

  pub shutdown_receiving-StaysOwned : StaysOwned N is_it o s.socket.this (shutdown_receiving N s)
  unfolding shutdown_receiving
  shutdown_receiving-StaysOwned = ground arith

  pub close-StaysOwned : StaysOwned N is_it o s.socket.this (close N s)
  unfolding close deallocate_end_point give_back give_back6 l4_deallocate l4_deallocate6
  close-StaysOwned = ground arith

-- The destructor takes no end point from another socket, and gives back its own alone.
module _ (N : Ns3) (is_it : Probe N) (o : Option ℕ) (calls_back : EndPoint N → Trace N → Bool) where
  discard-StaysOwned :
      (e : Option N.Ipv4EndPoint) (s : State N)
      → s.socket.end_point ≡ e
      → Owns N is_it o s
      → StaysOwned N is_it o s.socket.this (discard N calls_back e s)
  unfolding discard destroy l4_deallocate
  discard-StaysOwned none s q v = ground arith
  discard-StaysOwned (some ep) s q v = ground arith

  discard6-StaysOwned :
      (e : Option N.Ipv6EndPoint) (s : State N)
      → s.socket.end_point6 ≡ e
      → Owns N is_it o s
      → StaysOwned N is_it o s.socket.this (discard6 N calls_back e s)
  unfolding discard6 destroy6 l4_deallocate6
  discard6-StaysOwned none s q v = ground arith
  discard6-StaysOwned (some ep) s q v = ground arith

  abbrev Same6 : State N → Result (Unit {0} × State N) → Type 0
  Same6 s (ok (_, t)) = t.socket.end_point6 ≡ s.socket.end_point6
  Same6 s (fault f) = Unit {0}

  discard-Same6 : (e : Option N.Ipv4EndPoint) (s : State N) → Same6 s (discard N calls_back e s)
  unfolding discard destroy l4_deallocate
  discard-Same6 none s = ground arith
  discard-Same6 (some ep) s = ground arith

  -- What follows the first half.
  rest-StaysOwned :
      (s : State N) (r : Result (Unit {0} × State N))
      → StaysOwned N is_it o s.socket.this r
      → Same6 s r
      → StaysOwned N is_it o s.socket.this (elim r [
        | ok (_, t) ↦
            (discard6 N calls_back s.socket.end_point6
                >> modify (λ s. record s { has_rudp = false }))
              t
        | fault f ↦ fault f
      ])
  rest-StaysOwned s (fault f) v e = tt
  rest-StaysOwned s (ok (_, t)) (v, n) e =
      ground (arith, n, discard6-StaysOwned s.socket.end_point6 t e v)

  pub destroy_socket-StaysOwned :
      (s : State N)
      → Owns N is_it o s
      → StaysOwned N is_it o s.socket.this (destroy_socket N calls_back s)
  unfolding destroy_socket
  destroy_socket-StaysOwned s v =
      let alone = record s { socket = record s.socket { node = none } } in
      rest-StaysOwned alone (discard N calls_back s.socket.end_point alone)
        (discard-StaysOwned s.socket.end_point alone refl (ground arith))
        (discard-Same6 s.socket.end_point alone)
