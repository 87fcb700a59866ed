-- ===== src/Host/Ready.antt =====
-- That the sockets of an installed object of rudp-l4-protocol.cc can send, whatever all of them did
-- before.
use rudpns.Prelude.{ℕ, ◌<◌, ◌≡◌, true, is_some}
use rudpns.Ns3.{Ns3, Env}
use rudpns.State.{State, Result, ok, fault, Socket}
use rudpns.L4.Aggregate.Owner.{IsInstalled}
use rudpns.Socket.Receiving.Counter.{IsCounted}
use rudpns.Host.{Host, view}

module _ (N : Ns3) (E : Env N) where
  -- The socket knows its node if it knows the object, and its counter is right.
  pub record IsAttached (s : Socket N) : Type 0 where
    pub on_its_node : s.has_rudp ≡ true → is_some s.node ≡ true
    pub counted : IsCounted N s

  -- The object is installed and not disposed of, and all its sockets are attached.
  pub record AllReady (h : Host N) : Type 0 where
    pub installed : IsInstalled N E (view N h 0)
    pub end_points : h.object.has_end_points ≡ true
    pub end_points6 : h.object.has_end_points6 ≡ true
    pub sockets : (n : ℕ) → n < h.object.created → IsAttached (h.numbered n)

  abbrev AllReadyIn : Result (Host N) → Type 0
  AllReadyIn (ok h) = AllReady h
  AllReadyIn (fault f) = Unit {0}
