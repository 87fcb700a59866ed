-- ===== src/Tests/Inboxes.antt =====
-- The receive buffer at concrete events: rudp-socket-impl.cc.
use rudpns.Prelude.{◌≡◌, ◌++◌, refl, [], ◌∷◌, List, arith}
use rudpns.Socket.Receiving.Inbox.Drain.{Drained, drains, run-drains}
use rudpns.State.{State, Returns}
use rudpns.Socket.Receiving.Inbox.{
  Event, arrives, arrives6, reads, resizes, inbox, run, spec_run, IsExact, AllFit, Refines,
}
use rudpns.Socket.Receiving.Inbox.Refinement.{run-Refines}
use rudpns.Socket.Receiving.Inbox.Order.{admitted, run-order}
use rudpns.Tests.World.{ns3, tag_laws, socket, start, packet, ip_header, ip_header6}

-- Three packets come to a buffer for two; one is read, and the buffer is made smaller.
abbrev events : List (Event ns3)
events =
    arrives packet ip_header 80 3
    ∷ arrives6 packet ip_header6 80 3
    ∷ arrives packet ip_header 81 3
    ∷ reads 100
    ∷ resizes 2
    ∷ reads 1
    ∷ []

start-IsExact : IsExact ns3 100 start
start-IsExact = record { counted = refl; waiting_le = omega arith; capacity_le = omega arith }

events-AllFit : AllFit ns3 100 events
events-AllFit = omega arith

run-Refines_example :
    Returns
      (Refines ns3 100 start (spec_run ns3 socket events (inbox ns3 start)))
      (run ns3 events start)
run-Refines_example = run-Refines ns3 tag_laws 100 events start start-IsExact events-AllFit

run-order_example :
    Returns
      (λ out s'.
        out ++ s'.socket.delivery_queue ≡ [] ++ admitted ns3 socket events (inbox ns3 start))
      (run ns3 events start)
run-order_example = run-order ns3 tag_laws 100 events start start-IsExact events-AllFit

-- Two packets wait.
abbrev filled : State ns3
filled = record start {
  socket = record socket { delivery_queue = packet ∷ packet ∷ []; rx_available = 6 };
}

run-drains_example :
    Returns
      (Drained ns3 (packet ∷ packet ∷ []))
      (run ns3 (drains ns3 100 (packet ∷ packet ∷ [])) filled)
run-drains_example =
    run-drains ns3 100 (packet ∷ packet ∷ []) filled (omega arith, (omega arith, tt)) refl refl
