-- ===== src/Tests/Lives.antt =====
-- A short life of a socket, call by call: rudp-socket-impl.cc.
use rudpns.Prelude.{refl}
use rudpns.Ns3.{op_not_supp}
use rudpns.State.{State}
use rudpns.Socket.{connect, listen}
use rudpns.Socket.Names.{connected_to}
use rudpns.Socket.Frame.{Keeps}
use rudpns.Socket.Receiving.Counter.{IsCounted}
use rudpns.Socket.Reach.{Reach, here, next, connects, listens, step, Reach-IsCounted}
use rudpns.Tests.World.{ns3, env, start, inet_address, ipv4_address}

abbrev connected : State ns3
connected = connected_to ns3 start (ipv4_address 20) 80

-- `Listen` fails and sets the error.
abbrev refused : State ns3
refused = record connected { socket = record connected.socket { errno = op_not_supp } }

reached : Reach ns3 env start refused
unfolding step connect listen
reached =
    next {t = connected} (next {t = start} here (connects (inet_address 20 80)) refl) listens refl

Reach-IsCounted_example : IsCounted ns3 refused.socket × Keeps ns3 start refused
Reach-IsCounted_example = Reach-IsCounted ns3 env {s = start} {t = refused} refl reached
