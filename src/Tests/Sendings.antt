-- ===== src/Tests/Sendings.antt =====
-- Sending at concrete states: rudp-socket-impl.cc.
use rudpns.Prelude.{none, ◌≡◌, refl, [], ◌∷◌, arith}
use rudpns.Ns3.{Env, down, forward_up}
use rudpns.State.{Returns, ok, ◌>>◌}
use rudpns.L4.{prot_number}
use rudpns.L4.Datagram.{l4_send, receive, rx_ok}
use rudpns.Socket.Reply.{Answers, send_to-recv_from}
use rudpns.Socket.Delivery.{Gets, recv_from-receive-l4_send}
use rudpns.Socket.Receiving.{receive_up, recv_from}
use rudpns.Tests.World.{
  address_laws, untagged_start, untagged_start-IsReady, buffer_laws, ip_header, ns3, env, tag_laws,
  inet_address, TestPacket, start, bound_start, packet,
}

-- End points have a local address.
abbrev homed : Env ns3
homed = record env { local_address = λ t ep. 20 }

send_to-recv_from_example :
    Returns
      (Answers ns3 homed packet packet 7 4 ip_header.source 80)
      ((receive_up ns3 packet ip_header 80 3 >> recv_from ns3 100) untagged_start)
send_to-recv_from_example =
    send_to-recv_from ns3 homed address_laws buffer_laws tag_laws packet packet ip_header 80 3 100 7
      4 untagged_start untagged_start-IsReady refl refl refl refl refl refl (omega arith)
      (omega arith) (omega arith) (λ c. refl) (λ c. omega arith) (omega arith)

-- One end point takes what comes.
abbrev one_listener : Env ns3
one_listener = record env { lookup = λ t a port b port' i. 7 ∷ [] }

recv_from-receive-l4_send_example :
    (q body : TestPacket) × (l4_send ns3 one_listener packet 21 20 5000 80 none start
      ≡ ok (tt, record start { trace = down 4 q 21 20 prot_number none ∷ [] }))
    × (receive ns3 one_listener q ip_header 3 bound_start
        ≡ ok (rx_ok, record bound_start { trace = forward_up 7 body ip_header 5000 3 ∷ [] }))
    × Returns (Gets ns3 (1 ∷ 2 ∷ 3 ∷ []) (inet_address 21 5000)) (
        (receive_up ns3 body ip_header 5000 3 >> recv_from ns3 100)
          (record bound_start { trace = forward_up 7 body ip_header 5000 3 ∷ [] }))
recv_from-receive-l4_send_example =
    recv_from-receive-l4_send ns3 one_listener buffer_laws tag_laws packet 21 20 5000 80 4 ip_header
      3 7 100 start bound_start refl (omega arith) (omega arith) refl (λ q. refl) refl refl refl
      (omega arith) (omega arith)
