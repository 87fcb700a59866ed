-- ===== src/Socket/Sending/Answer.antt =====
-- `SendTo` of rudp-socket-impl.cc to an IPv4 socket address.
use rudpns.Prelude.{ℕ, refl, ◌≡◌, ◌≤◌, ◌<◌, ◌^◌, ◌∙◌, pos, some, false}
use rudpns.Header.{RudpHeader, serialized_size}
use rudpns.Header.Wire.{deserialize}
use rudpns.Ns3.{Ns3, Env}
use rudpns.Ns3.Laws.{TagLaws, BufferLaws}
use rudpns.State.{State, ok}
use rudpns.Socket.Binding.Ready.{IsReady}
use rudpns.Socket.Sending.{tx_available, send_to, send_to_inet, do_send_to}
use rudpns.Socket.Sending.Datagram.{sent, do_send_to-sent}

module _ (N : Ns3) (E : Env N) where
  send_to-do_send_to :
      (p : N.Packet) (address : N.Address) (a : N.Ipv4Address) (port : ℕ) (s : State N)
      → N.inet address ≡ some (a, port)
      → s.socket.options.is_manual_ip_tos ≡ false
      → send_to N E p address s ≡ do_send_to N E p a port s
  unfolding send_to send_to_inet
  send_to-do_send_to p address a port s is4 untagged =
      rw (is4, send_to) (simp (untagged, send_to_inet) refl)

  -- It is sent as `DoSendTo` sends it, where the ToS is not set by hand.
  pub send_to-sent :
      (buffers : BufferLaws N) (tags : TagLaws N) (p : N.Packet) (address : N.Address)
      (a : N.Ipv4Address) (port : ℕ) (ep : N.Ipv4EndPoint) (target : N.DownTarget) (s : State N)
      → N.inet address ≡ some (a, port)
      → s.socket.options.is_manual_ip_tos ≡ false
      → IsReady N s
      → s.l4.down_target ≡ some target
      → s.socket.end_point ≡ some ep
      → s.socket.shutdown_send ≡ false
      → N.get_size p ≤ tx_available
      → N.is_any (E.local_address s.trace ep) ≡ false
      → E.local_port s.trace ep < 2 ^ 16
      → port < 2 ^ 16
      → (q : N.Packet) × (send_to N E p address s
          ≡ ok (pos (N.get_size p), sent N E s target q ep a (N.get_size p)))
        × (N.buffer (N.remove_at_start serialized_size q) ≡ N.buffer p)
        × ((g : RudpHeader)
            → (r : RudpHeader) × (deserialize N.iterator g (N.buffer q) ≡ some r)
              × (r.source_port ≡ E.local_port s.trace ep)
              × (r.destination_port ≡ port))
  send_to-sent buffers tags p address a port ep target s is4 untagged v d e opened fits local lo
        hi =
      let (q, sends, bytes, reads) =
        do_send_to-sent N E buffers tags p a port ep target s v d e opened fits local lo hi in
      (q, send_to-do_send_to p address a port s is4 untagged ∙ sends, bytes, reads)
