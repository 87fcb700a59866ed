-- ===== src/Socket/Closing/AfterDispose.antt =====
-- A socket of rudp-socket-impl.cc that outlives its protocol object, which `DoDispose` of
-- rudp-l4-protocol.cc emptied.
use rudpns.Prelude.{ℕ, ◌≡◌, ap, true, false, ◌&&◌, pos, none, ◌∷◌, arith}
use rudpns.Ns3.{Ns3, Env, ipv6_leave_group}
use rudpns.State.{State, ok, fault, null_dereference, ◌>>◌}
use rudpns.L4.{l4_allocate, l4_allocate6}
use rudpns.L4.Aggregate.{do_dispose}
use rudpns.L4.Aggregate.Lifecycle.{disposed, do_dispose-disposed}
use rudpns.Socket.{destroy, destroy6}
use rudpns.Socket.Binding.{bind_ephemeral, bind_ephemeral6, ensure_bound, ensure_bound6}
use rudpns.Socket.Closing.{close, deallocate_end_point, give_back, give_back6}
use rudpns.Socket.Sending.{do_send_to, do_send_to6}

module _ (N : Ns3) where
  -- The object is disposed of, and the end points that it deleted called the socket back.
  abbrev pub orphan : State N → State N
  orphan s = record (disposed N s) {
    socket = record s.socket { end_point = none; end_point6 = none };
  }

  -- What `Close` makes of it: it gives no end point back.
  abbrev pub orphan_closed : State N → State N
  orphan_closed s = record (orphan s) {
    socket = record (orphan s).socket { shutdown_recv = true; shutdown_send = true };
    trace = ipv6_leave_group ∷ (orphan s).trace;
  }

module _ (N : Ns3) (E : Env N) where
  disposed-orphan :
      (s : State N) → (do_dispose N >> (destroy N >> destroy6 N)) s ≡ ok (tt, orphan N s)
  unfolding destroy destroy6
  disposed-orphan s =
      ap (elim [ ok (_, t) ↦ (destroy N >> destroy6 N) t | fault f ↦ fault f ])
        (do_dispose-disposed N E s).0

  orphan-close :
      (s : State N)
      → (s.socket.shutdown_recv && s.socket.shutdown_send) ≡ false
      → close N (orphan N s) ≡ ok (pos 0, orphan_closed N s)
  unfolding close deallocate_end_point give_back give_back6
  orphan-close s o = ground arith

  orphan-do_send_to :
      (p : N.Packet) (a : N.Ipv4Address) (port : ℕ) (s : State N)
      → s.socket.has_rudp ≡ true
      → do_send_to N E p a port (orphan N s) ≡ fault null_dereference
  unfolding do_send_to ensure_bound bind_ephemeral l4_allocate
  orphan-do_send_to p a port s h = ground (arith, h)

  orphan-do_send_to6 :
      (p : N.Packet) (a : N.Ipv6Address) (port : ℕ) (s : State N)
      → s.socket.has_rudp ≡ true
      → do_send_to6 N E p a port (orphan N s) ≡ fault null_dereference
  unfolding do_send_to6 do_send_to ensure_bound bind_ephemeral l4_allocate ensure_bound6
      bind_ephemeral6 l4_allocate6
  orphan-do_send_to6 p a port s h = ground (arith, h)

  -- A socket that knows its protocol object and is not shut down both ways, and whose object is
  -- disposed of, loses its end points by the callbacks of those. From then on every `DoSendTo`, of
  -- either family, goes through the null pointer that `DoDispose` left, whatever the packet and
  -- the address; `Close` still succeeds, and gives no end point back.
  pub do_dispose-orphan :
      (p : N.Packet) (a : N.Ipv4Address) (b : N.Ipv6Address) (port : ℕ) (s : State N)
      → s.socket.has_rudp ≡ true
      → (s.socket.shutdown_recv && s.socket.shutdown_send) ≡ false
      → ((do_dispose N >> (destroy N >> destroy6 N)) s ≡ ok (tt, orphan N s))
        × (do_send_to N E p a port (orphan N s) ≡ fault null_dereference)
        × (do_send_to6 N E p b port (orphan N s) ≡ fault null_dereference)
        × (close N (orphan N s) ≡ ok (pos 0, orphan_closed N s))
  do_dispose-orphan p a b port s h o = (
    disposed-orphan s,
    orphan-do_send_to p a port s h,
    orphan-do_send_to6 p b port s h,
    orphan-close s o,
  )
