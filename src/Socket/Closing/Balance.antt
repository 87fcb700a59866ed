-- ===== src/Socket/Closing/Balance.antt =====
-- `Bind` and then `Close` of rudp-socket-impl.cc: what is taken is given back.
use rudpns.Prelude.{ℕ, ◌≡◌, ◌∙◌, ap, refl, pos, true, false, some, none, ◌∷◌, ◌++◌, ◌&&◌}
use rudpns.Ns3.{Ns3, Env, allocate, deallocate, set_destroy_callback, ipv6_leave_group}
use rudpns.State.{State, ok, fault, ◌>>◌}
use rudpns.Socket.Binding.{request, bind}
use rudpns.Socket.Binding.Outcome.{callbacks, bound, bind-request}
use rudpns.Socket.Closing.{close}
use rudpns.Socket.Closing.Release.{IsWired, close_twice}

module _ (N : Ns3) (E : Env N) where
  -- `Bind` to an IPv4 socket address of an open socket with no end point, for which an end point is
  -- found, and then `Close`: both return 0, and the calls made are the request for the end point, its
  -- three callbacks, and then its destroy callback taken off and the end point given back. The socket
  -- has no end point again.
  pub close-bind :
      (address : N.Address) (a : N.Ipv4Address) (port : ℕ) (ep : N.Ipv4EndPoint) (s : State N)
      → IsWired N s
      → (s.socket.shutdown_recv && s.socket.shutdown_send) ≡ false
      → s.socket.end_point ≡ none
      → s.socket.end_point6 ≡ none
      → N.inet address ≡ some (a, port)
      → E.allocated s.trace (request (N.is_any a) a port) ≡ some ep
      → let taken =
          callbacks N E ep s.socket.this ++ allocate (request (N.is_any a) a port) ∷ s.trace in
        (bind N E address >> close N) s
        ≡ ok (
          pos 0,
          record s {
            socket = record s.socket {
              shutdown_recv = true;
              shutdown_send = true;
              end_point = none;
              end_point6 = none;
            };
            trace = deallocate ep ∷ set_destroy_callback ep none ∷ ipv6_leave_group ∷ taken;
          },
        )
  close-bind address a port ep s w o e e6 h found =
      let r = request (N.is_any a) a port in
      let t = record s {
        socket = record s.socket { end_point = some ep };
        trace = callbacks N E ep s.socket.this ++ allocate r ∷ s.trace;
      } in
      let w' : IsWired N t = record {
        has_rudp = w.has_rudp;
        has_end_points = w.has_end_points;
        has_end_points6 = w.has_end_points6;
      } in
      ap (elim [ ok (_, s') ↦ close N s' | fault f ↦ fault f ])
        (bind-request N E address a port s w e e6 h ∙ ap (bound N E s r port) found)
      ∙ (close_twice N t w' o).0
      ∙ rw e6 refl
