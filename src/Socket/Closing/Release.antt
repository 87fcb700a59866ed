-- ===== src/Socket/Closing/Release.antt =====
-- What closing does to the end points, and what a closed socket still does, in rudp-socket-impl.cc.
use rudpns.Prelude.{
  ◌≡◌, refl, ap, ◌∙◌, pos, minus_one, true, false, ◌&&◌, Option, none, some, [], ◌∷◌, ◌++◌, arith,
}
use rudpns.Ns3.{
  Ns3, Trace, badf, ipv6_leave_group, set_destroy_callback, set_destroy_callback6, deallocate,
  deallocate6,
}
use rudpns.State.{State, ok, fault}
use rudpns.L4.{l4_deallocate, l4_deallocate6}
use rudpns.Socket.Closing.{give_back, give_back6, deallocate_end_point, close}

module _ (N : Ns3) where
  -- The socket knows its protocol object, which has not been disposed of.
  pub record IsWired (s : State N) : Type 0 where
    pub has_rudp : s.socket.has_rudp ≡ true
    pub has_end_points : s.l4.has_end_points ≡ true
    pub has_end_points6 : s.l4.has_end_points6 ≡ true

  -- The calls that give an end point back, the last one first.
  abbrev pub release4 : Option N.Ipv4EndPoint → Trace N
  release4 none = []
  release4 (some ep) = deallocate ep ∷ set_destroy_callback ep none ∷ []

  abbrev pub release6 : Option N.Ipv6EndPoint → Trace N
  release6 none = []
  release6 (some ep) = deallocate6 ep ∷ set_destroy_callback6 ep none ∷ []

  abbrev pub closed : State N → State N
  closed s = record s {
    socket = record s.socket {
      shutdown_recv = true;
      shutdown_send = true;
      end_point = none;
      end_point6 = none;
    };
    trace =
        release6 s.socket.end_point6 ++ (release4 s.socket.end_point ++ ipv6_leave_group ∷ s.trace);
  }

  without : State N → State N
  without s = record s {
    socket = record s.socket { end_point = none };
    trace = release4 s.socket.end_point ++ s.trace;
  }

  without6 : State N → State N
  without6 s = record s {
    socket = record s.socket { end_point6 = none };
    trace = release6 s.socket.end_point6 ++ s.trace;
  }

  give_back-without :
      (o : Option N.Ipv4EndPoint) (s : State N)
      → IsWired s
      → s.socket.end_point ≡ o
      → give_back N o s ≡ ok (tt, without s)
  unfolding give_back l4_deallocate without
  give_back-without none s w e = ground (arith, w.has_rudp)
  give_back-without (some ep) s w e = ground (arith, w.has_rudp, w.has_end_points)

  give_back6-without6 :
      (o : Option N.Ipv6EndPoint) (s : State N)
      → IsWired s
      → s.socket.end_point6 ≡ o
      → give_back6 N o s ≡ ok (tt, without6 s)
  unfolding give_back6 l4_deallocate6 without6
  give_back6-without6 none s w e = ground (arith, w.has_rudp)
  give_back6-without6 (some ep) s w e = ground (arith, w.has_rudp, w.has_end_points6)

  deallocate-without :
      (s : State N) → IsWired s → deallocate_end_point N s ≡ ok (tt, without6 (without s))
  unfolding deallocate_end_point
  deallocate-without s w =
      ap (elim [ ok (_, s') ↦ give_back6 N s.socket.end_point6 s' | fault f ↦ fault f ])
        (give_back-without s.socket.end_point s w refl)
      ∙ give_back6-without6 s.socket.end_point6 (without s) w' refl'
    where
      w' : IsWired (without s)
      w' = record {
        has_rudp = unfold without in w.has_rudp;
        has_end_points = unfold without in w.has_end_points;
        has_end_points6 = unfold without in w.has_end_points6;
      }

      refl' : (without s).socket.end_point6 ≡ s.socket.end_point6
      refl' = unfold without in refl

  -- `Close` of a socket that knows its protocol object and is not shut down both ways shuts it down
  -- both ways and gives back each end point once, with its destroy callback taken off before. A
  -- second `Close` fails with ERROR_BADF and does nothing else.
  pub close_twice :
      (s : State N)
      → IsWired s
      → (s.socket.shutdown_recv && s.socket.shutdown_send) ≡ false
      → (close N s ≡ ok (pos 0, closed s))
        × (close N (closed s)
            ≡ ok (
              minus_one,
              record (closed s) { socket = record (closed s).socket { errno = badf } },
            ))
  unfolding close without without6
  close_twice s w o =
      let shut = record s {
        socket = record s.socket { shutdown_recv = true; shutdown_send = true };
        trace = ipv6_leave_group ∷ s.trace;
      } in
      let w' : IsWired shut = record {
        has_rudp = w.has_rudp;
        has_end_points = w.has_end_points;
        has_end_points6 = w.has_end_points6;
      } in
      (ground (arith, deallocate-without shut w'), refl)
