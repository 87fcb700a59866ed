-- ===== src/Host/Deletion/Ended.antt =====
-- That no call of a socket of rudp-socket-impl.cc, or of its object of rudp-l4-protocol.cc, brings an
-- end point back once there are none.
use rudpns.Prelude.{ℕ, ◌<◌, ◌≡◌, refl, ◌∙◌, false, none, ◌==◌, Bool-cases, inl, inr, arith}
use mathlib.Core.Path.{subst}
use rudpns.Ns3.{Ns3, Env, Trace}
use rudpns.Ns3.Owner.{is_socket, on_deletion}
use rudpns.Ns3.Used.{used}
use rudpns.State.{State, Result, ok, fault, Socket}
use rudpns.L4.Aggregate.{create_socket, new_socket}
use rudpns.L4.Aggregate.Ended.{StaysGone, notify_new_aggregate-StaysGone}
use rudpns.L4.Datagram.Ended.{
  receive-StaysGone, receive6-StaysGone, receive_icmp-StaysGone, receive_icmp6-StaysGone,
}
use rudpns.Socket.{socket_set_node, socket_set_rudp}
use rudpns.Socket.Ended.{
  IsEnded, StaysEnded, connect-StaysEnded, listen-StaysEnded, destroy-StaysEnded,
  set_mtu_discover-StaysEnded, forward_icmp_up-StaysEnded, forward_icmp_up6-StaysEnded,
}
use rudpns.Socket.Binding.Ended.{
  bind-StaysEnded, bind_ephemeral-StaysEnded, bind_to_net_device-StaysEnded,
}
use rudpns.Socket.Closing.Ended.{shutdown-StaysEnded, close-StaysEnded, destroy_socket-StaysEnded}
use rudpns.Socket.Sending.Ended.{send-StaysEnded, send_to-StaysEnded}
use rudpns.Socket.Receiving.Inbox.Ended.{perform-StaysEnded, recv_from-StaysEnded}
use rudpns.Socket.Reach.{
  Operation, binds, binds_ephemeral, binds_ephemeral6, listens, shuts_send, shuts_recv, closes,
  binds_to_device, connects, sends, sends_to, receives, receives_from, sets_mtu_discover,
  is_destroyed, is_destroyed6, hears_icmp, hears_icmp6, step, discard,
}
use rudpns.Host.{
  Host, view, leave, create, call, destruct, destroys, on_object, Reaches, starts, creates,
  calls_socket, notified, receives4, receives6, receives_icmp, receives_icmp6,
}

module _ (N : Ns3) (E : Env N) (u : Trace N) (c : ℕ) where
  discard-StaysEnded :
      {A : Type 0} (r : Result (A × State N)) → StaysEnded N u c r → StaysEnded N u c (discard N r)
  discard-StaysEnded (fault f) v = v
  discard-StaysEnded (ok (a, t)) v = v

  step-StaysEnded :
      (op : Operation N) (s : State N) → IsEnded N u c s → StaysEnded N u c (step N E op s)
  unfolding step
  step-StaysEnded (binds a) s v = discard-StaysEnded _ (bind-StaysEnded N E u c s v a)
  step-StaysEnded binds_ephemeral s v =
      discard-StaysEnded _ (bind_ephemeral-StaysEnded N E u c s v).0
  step-StaysEnded binds_ephemeral6 s v =
      discard-StaysEnded _ (bind_ephemeral-StaysEnded N E u c s v).1
  step-StaysEnded listens s v = discard-StaysEnded _ (listen-StaysEnded N u c s v)
  step-StaysEnded shuts_send s v = discard-StaysEnded _ (shutdown-StaysEnded N u c s v).0
  step-StaysEnded shuts_recv s v = discard-StaysEnded _ (shutdown-StaysEnded N u c s v).1
  step-StaysEnded closes s v = discard-StaysEnded _ (close-StaysEnded N u c s v)
  step-StaysEnded (binds_to_device d) s v =
      discard-StaysEnded _ (bind_to_net_device-StaysEnded N E u c s v d)
  step-StaysEnded (connects a) s v = discard-StaysEnded _ (connect-StaysEnded N u c s v a)
  step-StaysEnded (sends p) s v = discard-StaysEnded _ (send-StaysEnded N E u c s v p)
  step-StaysEnded (sends_to p a) s v = discard-StaysEnded _ (send_to-StaysEnded N E u c s v p a)
  step-StaysEnded (receives e) s v = discard-StaysEnded _ (perform-StaysEnded N u c s v e)
  step-StaysEnded (receives_from m) s v = discard-StaysEnded _ (recv_from-StaysEnded N u c s v m)
  step-StaysEnded (sets_mtu_discover b) s v =
      discard-StaysEnded _ (set_mtu_discover-StaysEnded N u c s v b)
  step-StaysEnded is_destroyed s v = discard-StaysEnded _ (destroy-StaysEnded N u c s v).0
  step-StaysEnded is_destroyed6 s v = discard-StaysEnded _ (destroy-StaysEnded N u c s v).1
  step-StaysEnded (hears_icmp a ttl type code info) s v =
      discard-StaysEnded _ (forward_icmp_up-StaysEnded N u c s v a ttl type code info)
  step-StaysEnded (hears_icmp6 a ttl type code info) s v =
      discard-StaysEnded _ (forward_icmp_up6-StaysEnded N u c s v a ttl type code info)

module _ (N : Ns3) (E : Env N) (u : Trace N) where
  -- The object and the sockets created have no end points, and `u` is what used any before.
  pub record AllEnded (h : Host N) : Type 0 where
    pub end_points : h.object.has_end_points ≡ false
    pub end_points6 : h.object.has_end_points6 ≡ false
    pub same_use : used N h.calls ≡ u
    pub sockets :
        (n : ℕ)
        → n < h.object.created
        → ((h.numbered n).end_point ≡ none) × ((h.numbered n).end_point6 ≡ none)

  abbrev AllEndedIn : Result (Host N) → Type 0
  AllEndedIn (ok h) = AllEnded h
  AllEndedIn (fault f) = Unit {0}

  create-AllEnded : (memory : Socket N) (h : Host N) → AllEnded h → AllEndedIn (create N memory h)
  unfolding create create_socket new_socket socket_set_node socket_set_rudp
  create-AllEnded memory h v = record {
    end_points = v.end_points;
    end_points6 = v.end_points6;
    same_use = v.same_use;
    sockets = λ n below. elim (Bool-cases (n == h.object.created)) [
      | inl e ↦ rw e (refl, refl)
      | inr e ↦ rw e (v.sockets n (ground (arith, e, below)))
    ];
  }

  -- What is left of a call of a socket.
  leave-AllEnded :
      (m : ℕ) (h : Host N) (r : Result (Unit {0} × State N))
      → AllEnded h
      → StaysEnded N u h.object.created r
      → AllEndedIn (elim r [ ok (_, t) ↦ ok (leave N m t h) | fault f ↦ fault f ])
  leave-AllEnded m h (fault f) v stays = tt
  leave-AllEnded m h (ok (a, t)) v (none4, none6, gone, gone6, same, created) = record {
    end_points = gone;
    end_points6 = gone6;
    same_use = same;
    sockets = λ n below. elim (Bool-cases (n == m)) [
      | inl e ↦ rw e (none4, none6)
      | inr e ↦ rw e (v.sockets n (subst (λ c. n < c) created below))
    ];
  }

  pub view-IsEnded :
      (m : ℕ) (h : Host N)
      → AllEnded h
      → m < h.object.created
      → IsEnded N u h.object.created (view N h m)
  view-IsEnded m h v there =
      let (none4, none6) = v.sockets m there in
      (none4, none6, v.end_points, v.end_points6, v.same_use, refl)

  call-AllEnded :
      (m : ℕ) (op : Operation N) (h : Host N)
      → AllEnded h
      → m < h.object.created
      → AllEndedIn (call N E m op h)
  unfolding call
  call-AllEnded m op h v there =
      leave-AllEnded m h _ v
        (step-StaysEnded N E u h.object.created op (view N h m) (view-IsEnded m h v there))

  destruct-AllEnded :
      (m : ℕ) (h : Host N) → AllEnded h → m < h.object.created → AllEndedIn (destruct N E m h)
  unfolding destruct
  destruct-AllEnded m h v there = leave-AllEnded m h _ v (
      destroy_socket-StaysEnded N u h.object.created (view N h m) (view-IsEnded m h v there)
        (λ ep t. is_socket m (on_deletion E ep t)))

  object-AllEnded :
      {A : Type 0} (h k : Host N) (r : Result (A × State N))
      → AllEnded h
      → StaysGone N (view N h 0) r
      → on_object N E h r ≡ ok k
      → AllEnded k
  object-AllEnded h k (fault f) v q e = subst AllEndedIn e tt
  object-AllEnded h k (ok (a, t)) v (gone, gone6, created, same) e = subst AllEndedIn e record {
    end_points = gone;
    end_points6 = gone6;
    same_use = same ∙ v.same_use;
    sockets = λ n below. v.sockets n (subst (λ c. n < c) created below);
  }

  pub Reaches-AllEnded : {g h : Host N} → AllEnded g → Reaches N E g h → AllEnded h
  Reaches-AllEnded v starts = v
  Reaches-AllEnded v (creates {h} r memory e) =
      subst AllEndedIn e (create-AllEnded memory h (Reaches-AllEnded v r))
  Reaches-AllEnded v (calls_socket {h} r n op there e) =
      subst AllEndedIn e (call-AllEnded n op h (Reaches-AllEnded v r) there)
  Reaches-AllEnded v (destroys {h} r n there e) =
      subst AllEndedIn e (destruct-AllEnded n h (Reaches-AllEnded v r) there)
  Reaches-AllEnded v (notified {h} {k} r again e) =
      let w = Reaches-AllEnded v r in
      object-AllEnded h k _ w
        (notify_new_aggregate-StaysGone N E again (view N h 0) (w.end_points, w.end_points6)) e
  Reaches-AllEnded v (receives4 {h} {k} r p header i e) =
      let w = Reaches-AllEnded v r in
      object-AllEnded h k _ w
        (receive-StaysGone N E (view N h 0) (w.end_points, w.end_points6) p header i) e
  Reaches-AllEnded v (receives6 {h} {k} r p header i e) =
      let w = Reaches-AllEnded v r in
      object-AllEnded h k _ w
        (receive6-StaysGone N E (view N h 0) (w.end_points, w.end_points6) p header i) e
  Reaches-AllEnded v (receives_icmp {h} {k} r source ttl type code info from to payload e) =
      let w = Reaches-AllEnded v r in
      object-AllEnded h k _ w
        (receive_icmp-StaysGone N E (view N h 0) (w.end_points, w.end_points6) source ttl type code
          info from to payload)
        e
  Reaches-AllEnded v (receives_icmp6 {h} {k} r source ttl type code info from to payload e) =
      let w = Reaches-AllEnded v r in
      object-AllEnded h k _ w
        (receive_icmp6-StaysGone N E (view N h 0) (w.end_points, w.end_points6) source ttl type code
          info from to payload)
        e
