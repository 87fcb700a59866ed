-- ===== src/Host/Deletion/Silence.antt =====
-- What the sockets of rudp-socket-impl.cc and their object of rudp-l4-protocol.cc still do after
-- `DoDispose` of the object.
use rudpns.Prelude.{ℕ, ◌<◌, ◌≡◌, refl, sym, ap, ◌∙◌, false, none}
use mathlib.Core.Path.{subst}
use rudpns.Ns3.{Ns3, Env}
use rudpns.Ns3.Owner.{Same, EndPoint, destroys_at}
use rudpns.Ns3.Used.{used}
use rudpns.State.{Socket, Result, ok, fault, null_dereference, Returns}
use rudpns.Socket.Binding.Owner.{IsFresh}
use rudpns.Socket.Closing.{close}
use rudpns.Socket.Closing.Ended.{close-gone}
use rudpns.Socket.Sending.{do_send_to, do_send_to6}
use rudpns.Socket.Sending.Ended.{do_send_to-gone, do_send_to6-gone}
use rudpns.Host.{Host, view, new_host, Reaches}
use rudpns.Host.Deletion.{DeletionLaws, dispose}
use rudpns.Host.Deletion.Teardown.{Reaches-detaches}
use rudpns.Host.Deletion.Ended.{AllEnded, Reaches-AllEnded, view-IsEnded}

module _ (N : Ns3) (E : Env N) (same : Same N)
    (fresh : (ep : EndPoint N) → IsFresh N E (destroys_at N same ep)) (laws : DeletionLaws N E same)
    (memory : ℕ → Socket N) where
  or_else : Host N → Result (Host N) → Host N
  or_else h (ok k) = k
  or_else h (fault f) = h

  dispose-AllEnded :
      {h k : Host N}
      → Reaches N E (new_host N memory) h
      → dispose N E h ≡ ok k
      → AllEnded N E (used N k.calls) k
  unfolding or_else
  dispose-AllEnded {h} {k} r e =
      let (j, disposes, object, left) = Reaches-detaches N E same fresh laws memory r in
      let p : j ≡ k = ap (or_else h) (sym disposes ∙ e) in
      subst (λ k. AllEnded N E (used N k.calls) k) p
        record {
          end_points = ap (λ l. l.has_end_points) object;
          end_points6 = ap (λ l. l.has_end_points6) object;
          same_use = refl;
          sockets = λ n below.
              let v = left n (subst (λ l. n < l.created) object below) in
              (ap (λ s. s.socket.end_point) v, ap (λ s. s.socket.end_point6) v);
        }

  -- Where allocation gives no end point whose destroy callback is set, and an end point that ns-3
  -- deletes makes that callback: `DoDispose` of an object, in a state that it and its sockets reach
  -- from its constructor, and then calls of the object and of its sockets, destructors and new sockets
  -- included, in any order and number, none of which makes a fault. Since `DoDispose`, no end point was
  -- asked for, given back, changed or called, and no datagram was handed down; no socket has an end
  -- point, and the object has none. Every `DoSendTo` of every socket, of either family, would go
  -- through a null pointer, whatever the packet and the address; `Close` would return, and give no end
  -- point back.
  pub dispose-silences :
      {h k l : Host N} (n port : ℕ) (p : N.Packet) (a : N.Ipv4Address) (b : N.Ipv6Address)
      → Reaches N E (new_host N memory) h
      → dispose N E h ≡ ok k
      → Reaches N E k l
      → n < l.object.created
      → (used N l.calls ≡ used N k.calls)
        × (l.object.has_end_points ≡ false)
        × (l.object.has_end_points6 ≡ false)
        × ((l.numbered n).end_point ≡ none)
        × ((l.numbered n).end_point6 ≡ none)
        × (do_send_to N E p a port (view N l n) ≡ fault null_dereference)
        × (do_send_to6 N E p b port (view N l n) ≡ fault null_dereference)
        × Returns (λ _ t. used N t.trace ≡ used N k.calls) (close N (view N l n))
  dispose-silences {h} {k} {l} n port p a b r e r' below =
      let u = used N k.calls in
      let all = Reaches-AllEnded N E u (dispose-AllEnded r e) r' in
      let v = view-IsEnded N E u n l all below in
      let c = l.object.created in
      (
        all.same_use,
        all.end_points,
        all.end_points6,
        v.0,
        v.1,
        do_send_to-gone N E u c (view N l n) v p a port,
        do_send_to6-gone N E u c (view N l n) v p b port,
        close-gone N u c (view N l n) v,
      )
