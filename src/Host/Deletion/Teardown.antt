-- ===== src/Host/Deletion/Teardown.antt =====
-- That no socket keeps an end point that is gone, however the object and the sockets end:
-- rudp-l4-protocol.cc and rudp-socket-impl.cc.
use rudpns.Prelude.{
  ℕ, ◌<◌, ◌≡◌, refl, ap, ◌∙◌, ◌&&◌, pos, Bool, true, false, none, some, List, [], ◌∷◌,
  if◌then◌else◌, member, Option-cases, inl, inr, arith,
}
use rudpns.Ns3.{Ns3, Env, base_do_dispose, delete_end_points, delete_end_points6}
use rudpns.Ns3.Owner.{Same, EndPoint, destroys_at, ipv4_end_point, ipv6_end_point}
use rudpns.State.{Socket, ok, fault, null_dereference}
use rudpns.Socket.{destroy, destroy6}
use rudpns.Socket.Binding.Owner.{IsFresh}
use rudpns.Socket.Reach.{step, is_destroyed, is_destroyed6}
use rudpns.Host.{Host, view, put, call, new_host, Reaches}
use rudpns.Host.Steps.{IsOwn}
use rudpns.Host.Sharing.{holder, new-AllOwn}
use rudpns.L4.Aggregate.Lifecycle.{disposed, do_dispose-disposed}
use rudpns.Socket.Closing.AfterDispose.{orphan, orphan_closed, do_dispose-orphan}
use rudpns.Socket.Closing.{close}
use rudpns.Socket.Sending.{do_send_to, do_send_to6}
use rudpns.Host.Deletion.{DeletionLaws, each, dispose}

module _ (N : Ns3) where
  -- A socket after `Destroy`, and after `Destroy6`, if it was called.
  abbrev detached : Bool → Socket N → Socket N
  detached b s = if b then record s { end_point = none } else s

  abbrev detached6 : Bool → Socket N → Socket N
  detached6 b s = if b then record s { end_point6 = none } else s

  -- An end point that is held is gone after it.
  detached-gone :
      (b : Bool) (s : Socket N)
      → ((e : N.Ipv4EndPoint) → s.end_point ≡ some e → b ≡ true)
      → detached b s ≡ record s { end_point = none }
  detached-gone true s h = refl
  detached-gone false s h = elim (Option-cases s.end_point) [
    | inl e ↦ ground (arith, e)
    | inr (ep, e) ↦ let no : ⊥ = cc (h ep e) in absurd no
  ]

  detached6-gone :
      (b : Bool) (s : Socket N)
      → ((e : N.Ipv6EndPoint) → s.end_point6 ≡ some e → b ≡ true)
      → detached6 b s ≡ record s { end_point6 = none }
  detached6-gone true s h = refl
  detached6-gone false s h = elim (Option-cases s.end_point6) [
    | inl e ↦ ground (arith, e)
    | inr (ep, e) ↦ let no : ⊥ = cc (h ep e) in absurd no
  ]

module _ (N : Ns3) (E : Env N) where
  each-destroyed :
      (ns : List ℕ) (h : Host N)
      → (k : Host N) × (each N E ns is_destroyed h ≡ ok k)
        × ((n : ℕ) → k.numbered n ≡ detached N (member n ns) (h.numbered n))
        × (k.object ≡ h.object)
        × (k.calls ≡ h.calls)
  unfolding each call step destroy
  each-destroyed [] h = (h, refl, λ n. refl, refl, refl)
  each-destroyed (m ∷ ns) h =
      let s = record (h.numbered m) { end_point = none } in
      let (k, e, numbered, object, calls) =
        each-destroyed ns (record h { numbered = put N h.numbered m s }) in
      (k, e, λ n. ground (arith, numbered n), object, calls)

  each-destroyed6 :
      (ns : List ℕ) (h : Host N)
      → (k : Host N) × (each N E ns is_destroyed6 h ≡ ok k)
        × ((n : ℕ) → k.numbered n ≡ detached6 N (member n ns) (h.numbered n))
        × (k.object ≡ h.object)
        × (k.calls ≡ h.calls)
  unfolding each call step destroy6
  each-destroyed6 [] h = (h, refl, λ n. refl, refl, refl)
  each-destroyed6 (m ∷ ns) h =
      let s = record (h.numbered m) { end_point6 = none } in
      let (k, e, numbered, object, calls) =
        each-destroyed6 ns (record h { numbered = put N h.numbered m s }) in
      (k, e, λ n. ground (arith, numbered n), object, calls)

  -- The run of `DoDispose`, with the calls that it makes of the sockets.
  dispose-eq :
      (h k l : Host N)
      → h.object.has_end_points ≡ true
      → h.object.has_end_points6 ≡ true
      → let d = disposed N (view N h 0) in
        each N E (E.all_deleted h.calls) is_destroyed (record h { object = d.l4; calls = d.trace })
          ≡ ok k
        → each N E (E.all_deleted6 h.calls) is_destroyed6 k ≡ ok l
        → dispose N E h ≡ ok l
  unfolding dispose
  dispose-eq h k l e e6 first second = ground (arith, (do_dispose-disposed N E (view N h 0)).0)

  -- What was deleted, of an object that has its end points.
  disposed-deletes :
      (h : Host N)
      → h.object.has_end_points ≡ true
      → h.object.has_end_points6 ≡ true
      → (disposed N (view N h 0)).trace
        ≡ base_do_dispose ∷ delete_end_points6 ∷ delete_end_points ∷ h.calls
  disposed-deletes h e e6 = rw (e, e6) refl

module _ (N : Ns3) (E : Env N) (same : Same N) (laws : DeletionLaws N E same) where
  -- `DoDispose` of an object that has its end points, which call the sockets that have them.
  pub detaches :
      (h : Host N)
      → h.object.has_end_points ≡ true
      → h.object.has_end_points6 ≡ true
      → (k : Host N) × (dispose N E h ≡ ok k)
        × (k.object ≡ (disposed N (view N h 0)).l4)
        × (k.calls ≡ (disposed N (view N h 0)).trace)
        × ((n : ℕ)
            → IsOwn N (destroys_at N same) n (h.numbered n) h.calls
            → view N k n ≡ orphan N (view N h n))
  detaches h e4 e6 =
      let d = disposed N (view N h 0) in
      let (k, first, numbered, object, calls) =
        each-destroyed N E (E.all_deleted h.calls) (record h { object = d.l4; calls = d.trace }) in
      let (l, second, numbered6, object6, calls6) =
        each-destroyed6 N E (E.all_deleted6 h.calls) k in
      (
        l,
        dispose-eq N E h k l e4 e6 first second,
        object6 ∙ object,
        calls6 ∙ calls,
        λ n own.
            let s = h.numbered n in
            let of4 = detached-gone N (member n (E.all_deleted h.calls)) s λ e held.
              laws.all_deleted_calls e h.calls n
                (holder N same true n (ipv4_end_point e) s h.calls own held) in
            let of6 =
              detached6-gone N (member n (E.all_deleted6 h.calls)) (record s { end_point = none })
                λ e held.
                  laws.all_deleted_calls6 e h.calls n
                    (holder N same true n (ipv6_end_point e) s h.calls own held) in
            ground (arith, numbered n, numbered6 n, of4, of6),
      )

module _ (N : Ns3) (E : Env N) (same : Same N)
    (fresh : (ep : EndPoint N) → IsFresh N E (destroys_at N same ep)) (laws : DeletionLaws N E same)
    (memory : ℕ → Socket N) where
  pub Reaches-detaches :
      {h : Host N}
      → Reaches N E (new_host N memory) h
      → (k : Host N) × (dispose N E h ≡ ok k)
        × (k.object ≡ (disposed N (view N h 0)).l4)
        × ((n : ℕ) → n < h.object.created → view N k n ≡ orphan N (view N h n))
  Reaches-detaches {h} r =
      let all = new-AllOwn N E (destroys_at N same) fresh memory r in
      let (k, disposes, object, _, left) =
        detaches N E same laws h all.end_points all.end_points6 in
      (k, disposes, object, λ n below. left n (all.sockets n below))

  -- Where allocation gives no end point whose destroy callback is set, and an end point that ns-3
  -- deletes makes that callback: in every state that an object and its sockets reach from its
  -- constructor, `DoDispose` makes no fault. It deletes the end points of IPv4 and those of IPv6,
  -- each once, and calls the base class; the object is left with no end points, no node, no socket in
  -- its list and no down target; and every socket created loses its end points of both families by
  -- the callbacks of the deletions, and else is as it was.
  pub dispose-detaches :
      {h : Host N}
      → Reaches N E (new_host N memory) h
      → (k : Host N) × (dispose N E h ≡ ok k)
        × (k.calls ≡ base_do_dispose ∷ delete_end_points6 ∷ delete_end_points ∷ h.calls)
        × (k.object ≡ record h.object {
          l4_node = none;
          has_end_points = false;
          has_end_points6 = false;
          sockets = [];
          down_target = none;
          down_target6 = none;
        })
        × ((n : ℕ)
            → n < h.object.created
            → k.numbered n ≡ record (h.numbered n) { end_point = none; end_point6 = none })
  dispose-detaches {h} r =
      let all = new-AllOwn N E (destroys_at N same) fresh memory r in
      let (k, disposes, object, calls, left) =
        detaches N E same laws h all.end_points all.end_points6 in
      (
        k,
        disposes,
        calls ∙ disposed-deletes N E h all.end_points all.end_points6,
        object,
        λ n below. ap (λ s. s.socket) (left n (all.sockets n below)),
      )

  -- Where allocation gives no end point whose destroy callback is set, and an end point that ns-3
  -- deletes makes that callback: a socket that knows the object and is not shut down both ways, in a state that an
  -- object and its sockets reach from its constructor. After `DoDispose` of the object every
  -- `DoSendTo` of the socket, of either family, goes through the null pointer that `DoDispose`
  -- left, whatever the packet and the address; `Close` still succeeds, and gives no end point back.
  pub dispose-orphans :
      {h : Host N} (n port : ℕ) (p : N.Packet) (a : N.Ipv4Address) (b : N.Ipv6Address)
      → Reaches N E (new_host N memory) h
      → n < h.object.created
      → (h.numbered n).has_rudp ≡ true
      → ((h.numbered n).shutdown_recv && (h.numbered n).shutdown_send) ≡ false
      → (k : Host N) × (dispose N E h ≡ ok k)
        × (do_send_to N E p a port (view N k n) ≡ fault null_dereference)
        × (do_send_to6 N E p b port (view N k n) ≡ fault null_dereference)
        × (close N (view N k n) ≡ ok (pos 0, orphan_closed N (view N h n)))
  dispose-orphans {h} n port p a b r below attached opened =
      let (k, disposes, object, left) = Reaches-detaches r in
      let (_, sends, sends6, closes) =
        do_dispose-orphan N E p a b port (view N h n) attached opened in
      (
        k,
        disposes,
        ap (do_send_to N E p a port) (left n below) ∙ sends,
        ap (do_send_to6 N E p b port) (left n below) ∙ sends6,
        ap (close N) (left n below) ∙ closes,
      )
