-- ===== src/Host/Deletion/EitherOrder.antt =====
-- The destructor of a socket of rudp-socket-impl.cc and the end of its protocol object, in either
-- order.
use rudpns.Prelude.{ℕ, ◌<◌, ◌≡◌, ◌≢◌, refl, sym, ap, ◌∙◌, true, Option, none, some, arith}
use mathlib.Core.Path.{subst}
use rudpns.Ns3.{Ns3, Env, Trace}
use rudpns.Ns3.Owner.{
  Same, EndPoint, destroys_at, owner, is_socket, on_deletion, ipv4_end_point, ipv6_end_point,
}
use rudpns.State.{Socket, State, Result, ok, fault, Returns}
use rudpns.Socket.Binding.Owner.{IsFresh}
use rudpns.Host.{destruct, destroys, Host, view, leave, new_host, Reaches}
use rudpns.Host.Steps.{AllOwn}
use rudpns.Host.Sharing.{holder, new-AllOwn}
use rudpns.Socket.Closing.AfterDispose.{orphan}
use rudpns.Socket.Closing.{destroy_socket}
use rudpns.Socket.Closing.Release.{IsWired}
use rudpns.Socket.Closing.Destruction.{
  without4, IsTornDown, destroy_socket-calls_back, destroy_socket-alone,
}
use rudpns.Host.Deletion.Teardown.{Reaches-detaches}
use rudpns.Host.Deletion.{DeletionLaws, dispose}

module _ (N : Ns3) (E : Env N) (same : Same N) (laws : DeletionLaws N E same) where
  owner-without4 :
      (e : N.Ipv6EndPoint) (o : Option N.Ipv4EndPoint) (t : Trace N)
      → owner N (destroys_at N same (ipv6_end_point e)) (without4 N o t)
        ≡ owner N (destroys_at N same (ipv6_end_point e)) t
  owner-without4 e none t = refl
  owner-without4 e (some _) t = refl

  calls_this :
      (n : ℕ) (ep : EndPoint N) (t : Trace N)
      → owner N (destroys_at N same ep) t ≡ some n
      → is_socket n (on_deletion E ep t) ≡ true
  calls_this n ep t e = ground (arith, laws.deleted_calls ep t n e)

  -- The run of the destructor of socket `n`, and what it leaves.
  abbrev run : Host N → ℕ → Result (Unit {0} × State N)
  run h n = destroy_socket N (λ ep t. is_socket n (on_deletion E ep t)) (view N h n)

  abbrev Destructed : Host N → (n m : ℕ) → Host N → Type 0
  Destructed h n m k =
      IsTornDown N (view N k n) × (k.numbered m ≡ h.numbered m) × (k.object ≡ h.object)

  destruct-Destructed :
      (n m : ℕ) (h : Host N)
      → Returns (λ _ t. IsTornDown N t × (t.l4 ≡ h.object)) (run h n)
      → m ≢ n
      → (k : Host N) × (destruct N E n h ≡ ok k) × Destructed h n m k
  unfolding destruct
  destruct-Destructed n m h v = go (run h n) v
    where
      go :
          (r : Result (Unit {0} × State N))
          → Returns (λ _ t. IsTornDown N t × (t.l4 ≡ h.object)) r
          → m ≢ n
          → (k : Host N) × (elim r [ ok (_, t) ↦ ok (leave N n t h) | fault f ↦ fault f ] ≡ ok k)
            × Destructed h n m k
      go (ok (a, t)) (torn, object) differ =
          (leave N n t h, refl, (ground (arith, torn), ground (arith, differ), object))
      go (fault f) v differ = absurd v

  -- It passes for a socket that knows the object, while that has its end points.
  pub destruct_passes :
      (h : Host N) (n m : ℕ)
      → AllOwn N (destroys_at N same) h
      → n < h.object.created
      → (h.numbered n).has_rudp ≡ true
      → m ≢ n
      → (k : Host N) × (destruct N E n h ≡ ok k) × Destructed h n m k
  destruct_passes h n m all below attached =
      let s = h.numbered n in
      let own = all.sockets n below in
      let wired : IsWired N (view N h n) = record {
        has_rudp = attached;
        has_end_points = all.end_points;
        has_end_points6 = all.end_points6;
      } in
      destruct-Destructed n m h (
        destroy_socket-calls_back N (λ ep t. is_socket n (on_deletion E ep t)) (view N h n) wired
          (λ ep e.
            calls_this n (ipv4_end_point ep) h.calls
              (holder N same true n (ipv4_end_point ep) s h.calls own e))
          (λ ep e. calls_this n (ipv6_end_point ep) (without4 N s.end_point h.calls) (
            owner-without4 ep s.end_point h.calls
            ∙ holder N same true n (ipv6_end_point ep) s h.calls own e)))

module _ (N : Ns3) (E : Env N) (same : Same N)
    (fresh : (ep : EndPoint N) → IsFresh N E (destroys_at N same ep)) (laws : DeletionLaws N E same)
    (memory : ℕ → Socket N) where
  -- Where allocation gives no end point whose destroy callback is set, and an end point that ns-3
  -- deletes makes that callback: in every state that an object and its sockets reach from its
  -- constructor, a socket that knows the object, and the object, may end in either order. If the
  -- socket's destructor runs first, it passes its assertions, leaves no end point, no node and no
  -- protocol object, and changes neither another socket nor the object; `DoDispose` makes no fault
  -- then, and takes the end points of the other. If `DoDispose` is first, it makes no fault, and the
  -- destructor passes after it.
  pub teardown_order :
      {h : Host N} (n m : ℕ)
      → Reaches N E (new_host N memory) h
      → n < h.object.created
      → m < h.object.created
      → (h.numbered n).has_rudp ≡ true
      → m ≢ n
      → ((k l : Host N) × (destruct N E n h ≡ ok k)
          × IsTornDown N (view N k n)
          × (k.numbered m ≡ h.numbered m)
          × (k.object ≡ h.object)
          × (dispose N E k ≡ ok l)
          × (view N l m ≡ orphan N (view N k m)))
        × ((j k : Host N) × (dispose N E h ≡ ok j)
            × (destruct N E n j ≡ ok k)
            × IsTornDown N (view N k n))
  teardown_order {h} n m r below below' attached differ =
      let all = new-AllOwn N E (destroys_at N same) fresh memory r in
      let (k, destructs, (torn, kept, object)) =
        destruct_passes N E same laws h n m all below attached differ in
      let (l, disposes, disposed_object, left) =
        Reaches-detaches N E same fresh laws memory (destroys r n below destructs) in
      let (j, disposes', object', left') = Reaches-detaches N E same fresh laws memory r in
      let (k', destructs', (torn', _, _)) =
        destruct-Destructed N E same laws n m j
          (destroy_socket-alone N (λ ep t. is_socket n (on_deletion E ep t)) (view N j n)
            (ap (λ x. x.socket.end_point) (left' n below))
            (ap (λ x. x.socket.end_point6) (left' n below)))
          differ in
      (
        (
          k,
          l,
          destructs,
          torn,
          kept,
          object,
          disposes,
          left m (subst (λ o. m < o.created) (sym object) below'),
        ),
        (j, k', disposes', destructs', torn'),
      )
