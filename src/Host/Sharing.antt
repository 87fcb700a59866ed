-- ===== src/Host/Sharing.antt =====
-- The sockets of one object of rudp-l4-protocol.cc share no end point, whatever the order of their
-- calls.
use rudpns.Prelude.{Bool, true, false, ℕ, ◌<◌, ◌≢◌, ◌++◌, List, ◌≡◌, refl, ap, some, arith}
use mathlib.Core.Path.{subst}
use rudpns.Ns3.{Ns3, Env, Trace}
use rudpns.Ns3.Laws.{TagLaws}
use rudpns.Ns3.Owner.{
  Probe, owner, hook, is_at, is_the_self, Same, EndPoint, ipv4_end_point, ipv6_end_point,
}
use rudpns.State.{State, Result, ok, fault, Socket, Returns}
use rudpns.L4.Aggregate.Owner.{SameSockets, notify_new_aggregate-SameSockets}
use rudpns.L4.Datagram.Owner.{
  IsQuiet, receive-IsQuiet, receive6-IsQuiet, receive_icmp-IsQuiet, receive_icmp6-IsQuiet,
}
use rudpns.Socket.Binding.Owner.{IsFresh}
use rudpns.Socket.Receiving.Counter.{IsCounted}
use rudpns.Socket.Receiving.Inbox.{perform}
use rudpns.Socket.Receiving.Inbox.Frames.{perform-Keeps}
use rudpns.Socket.Frame.{KeepsAll}
use rudpns.Socket.Receiving.Inbox.Arrival.{Arrival, Accepts, event_of, accepted, perform-Accepts}
use rudpns.Socket.Reach.{receives, step, discard}
use rudpns.Host.{
  Host, Has, new_host, view, leave, call, on_object, deliver, Reaches, starts, creates,
  calls_socket, destroys, notified, receives4, receives6, receives_icmp, receives_icmp6,
}
use rudpns.Host.Destroyed.{destruct-AllOwn}
use rudpns.Host.Steps.{
  IsOwn, AllOwn, AllOwnIn, new_host-AllOwn, create-AllOwn, on_object-AllOwn, call-AllOwn,
}

module _ (N : Ns3) where
  -- The socket's queue got what it accepts of an arrival, and the other socket and the
  -- object are as they were.
  abbrev pub GivesTo : Host N → (n m : ℕ) → Arrival N → Host N → Type 0
  GivesTo h n m x k =
      ((k.numbered n).delivery_queue ≡ (h.numbered n).delivery_queue ++ accepted N (h.numbered n) x)
      × (k.numbered m ≡ h.numbered m)
      × (k.object ≡ h.object)

module _ (N : Ns3) (E : Env N) (probe : EndPoint N → Probe N)
    (fresh : (ep : EndPoint N) → IsFresh N E (probe ep)) where
  IsQuiet→SameSockets :
      {A : Type 0} (is_it : Probe N) (s : State N) (r : Result (A × State N))
      → IsQuiet N is_it s r
      → SameSockets N is_it s r
  IsQuiet→SameSockets is_it s (fault f) q = tt
  IsQuiet→SameSockets is_it s (ok (a, t)) (q, e, g) =
      (q, ap (λ l. l.created) e, ap (λ l. l.has_end_points) e, ap (λ l. l.has_end_points6) e, g)

  quiet-AllOwn :
      {A : Type 0} (h k : Host N) (r : Result (A × State N))
      → AllOwn N probe h
      → ((is_it : Probe N) → IsQuiet N is_it (view N h 0) r)
      → on_object N E h r ≡ ok k
      → AllOwn N probe k
  quiet-AllOwn h k r v q e =
      subst (AllOwnIn N probe) e (
        on_object-AllOwn N probe E h r v
          λ is_it. IsQuiet→SameSockets is_it (view N h 0) r (q is_it))

  Reaches-AllOwn : {g h : Host N} → AllOwn N probe g → Reaches N E g h → AllOwn N probe h
  Reaches-AllOwn v starts = v
  Reaches-AllOwn v (creates {h} r memory e) =
      subst (AllOwnIn N probe) e (create-AllOwn N probe memory h (Reaches-AllOwn v r))
  Reaches-AllOwn v (calls_socket {h} r n op there e) =
      subst (AllOwnIn N probe) e (call-AllOwn N probe E fresh n op h (Reaches-AllOwn v r) there)
  Reaches-AllOwn v (destroys {h} r n there e) =
      subst (AllOwnIn N probe) e (destruct-AllOwn N E probe n h (Reaches-AllOwn v r) there)
  Reaches-AllOwn v (notified {h} r again e) = subst (AllOwnIn N probe) e (
      on_object-AllOwn N probe E h _ (Reaches-AllOwn v r)
        λ is_it. notify_new_aggregate-SameSockets N is_it E again (view N h 0))
  Reaches-AllOwn v (receives4 {h} {k} r p header i e) =
      quiet-AllOwn h k _ (Reaches-AllOwn v r)
        (λ is_it. receive-IsQuiet N is_it E p header i (view N h 0)) e
  Reaches-AllOwn v (receives6 {h} {k} r p header i e) =
      quiet-AllOwn h k _ (Reaches-AllOwn v r)
        (λ is_it. receive6-IsQuiet N is_it E p header i (view N h 0)) e
  Reaches-AllOwn v (receives_icmp {h} {k} r source ttl type code info from to payload e) =
      quiet-AllOwn h k _ (Reaches-AllOwn v r)
        (λ is_it.
          receive_icmp-IsQuiet N is_it E source ttl type code info from to payload (view N h 0))
        e
  Reaches-AllOwn v (receives_icmp6 {h} {k} r source ttl type code info from to payload e) =
      quiet-AllOwn h k _ (Reaches-AllOwn v r)
        (λ is_it.
          receive_icmp6-IsQuiet N is_it E source ttl type code info from to payload (view N h 0))
        e

  -- In every state that the object and its sockets reach from the constructor.
  pub new-AllOwn :
      {h : Host N} (memory : ℕ → Socket N) → Reaches N E (new_host N memory) h → AllOwn N probe h
  new-AllOwn memory r = Reaches-AllOwn (new_host-AllOwn N probe memory) r

module _ (N : Ns3) (same : Same N) where
  -- The callbacks of an end point that a socket has lead to the socket.
  pub holder :
      (b : Bool) (n : ℕ) (ep : EndPoint N) (s : Socket N) (t : Trace N)
      → IsOwn N (hook N b same) n s t
      → Has N ep s
      → owner N (hook N b same ep) t ≡ some n
  holder false n (ipv4_end_point e) s t v h =
      ground (arith, h, v.number, v.owns (ipv4_end_point e), is_the_self same.same4 e)
  holder true n (ipv4_end_point e) s t v h =
      ground (arith, h, v.number, v.owns (ipv4_end_point e), is_the_self same.same4 e)
  holder false n (ipv6_end_point e) s t v h =
      ground (arith, h, v.number, v.owns (ipv6_end_point e), is_the_self same.same6 e)
  holder true n (ipv6_end_point e) s t v h =
      ground (arith, h, v.number, v.owns (ipv6_end_point e), is_the_self same.same6 e)

module _ (N : Ns3) (E : Env N) (same : Same N)
    (fresh : (ep : EndPoint N) → IsFresh N E (is_at N same ep)) where
  -- Where allocation gives no end point that calls a socket: in every state that an object and
  -- its sockets reach from the object's constructor, by calls of `CreateSocket`, `NotifyNewAggregate`,
  -- `Receive` and `ReceiveIcmp` and by calls of the sockets and their destructors in any order and
  -- number, none of which makes a fault, no two sockets have the same end point, of IPv4 or of IPv6.
  pub Reaches-unshared :
      {h : Host N} (memory : ℕ → Socket N) (m n : ℕ) (ep : EndPoint N)
      → Reaches N E (new_host N memory) h
      → m < h.object.created
      → n < h.object.created
      → Has N ep (h.numbered m)
      → m ≢ n
      → ¬ (Has N ep (h.numbered n))
  Reaches-unshared {h} memory m n ep r there there' e differ e' =
      let first =
        holder N same false m ep (h.numbered m) h.calls
          ((new-AllOwn N E (is_at N same) fresh memory r).sockets m there) e in
      let second =
        holder N same false n ep (h.numbered n) h.calls
          ((new-AllOwn N E (is_at N same) fresh memory r).sockets n there') e' in
      differ (ground (arith, first, second))

  -- What a call of `ForwardUp` or `ForwardUp6` does to all the sockets.
  call-GivesTo :
      (laws : TagLaws N) (n m : ℕ) (x : Arrival N) (h : Host N)
      → IsCounted N (h.numbered n)
      → m ≢ n
      → (k : Host N) × (call N E n (receives (event_of N x)) h ≡ ok k) × GivesTo N h n m x k
  unfolding call step
  call-GivesTo laws n m x h v differ =
      go (perform N (event_of N x) (view N h n)) (perform-Accepts N laws x (view N h n) v)
        (perform-Keeps N (event_of N x) (view N h n))
    where
      go :
          (r : Result (List N.Packet × State N))
          → Returns (Accepts N x (view N h n)) r
          → KeepsAll N (view N h n) r
          → (k : Host N) × (elim (discard N r) [
            | ok (_, t) ↦ ok (leave N n t h)
            | fault f ↦ fault f
          ]
              ≡ ok k)
            × GivesTo N h n m x k
      go (ok (out, t)) e k =
          (leave N n t h, refl, (ground (arith, e), ground (arith, differ), k.same_l4))
      go (fault f) e k = absurd e

  -- A delivery ends in a state that is reached, too.
  pub deliver-Reaches :
      {h : Host N} (laws : TagLaws N) (memory : ℕ → Socket N) (n m : ℕ) (ep : EndPoint N)
      (x : Arrival N)
      → Reaches N E (new_host N memory) h
      → n < h.object.created
      → Has N ep (h.numbered n)
      → m ≢ n
      → (k : Host N) × (deliver N E same ep (event_of N x) h ≡ ok k)
        × GivesTo N h n m x k
        × Reaches N E (new_host N memory) k
  unfolding deliver
  deliver-Reaches {h} laws memory n m ep x r there e differ =
      let own = (new-AllOwn N E (is_at N same) fresh memory r).sockets n there in
      let (k, called, given) = call-GivesTo laws n m x h own.counted differ in
      (
        k,
        rw (holder N same false n ep (h.numbered n) h.calls own e, deliver) called,
        given,
        calls_socket r n (receives (event_of N x)) there called,
      )

  -- Where allocation gives no end point that calls a socket, and in a state that an object and its
  -- sockets reach from its constructor: a datagram that comes for the end point of a socket is
  -- given to that socket's `ForwardUp` or `ForwardUp6`, which makes no fault. The queue of the
  -- socket is then the old one, with the tagged datagram behind it if the socket is open for
  -- receiving and the bytes that wait and those of the datagram, modulo 2 ^ 32, are at most the
  -- buffer's size. No other socket changes.
  pub deliver-holder :
      {h : Host N} (memory : ℕ → Socket N) (laws : TagLaws N) (n m : ℕ) (ep : EndPoint N)
      (x : Arrival N)
      → Reaches N E (new_host N memory) h
      → n < h.object.created
      → Has N ep (h.numbered n)
      → m ≢ n
      → (k : Host N) × (deliver N E same ep (event_of N x) h ≡ ok k) × GivesTo N h n m x k
  deliver-holder memory laws n m ep x r there e differ =
      let (k, delivers, given, r') = deliver-Reaches laws memory n m ep x r there e differ in
      (k, delivers, given)
