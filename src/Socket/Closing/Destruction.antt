-- ===== src/Socket/Closing/Destruction.antt =====
-- The destructor of rudp-socket-impl.cc.
use rudpns.Prelude.{◌≡◌, refl, ap, sym, ◌∙◌, Bool, true, false, Option, none, some, ◌∷◌, arith}
use mathlib.Core.Path.{subst}
use rudpns.Ns3.{Ns3, Trace, deallocate, deallocate6}
use rudpns.Ns3.Owner.{EndPoint, ipv4_end_point, ipv6_end_point}
use rudpns.State.{State, ok, Returns, Returns-bind}
use rudpns.L4.{l4_deallocate, l4_deallocate6}
use rudpns.Socket.{destroy, destroy6}
use rudpns.Socket.Closing.{discard, discard6, destroy_socket}
use rudpns.Socket.Closing.Release.{IsWired}

module _ (N : Ns3) where
  -- The calls made once the first half has given the IPv4 end point back.
  abbrev pub without4 : Option N.Ipv4EndPoint → Trace N → Trace N
  without4 none t = t
  without4 (some ep) t = deallocate ep ∷ t

  -- The socket has no end point, and neither a node nor a protocol object.
  abbrev pub IsTornDown : State N → Type 0
  IsTornDown s =
      (s.socket.end_point ≡ none)
      × (s.socket.end_point6 ≡ none)
      × (s.socket.has_rudp ≡ false)
      × (s.socket.node ≡ none)

module _ (N : Ns3) (calls_back : EndPoint N → Trace N → Bool) where
  -- What the first half of the destructor leaves.
  record Discarded (s s' : State N) : Type 0 where
    gone : s'.socket.end_point ≡ none
    wired : s'.socket.has_rudp ≡ true
    kept6 : s'.socket.end_point6 ≡ s.socket.end_point6
    kept_node : s'.socket.node ≡ s.socket.node
    kept_l4 : s'.l4 ≡ s.l4
    released : s'.trace ≡ without4 N s.socket.end_point s.trace

  discard-eq :
      (ep : N.Ipv4EndPoint) (s : State N)
      → s.socket.has_rudp ≡ true
      → s.l4.has_end_points ≡ true
      → calls_back (ipv4_end_point ep) s.trace ≡ true
      → discard N calls_back (some ep) s
        ≡ ok (
          tt,
          record s {
            socket = record s.socket { end_point = none };
            trace = deallocate ep ∷ s.trace;
          },
        )
  unfolding discard
  discard-eq ep s r e called = rw (r, e, called)

  discard-Discarded :
      (o : Option N.Ipv4EndPoint) (s : State N)
      → s.socket.has_rudp ≡ true
      → s.l4.has_end_points ≡ true
      → s.socket.end_point ≡ o
      → ((ep : N.Ipv4EndPoint) → o ≡ some ep → calls_back (ipv4_end_point ep) s.trace ≡ true)
      → Returns (λ _. Discarded s) (discard N calls_back o s)
  unfolding discard destroy l4_deallocate
  discard-Discarded none s r w e called = ground arith
  discard-Discarded (some ep) s r w e called = ground (arith, discard-eq ep s r w (called ep refl))

  record Discarded6 (s s' : State N) : Type 0 where
    gone6 : s'.socket.end_point6 ≡ none
    kept : s'.socket.end_point ≡ s.socket.end_point
    kept_node : s'.socket.node ≡ s.socket.node
    kept_l4 : s'.l4 ≡ s.l4

  discard6-eq :
      (ep : N.Ipv6EndPoint) (s : State N)
      → s.socket.has_rudp ≡ true
      → s.l4.has_end_points6 ≡ true
      → calls_back (ipv6_end_point ep) s.trace ≡ true
      → discard6 N calls_back (some ep) s
        ≡ ok (
          tt,
          record s {
            socket = record s.socket { end_point6 = none };
            trace = deallocate6 ep ∷ s.trace;
          },
        )
  unfolding discard6
  discard6-eq ep s r e called = rw (r, e, called)

  discard6-Discarded6 :
      (o : Option N.Ipv6EndPoint) (s : State N)
      → s.socket.has_rudp ≡ true
      → s.l4.has_end_points6 ≡ true
      → s.socket.end_point6 ≡ o
      → ((ep : N.Ipv6EndPoint) → o ≡ some ep → calls_back (ipv6_end_point ep) s.trace ≡ true)
      → Returns (λ _. Discarded6 s) (discard6 N calls_back o s)
  unfolding discard6 destroy6 l4_deallocate6
  discard6-Discarded6 none s r w e called = ground arith
  discard6-Discarded6 (some ep) s r w e called =
      ground (arith, discard6-eq ep s r w (called ep refl))

  -- The destructor of a socket that knows its protocol object, not disposed of, passes its
  -- assertions if each end point that it gives back makes its destroy callback, and leaves no end
  -- point, no node and no protocol object. The protocol object is as it was.
  pub destroy_socket-calls_back :
      (s : State N)
      → IsWired N s
      → ((ep : N.Ipv4EndPoint)
          → s.socket.end_point ≡ some ep
          → calls_back (ipv4_end_point ep) s.trace ≡ true)
      → ((ep : N.Ipv6EndPoint)
          → s.socket.end_point6 ≡ some ep
          → calls_back (ipv6_end_point ep) (without4 N s.socket.end_point s.trace) ≡ true)
      → Returns (λ _ t. IsTornDown N t × (t.l4 ≡ s.l4)) (destroy_socket N calls_back s)
  unfolding destroy_socket
  destroy_socket-calls_back s w called called6 =
      let alone = record s { socket = record s.socket { node = none } } in
      Returns-bind _ (discard N calls_back s.socket.end_point) _ alone
        (discard-Discarded s.socket.end_point alone w.has_rudp w.has_end_points refl called)
        λ _ t d.
          Returns-bind _ (discard6 N calls_back s.socket.end_point6) _ t
            (discard6-Discarded6 s.socket.end_point6 t d.wired
              (ap (λ l. l.has_end_points6) d.kept_l4 ∙ w.has_end_points6) d.kept6
              λ ep e.
                subst (λ x. calls_back (ipv6_end_point ep) x ≡ true) (sym d.released)
                  (called6 ep e))
            λ _ u d'. (
              (d'.kept ∙ d.gone, d'.gone6, refl, d'.kept_node ∙ d.kept_node),
              d'.kept_l4 ∙ d.kept_l4,
            )

  -- A socket with no end point passes them too, whatever is left of the object.
  pub destroy_socket-alone :
      (s : State N)
      → s.socket.end_point ≡ none
      → s.socket.end_point6 ≡ none
      → Returns (λ _ t. IsTornDown N t × (t.l4 ≡ s.l4)) (destroy_socket N calls_back s)
  unfolding destroy_socket discard discard6
  destroy_socket-alone s e e6 = ground arith
