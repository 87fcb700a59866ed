-- ===== src/Socket/Receiving/Inbox/Refinement.antt =====
-- The receiving functions of rudp-socket-impl.cc implement the bounded queue.
use rudpns.Prelude.{ℕ, ◌+◌, ◌^◌, ◌≤◌, ◌<◌, ◌≡◌, refl, ◌∙◌, ap, List, [], ◌∷◌, ◌++◌, arith}
use rudpns.Ns3.{Ns3, Ipv4Header, Ipv6Header, packet_info6}
use rudpns.Ns3.Laws.{TagLaws}
use rudpns.State.{Socket, State, Returns, Returns-bind}
use rudpns.Socket.{set_rcv_buf_size}
use rudpns.Socket.Receiving.{recv, receive_up, receive_up6, tag_received, tag_received6, tag_info6}
use rudpns.Socket.Receiving.Inbox.{
  Inbox, inbox, Event, arrives, arrives6, reads, resizes, perform, run, spec_step, spec_run,
  IsExact, Fits, AllFit, Refines, enqueue-Stored,
}

module _ (N : Ns3) (laws : TagLaws N) where
  pub size-tag_received :
      (s : Socket N) (p : N.Packet) (h : Ipv4Header N.Ipv4Address) (i : N.Ipv4Interface)
      → N.get_size (tag_received N s p h i) ≡ N.get_size p
  unfolding tag_received
  size-tag_received s p h i = grind (arith, laws.size-tag, laws.size-remove_packet_info)

  pub size-tag_received6 :
      (s : Socket N) (p : N.Packet) (h : Ipv6Header N.Ipv6Address)
      → N.get_size (tag_received6 N s p h) ≡ N.get_size p
  unfolding tag_received6
  size-tag_received6 s p h = grind (arith, laws.size-tag)

  module _ (bound : ℕ) where
    arrives-Refines :
        (p : N.Packet) (h : Ipv4Header N.Ipv4Address) (port : ℕ) (i : N.Ipv4Interface) (s : State N)
        → IsExact N bound s
        → N.get_size p + bound < 2 ^ 32
        → Returns
            (Refines N bound s (spec_step N s.socket (arrives p h port i) (inbox N s)))
            (perform N (arrives p h port i) s)
    unfolding perform receive_up spec_step
    arrives-Refines p h port i s v small = ground (
      arith,
      size-tag_received s.socket p h i,
      enqueue-Stored N laws bound (tag_received N s.socket p h i) (N.of_inet h.source port) s v,
    )

    reads-Refines :
        (m : ℕ) (s : State N)
        → IsExact N bound s
        → bound < 2 ^ 32
        → Returns
            (Refines N bound s (spec_step N s.socket (reads m) (inbox N s)))
            (perform N (reads m) s)
    unfolding perform recv spec_step
    reads-Refines m s v small = ground arith

    arrives6-Refines :
        (p : N.Packet) (h : Ipv6Header N.Ipv6Address) (port : ℕ) (i : N.Ipv6Interface) (s : State N)
        → IsExact N bound s
        → N.get_size p + bound < 2 ^ 32
        → Returns
            (Refines N bound s (spec_step N s.socket (arrives6 p h port i) (inbox N s)))
            (perform N (arrives6 p h port i) s)
    unfolding perform receive_up6 tag_info6 spec_step
    arrives6-Refines p h port i s v small =
        let q = (N.remove_packet_info6 p).1 in
        let info = N.set_recv_if6 (N.remove_packet_info6 p).0 (N.if_index6 i) in
        let from = N.of_inet6 h.source port in
        let with_info = N.add_packet_tag (packet_info6 info) q in
        ground (
          arith,
          size-tag_received6 s.socket with_info h,
          size-tag_received6 s.socket p h,
          laws.size-tag (packet_info6 info) q,
          laws.size-remove_packet_info6 p,
          enqueue-Stored N laws bound (tag_received6 N s.socket with_info h) from s v,
          enqueue-Stored N laws bound (tag_received6 N s.socket p h) from s v,
        )

    resizes-Refines :
        (n : ℕ) (s : State N)
        → IsExact N bound s
        → n ≤ bound
        → Returns
            (Refines N bound s (spec_step N s.socket (resizes n) (inbox N s)))
            (perform N (resizes n) s)
    unfolding perform set_rcv_buf_size spec_step
    resizes-Refines n s v small = ground arith

    -- Whatever arrives, is read or changes the buffer's size, the code answers as the bounded queue
    -- does, makes no fault, and keeps its counter exact, if the counter's 32 bits cannot overflow.
    pub perform-Refines :
        (e : Event N) (s : State N)
        → IsExact N bound s
        → Fits N bound e
        → Returns (Refines N bound s (spec_step N s.socket e (inbox N s))) (perform N e s)
    perform-Refines (arrives p h port i) s v small = arrives-Refines p h port i s v small
    perform-Refines (arrives6 p h port i) s v small = arrives6-Refines p h port i s v small
    perform-Refines (reads m) s v small = reads-Refines m s v small
    perform-Refines (resizes n) s v small = resizes-Refines n s v small

    -- The specification depends on the options and on the shutdown alone.
    spec_step_same :
        (e : Event N) (s t : Socket N) (b : Inbox N)
        → s.shutdown_recv ≡ t.shutdown_recv
        → s.options ≡ t.options
        → spec_step N s e b ≡ spec_step N t e b
    unfolding spec_step tag_received tag_received6
    spec_step_same (arrives p h port i) s t b e f = rw (e, f)
    spec_step_same (arrives6 p h port i) s t b e f = rw (e, f)
    spec_step_same (reads m) s t b e f = refl
    spec_step_same (resizes n) s t b e f = refl

    spec_run_same :
        (es : List (Event N)) (s t : Socket N) (b : Inbox N)
        → s.shutdown_recv ≡ t.shutdown_recv
        → s.options ≡ t.options
        → spec_run N s es b ≡ spec_run N t es b
    unfolding spec_run
    spec_run_same [] s t b e f = refl
    spec_run_same (x ∷ es) s t b e f =
        rw (spec_step_same x s t b e f, spec_run_same es s t (spec_step N t x b).1 e f)

    pub Refines-nil :
        (s : State N)
        → IsExact N bound s
        → Refines N bound s (spec_run N s.socket [] (inbox N s)) [] s
    unfolding spec_run
    Refines-nil s v = ground arith

    -- A step, and a run after it.
    pub Refines-cons :
        (e : Event N) (es : List (Event N)) (s t u : State N) (out rest : List N.Packet)
        → Refines N bound s (spec_step N s.socket e (inbox N s)) out t
        → Refines N bound t (spec_run N t.socket es (inbox N t)) rest u
        → Refines N bound s (spec_run N s.socket (e ∷ es) (inbox N s)) (out ++ rest) u
    unfolding spec_run
    Refines-cons e es s t u out rest r r' =
        let followed =
          spec_run_same es t.socket s.socket (inbox N t) r.same_shutdown r.same_options
          ∙ ap (spec_run N s.socket es) r.same_inbox in
        record {
          same_output = rw (r.same_output, r'.same_output, followed);
          same_inbox = r'.same_inbox ∙ ap (λ x. x.1) followed;
          exact = r'.exact;
          same_shutdown = r'.same_shutdown ∙ r.same_shutdown;
          same_options = r'.same_options ∙ r.same_options;
        }

    -- Started with an exact counter and with no more than `bound` bytes in the queue and for the
    -- buffer, over every sequence of arrivals, reads and changes of the buffer's size that cannot
    -- make the counter's 32 bits overflow: the code makes no fault, the packets that the
    -- application reads and what stays in the buffer are those of the bounded queue, and the
    -- counter is exact again.
    pub run-Refines :
        (es : List (Event N)) (s : State N)
        → IsExact N bound s
        → AllFit N bound es
        → Returns (Refines N bound s (spec_run N s.socket es (inbox N s))) (run N es s)
    unfolding run spec_run
    run-Refines [] s v small = ground arith
    run-Refines (e ∷ es) s v small =
        Returns-bind _ (perform N e) _ s (perform-Refines e s v small.0) λ out s' r.
          Returns-bind _ (run N es) _ s' (run-Refines es s' r.exact small.1)
            λ rest s'' r'. Refines-cons e es s s' s'' out rest r r'
