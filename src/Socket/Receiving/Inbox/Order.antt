-- ===== src/Socket/Receiving/Inbox/Order.antt =====
-- Order and counting in the receive buffer of rudp-socket-impl.cc.
use rudpns.Prelude.{
  ℕ, ◌+◌, ◌≡◌, refl, sym, ap, ◌∙◌, List, [], ◌∷◌, ◌++◌, arith, leb, append_assoc, append-nil,
  if◌then◌else◌,
}
use rudpns.Ns3.{Ns3, packet_info6, socket_address}
use rudpns.Ns3.Laws.{TagLaws}
use rudpns.State.{Socket, State, Result, ok, fault, Returns}
use rudpns.Socket.{set_rcv_buf_size}
use rudpns.Socket.Receiving.{
  recv, enqueue, receive_up, receive_up6, tag_info6, tag_received, tag_received6,
}
use rudpns.Socket.Receiving.Counter.{total, total-append, IsCounted}
use rudpns.Socket.Receiving.Inbox.{
  Inbox, inbox, Event, arrives, arrives6, reads, resizes, perform, run, spec_step, spec_run, tagged,
  tagged6, IsExact, AllFit, Refines,
}
use rudpns.Socket.Receiving.Inbox.Refinement.{run-Refines}

module _ (N : Ns3) where
  -- The packets that the bounded queue admits, in the order of their arrival.
  abbrev pub fitting : N.Packet → Inbox N → List N.Packet
  fitting p b = if leb (total N b.waiting + N.get_size p) b.capacity then p ∷ [] else []

  abbrev pub admitted_by : Socket N → Event N → Inbox N → List N.Packet
  admitted_by s (arrives p h port i) b =
      if s.shutdown_recv then [] else fitting (tagged N s p h port i) b
  admitted_by s (arrives6 p h port i) b =
      if s.shutdown_recv then [] else fitting (tagged6 N s p h port i) b
  admitted_by s (reads m) b = []
  admitted_by s (resizes n) b = []

  abbrev pub admitted : Socket N → List (Event N) → Inbox N → List N.Packet
  admitted s [] b = []
  admitted s (e ∷ es) b = admitted_by s e b ++ admitted s es (spec_step N s e b).1

  take-order :
      (s : Socket N) (m : ℕ) (ps : List N.Packet) (c : ℕ)
      → let r = spec_step N s (reads m) (record { waiting = ps; capacity = c }) in
        r.0 ++ r.1.waiting ≡ ps ++ []
  unfolding spec_step
  take-order s m [] c = refl
  take-order s m (p ∷ ps) c = ground (arith, append-nil ps)

  step-order :
      (s : Socket N) (e : Event N) (b : Inbox N)
      → (spec_step N s e b).0 ++ (spec_step N s e b).1.waiting ≡ b.waiting ++ admitted_by s e b
  unfolding spec_step
  step-order s (arrives p h port i) b = ground (arith, append-nil b.waiting)
  step-order s (arrives6 p h port i) b = ground (arith, append-nil b.waiting)
  step-order s (reads m) b = take-order s m b.waiting b.capacity
  step-order s (resizes n) b = sym (append-nil b.waiting)

  spec_run-order :
      (s : Socket N) (es : List (Event N)) (b : Inbox N)
      → (spec_run N s es b).0 ++ (spec_run N s es b).1.waiting ≡ b.waiting ++ admitted s es b
  unfolding spec_run
  spec_run-order s [] b = sym (append-nil b.waiting)
  spec_run-order s (e ∷ es) b =
      append_assoc (spec_step N s e b).0 _ _
      ∙ ap (λ x. (spec_step N s e b).0 ++ x) (spec_run-order s es (spec_step N s e b).1)
      ∙ sym (append_assoc (spec_step N s e b).0 _ _)
      ∙ ap (λ x. x ++ admitted s es (spec_step N s e b).1) (step-order s e b)
      ∙ append_assoc b.waiting _ _

  -- Started with an exact counter and with no more than `bound` bytes in the queue and for the
  -- buffer, over every sequence of arrivals, reads and changes of the buffer's size that cannot
  -- make the counter's 32 bits overflow: what the application has read, followed by what still
  -- waits, is what waited at the start, followed by the packets that the bounded queue admitted
  -- since, in their order. None is lost, doubled or overtaken.
  pub run-order :
      (laws : TagLaws N) (bound : ℕ) (es : List (Event N)) (s : State N)
      → IsExact N bound s
      → AllFit N bound es
      → Returns
          (λ out s'.
            out ++ s'.socket.delivery_queue
            ≡ s.socket.delivery_queue ++ admitted s.socket es (inbox N s))
          (run N es s)
  run-order laws bound es s v small = go (run N es s) (run-Refines N laws bound es s v small)
    where
      go :
          (r : Result (List N.Packet × State N))
          → Returns (Refines N bound s (spec_run N s.socket es (inbox N s))) r
          → Returns
              (λ out s'.
                out ++ s'.socket.delivery_queue
                ≡ s.socket.delivery_queue ++ admitted s.socket es (inbox N s))
              r
      go (ok (out, s')) r =
          rw (r.same_output, ap (λ x. x.waiting) r.same_inbox)
            (spec_run-order s.socket es (inbox N s))
      go (fault f) r = r

  enqueue-IsCounted :
      (p : N.Packet) (a : N.Address) (s : State N)
      → IsCounted N s.socket
      → Returns (λ _ s'. IsCounted N s'.socket) (enqueue N p a s)
  unfolding enqueue
  enqueue-IsCounted p a s h =
      ground
        (arith, total-append N s.socket.delivery_queue (N.add_packet_tag (socket_address a) p ∷ []))

  -- With no bound on sizes, every event keeps the counter equal to the number of waiting bytes modulo
  -- 2 ^ 32, and none makes a fault.
  pub perform-IsCounted :
      (e : Event N) (s : State N)
      → IsCounted N s.socket
      → Returns (λ _ s'. IsCounted N s'.socket) (perform N e s)
  unfolding perform receive_up receive_up6 tag_info6 recv set_rcv_buf_size
  perform-IsCounted (arrives p h port i) s v =
      ground
        (arith, enqueue-IsCounted (tag_received N s.socket p h i) (N.of_inet h.source port) s v)
  perform-IsCounted (arrives6 p h port i) s v =
      let info = N.set_recv_if6 (N.remove_packet_info6 p).0 (N.if_index6 i) in
      let with_info = N.add_packet_tag (packet_info6 info) (N.remove_packet_info6 p).1 in
      ground (
        arith,
        enqueue-IsCounted (tag_received6 N s.socket with_info h) (N.of_inet6 h.source port) s v,
        enqueue-IsCounted (tag_received6 N s.socket p h) (N.of_inet6 h.source port) s v,
      )
  perform-IsCounted (reads m) s v = ground arith
  perform-IsCounted (resizes n) s v = ground arith
