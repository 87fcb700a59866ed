-- ===== src/Socket/Reach.antt =====
-- The life of a socket of rudp-socket-impl.cc as sequences of calls: which states they reach, and what
-- holds in all of them.
use rudpns.Prelude.{Option, ◌≡◌, sym, ap, ◌∙◌, ℕ, Bool, arith, ◌%◌, ◌^◌}
use mathlib.Core.Path.{subst}
use rudpns.Ns3.{Ns3, Env}
use rudpns.State.{State, Result, ok, fault, Returns}
use rudpns.Socket.{
  connect, listen, destroy, destroy6, set_mtu_discover, forward_icmp_up, forward_icmp_up6,
}
use rudpns.Socket.Frame.{
  Keeps, Frames, KeepsAll, Keeps-trans, connect-Frames, listen-Frames, destroy-Frames,
  set_mtu_discover-Frames, forward_icmp_up-Frames, forward_icmp_up6-Frames,
}
use rudpns.Socket.Binding.{bind, bind_ephemeral, bind_ephemeral6, bind_to_net_device}
use rudpns.Socket.Binding.Frames.{bind-Frames, bind_ephemeral-Frames, bind_to_net_device-Frames}
use rudpns.Socket.Closing.{shutdown_sending, shutdown_receiving, close}
use rudpns.Socket.Closing.Frames.{shutdown-Frames, close-Frames}
use rudpns.Socket.Sending.{send, send_to}
use rudpns.Socket.Sending.Frames.{send-Frames, send_to-Frames}
use rudpns.Socket.Receiving.{recv_from}
use rudpns.Socket.Receiving.Counter.{total, IsCounted}
use rudpns.Socket.Receiving.Inbox.{Event, perform}
use rudpns.Socket.Receiving.Inbox.Order.{perform-IsCounted}
use rudpns.Socket.Receiving.Inbox.Frames.{
  perform-Keeps, recv_from-Keeps, CountedAll, recv_from-IsCounted,
}

module _ (N : Ns3) where
  -- The calls of the application, and those of the end points. An `Event` is one that receives.
  pub data Operation : Type 0 where
    binds : N.Address → Operation
    binds_ephemeral binds_ephemeral6 listens shuts_send shuts_recv closes : Operation
    binds_to_device : Option N.NetDevice → Operation
    connects : N.Address → Operation
    sends : N.Packet → Operation
    sends_to : N.Packet → N.Address → Operation
    receives : Event N → Operation
    receives_from : (max_size : ℕ) → Operation
    sets_mtu_discover : Bool → Operation
    is_destroyed is_destroyed6 : Operation
    hears_icmp : N.Ipv4Address → (ttl type code info : ℕ) → Operation
    hears_icmp6 : N.Ipv6Address → (ttl type code info : ℕ) → Operation

  abbrev pub discard : {A : Type 0} → Result (A × State N) → Result (Unit {0} × State N)
  discard (ok (a, s)) = ok (tt, s)
  discard (fault f) = fault f

  -- A call keeps what a socket keeps, and leaves the counter right.
  abbrev pub Sound : {A : Type 0} → State N → Result (A × State N) → Type 0
  Sound s (fault f) = Unit {0}
  Sound s (ok (a, t)) = Keeps N s t × IsCounted N t.socket

  Frames-Sound :
      {A : Type 0} (s : State N) (r : Result (A × State N))
      → IsCounted N s.socket
      → Frames N s r
      → Sound s (discard r)
  Frames-Sound s (fault f) v k = tt
  Frames-Sound s (ok (a, t)) v k =
      (k.keeps, k.same_counter ∙ v ∙ ap (λ q. total N q % 2 ^ 32) (sym k.same_queue))

  both-Sound :
      {A : Type 0} (s : State N) (r : Result (A × State N))
      → KeepsAll N s r
      → CountedAll N r
      → Sound s (discard r)
  both-Sound s (fault f) k v = tt
  both-Sound s (ok (a, t)) k v = (k, v)

  Returns-CountedAll :
      {A : Type 0} (r : Result (A × State N))
      → Returns (λ _ t. IsCounted N t.socket) r
      → CountedAll N r
  Returns-CountedAll (ok (a, t)) v = v
  Returns-CountedAll (fault f) v = absurd v

  pub Keeps-refl : (s : State N) → Keeps N s s
  Keeps-refl s = ground arith

module _ (N : Ns3) (E : Env N) where
  unfoldable pub step : Operation N → State N → Result (Unit {0} × State N)
  step (binds a) s = discard N (bind N E a s)
  step binds_ephemeral s = discard N (bind_ephemeral N E s)
  step binds_ephemeral6 s = discard N (bind_ephemeral6 N E s)
  step listens s = discard N (listen N s)
  step shuts_send s = discard N (shutdown_sending N s)
  step shuts_recv s = discard N (shutdown_receiving N s)
  step closes s = discard N (close N s)
  step (binds_to_device d) s = discard N (bind_to_net_device N E d s)
  step (connects a) s = discard N (connect N a s)
  step (sends p) s = discard N (send N E p s)
  step (sends_to p a) s = discard N (send_to N E p a s)
  step (receives e) s = discard N (perform N e s)
  step (receives_from m) s = discard N (recv_from N m s)
  step (sets_mtu_discover b) s = discard N (set_mtu_discover N b s)
  step is_destroyed s = discard N (destroy N s)
  step is_destroyed6 s = discard N (destroy6 N s)
  step (hears_icmp a ttl type code info) s = discard N (forward_icmp_up N a ttl type code info s)
  step (hears_icmp6 a ttl type code info) s = discard N (forward_icmp_up6 N a ttl type code info s)

  pub step-Sound : (o : Operation N) (s : State N) → IsCounted N s.socket → Sound N s (step o s)
  unfolding step
  step-Sound (binds a) s v = Frames-Sound N s _ v (bind-Frames N E a s)
  step-Sound binds_ephemeral s v = Frames-Sound N s _ v (bind_ephemeral-Frames N E s).0
  step-Sound binds_ephemeral6 s v = Frames-Sound N s _ v (bind_ephemeral-Frames N E s).1
  step-Sound listens s v = Frames-Sound N s _ v (listen-Frames N s)
  step-Sound shuts_send s v = Frames-Sound N s _ v (shutdown-Frames N s).0
  step-Sound shuts_recv s v = Frames-Sound N s _ v (shutdown-Frames N s).1
  step-Sound closes s v = Frames-Sound N s _ v (close-Frames N s)
  step-Sound (binds_to_device d) s v = Frames-Sound N s _ v (bind_to_net_device-Frames N E d s)
  step-Sound (connects a) s v = Frames-Sound N s _ v (connect-Frames N a s)
  step-Sound (sends p) s v = Frames-Sound N s _ v (send-Frames N E p s)
  step-Sound (sends_to p a) s v = Frames-Sound N s _ v (send_to-Frames N E p a s)
  step-Sound (receives e) s v =
      both-Sound N s (perform N e s) (perform-Keeps N e s)
        (Returns-CountedAll N (perform N e s) (perform-IsCounted N e s v))
  step-Sound (receives_from m) s v =
      both-Sound N s (recv_from N m s) (recv_from-Keeps N m s) (recv_from-IsCounted N m s v)
  step-Sound (sets_mtu_discover b) s v = Frames-Sound N s _ v (set_mtu_discover-Frames N b s)
  step-Sound is_destroyed s v = Frames-Sound N s _ v (destroy-Frames N s).0
  step-Sound is_destroyed6 s v = Frames-Sound N s _ v (destroy-Frames N s).1
  step-Sound (hears_icmp a ttl type code info) s v =
      Frames-Sound N s _ v (forward_icmp_up-Frames N a ttl type code info s)
  step-Sound (hears_icmp6 a ttl type code info) s v =
      Frames-Sound N s _ v (forward_icmp_up6-Frames N a ttl type code info s)

  -- The states that calls without a fault reach.
  pub data Reach (s : State N) : State N → Type 0 where
    here : Reach s s
    next : {t u : State N} → Reach s t → (o : Operation N) → step o t ≡ ok (tt, u) → Reach s u

  -- From a state where the counter is right, calls that make no fault reach only states where it is
  -- right too; they change neither the socket's node nor its protocol object, and a direction that
  -- was shut down stays so.
  pub Reach-IsCounted :
      {s t : State N} → IsCounted N s.socket → Reach s t → IsCounted N t.socket × Keeps N s t
  Reach-IsCounted v here = (v, Keeps-refl N _)
  Reach-IsCounted {s} v (next {t} {u} r o e) =
      let (w, k) = Reach-IsCounted v r in
      let (k', w') = subst (Sound N t) e (step-Sound o t w) in (w', Keeps-trans N s t u k k')
