-- ===== src/Socket/Binding/Outcome.antt =====
-- The results of binding in rudp-socket-impl.cc, and its assertions.
use rudpns.Prelude.{
  zero, suc, Bool, true, false, refl, ap, ◌∙◌, ℕ, ◌≡◌, ℤ, pos, minus_one, Option, none, some, [],
  ◌∷◌, ◌++◌, arith, if◌then◌else◌, ◌==◌,
}
use rudpns.Ns3.{
  set_rx_callback6, set_icmp_callback6, set_destroy_callback6, allocate6, Ns3, Env, Trace, Request,
  ephemeral, port_only, address_only, address_port, allocate, set_rx_callback, set_icmp_callback,
  set_destroy_callback, addr_in_use, addr_not_avail,
}
use rudpns.Ns3.Laws.{AddressLaws}
use rudpns.State.{State, Result, ok, fault, assertion}
use rudpns.L4.{l4_allocate, l4_allocate6}
use rudpns.Socket.Binding.{
  take_end_point6, request, take_end_point, finish_bind, bind, bind_ephemeral, ensure_bound,
}
use rudpns.Socket.Closing.Release.{IsWired}
use rudpns.Socket.Sending.{do_send_to}

-- What is asked for, by the address and the port.
abbrev pub requested : {A : Type 0} → (is_any : Bool) → A → (port : ℕ) → Request A
requested true a zero = ephemeral
requested true a (suc p) = port_only (suc p)
requested false a zero = address_only a
requested false a (suc p) = address_port a (suc p)

request-requested :
    {A : Type 0} (is_any : Bool) (a : A) (port : ℕ)
    → request is_any a port ≡ requested is_any a port
unfolding request
request-requested true a zero = refl
request-requested true a (suc p) = ground arith
request-requested false a zero = refl
request-requested false a (suc p) = ground arith

module _ (N : Ns3) (E : Env N) where
  -- The calls that an IPv4 end point gets from `FinishBind`, the last one first.
  abbrev pub callbacks : N.Ipv4EndPoint → (socket : ℕ) → Trace N
  callbacks ep n =
      set_destroy_callback ep (some n) ∷ set_icmp_callback ep n ∷ set_rx_callback ep n ∷ []

  -- The result of `Bind` in a state with no end point, by the answer to its request.
  abbrev pub bound :
      State N → Request N.Ipv4Address → (port : ℕ) → Option N.Ipv4EndPoint → Result (ℤ × State N)
  bound s r port (some ep) = ok (
    pos 0,
    record s {
      socket = record s.socket { end_point = some ep };
      trace = callbacks ep s.socket.this ++ allocate r ∷ s.trace;
    },
  )
  bound s r port none = ok (
    minus_one,
    record s {
      socket = record s.socket {
        end_point = none;
        errno = if port == 0 then addr_not_avail else addr_in_use;
      };
      trace = allocate r ∷ s.trace;
    },
  )

  pub bind-request :
      (address : N.Address) (a : N.Ipv4Address) (port : ℕ) (s : State N)
      → IsWired N s
      → s.socket.end_point ≡ none
      → s.socket.end_point6 ≡ none
      → N.inet address ≡ some (a, port)
      → let r = request (N.is_any a) a port in
        bind N E address s ≡ bound s r port (E.allocated s.trace r)
  unfolding bind take_end_point finish_bind l4_allocate
  bind-request address a port s w e e6 h = ground (arith, w.has_rudp, w.has_end_points)

  -- `Bind` to an IPv4 socket address of a socket with no end point asks once: for any end point, for
  -- one with that port, for one with that address or for one with both, as the address is
  -- `GetAny ()` or not and the port 0 or not. Where it gets an end point, that is the socket's, its
  -- three callbacks lead to the socket, and the result is 0; where it gets none, the result is -1
  -- with the error for the port, and the socket has no end point.
  pub bind-inet :
      (address : N.Address) (a : N.Ipv4Address) (port : ℕ) (s : State N)
      → IsWired N s
      → s.socket.end_point ≡ none
      → s.socket.end_point6 ≡ none
      → N.inet address ≡ some (a, port)
      → let r = requested (N.is_any a) a port in
        bind N E address s ≡ bound s r port (E.allocated s.trace r)
  bind-inet address a port s w e e6 h =
      bind-request address a port s w e e6 h
      ∙ ap (λ r. bound s r port (E.allocated s.trace r)) (request-requested (N.is_any a) a port)

  -- `Bind` of a socket that has an IPv4 end point, to a socket address of IPv4 or of IPv6: an assertion
  -- fails.
  pub bind-again :
      (a : N.Ipv4Address) (b : N.Ipv6Address) (port : ℕ) (old : N.Ipv4EndPoint) (s : State N)
      → AddressLaws N
      → s.socket.end_point ≡ some old
      → (bind N E (N.of_inet a port) s ≡ fault assertion)
        × (bind N E (N.of_inet6 b port) s ≡ fault assertion)
  unfolding bind
  bind-again a b port old s laws e = (
    ground (arith, laws.inet-of_inet a port),
    ground (arith, laws.inet-of_inet6 b port, laws.inet6-of_inet6 b port),
  )

  -- `Bind` to an IPv6 socket address of a socket that has an IPv6 end point and none of IPv4 passes the
  -- assertion: the new end point takes the place of the old one, which is not given back and keeps its
  -- callbacks.
  pub bind6_replaces :
      (address : N.Address) (a : N.Ipv6Address) (port : ℕ) (old new : N.Ipv6EndPoint) (s : State N)
      → IsWired N s
      → N.inet address ≡ none
      → N.inet6 address ≡ some (a, port)
      → s.socket.end_point ≡ none
      → s.socket.end_point6 ≡ some old
      → E.allocated6 s.trace (request (N.is_any6 a) a port) ≡ some new
      → bind N E address s
        ≡ ok (
          pos 0,
          record s {
            socket = record s.socket { end_point6 = some new };
            trace =
                set_destroy_callback6 new (some s.socket.this)
                ∷ set_icmp_callback6 new s.socket.this
                ∷ set_rx_callback6 new s.socket.this
                ∷ allocate6 (request (N.is_any6 a) a port)
                ∷ s.trace;
          },
        )
  unfolding bind take_end_point6 finish_bind l4_allocate6
  bind6_replaces address a port old new s w h h6 e e6 answer =
      ground (arith, w.has_rudp, w.has_end_points6)

  -- `DoSendTo` for IPv4, when no port is left, of a socket with an IPv6 end point and no IPv4 one:
  -- an assertion fails.
  pub send_exhausted_asserts :
      (p : N.Packet) (a : N.Ipv4Address) (port : ℕ) (ep : N.Ipv6EndPoint) (s : State N)
      → IsWired N s
      → s.socket.end_point ≡ none
      → s.socket.end_point6 ≡ some ep
      → E.allocated s.trace ephemeral ≡ none
      → do_send_to N E p a port s ≡ fault assertion
  unfolding do_send_to ensure_bound bind_ephemeral take_end_point finish_bind l4_allocate
  send_exhausted_asserts p a port ep s w e e6 h = ground (arith, w.has_rudp, w.has_end_points)
