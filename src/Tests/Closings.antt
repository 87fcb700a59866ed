-- ===== src/Tests/Closings.antt =====
-- An end point that a socket gives back when it closes, and that another takes and gives back when
-- it is destroyed: rudp-l4-protocol.cc and rudp-socket-impl.cc.
use rudpns.Prelude.{◌≡◌, refl, true, false, none, some, [], ◌∷◌, arith}
use native.Mathlib.Decide.{ℕ_discrete}
use rudpns.Ns3.{
  Env, Trace, allocate, ephemeral, set_rx_callback, set_icmp_callback, set_destroy_callback,
  ipv6_leave_group,
}
use rudpns.Ns3.Owner.{owner, destroys_at, is_at, EndPoint, ipv4_end_point}
use rudpns.Socket.Binding.Owner.{IsFresh}
use rudpns.L4.{new_l4, l4_allocate}
use rudpns.L4.Aggregate.{create_socket, new_socket}
use rudpns.Socket.Binding.{bind_ephemeral}
use rudpns.Socket.Closing.{close, destroy_socket, discard, discard6}
use rudpns.Socket.Reach.{step, binds_ephemeral, closes}
use rudpns.Host.{Host, create, call, destruct, Reaches, starts, creates, calls_socket, destroys}
use rudpns.Host.GivenBack.{takes, Reaches-given_back, Reaches-not_dangling}
use rudpns.Tests.World.{ns3, socket}
use rudpns.Tests.Sparing.{same, sparing_by, sparing_by-IsFresh, after, start, one, two}

abbrev sparing : Env ns3
sparing = record (sparing_by false) {
  deleted = λ t e. owner ns3 (destroys_at ns3 same (ipv4_end_point e)) t;
}

sparing-IsFresh : (ep : EndPoint ns3) → IsFresh ns3 sparing (is_at ns3 same ep)
sparing-IsFresh ep =
    let fresh = sparing_by-IsFresh false ep in record { fresh = fresh.fresh; fresh6 = fresh.fresh6 }

abbrev bound : Host ns3
bound = after (call ns3 sparing 0 binds_ephemeral two) two

abbrev closed : Host ns3
closed = after (call ns3 sparing 0 closes bound) bound

abbrev taken : Host ns3
taken = after (call ns3 sparing 1 binds_ephemeral closed) closed

abbrev destroyed : Host ns3
destroyed = after (destruct ns3 sparing 1 taken) taken

-- What the second socket did to take it.
abbrev between : Trace ns3
between =
    set_destroy_callback 9 (some 1)
    ∷ set_icmp_callback 9 1
    ∷ set_rx_callback 9 1
    ∷ allocate ephemeral
    ∷ []

abbrev earlier : Trace ns3
earlier =
    set_destroy_callback 9 none
    ∷ ipv6_leave_group
    ∷ set_destroy_callback 9 (some 0)
    ∷ set_icmp_callback 9 0
    ∷ set_rx_callback 9 0
    ∷ allocate ephemeral
    ∷ []

reached_taken : Reaches ns3 sparing start taken
unfolding new_l4 create create_socket new_socket call step bind_ephemeral l4_allocate ℕ_discrete
    close
reached_taken =
    calls_socket {h = closed}
      (calls_socket {h = bound}
        (calls_socket {h = two}
          (creates {h = one} (creates {h = start} starts socket refl) socket refl) 0 binds_ephemeral
          (omega arith) refl)
        0 closes (omega arith) refl)
      1 binds_ephemeral (omega arith) refl

reached : Reaches ns3 sparing start destroyed
unfolding new_l4 create create_socket new_socket call step bind_ephemeral l4_allocate ℕ_discrete
    close destruct destroy_socket discard discard6
reached = destroys {h = taken} reached_taken 1 (omega arith) refl

Reaches-given_back_example : takes ns3 (is_at ns3 same (ipv4_end_point 9)) between ≡ true
unfolding new_l4 create create_socket new_socket call step bind_ephemeral l4_allocate ℕ_discrete
    close destruct destroy_socket discard discard6
Reaches-given_back_example =
    Reaches-given_back ns3 sparing same sparing-IsFresh {h = destroyed} (λ n. socket)
      (ipv4_end_point 9) [] between earlier reached refl

Reaches-not_dangling_example : takes ns3 (is_at ns3 same (ipv4_end_point 9)) between ≡ true
unfolding new_l4 create create_socket new_socket call step bind_ephemeral l4_allocate ℕ_discrete
    close
Reaches-not_dangling_example =
    Reaches-not_dangling ns3 sparing same sparing-IsFresh {h = taken} (λ n. socket) 1
      (ipv4_end_point 9) between earlier reached_taken (omega arith) refl refl
