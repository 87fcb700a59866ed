-- ===== src/Socket/Binding.antt =====
-- `FinishBind`, `Bind`, `Bind6`, `BindToNetDevice`, `Close` and the functions that give end points
-- back, of rudp-socket-impl.cc.
pub mod Outcome
pub mod Ready
pub mod Device
pub mod Frames
pub mod Owner
pub mod Ended
use rudpns.Prelude.{
  ℕ, ℤ, pos, minus_one, is_minus_one, Bool, true, false, ◌&&◌, ◌||◌, not, Option, none, some,
  is_some, ◌==◌, if◌then◌else◌,
}
use rudpns.Ns3.{
  Ns3, Env, SocketErrno, inval, badf, addr_in_use, addr_not_avail, Request, ephemeral, address_only,
  port_only, address_port, set_rx_callback, set_icmp_callback, set_destroy_callback,
  set_rx_callback6, set_icmp_callback6, set_destroy_callback6, set_rx_enabled, set_rx_enabled6,
  bind_end_point, bind_end_point6, base_bind_to_net_device, ipv6_leave_group,
}
use rudpns.State.{
  Socket, State, M, pure, ◌>>=◌, ◌>>◌, skip, emit, get, this_socket, ask, modify, set_errno, assert,
  deref,
}
use rudpns.L4.{need, l4_allocate, l4_allocate6, l4_deallocate, l4_deallocate6}

-- Which `Allocate` serves an address: the four tests on `GetAny ()` and on the port.
unfoldable pub request : {A : Type 0} → (is_any : Bool) → A → (port : ℕ) → Request A
request is_any a port =
    if is_any
    then (if port == 0 then ephemeral else port_only port)
    else (if port == 0 then address_only a else address_port a port)

module _ (N : Ns3) (E : Env N) where
  -- `m_rudp->Allocate (…)` into `m_endPoint`, and `Allocate6` into `m_endPoint6`.
  unfoldable pub take_end_point : Request N.Ipv4Address → M N (Unit {0})
  unfolding l4_allocate
  take_end_point r = do
    s ← this_socket
    need N s.has_rudp
    ep ← l4_allocate N E r
    modify (λ s. record s { end_point = ep })

  pub take_end_point6 : Request N.Ipv6Address → M N (Unit {0})
  unfolding l4_allocate6
  take_end_point6 r = do
    s ← this_socket
    need N s.has_rudp
    ep ← l4_allocate6 N E r
    modify (λ s. record s { end_point6 = ep })

  pub finish_bind : M N ℤ
  finish_bind = do
    s ← this_socket
    elim s.end_point [
      | none ↦ skip
      | some ep ↦ do
        emit (set_rx_callback ep s.this)
        emit (set_icmp_callback ep s.this)
        emit (set_destroy_callback ep (some s.this))
    ]
    elim s.end_point6 [
      | none ↦ skip
      | some ep ↦ do
        emit (set_rx_callback6 ep s.this)
        emit (set_icmp_callback6 ep s.this)
        emit (set_destroy_callback6 ep (some s.this))
    ]
    pure (if is_some s.end_point || is_some s.end_point6 then pos 0 else minus_one)

  -- `Bind (void)` and `Bind6 (void)`.
  unfoldable pub bind_ephemeral : M N ℤ
  unfolding take_end_point finish_bind
  bind_ephemeral = do take_end_point ephemeral; finish_bind

  unfoldable pub bind_ephemeral6 : M N ℤ
  unfolding take_end_point6 finish_bind
  bind_ephemeral6 = do take_end_point6 ephemeral; finish_bind

  abbrev bind_errno : ℕ → SocketErrno
  bind_errno port = if port == 0 then addr_not_avail else addr_in_use

  -- `Bind (const Address &)`. Both assertions are about `m_endPoint`.
  unfoldable pub bind : N.Address → M N ℤ
  unfolding request take_end_point take_end_point6 finish_bind
  bind address = elim (N.inet address) [
    | some (ipv4, port) ↦ do
      s ← this_socket
      assert (not (is_some s.end_point))
      take_end_point (request (N.is_any ipv4) ipv4 port)
      s ← this_socket
      if is_some s.end_point then finish_bind else (do set_errno (bind_errno port); pure minus_one)
    | none ↦ elim (N.inet6 address) [
      | some (ipv6, port) ↦ do
        s ← this_socket
        assert (not (is_some s.end_point))
        take_end_point6 (request (N.is_any6 ipv6) ipv6 port)
        s ← this_socket
        if is_some s.end_point6
            then finish_bind
            else (do set_errno (bind_errno port); pure minus_one)
      | none ↦ do set_errno inval; pure minus_one
    ]
  ]

  -- The test that precedes each use of an end point in the functions that send: `Bind ()` where there
  -- is none, an assertion on either result. `false` where the caller returns -1.
  unfoldable pub ensure_bound : M N Bool
  unfolding bind_ephemeral
  ensure_bound = do
    s ← this_socket
    elim s.end_point [
      | some ep ↦ pure true
      | none ↦ do
        r ← bind_ephemeral
        s ← this_socket
        if is_minus_one r
            then (do assert (not (is_some s.end_point)); pure false)
            else (do assert (is_some s.end_point); pure true)
    ]

  unfoldable pub ensure_bound6 : M N Bool
  unfolding bind_ephemeral6
  ensure_bound6 = do
    s ← this_socket
    elim s.end_point6 [
      | some ep ↦ pure true
      | none ↦ do
        r ← bind_ephemeral6
        s ← this_socket
        if is_minus_one r
            then (do assert (not (is_some s.end_point6)); pure false)
            else (do assert (is_some s.end_point6); pure true)
    ]

  -- `BindToNetDevice`. The base class's function of that name checks the device, a null pointer too, and
  -- then stores it.
  pub bind_to_net_device : Option N.NetDevice → M N (Unit {0})
  unfolding ensure_bound ensure_bound6
  bind_to_net_device device = do
    emit (base_bind_to_net_device device)
    s ← this_socket
    passes ← ask (λ t. E.device_passes t s.node device)
    assert passes
    modify (λ s. record s { bound_net_device = device })
    bound ← ensure_bound
    if not bound then skip else do
      s ← this_socket
      ep ← deref s.end_point
      emit (bind_end_point ep device)
      bound ← ensure_bound6
      if not bound
          then skip
          else do s ← this_socket; ep ← deref s.end_point6; emit (bind_end_point6 ep device)
