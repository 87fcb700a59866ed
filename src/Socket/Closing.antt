-- ===== src/Socket/Closing.antt =====
-- `ShutdownSend`, `ShutdownRecv`, `Close`, `DeallocateEndPoint` and the destructor, of
-- rudp-socket-impl.cc.
pub mod Release
pub mod AfterClose
pub mod Destruction
pub mod Balance
pub mod AfterDispose
pub mod Frames
pub mod Owner
pub mod Ended
use rudpns.Prelude.{
  ℤ, pos, minus_one, Bool, true, false, ◌&&◌, not, Option, none, some, is_some, if◌then◌else◌,
}
use rudpns.Ns3.{
  Ns3, Env, badf, Trace, set_destroy_callback, set_destroy_callback6, set_rx_enabled,
  set_rx_enabled6, ipv6_leave_group,
}
use rudpns.Ns3.Owner.{EndPoint, ipv4_end_point, ipv6_end_point}
use rudpns.State.{
  Socket, State, M, pure, ◌>>=◌, ◌>>◌, skip, emit, this_socket, ask, modify, set_errno, assert,
}
use rudpns.L4.{need, l4_deallocate, l4_deallocate6}
use rudpns.Socket.{destroy, destroy6}

module _ (N : Ns3) where
  pub shutdown_sending : M N ℤ
  shutdown_sending = do modify (λ s. record s { shutdown_send = true }); pure (pos 0)

  pub shutdown_receiving : M N ℤ
  shutdown_receiving = do
    modify (λ s. record s { shutdown_recv = true })
    s ← this_socket
    elim s.end_point [ none ↦ skip | some ep ↦ emit (set_rx_enabled ep false) ]
    elim s.end_point6 [ none ↦ skip | some ep ↦ emit (set_rx_enabled6 ep false) ]
    pure (pos 0)

  -- The two halves of `DeallocateEndPoint`. The destroy callback is taken off first, so `DeAllocate`
  -- does not call back.
  give_back : Option N.Ipv4EndPoint → M N (Unit {0})
  unfolding l4_deallocate
  give_back none = skip
  give_back (some ep) = do
    emit (set_destroy_callback ep none)
    s ← this_socket
    need N s.has_rudp
    l4_deallocate N ep
    modify (λ s. record s { end_point = none })

  give_back6 : Option N.Ipv6EndPoint → M N (Unit {0})
  unfolding l4_deallocate6
  give_back6 none = skip
  give_back6 (some ep) = do
    emit (set_destroy_callback6 ep none)
    s ← this_socket
    need N s.has_rudp
    l4_deallocate6 N ep
    modify (λ s. record s { end_point6 = none })

  pub deallocate_end_point : M N (Unit {0})
  unfolding give_back give_back6
  deallocate_end_point = do s ← this_socket; give_back s.end_point; give_back6 s.end_point6

  unfoldable pub close : M N ℤ
  unfolding deallocate_end_point
  close = do
    s ← this_socket
    if s.shutdown_recv && s.shutdown_send then (do set_errno badf; pure minus_one) else do
      emit ipv6_leave_group
      modify (λ s. record s { shutdown_recv = true; shutdown_send = true })
      deallocate_end_point
      pure (pos 0)

  -- The two halves of `RudpSocketImpl::~RudpSocketImpl`, and the whole. `calls_back` says whether an
  -- end point that `DeAllocate` deletes makes a destroy callback that leads to this socket.
  unfoldable pub discard :
      (calls_back : EndPoint N → Trace N → Bool) → Option N.Ipv4EndPoint → M N (Unit {0})
  unfolding l4_deallocate destroy
  discard calls_back none = skip
  discard calls_back (some ep) = do
    s ← this_socket
    assert s.has_rudp
    called ← ask (calls_back (ipv4_end_point ep))
    l4_deallocate N ep
    if called then destroy N else skip
    s ← this_socket
    assert (not (is_some s.end_point))

  unfoldable pub discard6 :
      (calls_back : EndPoint N → Trace N → Bool) → Option N.Ipv6EndPoint → M N (Unit {0})
  unfolding l4_deallocate6 destroy6
  discard6 calls_back none = skip
  discard6 calls_back (some ep) = do
    s ← this_socket
    assert s.has_rudp
    called ← ask (calls_back (ipv6_end_point ep))
    l4_deallocate6 N ep
    if called then destroy6 N else skip
    s ← this_socket
    assert (not (is_some s.end_point6))

  unfoldable pub destroy_socket : (calls_back : EndPoint N → Trace N → Bool) → M N (Unit {0})
  unfolding discard discard6
  destroy_socket calls_back = do
    modify (λ s. record s { node = none })
    s ← this_socket
    discard calls_back s.end_point
    discard6 calls_back s.end_point6
    modify (λ s. record s { has_rudp = false })
