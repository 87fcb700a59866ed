-- ===== src/Socket/Base.antt =====
-- The abstract class `RudpSocket` of rudp-socket.h, through whose virtual functions the attributes of
-- a socket are written and read, and `RudpSocketImpl` of rudp-socket-impl.cc as its implementation.
use rudpns.Prelude.{ℕ, Bool, ◌≡◌, refl}
use rudpns.Ns3.{Ns3}
use rudpns.State.{State, M, Returns}
use rudpns.Socket.{set_rcv_buf_size, get_rcv_buf_size, set_mtu_discover, get_mtu_discover}

module _ (N : Ns3) where
  pub record RudpSocket : Type 0 where
    pub set_size : ℕ → M N (Unit {0})
    pub get_size : State N → ℕ
    pub set_discover : Bool → M N (Unit {0})
    pub get_discover : State N → Bool

  -- What a user of the attributes expects: a value that is written is read, the other attribute stays.
  pub record RudpSocketLaws (B : RudpSocket) : Type 0 where
    pub get_size-set_size :
        (n : ℕ) (s : State N)
        → Returns
            (λ _ t. (B.get_size t ≡ n) × (B.get_discover t ≡ B.get_discover s))
            (B.set_size n s)
    pub get_discover-set_discover :
        (b : Bool) (s : State N)
        → Returns
            (λ _ t. (B.get_discover t ≡ b) × (B.get_size t ≡ B.get_size s))
            (B.set_discover b s)

  -- The functions that `RudpSocketImpl` overrides them with.
  unfoldable pub rudp_socket_impl : RudpSocket
  unfolding set_rcv_buf_size get_rcv_buf_size set_mtu_discover get_mtu_discover
  rudp_socket_impl = record {
    set_size = set_rcv_buf_size N;
    get_size = λ s. get_rcv_buf_size N s.socket;
    set_discover = set_mtu_discover N;
    get_discover = λ s. get_mtu_discover N s.socket;
  }

  pub rudp_socket_impl-RudpSocketLaws : RudpSocketLaws rudp_socket_impl
  unfolding rudp_socket_impl set_rcv_buf_size get_rcv_buf_size set_mtu_discover get_mtu_discover
  rudp_socket_impl-RudpSocketLaws = record {
    get_size-set_size = λ n s. (refl, refl);
    get_discover-set_discover = λ b s. (refl, refl);
  }
