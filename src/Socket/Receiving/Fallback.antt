-- ===== src/Socket/Receiving/Fallback.antt =====
-- An IPv4 datagram that `Receive` of rudp-l4-protocol.cc gives to an IPv6 end point, and what
-- `ForwardUp6` of rudp-socket-impl.cc does with it.
use rudpns.Prelude.{ℕ, ◌≡◌, ◌∙◌, true, false, some, none, [], ◌∷◌, arith}
use rudpns.Header.{RudpHeader, new_header, serialized_size}
use rudpns.Header.Wire.{deserialize}
use rudpns.Ns3.{Ns3, Env, Ipv4Header, Ipv6Header, forward_up6}
use rudpns.State.{State, ok, fault, null_dereference}
use rudpns.L4.{prot_number}
use rudpns.L4.Datagram.{receive, receive6, rx_ok}
use rudpns.L4.Datagram.Fanout.{found, found6, mapped_header, receive_branches, receive6_branches}
use rudpns.Socket.Receiving.{receive_up6, tag_info6}

module _ (N : Ns3) where
  receive_up6-null :
      (p : N.Packet) (h : Ipv6Header N.Ipv6Address) (port : ℕ) (s : State N)
      → s.socket.options.is_recv_pkt_info ≡ true
      → s.socket.shutdown_recv ≡ false
      → receive_up6 N p h port none s ≡ fault null_dereference
  unfolding receive_up6 tag_info6
  receive_up6-null p h port s info opened = ground arith

module _ (N : Ns3) (E : Env N) (p : N.Packet) (r : RudpHeader) (s : State N)
    (read : deserialize N.iterator (new_header (E.uninitialised s.trace)) (N.buffer p)
      ≡ some r) where
  receive_fallback :
      (h : Ipv4Header N.Ipv4Address) (i : N.Ipv4Interface)
      → s.l4.has_end_points ≡ true
      → E.checksum_ok s.trace h.source h.destination prot_number p ≡ true
      → found N E r h i s ≡ []
      → E.has_ipv6_l3 s.trace ≡ true
      → receive N E p h i s ≡ receive6 N E p (mapped_header N E h) none s
  receive_fallback h i e c f l = ground (arith, receive_branches N E p r s read h i e)

  receive6_one :
      (h : Ipv6Header N.Ipv6Address) (ep : N.Ipv6EndPoint)
      → s.l4.has_end_points6 ≡ true
      → E.checksum_ok6 s.trace h.source h.destination prot_number p ≡ true
      → found6 N E r h none s ≡ ep ∷ []
      → receive6 N E p h none s
        ≡ ok (
          rx_ok,
          record s {
            trace =
                forward_up6 ep (N.remove_at_start serialized_size p) h r.source_port none ∷ s.trace;
          },
        )
  receive6_one h ep e c f = ground (arith, receive6_branches N E p r s read h none e)

  -- An IPv4 datagram for which there is an IPv6 end point and none of IPv4, its checksums good, on a
  -- node with IPv6: the end point gets it with no interface. If its socket is open for receiving and
  -- asks for the packet information, `ForwardUp6` then goes through a null pointer.
  pub receive_up6-receive :
      (h : Ipv4Header N.Ipv4Address) (i : N.Ipv4Interface) (ep : N.Ipv6EndPoint)
      → s.l4.has_end_points ≡ true
      → s.l4.has_end_points6 ≡ true
      → E.checksum_ok s.trace h.source h.destination prot_number p ≡ true
      → let h6 = mapped_header N E h in
        E.checksum_ok6 s.trace h6.source h6.destination prot_number p ≡ true
        → found N E r h i s ≡ []
        → E.has_ipv6_l3 s.trace ≡ true
        → found6 N E r (mapped_header N E h) none s ≡ ep ∷ []
        → s.socket.options.is_recv_pkt_info ≡ true
        → s.socket.shutdown_recv ≡ false
        → let body = N.remove_at_start serialized_size p in
          let handed = record s {
            trace = forward_up6 ep body (mapped_header N E h) r.source_port none ∷ s.trace;
          } in
          (receive N E p h i s ≡ ok (rx_ok, handed))
          × (receive_up6 N body (mapped_header N E h) r.source_port none handed
              ≡ fault null_dereference)
  receive_up6-receive h i ep e e6 c c6 f l f6 info opened = (
    receive_fallback h i e c f l ∙ receive6_one (mapped_header N E h) ep e6 c6 f6,
    receive_up6-null N (N.remove_at_start serialized_size p) (mapped_header N E h) r.source_port
        (record s {
          trace =
              forward_up6 ep (N.remove_at_start serialized_size p) (mapped_header N E h)
                r.source_port none
              ∷ s.trace;
        })
        info opened,
  )
