-- ===== src/Ns3/Used.antt =====
-- Which calls of rudp-l4-protocol.cc and rudp-socket-impl.cc are about end points and datagrams.
use rudpns.Prelude.{Bool, true, false, [], ◌∷◌, if◌then◌else◌}
use rudpns.Ns3.{
  Ns3, Call, Trace, insert, insert6, aggregate_factory, base_notify_new_aggregate, base_do_dispose,
  notify_data_sent, notify_send, notify_data_recv, notify_connection_succeeded, ipv6_leave_group,
  base_bind_to_net_device, drop_trace, icmp, icmp6,
}

module _ (N : Ns3) where
  -- The calls that ask for an end point, give it back, change it or call it, and those that hand a
  -- datagram down: all but these.
  abbrev uses : Call N → Bool
  uses insert = false
  uses insert6 = false
  uses (aggregate_factory node) = false
  uses base_notify_new_aggregate = false
  uses base_do_dispose = false
  uses (notify_data_sent n) = false
  uses (notify_send n) = false
  uses notify_data_recv = false
  uses notify_connection_succeeded = false
  uses ipv6_leave_group = false
  uses (base_bind_to_net_device device) = false
  uses (drop_trace p) = false
  uses (icmp callback source ttl type code info) = false
  uses (icmp6 callback source ttl type code info) = false
  uses _ = true

  abbrev pub used : Trace N → Trace N
  used [] = []
  used (c ∷ t) = if uses c then c ∷ used t else used t
