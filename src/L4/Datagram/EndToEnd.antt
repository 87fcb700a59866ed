-- ===== src/L4/Datagram/EndToEnd.antt =====
-- A datagram from `Send` to `Receive`, in rudp-l4-protocol.cc.
use rudpns.Header.Buffer.{Iterator, IteratorLaws}
use rudpns.Prelude.{
  ℕ, ◌+◌, ◌-◌, ◌%◌, ◌^◌, ◌<◌, ◌≡◌, refl, ap, ◌∙◌, sym, Option, some, List, [], ◌∷◌, ◌++◌, arith,
  length, length-append, drop, append_assoc,
}
use rudpns.Header.{RudpHeader, IsTyped, IsPacked, serialized_size}
use rudpns.Header.Wire.{serialize, deserialize, sequence_word, message_word, length_field}
use rudpns.Header.Wire.Words.{deserialize-words, unpack_ports}
use rudpns.Header.Wire.Size.{length-serialize}
use rudpns.Header.Wire.RoundTrip.{restored, deserialize-serialize}
use rudpns.Ns3.{down6, Ns3, Env, down}
use rudpns.Ns3.Laws.{BufferLaws}
use rudpns.State.{State, ok}
use rudpns.L4.{prot_number}
use rudpns.L4.Datagram.{l4_send6, outgoing, add_header, l4_send}

-- An outgoing header is the memory where it was built, but for its ports and its payload size: if
-- what the memory held there fits the digits, a reader gets its sequence number, its message number
-- and its control flag.
pub outgoing-memory :
    (I : Iterator) (laws : IteratorLaws I) (g memory : RudpHeader) (sport dport buffer_size : ℕ)
    (rest : List ℕ)
    → sport < 2 ^ 16
    → dport < 2 ^ 16
    → IsTyped memory
    → IsPacked memory
    → (r : RudpHeader) × (deserialize I g
          (serialize I (outgoing sport dport memory) buffer_size ++ rest)
        ≡ some r)
      × (r.sequence_number ≡ memory.sequence_number)
      × (r.message_number ≡ memory.message_number)
      × (r.control_flag ≡ memory.control_flag)
unfolding outgoing
outgoing-memory I laws g m sport dport n rest hs hd t p =
    let h = outgoing sport dport m in
    let t' : IsTyped h = record {
      source_port = hs;
      destination_port = hd;
      payload_size = omega arith;
      sequence_number = t.sequence_number;
      message_number = t.message_number;
      type_bits = t.type_bits;
      position_flag = t.position_flag;
    } in
    let p' : IsPacked h = record {
      sequence_number = p.sequence_number;
      message_number = p.message_number;
      type_bits = p.type_bits;
      position_flag = p.position_flag;
    } in
    (
      restored g h n,
      deserialize-serialize I laws g h n rest t' p',
      ground arith,
      ground arith,
      ground arith,
    )

length→drop : (xs ys : List ℕ) → drop (length xs) (xs ++ ys) ≡ ys
length→drop [] ys = refl
length→drop (x ∷ xs) ys = length→drop xs ys

drop_both :
    (n : ℕ) (xs spare ys : List ℕ)
    → length xs + length spare ≡ n
    → drop n (xs ++ (spare ++ ys)) ≡ ys
drop_both n xs spare ys e =
    ap (λ m. drop m (xs ++ (spare ++ ys))) (sym e ∙ sym (length-append xs spare))
    ∙ ap (drop (length (xs ++ spare))) (sym (append_assoc xs spare ys))
    ∙ length→drop (xs ++ spare) ys

module _ (N : Ns3) (laws : BufferLaws N) (h : RudpHeader) (p : N.Packet) where
  -- The buffer of a packet with its header: the written bytes, the two that are not written, the rest.
  buffer-add_header :
      (spare : List ℕ) × (N.buffer (add_header N h p)
        ≡ serialize N.iterator h (N.get_size p + serialized_size) ++ (spare ++ N.buffer p))
      × (length (serialize N.iterator h (N.get_size p + serialized_size)) + length spare
          ≡ serialized_size)
  unfolding add_header
  buffer-add_header =
      laws.buffer-add_at_start serialized_size
        (serialize N.iterator h (N.get_size p + serialized_size)) p
        (omega (
          arith,
          length-serialize N.iterator laws.iterator_laws h (N.get_size p + serialized_size),
        ))

  remove-add_header : N.buffer (N.remove_at_start serialized_size (add_header N h p)) ≡ N.buffer p
  remove-add_header =
      let (spare, e, n) = buffer-add_header in
      laws.buffer-remove_at_start serialized_size (add_header N h p)
      ∙ ap (drop serialized_size) e
      ∙ drop_both serialized_size (serialize N.iterator h (N.get_size p + serialized_size)) spare
          (N.buffer p) n

  read-add_header :
      (g : RudpHeader)
      → h.source_port < 2 ^ 16
      → h.destination_port < 2 ^ 16
      → (r : RudpHeader) × (deserialize N.iterator g (N.buffer (add_header N h p)) ≡ some r)
        × (r.source_port ≡ h.source_port)
        × (r.destination_port ≡ h.destination_port)
  read-add_header g hs hd =
      let (spare, e, n) = buffer-add_header in
      let size = N.get_size p + serialized_size in
      let g' = record g {
        source_port = h.source_port % 2 ^ 16;
        destination_port = h.destination_port % 2 ^ 16;
        payload_size = (length_field h size % 2 ^ 16 + 2 ^ 16 - serialized_size) % 2 ^ 16;
      } in
      let kept = unpack_ports g' (sequence_word h % 2 ^ 32) (message_word h % 2 ^ 32) in
      (
        _,
        ap (deserialize N.iterator g) e
            ∙ deserialize-words N.iterator laws.iterator_laws g h size (spare ++ N.buffer p),
        omega (arith, kept.0),
        omega (arith, kept.1),
      )

module _ (N : Ns3) (E : Env N) where
  -- `Send`, where the down target is set, gives the layer below exactly one packet, under protocol
  -- 254, with the addresses and the route that it was given. Whoever reads the header of that
  -- packet, from whatever memory, gets the ports that were sent, and behind its 16 bytes the packet
  -- that was sent.
  pub read-l4_send :
      (laws : BufferLaws N) (p : N.Packet) (a b : N.Ipv4Address) (sport dport : ℕ)
      (route : Option N.Ipv4Route) (target : N.DownTarget) (s : State N)
      → s.l4.down_target ≡ some target
      → sport < 2 ^ 16
      → dport < 2 ^ 16
      → (q : N.Packet) × (l4_send N E p a b sport dport route s
          ≡ ok (tt, record s { trace = down target q a b prot_number route ∷ s.trace }))
        × (N.buffer (N.remove_at_start serialized_size q) ≡ N.buffer p)
        × ((g : RudpHeader)
            → (r : RudpHeader) × (deserialize N.iterator g (N.buffer q) ≡ some r)
              × (r.source_port ≡ sport)
              × (r.destination_port ≡ dport))
  unfolding l4_send
  read-l4_send laws p a b sport dport route target s e hs hd = (
    add_header N (outgoing sport dport (E.uninitialised s.trace)) p,
    ground arith,
    remove-add_header N laws (outgoing sport dport (E.uninitialised s.trace)) p,
    λ g. read-add_header N laws (outgoing sport dport (E.uninitialised s.trace)) p g hs hd,
  )

  -- `Send` for IPv6, where the down target is set, gives the layer below exactly one packet, under protocol
  -- 254, with the addresses and the route that it was given. Whoever reads the header of that
  -- packet, from whatever memory, gets the ports that were sent, and behind its 16 bytes the packet
  -- that was sent.
  pub read-l4_send6 :
      (laws : BufferLaws N) (p : N.Packet) (a b : N.Ipv6Address) (sport dport : ℕ)
      (route : Option N.Ipv6Route) (target : N.DownTarget6) (s : State N)
      → s.l4.down_target6 ≡ some target
      → sport < 2 ^ 16
      → dport < 2 ^ 16
      → (q : N.Packet) × (l4_send6 N E p a b sport dport route s
          ≡ ok (tt, record s { trace = down6 target q a b prot_number route ∷ s.trace }))
        × (N.buffer (N.remove_at_start serialized_size q) ≡ N.buffer p)
        × ((g : RudpHeader)
            → (r : RudpHeader) × (deserialize N.iterator g (N.buffer q) ≡ some r)
              × (r.source_port ≡ sport)
              × (r.destination_port ≡ dport))
  unfolding l4_send6
  read-l4_send6 laws p a b sport dport route target s e hs hd = (
    add_header N (outgoing sport dport (E.uninitialised s.trace)) p,
    ground arith,
    remove-add_header N laws (outgoing sport dport (E.uninitialised s.trace)) p,
    λ g. read-add_header N laws (outgoing sport dport (E.uninitialised s.trace)) p g hs hd,
  )
