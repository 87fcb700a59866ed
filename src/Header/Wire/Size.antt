-- ===== src/Header/Wire/Size.antt =====
-- The sizes that `RudpHeader::Serialize` and `RudpHeader::GetSerializedSize` give, and the length
-- field.
use rudpns.Header.Buffer.{Iterator, IteratorLaws}
use rudpns.Prelude.{
  length-append, ℕ, ◌%◌, ◌++◌, some, refl, ◌+◌, ◌-◌, ◌^◌, ◌≤◌, ◌<◌, ◌≡◌, List, arith, length,
}
use rudpns.Header.{RudpHeader, serialized_size, force_payload_size}
use rudpns.Header.Wire.{length_field, serialize, deserialize, unpack, sequence_word, message_word}
use rudpns.Header.Wire.Words.{deserialize-words, unpack_ports}

-- Every header is written as 14 bytes, two fewer than the 16 that `GetSerializedSize` reports and
-- that are reserved for it.
pub length-serialize :
    (I : Iterator) (laws : IteratorLaws I) (h : RudpHeader) (buffer_size : ℕ)
    → length (serialize I h buffer_size) + 2 ≡ serialized_size
unfolding serialize
length-serialize I laws h n =
    let u = I.write_hton_u16 h.source_port in
    let v = I.write_hton_u16 h.destination_port in
    let w = I.write_hton_u16 (length_field h n) in
    let x = I.write_hton_u32 (sequence_word h) in
    let y = I.write_hton_u32 (message_word h) in
    omega (
      arith,
      length-append u (v ++ (w ++ (x ++ y))),
      length-append v (w ++ (x ++ y)),
      length-append w (x ++ y),
      length-append x y,
      laws.length-write_hton_u16 h.source_port,
      laws.length-write_hton_u16 h.destination_port,
      laws.length-write_hton_u16 (length_field h n),
      laws.length-write_hton_u32 (sequence_word h),
      laws.length-write_hton_u32 (message_word h),
    )

payload_size-read :
    (g h : RudpHeader) (n buffer_size written : ℕ)
    → 16 ≤ written
    → written < 2 ^ 16
    → length_field (force_payload_size h n) buffer_size ≡ written
    → let h' = force_payload_size h n in
      (unpack
        (record g {
          source_port = h'.source_port % 2 ^ 16;
          destination_port = h'.destination_port % 2 ^ 16;
          payload_size = (length_field h' buffer_size % 2 ^ 16 + 2 ^ 16 - serialized_size) % 2 ^ 16;
        })
        (sequence_word h' % 2 ^ 32)
        (message_word h' % 2 ^ 32)).payload_size
      ≡ written - 16
payload_size-read g h n size written lo hi e =
    let h' = force_payload_size h n in
    let ports = record g {
      source_port = h'.source_port % 2 ^ 16;
      destination_port = h'.destination_port % 2 ^ 16;
      payload_size = (length_field h' size % 2 ^ 16 + 2 ^ 16 - serialized_size) % 2 ^ 16;
    } in
    omega (arith, (unpack_ports ports (sequence_word h' % 2 ^ 32) (message_word h' % 2 ^ 32)).2, e)

-- The payload size that a reader gets. If the writer's is 0 it is the size of the buffer less the
-- header's 16 bytes, and so the payload's, for a buffer of 16 to 65535 bytes. A size of 16 to 65535
-- that was forced on the writer comes back 16 less.
pub payload_size-force_payload_size :
    (I : Iterator) (laws : IteratorLaws I) (g h : RudpHeader) (forced buffer_size : ℕ)
    (rest : List ℕ)
    → 16 ≤ buffer_size
    → buffer_size < 2 ^ 16
    → 16 ≤ forced
    → forced < 2 ^ 16
    → let read =
        λ (n : ℕ). deserialize I g (serialize I (force_payload_size h n) buffer_size ++ rest) in
      ((r : RudpHeader) × (read 0 ≡ some r) × (r.payload_size ≡ buffer_size - 16))
      × ((r : RudpHeader) × (read forced ≡ some r) × (r.payload_size ≡ forced - 16))
payload_size-force_payload_size I laws g h forced n rest a b c d = (
  (
    _,
    deserialize-words I laws g (force_payload_size h 0) n rest,
    payload_size-read g h 0 n n a b (unfold force_payload_size length_field in refl),
  ),
  (
    _,
    deserialize-words I laws g (force_payload_size h forced) n rest,
    payload_size-read g h forced n forced c d
        (unfold force_payload_size length_field in ground arith),
  ),
)
