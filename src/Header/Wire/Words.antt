-- ===== src/Header/Wire/Words.antt =====
-- The words of a serialised header as sums of their fields, and the bytes read back word by word.
use rudpns.Header.Buffer.{Iterator, IteratorLaws}
use rudpns.Prelude.{
  append_assoc, ℕ, ◌+◌, ◌-◌, ◌*◌, ◌/◌, ◌%◌, ◌^◌, ◌<◌, ◌≡◌, ap, true, false, not, some, List, ◌++◌,
  bit_and, bit_or, arith, ◌==◌,
}
use rudpns.Prelude.Bits.{bit_or_split, bit_and_high, bit_and_low, bit_and-one, bit_or-zero}
use rudpns.Header.{RudpHeader, serialized_size}
use rudpns.Header.Wire.{
  bit, sequence_word, message_word, length_field, serialize, unpack, deserialize,
}

-- The whole buffer, word by word.
pub deserialize-words :
    (I : Iterator) (laws : IteratorLaws I) (g h : RudpHeader) (buffer_size : ℕ) (rest : List ℕ)
    → deserialize I g (serialize I h buffer_size ++ rest)
      ≡ some (
          unpack
            (record g {
              source_port = h.source_port % 2 ^ 16;
              destination_port = h.destination_port % 2 ^ 16;
              payload_size =
                  (length_field h buffer_size % 2 ^ 16 + 2 ^ 16 - serialized_size) % 2 ^ 16;
            })
            (sequence_word h % 2 ^ 32)
            (message_word h % 2 ^ 32))
unfolding deserialize serialize
deserialize-words I laws g h buffer_size rest =
    let u = I.write_hton_u16 h.source_port in
    let v = I.write_hton_u16 h.destination_port in
    let w = I.write_hton_u16 (length_field h buffer_size) in
    let x = I.write_hton_u32 (sequence_word h) in
    let y = I.write_hton_u32 (message_word h) in
    rw (
      append_assoc u (v ++ (w ++ (x ++ y))) rest,
      laws.read_ntoh_u16-write_hton_u16 h.source_port ((v ++ (w ++ (x ++ y))) ++ rest),
      append_assoc v (w ++ (x ++ y)) rest,
      laws.read_ntoh_u16-write_hton_u16 h.destination_port ((w ++ (x ++ y)) ++ rest),
      append_assoc w (x ++ y) rest,
      laws.read_ntoh_u16-write_hton_u16 (length_field h buffer_size) ((x ++ y) ++ rest),
      append_assoc x y rest,
      laws.read_ntoh_u32-write_hton_u32 (sequence_word h) (y ++ rest),
      laws.read_ntoh_u32-write_hton_u32 (message_word h) rest,
    )

-- The joined words as sums, whatever the fields hold.
pub sequence_word_parts :
    (h : RudpHeader)
    → sequence_word h
      ≡ bit_or (bit h.control_flag) (h.sequence_number / 2 ^ 31) * 2 ^ 31
        + h.sequence_number % 2 ^ 31
unfolding sequence_word
sequence_word_parts h = bit_or_split 31 (bit h.control_flag) h.sequence_number

pub control_word_parts :
    (h : RudpHeader)
    → h.control_flag ≡ true
    → message_word h
      ≡ bit_or (h.type_bits % 8) (h.message_number / 2 ^ 29) * 2 ^ 29 + h.message_number % 2 ^ 29
unfolding message_word
control_word_parts h c =
    let e : h.type_bits * 2 ^ 29 % 2 ^ 32 ≡ h.type_bits % 8 * 2 ^ 29 = omega arith in
    rw (c, e) (bit_or_split 29 (h.type_bits % 8) h.message_number)

-- The three digits above a data packet's message number.
abbrev pub order_digits : RudpHeader → ℕ
order_digits h = h.position_flag % 4 * 2 + bit h.inorder_flag

pub data_word_parts :
    (h : RudpHeader)
    → h.control_flag ≡ false
    → message_word h
      ≡ bit_or (order_digits h) (h.message_number / 2 ^ 29) * 2 ^ 29 + h.message_number % 2 ^ 29
unfolding message_word
data_word_parts h c =
    let e : h.position_flag * 2 ^ 30 % 2 ^ 32 ≡ h.position_flag % 4 * 2 ^ 30 = omega arith in
    let low : bit h.inorder_flag * 2 ^ 29 < 2 ^ 30 = ground arith in
    let f : bit_or (h.position_flag % 4 * 2 ^ 30) (bit h.inorder_flag * 2 ^ 29)
        ≡ order_digits h * 2 ^ 29 =
      omega (
        arith,
        bit_or_split 30 (h.position_flag % 4) (bit h.inorder_flag * 2 ^ 29),
        ap (λ (x : ℕ). bit_or (h.position_flag % 4) x)
            (let z : bit h.inorder_flag * 2 ^ 29 / 2 ^ 30 ≡ 0 = omega arith in z),
        bit_or-zero (h.position_flag % 4),
      ) in
    rw (c, e, f) (bit_or_split 29 (order_digits h) h.message_number)

-- The masks of `unpack` as arithmetic.
pub control_bit : (x : ℕ) → not (bit_and x 0x8000_0000 == 0) ≡ not (x / 2 ^ 31 % 2 == 0)
control_bit x = ground (arith, bit_and_high 31 x 1, bit_and-one (x / 2 ^ 31))

pub sequence_bits : (x : ℕ) → bit_and x 0x7fff_ffff ≡ x % 2 ^ 31
sequence_bits x = bit_and_low 31 x

pub message_bits : (x : ℕ) → bit_and x 0x1fff_ffff ≡ x % 2 ^ 29
message_bits x = bit_and_low 29 x

-- The fields that `unpack` leaves alone.
pub unpack_ports :
    (h : RudpHeader) (s m : ℕ)
    → ((unpack h s m).source_port ≡ h.source_port)
      × ((unpack h s m).destination_port ≡ h.destination_port)
      × ((unpack h s m).payload_size ≡ h.payload_size)
unfolding unpack
unpack_ports h s m = ground arith
