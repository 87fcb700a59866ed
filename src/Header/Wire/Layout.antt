-- ===== src/Header/Wire/Layout.antt =====
-- Where the fields stand in the two words that `RudpHeader::Serialize` of rudp-header.cc writes.
use rudpns.Prelude.{
  ℕ, ◌+◌, ◌*◌, ◌/◌, ◌%◌, ◌^◌, ◌<◌, ◌≡◌, arith, if◌then◌else◌, Bool-cases, inl, inr,
}
use rudpns.Prelude.Bits.{bit_or-zero}
use rudpns.Header.{RudpHeader, IsPacked}
use rudpns.Header.Wire.{bit, sequence_word, message_word}
use rudpns.Header.Wire.Words.{
  sequence_word_parts, control_word_parts, data_word_parts, order_digits,
}

-- The reference: fields as digits, with no operation on bits. The flag stands above the 31 digits of the
-- sequence number; the type, or the position above the order, above the 29 of the message number.
abbrev pub sequence_layout : RudpHeader → ℕ
sequence_layout h = bit h.control_flag * 2 ^ 31 + h.sequence_number

abbrev pub message_layout : RudpHeader → ℕ
message_layout h =
    (if h.control_flag then h.type_bits else h.position_flag * 2 + bit h.inorder_flag) * 2 ^ 29
    + h.message_number

sequence_word-layout : (h : RudpHeader) → IsPacked h → sequence_word h ≡ sequence_layout h
sequence_word-layout h p =
    let q : h.sequence_number / 2 ^ 31 ≡ 0 = omega (arith, p.sequence_number) in
    ground (arith, sequence_word_parts h, q, bit_or-zero (bit h.control_flag), p.sequence_number)

message_word-layout : (h : RudpHeader) → IsPacked h → message_word h ≡ message_layout h
message_word-layout h p =
    let q : h.message_number / 2 ^ 29 ≡ 0 = omega (arith, p.message_number) in
    elim (Bool-cases h.control_flag) [
      | inl c ↦ ground (
        arith,
        control_word_parts h c,
        q,
        bit_or-zero (h.type_bits % 8),
        p.type_bits,
        p.message_number,
      )
      | inr c ↦ ground (
        arith,
        data_word_parts h c,
        q,
        bit_or-zero (order_digits h),
        p.position_flag,
        p.message_number,
      )
    ]

-- For a header whose fields fit their digits, the two words that `Serialize` puts together by shifts
-- and `|` are the sums of the fields at their places, and both fit 32 digits.
pub words-layout :
    (h : RudpHeader)
    → IsPacked h
    → ((sequence_word h ≡ sequence_layout h) × (sequence_word h < 2 ^ 32))
      × ((message_word h ≡ message_layout h) × (message_word h < 2 ^ 32))
words-layout h p = (
  (sequence_word-layout h p, ground (arith, sequence_word-layout h p, p.sequence_number)),
  (
    message_word-layout h p,
    ground (arith, message_word-layout h p, p.type_bits, p.position_flag, p.message_number),
  ),
)
