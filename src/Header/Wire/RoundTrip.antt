-- ===== src/Header/Wire/RoundTrip.antt =====
-- `RudpHeader::Serialize` and then `RudpHeader::Deserialize`.
use rudpns.Header.Buffer.{Iterator, IteratorLaws}
use rudpns.Prelude.{
  ℕ, zero, suc, refl, inl, inr, Bool-cases, bit_and, ◌≤◌, ◌≢◌, ◌+◌, ◌-◌, ◌/◌, ◌%◌, ◌^◌, ◌<◌, ◌≡◌,
  true, false, some, List, ◌++◌, bit_or, arith, not, ◌==◌, if◌then◌else◌,
}
use rudpns.Prelude.Bits.{bit_and-one, bit_and_low, bit_or-zero, bit_or-lt}
use rudpns.Header.{RudpHeader, IsTyped, IsPacked, set_message_number}
use rudpns.Header.Wire.{sequence_word, message_word, length_field, serialize, unpack, deserialize}
use rudpns.Header.Wire.Words.{
  deserialize-words, sequence_word_parts, control_word_parts, data_word_parts, order_digits,
  control_bit, sequence_bits, message_bits,
}

one-bit_or : (q : ℕ) → q < 2 → bit_or 1 q ≡ 1
one-bit_or zero h = refl
one-bit_or (suc zero) h = refl
one-bit_or (suc (suc q)) h = absurd (omega arith)

unpack_control :
    (g : RudpHeader) (s m : ℕ)
    → s / 2 ^ 31 % 2 ≡ 1
    → unpack g s m ≡ record g {
      control_flag = true;
      sequence_number = s % 2 ^ 31;
      message_number = m % 2 ^ 29;
      type_bits = m / 2 ^ 29;
    }
unfolding unpack
unpack_control g s m h = ground (arith, control_bit s, sequence_bits s, message_bits m)

unpack_data :
    (g : RudpHeader) (s m : ℕ)
    → s / 2 ^ 31 % 2 ≡ 0
    → unpack g s m ≡ record g {
      control_flag = false;
      sequence_number = s % 2 ^ 31;
      message_number = m % 2 ^ 29;
      position_flag = m / 2 ^ 30;
      inorder_flag = not (m / 2 ^ 29 % 2 == 0);
    }
unfolding unpack
unpack_data g s m h =
    ground (arith, control_bit s, sequence_bits s, message_bits m, bit_and-one (m / 2 ^ 29))

-- The fields that do not share a word with another one.
abbrev pub ports_of : RudpHeader → RudpHeader → ℕ → RudpHeader
ports_of g h buffer_size = record g {
  source_port = h.source_port;
  destination_port = h.destination_port;
  payload_size = (length_field h buffer_size % 2 ^ 16 + 2 ^ 16 - 16) % 2 ^ 16;
}

-- What the reader of a serialised control packet gets, whatever the fields hold: the digits of the
-- message number above its 29 are joined to the type.
control_deserialize-serialize :
    (I : Iterator) (laws : IteratorLaws I) (g h : RudpHeader) (buffer_size : ℕ) (rest : List ℕ)
    → IsTyped h
    → h.control_flag ≡ true
    → deserialize I g (serialize I h buffer_size ++ rest)
      ≡ some (record (ports_of g h buffer_size) {
        control_flag = true;
        sequence_number = h.sequence_number % 2 ^ 31;
        message_number = h.message_number % 2 ^ 29;
        type_bits = bit_or (h.type_bits % 8) (h.message_number / 2 ^ 29);
      })
control_deserialize-serialize I laws g h n rest t c =
    let y = bit_or (h.type_bits % 8) (h.message_number / 2 ^ 29) in
    let q_lt : h.sequence_number / 2 ^ 31 < 2 = omega (arith, t.sequence_number) in
    let y_lt : y < 8 =
      bit_or-lt 3 (h.type_bits % 8) (h.message_number / 2 ^ 29) (omega arith)
        (omega (arith, t.message_number)) in
    ground (
      arith,
      deserialize-words I laws g h n rest,
      unpack_control (ports_of g h n) (sequence_word h % 2 ^ 32) (message_word h % 2 ^ 32),
      sequence_word_parts h,
      control_word_parts h,
      one-bit_or (h.sequence_number / 2 ^ 31),
      q_lt,
      y_lt,
    )

-- The same for a data packet, whose type is the reader's own. Its order digits are joined to those
-- of the message number; the sequence number's top digit would make it a control packet.
data_deserialize-serialize :
    (I : Iterator) (laws : IteratorLaws I) (g h : RudpHeader) (buffer_size : ℕ) (rest : List ℕ)
    → IsTyped h
    → h.control_flag ≡ false
    → h.sequence_number < 2 ^ 31
    → let digits = bit_or (order_digits h) (h.message_number / 2 ^ 29) in
      deserialize I g (serialize I h buffer_size ++ rest)
      ≡ some (record (ports_of g h buffer_size) {
        control_flag = false;
        sequence_number = h.sequence_number;
        message_number = h.message_number % 2 ^ 29;
        position_flag = digits / 2;
        inorder_flag = not (digits % 2 == 0);
      })
data_deserialize-serialize I laws g h n rest t c s =
    let y = bit_or (order_digits h) (h.message_number / 2 ^ 29) in
    let o_lt : order_digits h < 8 = ground arith in
    let y_lt : y < 8 =
      bit_or-lt 3 (order_digits h) (h.message_number / 2 ^ 29) o_lt
        (omega (arith, t.message_number)) in
    let q : h.sequence_number / 2 ^ 31 ≡ 0 = omega arith in
    ground (
      arith,
      deserialize-words I laws g h n rest,
      unpack_data (ports_of g h n) (sequence_word h % 2 ^ 32) (message_word h % 2 ^ 32),
      sequence_word_parts h,
      data_word_parts h,
      q,
      bit_or-zero 0,
      y_lt,
    )

-- What a reader with the header `g` gets of `h`: the fields of the kind of packet that it is, with
-- the reader's own values for the flags of the other kind.
abbrev pub restored : RudpHeader → RudpHeader → ℕ → RudpHeader
restored g h buffer_size =
    let r = record (ports_of g h buffer_size) {
      control_flag = h.control_flag;
      sequence_number = h.sequence_number;
      message_number = h.message_number;
    } in
    if h.control_flag
    then record r { type_bits = h.type_bits }
    else record r { position_flag = h.position_flag; inorder_flag = h.inorder_flag }

control_restored :
    (I : Iterator) (laws : IteratorLaws I) (g h : RudpHeader) (buffer_size : ℕ) (rest : List ℕ)
    → IsTyped h
    → IsPacked h
    → h.control_flag ≡ true
    → deserialize I g (serialize I h buffer_size ++ rest) ≡ some (restored g h buffer_size)
control_restored I laws g h n rest t p c =
    let q : h.message_number / 2 ^ 29 ≡ 0 = omega (arith, p.message_number) in
    ground (
      arith,
      control_deserialize-serialize I laws g h n rest t c,
      q,
      bit_or-zero (h.type_bits % 8),
      p.type_bits,
      p.sequence_number,
      p.message_number,
    )

data_restored :
    (I : Iterator) (laws : IteratorLaws I) (g h : RudpHeader) (buffer_size : ℕ) (rest : List ℕ)
    → IsTyped h
    → IsPacked h
    → h.control_flag ≡ false
    → deserialize I g (serialize I h buffer_size ++ rest) ≡ some (restored g h buffer_size)
data_restored I laws g h n rest t p c =
    let q : h.message_number / 2 ^ 29 ≡ 0 = omega (arith, p.message_number) in
    ground (
      arith,
      data_deserialize-serialize I laws g h n rest t c p.sequence_number,
      q,
      bit_or-zero (order_digits h),
      p.position_flag,
      p.message_number,
    )

-- A header whose fields have their types and fit their digits comes back from its bytes, whatever
-- follows them: ports, control flag, sequence and message number, and the type of a control packet
-- or the position and the order of a data packet. The payload size comes back as `ports_of` says,
-- and the flags of the other kind of packet are the reader's.
pub deserialize-serialize :
    (I : Iterator) (laws : IteratorLaws I) (g h : RudpHeader) (buffer_size : ℕ) (rest : List ℕ)
    → IsTyped h
    → IsPacked h
    → deserialize I g (serialize I h buffer_size ++ rest) ≡ some (restored g h buffer_size)
deserialize-serialize I laws g h n rest t p = elim (Bool-cases h.control_flag) [
  | inl c ↦ control_restored I laws g h n rest t p c
  | inr c ↦ data_restored I laws g h n rest t p c
]

-- A message number of 2 ^ 29 or more, and below 2 ^ 32, passes `SetMessageNumber`, and then spoils
-- a control packet whose fields have their types: its reader gets another message number, and the
-- type joined to the upper digits.
pub set_message_number-overflow :
    (I : Iterator) (laws : IteratorLaws I) (g h : RudpHeader) (n buffer_size : ℕ) (rest : List ℕ)
    → IsTyped h
    → h.control_flag ≡ true
    → 2 ^ 29 ≤ n
    → n < 2 ^ 32
    → (r : RudpHeader) × (deserialize I g (serialize I (set_message_number h n) buffer_size ++ rest)
        ≡ some r)
      × (r.message_number ≡ n % 2 ^ 29)
      × (r.message_number ≢ n)
      × (r.type_bits ≡ bit_or (h.type_bits % 8) (n / 2 ^ 29))
unfolding set_message_number
set_message_number-overflow I laws g h n size rest t c lo hi =
    let kept : bit_and n 0x1_ffff_ffff ≡ n = omega (arith, bit_and_low 33 n) in
    let h' = set_message_number h n in
    let t' : IsTyped h' = record {
      source_port = t.source_port;
      destination_port = t.destination_port;
      payload_size = t.payload_size;
      sequence_number = t.sequence_number;
      message_number = omega arith;
      type_bits = t.type_bits;
      position_flag = t.position_flag;
    } in
    (_, control_deserialize-serialize I laws g h' size rest t' c, omega arith, omega arith, rw kept)
