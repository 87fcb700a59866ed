-- ===== src/Header/Wire.antt =====
-- `RudpHeader::Serialize` and `RudpHeader::Deserialize` of rudp-header.cc. `I` is the
-- buffer's iterator.
pub mod Words
pub mod RoundTrip
pub mod Size
pub mod Typed
pub mod Layout
use rudpns.Header.Buffer.{Iterator}
use rudpns.Prelude.{
  ℕ, ◌+◌, ◌-◌, ◌*◌, ◌/◌, ◌%◌, ◌^◌, Bool, true, false, not, Option, none, some, List, [], ◌∷◌, ◌++◌,
  bit_and, bit_or, ◌==◌, if◌then◌else◌,
}
use rudpns.Header.{RudpHeader, serialized_size}

abbrev pub bit : Bool → ℕ
bit false = 0
bit true = 1

-- The second 32-bit word: the type of a control packet, or the position and order of a data packet,
-- above the message number. A shifted `uint8_t` is an `int`, and loses what passes its 32 digits.
pub message_word : RudpHeader → ℕ
message_word h =
    if h.control_flag
    then bit_or (h.type_bits * 2 ^ 29 % 2 ^ 32) h.message_number
    else bit_or (bit_or (h.position_flag * 2 ^ 30 % 2 ^ 32) (bit h.inorder_flag * 2 ^ 29))
        h.message_number

-- The first: the control flag above the sequence number.
pub sequence_word : RudpHeader → ℕ
sequence_word h = bit_or (bit h.control_flag * 2 ^ 31) h.sequence_number

-- `buffer_size` is `start.GetSize ()`, the size of the packet with the room for its header.
unfoldable pub length_field : RudpHeader → (buffer_size : ℕ) → ℕ
length_field h buffer_size = if h.payload_size == 0 then buffer_size else h.payload_size

-- The bytes that `RudpHeader::Serialize` writes at the front of the buffer.
unfoldable pub serialize : (I : Iterator) → RudpHeader → (buffer_size : ℕ) → List ℕ
unfolding message_word sequence_word length_field
serialize I h buffer_size =
    I.write_hton_u16 h.source_port
    ++ (I.write_hton_u16 h.destination_port
        ++ (I.write_hton_u16 (length_field h buffer_size)
            ++ (I.write_hton_u32 (sequence_word h) ++ I.write_hton_u32 (message_word h))))

infixl 5 ◌>>=◌
abbrev ◌>>=◌ : {A B : Type 0} → Option A → (A → Option B) → Option B
none >>= f = none
some a >>= f = f a

-- What `RudpHeader::Deserialize` does with the two words. The flags that the kind of packet lacks
-- keep their values.
pub unpack : RudpHeader → (sequence message : ℕ) → RudpHeader
unpack h sequence message =
    let control = not (bit_and sequence 0x8000_0000 == 0) in
    let common = record h {
      control_flag = control;
      sequence_number = bit_and sequence 0x7fff_ffff;
      message_number = bit_and message 0x1fff_ffff;
    } in
    if control then record common { type_bits = message / 2 ^ 29 } else record common {
      position_flag = message / 2 ^ 30;
      inorder_flag = not (bit_and (message / 2 ^ 29) 1 == 0);
    }

-- `RudpHeader::Deserialize`. It returns `serialized_size` besides.
unfoldable pub deserialize : (I : Iterator) → RudpHeader → List ℕ → Option RudpHeader
unfolding unpack
deserialize I h buffer = do
  (source, buffer) ← I.read_ntoh_u16 buffer
  (destination, buffer) ← I.read_ntoh_u16 buffer
  (size, buffer) ← I.read_ntoh_u16 buffer
  (sequence, buffer) ← I.read_ntoh_u32 buffer
  (message, buffer) ← I.read_ntoh_u32 buffer
  some (
      unpack
        (record h {
          source_port = source;
          destination_port = destination;
          payload_size = (size + 2 ^ 16 - serialized_size) % 2 ^ 16;
        })
        sequence message)
