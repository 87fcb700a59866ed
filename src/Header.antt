-- ===== src/Header.antt =====
-- rudp-header.h and rudp-header.cc: the packet header `RudpHeader`, its setters, and its layout in a
-- packet's buffer. Bytes are numbers below 256, and a buffer is read and written by lists of them.
pub mod Buffer
pub mod Wire
pub mod Print
use rudpns.Prelude.{ℕ, Bool, false, true, bit_and, ◌<◌, ◌^◌}

-- The fields that the functions read and write. (`m_source`, `m_destination` and `m_protocol` are
-- never used.)
pub record RudpHeader : Type 0 where
  pub source_port : ℕ
  pub destination_port : ℕ
  pub payload_size : ℕ
  pub sequence_number : ℕ
  pub message_number : ℕ
  pub type_bits : ℕ
  pub position_flag : ℕ
  pub inorder_flag : Bool
  pub control_flag : Bool

-- `RudpHeader::RudpHeader`. It initialises three fields; the argument holds what the others happen
-- to hold.
unfoldable pub new_header : RudpHeader → RudpHeader
new_header h = record h { source_port = 0xfffd; destination_port = 0xfffd; payload_size = 0 }

-- `RudpHeader::~RudpHeader`.
destroy_header : RudpHeader → RudpHeader
destroy_header h = record h {
  source_port = 0xfffe;
  destination_port = 0xfffe;
  payload_size = 0xfffe;
}

unfoldable pub set_destination_port : RudpHeader → ℕ → RudpHeader
set_destination_port h port = record h { destination_port = port }

unfoldable pub set_source_port : RudpHeader → ℕ → RudpHeader
set_source_port h port = record h { source_port = port }

set_control_flag : RudpHeader → Bool → RudpHeader
set_control_flag h flag = record h { control_flag = flag }

set_position_flag : RudpHeader → ℕ → RudpHeader
set_position_flag h flag = record h { position_flag = flag }

set_type_bits : RudpHeader → ℕ → RudpHeader
set_type_bits h bits = record h { type_bits = bits }

set_inorder_flag : RudpHeader → Bool → RudpHeader
set_inorder_flag h flag = record h { inorder_flag = flag }

set_sequence_number : RudpHeader → ℕ → RudpHeader
set_sequence_number h n = record h { sequence_number = bit_and n 0x7fffffff }

-- The mask has 33 digits, so it keeps a `uint32_t` as it is.
pub set_message_number : RudpHeader → ℕ → RudpHeader
set_message_number h n = record h { message_number = bit_and n 0x1ffffffff }

-- The getters.
get_source_port : RudpHeader → ℕ
get_source_port h = h.source_port

get_destination_port : RudpHeader → ℕ
get_destination_port h = h.destination_port

get_control_flag : RudpHeader → Bool
get_control_flag h = h.control_flag

get_position_flag : RudpHeader → ℕ
get_position_flag h = h.position_flag

get_type_bits : RudpHeader → ℕ
get_type_bits h = h.type_bits

get_inorder_flag : RudpHeader → Bool
get_inorder_flag h = h.inorder_flag

get_sequence_number : RudpHeader → ℕ
get_sequence_number h = h.sequence_number

get_message_number : RudpHeader → ℕ
get_message_number h = h.message_number

pub force_payload_size : RudpHeader → ℕ → RudpHeader
force_payload_size h n = record h { payload_size = n }

-- `RudpHeader::GetSerializedSize`.
abbrev pub serialized_size : ℕ
serialized_size = 16

-- The values that the fields' types admit: `uint16_t`, `uint32_t` and `uint8_t`.
pub record IsTyped (h : RudpHeader) : Type 0 where
  pub source_port : h.source_port < 2 ^ 16
  pub destination_port : h.destination_port < 2 ^ 16
  pub payload_size : h.payload_size < 2 ^ 16
  pub sequence_number : h.sequence_number < 2 ^ 32
  pub message_number : h.message_number < 2 ^ 32
  pub type_bits : h.type_bits < 2 ^ 8
  pub position_flag : h.position_flag < 2 ^ 8

-- The values that fit the digits which the layout has for them: 31 for the sequence number, 29 for
-- the message number, 3 for the type, 2 for the position.
pub record IsPacked (h : RudpHeader) : Type 0 where
  pub sequence_number : h.sequence_number < 2 ^ 31
  pub message_number : h.message_number < 2 ^ 29
  pub type_bits : h.type_bits < 2 ^ 3
  pub position_flag : h.position_flag < 2 ^ 2
