-- ===== src/Header/Print.antt =====
-- `RudpHeader::Print` of rudp-header.cc, by what it inserts into the stream.
use Prim.Native.String.{String}
use rudpns.Prelude.{ℕ, ◌+◌, ◌^◌, ◌%◌, ◌≡◌, Bool, List, [], ◌∷◌, arith}
use rudpns.Header.{RudpHeader, IsTyped, serialized_size}

-- What `os << x` inserts, by the type of `x`. A `uint8_t` is a character there.
data Piece : Type 0 where
  text : String → Piece
  number : ℕ → Piece
  character : ℕ → Piece
  boolean : Bool → Piece

-- The sum of a `uint16_t` and a `uint32_t` is a `uint32_t`.
print : RudpHeader → List Piece
print h =
    text "length: "
    ∷ number ((h.payload_size + serialized_size) % 2 ^ 32)
    ∷ text ", "
    ∷ number h.source_port
    ∷ text " > "
    ∷ number h.destination_port
    ∷ text ", "
    ∷ text " S.No.: "
    ∷ number h.sequence_number
    ∷ text ", "
    ∷ text " M.No.: "
    ∷ number h.message_number
    ∷ text ", "
    ∷ text " control flag: "
    ∷ boolean h.control_flag
    ∷ text ", "
    ∷ text " inorder flag: "
    ∷ boolean h.inorder_flag
    ∷ text ", "
    ∷ text " type bits: "
    ∷ character h.type_bits
    ∷ text ", "
    ∷ text " postion flag: "
    ∷ character h.position_flag
    ∷ []

-- Headers whose fields have their types are inserted alike only if all their fields are the same.
print-injective : (g h : RudpHeader) → IsTyped g → IsTyped h → print g ≡ print h → g ≡ h
unfolding print
print-injective g h t u e = ground (arith, e, t.payload_size, u.payload_size)
