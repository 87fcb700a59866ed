-- ===== src/Tests/Headers.antt =====
-- The header at concrete fields: rudp-header.cc.
use rudpns.Prelude.{
  ◌+◌, ◌-◌, ◌/◌, ◌%◌, ◌^◌, ◌<◌, ◌≡◌, ◌≢◌, refl, some, ◌++◌, [], ◌∷◌, bit_or, arith, length,
}
use rudpns.Header.Wire.Typed.{deserialize-Fits}
use rudpns.Header.{
  IsTyped, IsPacked, RudpHeader, serialized_size, force_payload_size, set_message_number,
}
use rudpns.Header.Wire.{serialize, deserialize, sequence_word, message_word}
use rudpns.Header.Wire.Layout.{sequence_layout, message_layout, words-layout}
use rudpns.Header.Wire.RoundTrip.{restored, deserialize-serialize, set_message_number-overflow}
use rudpns.Header.Wire.Size.{length-serialize, payload_size-force_payload_size}
use rudpns.L4.Datagram.{outgoing}
use rudpns.L4.Datagram.EndToEnd.{outgoing-memory}
use rudpns.Tests.World.{iterator_laws, ns3, memory, memory-IsTyped, memory-IsPacked}

deserialize-serialize_example :
    deserialize ns3.iterator memory (serialize ns3.iterator memory 20 ++ 9 ∷ [])
    ≡ some (restored memory memory 20)
deserialize-serialize_example =
    deserialize-serialize ns3.iterator iterator_laws memory memory 20 (9 ∷ []) memory-IsTyped
      memory-IsPacked

set_message_number-overflow_example :
    (r : RudpHeader) × (deserialize ns3.iterator memory
        (serialize ns3.iterator (set_message_number memory 536870912) 20 ++ [])
      ≡ some r)
    × (r.message_number ≡ 536870912 % 2 ^ 29)
    × (r.message_number ≢ 536870912)
    × (r.type_bits ≡ bit_or (memory.type_bits % 8) (536870912 / 2 ^ 29))
set_message_number-overflow_example =
    set_message_number-overflow ns3.iterator iterator_laws memory memory 536870912 20 []
      memory-IsTyped refl (omega arith) (omega arith)

length-serialize_example : length (serialize ns3.iterator memory 20) + 2 ≡ serialized_size
length-serialize_example = length-serialize ns3.iterator iterator_laws memory 20

payload_size-force_payload_size_example :
    ((r : RudpHeader) × (deserialize ns3.iterator memory
          (serialize ns3.iterator (force_payload_size memory 0) 20 ++ [])
        ≡ some r)
      × (r.payload_size ≡ 20 - 16))
    × ((r : RudpHeader) × (deserialize ns3.iterator memory
            (serialize ns3.iterator (force_payload_size memory 100) 20 ++ [])
          ≡ some r)
        × (r.payload_size ≡ 100 - 16))
payload_size-force_payload_size_example =
    payload_size-force_payload_size ns3.iterator iterator_laws memory memory 100 20 [] (omega arith)
      (omega arith) (omega arith) (omega arith)

outgoing-memory_example :
    (r : RudpHeader) × (deserialize ns3.iterator memory
        (serialize ns3.iterator (outgoing 5000 80 memory) 20 ++ [])
      ≡ some r)
    × (r.sequence_number ≡ memory.sequence_number)
    × (r.message_number ≡ memory.message_number)
    × (r.control_flag ≡ memory.control_flag)
outgoing-memory_example =
    outgoing-memory ns3.iterator iterator_laws memory memory 5000 80 20 [] (omega arith)
      (omega arith) memory-IsTyped memory-IsPacked

deserialize-Fits_example :
    (IsTyped memory × IsPacked memory)
    × (deserialize ns3.iterator memory (serialize ns3.iterator memory 20 ++ [])
        ≡ some (restored memory memory 20))
deserialize-Fits_example =
    deserialize-Fits ns3.iterator iterator_laws memory memory 20
      (0 ∷ 1 ∷ 0 ∷ 2 ∷ 0 ∷ 19 ∷ 128 ∷ 0 ∷ 0 ∷ 4 ∷ 192 ∷ 0 ∷ 0 ∷ 5 ∷ []) [] memory-IsTyped
      memory-IsPacked (unfold deserialize in refl)

words-layout_example :
    ((sequence_word memory ≡ sequence_layout memory) × (sequence_word memory < 2 ^ 32))
    × ((message_word memory ≡ message_layout memory) × (message_word memory < 2 ^ 32))
words-layout_example = words-layout memory memory-IsPacked
