-- ===== src/Header/Wire/Typed.antt =====
-- What `RudpHeader::Deserialize` of rudp-header.cc makes of bytes that may come from anywhere.
use rudpns.Header.Buffer.{Iterator, IteratorLaws}
use rudpns.Prelude.{ℕ, ◌+◌, ◌-◌, ◌%◌, ◌^◌, ◌<◌, ◌≡◌, refl, Option, none, some, List, ◌++◌, arith}
use mathlib.Core.Path.{subst}
use rudpns.Header.{RudpHeader, IsTyped, IsPacked, serialized_size}
use rudpns.Header.Wire.{serialize, unpack, deserialize, ◌>>=◌}
use rudpns.Header.Wire.Words.{sequence_bits, message_bits}
use rudpns.Header.Wire.RoundTrip.{restored, deserialize-serialize}

abbrev Fits : RudpHeader → Type 0
Fits h = IsTyped h × IsPacked h

unpack-Fits : (g : RudpHeader) (s m : ℕ) → Fits g → s < 2 ^ 32 → m < 2 ^ 32 → Fits (unpack g s m)
unfolding unpack
unpack-Fits g s m (t, p) a b = ground (arith, t, p, sequence_bits s, message_bits m)

-- What holds of a result if there is one.
abbrev AllSome : {A : Type 0} → (A → Type 0) → Option A → Type 0
AllSome P none = Unit {0}
AllSome P (some a) = P a

read-AllSome :
    {A B : Type 0} (P : B → Type 0) (m : Option A) (f : A → Option B)
    → ((a : A) → m ≡ some a → AllSome P (f a))
    → AllSome P (m >>= f)
read-AllSome P none f h = tt
read-AllSome P (some a) f h = h a refl

read-Fits :
    (I : Iterator) (laws : IteratorLaws I) (g : RudpHeader) (bytes : List ℕ)
    → Fits g
    → AllSome Fits (deserialize I g bytes)
unfolding deserialize
read-Fits I laws g bytes (t, p) = read-AllSome Fits (I.read_ntoh_u16 bytes) _ λ (source, b1) e1.
    read-AllSome Fits (I.read_ntoh_u16 b1) _ λ (destination, b2) e2.
      read-AllSome Fits (I.read_ntoh_u16 b2) _ λ (size, b3) e3.
        read-AllSome Fits (I.read_ntoh_u32 b3) _ λ (sequence, b4) e4.
          read-AllSome Fits (I.read_ntoh_u32 b4) _ λ (message, b5) e5.
            let ports = record g {
              source_port = source;
              destination_port = destination;
              payload_size = (size + 2 ^ 16 - serialized_size) % 2 ^ 16;
            } in
            let fits : IsTyped ports = record {
              source_port = laws.read_ntoh_u16-lt bytes b1 source e1;
              destination_port = laws.read_ntoh_u16-lt b1 b2 destination e2;
              payload_size = omega arith;
              sequence_number = t.sequence_number;
              message_number = t.message_number;
              type_bits = t.type_bits;
              position_flag = t.position_flag;
            } in
            unpack-Fits ports sequence message
              (
                fits,
                record {
                  sequence_number = p.sequence_number;
                  message_number = p.message_number;
                  type_bits = p.type_bits;
                  position_flag = p.position_flag;
                },
              )
              (laws.read_ntoh_u32-lt b3 b4 sequence e4) (laws.read_ntoh_u32-lt b4 b5 message e5)

-- Whatever bytes a header is read from, by a reader whose own fields have their types and fit their
-- digits: if there are enough of them, the fields of the header read do so too, and the header is
-- read as it is from what it is written as, but for the payload size and the flags of the other kind
-- of packet, which `restored` says.
pub deserialize-Fits :
    (I : Iterator) (laws : IteratorLaws I) (g r : RudpHeader) (buffer_size : ℕ)
    (bytes rest : List ℕ)
    → IsTyped g
    → IsPacked g
    → deserialize I g bytes ≡ some r
    → (IsTyped r × IsPacked r)
      × (deserialize I g (serialize I r buffer_size ++ rest) ≡ some (restored g r buffer_size))
deserialize-Fits I laws g r n bytes rest t p e =
    let (t', p') = subst (AllSome Fits) e (read-Fits I laws g bytes (t, p)) in
    ((t', p'), deserialize-serialize I laws g r n rest t' p')
