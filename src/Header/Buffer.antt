-- ===== src/Header/Buffer.antt =====
-- `Buffer::Iterator` of ns-3, as far as rudp-header.cc uses it, by what it writes and what it reads at
-- its place in the buffer. A read gives what is left behind it, and `none` at the end of the buffer.
use rudpns.Prelude.{ℕ, ◌<◌, ◌%◌, ◌^◌, ◌≡◌, Option, some, List, ◌++◌, length}

pub record Iterator : Type 0 where
  pub write_hton_u16 : ℕ → List ℕ
  pub write_hton_u32 : ℕ → List ℕ
  pub read_ntoh_u16 : List ℕ → Option (ℕ × List ℕ)
  pub read_ntoh_u32 : List ℕ → Option (ℕ × List ℕ)

-- A number of 16 or 32 digits takes two or four bytes, and is read as it was written. No greater one
-- is read.
pub record IteratorLaws (I : Iterator) : Type 0 where
  pub length-write_hton_u16 : (n : ℕ) → length (I.write_hton_u16 n) ≡ 2
  pub length-write_hton_u32 : (n : ℕ) → length (I.write_hton_u32 n) ≡ 4
  pub read_ntoh_u16-write_hton_u16 :
      (n : ℕ) (rest : List ℕ)
      → I.read_ntoh_u16 (I.write_hton_u16 n ++ rest) ≡ some (n % 2 ^ 16, rest)
  pub read_ntoh_u32-write_hton_u32 :
      (n : ℕ) (rest : List ℕ)
      → I.read_ntoh_u32 (I.write_hton_u32 n ++ rest) ≡ some (n % 2 ^ 32, rest)
  pub read_ntoh_u16-lt :
      (buffer rest : List ℕ) (n : ℕ) → I.read_ntoh_u16 buffer ≡ some (n, rest) → n < 2 ^ 16
  pub read_ntoh_u32-lt :
      (buffer rest : List ℕ) (n : ℕ) → I.read_ntoh_u32 buffer ≡ some (n, rest) → n < 2 ^ 32
