-- ===== src/Prelude/Bits.antt =====
-- `|` and `&` with shifted fields and with masks, as arithmetic, at every width. The native
-- operations have no laws at variables but their recursion on binary digits.
use Prim.Native.Nat.{
  ℕ, zero, suc, ◌+◌, ◌-◌, ◌*◌, ◌/◌, ◌%◌, ◌^◌, ◌≤◌, ◌<◌, min, max, bit_and, bit_or, digits,
  bit_and-bitwise, bit_or-bitwise,
}
use mathlib.Core.Path.{◌≡◌, refl, ap}
use native.Mathlib.Omega.{arith}
use native.Mathlib.Nat.{pow-suc, div-div-eq-div-mul, div-add-mod, one-le-pow}

-- Any count of digits from the first number on gives the same result.
module _ (z : ℕ → ℕ) (f : ℕ → ℕ → ℕ) where
  digits_enough : (n m a b : ℕ) → a ≤ n → a ≤ m → digits z f n a b ≡ digits z f m a b
  digits_enough zero zero a b p q = refl
  digits_enough zero (suc m) zero b p q = refl
  digits_enough zero (suc m) (suc a) b p q = absurd (omega arith)
  digits_enough (suc n) zero zero b p q = refl
  digits_enough (suc n) zero (suc a) b p q = absurd (omega arith)
  digits_enough (suc n) (suc m) zero b p q = refl
  digits_enough (suc n) (suc m) (suc a) b p q =
      omega (arith, digits_enough n m (suc a / 2) (b / 2) (omega arith) (omega arith))

or_digit : (a b : ℕ) → bit_or a b ≡ bit_or (a / 2) (b / 2) * 2 + max (a % 2) (b % 2)
or_digit zero b = omega (arith, bit_or-bitwise 0 b, bit_or-bitwise 0 (b / 2))
or_digit (suc a) b = omega (
  arith,
  bit_or-bitwise (suc a) b,
  bit_or-bitwise (suc a / 2) (b / 2),
  digits_enough (λ c. c) max a (suc a / 2) (suc a / 2) (b / 2) (omega arith) (omega arith),
)

and_digit : (a b : ℕ) → bit_and a b ≡ bit_and (a / 2) (b / 2) * 2 + min (a % 2) (b % 2)
and_digit zero b = omega (arith, bit_and-bitwise 0 b, bit_and-bitwise 0 (b / 2))
and_digit (suc a) b = omega (
  arith,
  bit_and-bitwise (suc a) b,
  bit_and-bitwise (suc a / 2) (b / 2),
  digits_enough (λ c. zero) min a (suc a / 2) (suc a / 2) (b / 2) (omega arith) (omega arith),
)

and-zero_bounded : (n a : ℕ) → a ≤ n → bit_and a 0 ≡ 0
and-zero_bounded n zero h = refl
and-zero_bounded zero (suc a) h = absurd (omega arith)
and-zero_bounded (suc n) (suc a) h =
    omega (arith, and_digit (suc a) 0, and-zero_bounded n (suc a / 2) (omega arith))

bit_and-zero : (a : ℕ) → bit_and a 0 ≡ 0
bit_and-zero a = and-zero_bounded a a (omega arith)

pub bit_and-one : (a : ℕ) → bit_and a 1 ≡ a % 2
bit_and-one a = omega (arith, and_digit a 1, bit_and-zero (a / 2))

module _ (k : ℕ) where
  double : (q : ℕ) → q * 2 ^ suc k ≡ 2 * (q * 2 ^ k)
  double q = omega (arith, ap (λ (t : ℕ). q * t) (pow-suc 2 k))

  quotient : (b : ℕ) → b / 2 ^ suc k ≡ b / 2 / 2 ^ k
  quotient b = omega (
    arith,
    div-div-eq-div-mul b 2 (2 ^ k),
    ap (λ (t : ℕ). b / t) (pow-suc 2 k),
    ap (λ (t : ℕ). b / t) (let e : 2 ^ k * 2 ≡ 2 * 2 ^ k = omega arith in e),
  )

  remainder : (b : ℕ) → b % 2 ^ suc k ≡ 2 * (b / 2 % 2 ^ k) + b % 2
  remainder b = omega (
    arith,
    div-add-mod b (2 ^ suc k),
    div-add-mod (b / 2) (2 ^ k),
    quotient b,
    double (b / 2 / 2 ^ k),
    ap (λ (t : ℕ). 2 ^ suc k * t) (quotient b),
  )

-- A field shifted by `k` binary digits, and what it is joined to: the digits from `k` on are joined,
-- those below are the other number's.
pub bit_or_split : (k a b : ℕ) → bit_or (a * 2 ^ k) b ≡ bit_or a (b / 2 ^ k) * 2 ^ k + b % 2 ^ k
bit_or_split zero a b = omega (
  arith,
  ap (λ (t : ℕ). bit_or t b) (let e : a * 1 ≡ a = omega arith in e),
  ap (λ (t : ℕ). bit_or a t) (let e : b / 1 ≡ b = omega arith in e),
)
bit_or_split (suc k) a b = omega (
  arith,
  or_digit (a * 2 ^ suc k) b,
  double k a,
  ap (λ (t : ℕ). bit_or t (b / 2))
      (let e : a * 2 ^ suc k / 2 ≡ a * 2 ^ k = omega (arith, double k a) in e),
  bit_or_split k a (b / 2),
  ap (λ (t : ℕ). bit_or a t * 2 ^ suc k) (quotient k b),
  double k (bit_or a (b / 2 / 2 ^ k)),
  remainder k b,
)

-- The digits from `k` on of a number.
pub bit_and_high : (k a m : ℕ) → bit_and a (m * 2 ^ k) ≡ bit_and (a / 2 ^ k) m * 2 ^ k
bit_and_high zero a m = omega (
  arith,
  ap (λ (t : ℕ). bit_and a t) (let e : m * 1 ≡ m = omega arith in e),
  ap (λ (t : ℕ). bit_and t m) (let e : a / 1 ≡ a = omega arith in e),
)
bit_and_high (suc k) a m = omega (
  arith,
  and_digit a (m * 2 ^ suc k),
  ap (λ (t : ℕ). bit_and (a / 2) t)
      (let e : m * 2 ^ suc k / 2 ≡ m * 2 ^ k = omega (arith, double k m) in e),
  double k m,
  bit_and_high k (a / 2) m,
  ap (λ (t : ℕ). bit_and t m * 2 ^ suc k) (quotient k a),
  double k (bit_and (a / 2 / 2 ^ k) m),
)

-- The mask of the `k` lowest digits.
pub bit_and_low : (k a : ℕ) → bit_and a (2 ^ k - 1) ≡ a % 2 ^ k
bit_and_low zero a = omega (arith, bit_and-zero a)
bit_and_low (suc k) a = omega (
  arith,
  and_digit a (2 ^ suc k - 1),
  ap (λ (t : ℕ). bit_and (a / 2) t)
      (let e : (2 ^ suc k - 1) / 2 ≡ 2 ^ k - 1 = omega (arith, pow-suc 2 k) in e),
  pow-suc 2 k,
  one-le-pow k 2,
  bit_and_low k (a / 2),
  remainder k a,
)

zero-bit_or : (b : ℕ) → bit_or 0 b ≡ b
zero-bit_or b = bit_or-bitwise 0 b

or-zero_bounded : (n a : ℕ) → a ≤ n → bit_or a 0 ≡ a
or-zero_bounded n zero h = refl
or-zero_bounded zero (suc a) h = absurd (omega arith)
or-zero_bounded (suc n) (suc a) h =
    omega (arith, or_digit (suc a) 0, or-zero_bounded n (suc a / 2) (omega arith))

pub bit_or-zero : (a : ℕ) → bit_or a 0 ≡ a
bit_or-zero a = or-zero_bounded a a (omega arith)

pub bit_or-lt : (k a b : ℕ) → a < 2 ^ k → b < 2 ^ k → bit_or a b < 2 ^ k
bit_or-lt zero zero b p q = omega (arith, zero-bit_or b)
bit_or-lt zero (suc a) b p q = absurd (omega arith)
bit_or-lt (suc k) a b p q =
    let half =
      bit_or-lt k (a / 2) (b / 2) (omega (arith, pow-suc 2 k)) (omega (arith, pow-suc 2 k)) in
    omega (arith, or_digit a b, pow-suc 2 k, half)
