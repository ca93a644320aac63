-- ===== src/Base/Bits.antt =====
-- `|` and `&` as arithmetic. The native operations stand for a recursion on binary digits, of
-- which the first two lemmas give the equation for the lowest digit.
use Prim.Native.Nat.{
  ℕ, zero, suc, ◌+◌, ◌*◌, ◌/◌, ◌%◌, ◌^◌, ◌≤◌, ◌<◌, min, max, digits, bit_and, bit_or,
  bit_and-bitwise, bit_or-bitwise,
}
use mathlib.Core.Path.{◌≡◌, refl, ap, ap₂, ◌∙◌}
use native.Mathlib.Omega.{arith}
use native.Mathlib.Nat.{pow-suc}

module _ (z : ℕ → ℕ) (op : ℕ → ℕ → ℕ) where
  digits_enough :
      (rounds more a b : ℕ) → a ≤ rounds → a ≤ more → digits z op rounds a b ≡ digits z op more a b
  digits_enough zero zero a b h k = refl
  digits_enough zero (suc more) zero b h k = refl
  digits_enough zero (suc more) (suc a) b h k = absurd (omega arith)
  digits_enough (suc rounds) zero zero b h k = refl
  digits_enough (suc rounds) zero (suc a) b h k = absurd (omega arith)
  digits_enough (suc rounds) (suc more) zero b h k = refl
  digits_enough (suc rounds) (suc more) (suc a) b h k =
      rw (digits_enough rounds more (suc a / 2) (b / 2) (omega arith) (omega arith))

  digits_lowest :
      (a b : ℕ)
      → digits z op (suc a) (suc a) b
        ≡ digits z op (suc a / 2) (suc a / 2) (b / 2) * 2 + op (suc a % 2) (b % 2)
  digits_lowest a b =
      ap (λ (t : ℕ). t * 2 + op (suc a % 2) (b % 2))
        (digits_enough a (suc a / 2) (suc a / 2) (b / 2) (omega arith) (omega arith))

pub bit_or_lowest : (m n : ℕ) → bit_or m n ≡ max (m % 2) (n % 2) + 2 * bit_or (m / 2) (n / 2)
bit_or_lowest zero n = simp bit_or-bitwise (omega arith)
bit_or_lowest (suc m) n = omega (
  arith,
  bit_or-bitwise (suc m) n,
  digits_lowest (λ y. y) max m n,
  bit_or-bitwise (suc m / 2) (n / 2),
)

pub bit_and_lowest : (m n : ℕ) → bit_and m n ≡ min (m % 2) (n % 2) + 2 * bit_and (m / 2) (n / 2)
bit_and_lowest zero n = simp bit_and-bitwise (omega arith)
bit_and_lowest (suc m) n = omega (
  arith,
  bit_and-bitwise (suc m) n,
  digits_lowest (λ y. 0) min m n,
  bit_and-bitwise (suc m / 2) (n / 2),
)

zero-bit_or : (b : ℕ) → bit_or 0 b ≡ b
zero-bit_or b = bit_or-bitwise 0 b

-- The bound counts the digits down.
bit_or-zero_below : (n a : ℕ) → a ≤ n → bit_or a 0 ≡ a
bit_or-zero_below n zero h = refl
bit_or-zero_below zero (suc a) h = absurd (omega arith)
bit_or-zero_below (suc n) (suc a) h =
    omega (arith, bit_or_lowest (suc a) 0, bit_or-zero_below n (suc a / 2) (omega arith))

pub bit_or-zero : (a : ℕ) → bit_or a 0 ≡ a
bit_or-zero a = bit_or-zero_below a a (omega arith)

bit_and-zero_below : (n a : ℕ) → a ≤ n → bit_and a 0 ≡ 0
bit_and-zero_below n zero h = refl
bit_and-zero_below zero (suc a) h = absurd (omega arith)
bit_and-zero_below (suc n) (suc a) h =
    omega (arith, bit_and_lowest (suc a) 0, bit_and-zero_below n (suc a / 2) (omega arith))

pub bit_and-zero : (a : ℕ) → bit_and a 0 ≡ 0
bit_and-zero a = bit_and-zero_below a a (omega arith)

mul-two-pow : (b k : ℕ) → b * 2 ^ suc k ≡ 2 * (b * 2 ^ k)
mul-two-pow b k = omega (arith, ap (λ (t : ℕ). b * t) (pow-suc 2 k))

-- A field above `k` bits is added by `|` to what fits below it.
pub bit_or_high : (k a b : ℕ) → a < 2 ^ k → bit_or a (b * 2 ^ k) ≡ a + b * 2 ^ k
bit_or_high zero zero b h = omega (arith, zero-bit_or (b * 2 ^ 0))
bit_or_high zero (suc a) b h = absurd (omega arith)
bit_or_high (suc k) a b h = omega (
  arith,
  bit_or_lowest a (b * 2 ^ suc k),
  mul-two-pow b k,
  pow-suc 2 k,
  ap (λ (t : ℕ). bit_or (a / 2) t) half,
  bit_or_high k (a / 2) b (omega (arith, pow-suc 2 k)),
)
  where
    half : b * 2 ^ suc k / 2 ≡ b * 2 ^ k
    half = omega (arith, mul-two-pow b k)

-- The same with the high field in front.
pub bit_or_low : (k b a : ℕ) → a < 2 ^ k → bit_or (b * 2 ^ k) a ≡ b * 2 ^ k + a
bit_or_low zero b zero h = bit_or-zero (b * 2 ^ 0) ∙ omega arith
bit_or_low zero b (suc a) h = absurd (omega arith)
bit_or_low (suc k) b a h = omega (
  arith,
  bit_or_lowest (b * 2 ^ suc k) a,
  mul-two-pow b k,
  pow-suc 2 k,
  ap (λ (t : ℕ). bit_or t (a / 2)) half,
  bit_or_low k b (a / 2) (omega (arith, pow-suc 2 k)),
)
  where
    half : b * 2 ^ suc k / 2 ≡ b * 2 ^ k
    half = omega (arith, mul-two-pow b k)

and_one : (a : ℕ) → bit_and a 1 ≡ a % 2
and_one a = omega (arith, bit_and_lowest a 1, bit_and-zero (a / 2))

quarter : (a : ℕ) → a / 2 / 2 ≡ a / 4
quarter a = omega arith

-- Two digits at a time, where the mask's two lowest are zeros, or ones.
bit_or_quarter : (a b : ℕ) → bit_or a (b * 4) ≡ bit_or (a / 4) b * 4 + a % 4
bit_or_quarter a b = omega (
  arith,
  bit_or_lowest a (b * 4),
  ap (λ (t : ℕ). bit_or (a / 2) t) half,
  bit_or_lowest (a / 2) (b * 2),
  ap₂ bit_or (quarter a) half',
)
  where
    half : b * 4 / 2 ≡ b * 2
    half = omega arith

    half' : b * 2 / 2 ≡ b
    half' = omega arith

bit_and_quarter : (a b : ℕ) → bit_and a (b * 4) ≡ bit_and (a / 4) b * 4
bit_and_quarter a b = omega (
  arith,
  bit_and_lowest a (b * 4),
  ap (λ (t : ℕ). bit_and (a / 2) t) half,
  bit_and_lowest (a / 2) (b * 2),
  ap₂ bit_and (quarter a) half',
)
  where
    half : b * 4 / 2 ≡ b * 2
    half = omega arith

    half' : b * 2 / 2 ≡ b
    half' = omega arith

bit_and_three : (a b : ℕ) → bit_and a (b * 4 + 3) ≡ bit_and (a / 4) b * 4 + a % 4
bit_and_three a b = omega (
  arith,
  bit_and_lowest a (b * 4 + 3),
  ap (λ (t : ℕ). bit_and (a / 2) t) half,
  bit_and_lowest (a / 2) (b * 2 + 1),
  ap₂ bit_and (quarter a) half',
)
  where
    half : (b * 4 + 3) / 2 ≡ b * 2 + 1
    half = omega arith

    half' : (b * 2 + 1) / 2 ≡ b
    half' = omega arith

and_seven : (a : ℕ) → bit_and a 7 ≡ a % 8
and_seven a = omega (arith, bit_and_three a 1, and_one (a / 4))

and_31 : (a : ℕ) → bit_and a 31 ≡ a % 32
and_31 a = omega (arith, bit_and_three a 7, and_seven (a / 4))

-- `a & 127`, `a & 128` and `(a | 128) mod 256`: the masks of the varint code.
pub bit_and_127 : (a : ℕ) → bit_and a 127 ≡ a % 128
bit_and_127 a = omega (arith, bit_and_three a 31, and_31 (a / 4))

and_two : (a : ℕ) → bit_and a 2 ≡ a / 2 % 2 * 2
and_two a = omega (arith, bit_and_lowest a 2, and_one (a / 2))

and_eight : (a : ℕ) → bit_and a 8 ≡ a / 8 % 2 * 8
and_eight a = omega (arith, bit_and_quarter a 2, and_two (a / 4))

and_32 : (a : ℕ) → bit_and a 32 ≡ a / 32 % 2 * 32
and_32 a = omega (arith, bit_and_quarter a 8, and_eight (a / 4))

pub bit_and_128 : (a : ℕ) → bit_and a 128 ≡ a / 128 % 2 * 128
bit_and_128 a = omega (arith, bit_and_quarter a 32, and_32 (a / 4))

or_two : (a : ℕ) → bit_or a 2 ≡ a / 4 * 4 + a % 2 + 2
or_two a = omega (arith, bit_or_lowest a 2, bit_or_lowest (a / 2) 1, bit_or-zero (a / 2 / 2))

or_eight : (a : ℕ) → bit_or a 8 ≡ a / 16 * 16 + a % 8 + 8
or_eight a = omega (arith, bit_or_quarter a 2, or_two (a / 4))

or_32 : (a : ℕ) → bit_or a 32 ≡ a / 64 * 64 + a % 32 + 32
or_32 a = omega (arith, bit_or_quarter a 8, or_eight (a / 4))

or_128 : (a : ℕ) → bit_or a 128 ≡ a / 256 * 256 + a % 128 + 128
or_128 a = omega (arith, bit_or_quarter a 32, or_32 (a / 4))

pub bit_or_128 : (a : ℕ) → bit_or a 128 % 256 ≡ a % 128 + 128
bit_or_128 a = omega (arith, or_128 a)
