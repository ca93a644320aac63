-- ===== src/Random/Next.antt =====
-- lib/leveldb/util/random.h: the step of the generator is a multiplication modulo a prime.
use tleveldb.Base.{
  ℕ, zero, suc, ◌+◌, ◌-◌, ◌*◌, ◌/◌, ◌%◌, ◌^◌, ◌≤◌, ◌<◌, ◌≡◌, refl, ap, ◌∙◌, bit_and, ltb,
  if◌then◌else◌, arith,
}
use native.Mathlib.Nat.{mod-eq_of_lt, mod-lt, mod-add-div, add-mul-mod_self_left}
use tleveldb.Base.Bits.{bit_and_lowest, bit_and-zero}
use tleveldb.Random.{modulus, factor, next_random}

mod-two-mul : (a q : ℕ) → 0 < q → a % (2 * q) ≡ a % 2 + 2 * (a / 2 % q)
mod-two-mul a q pos =
    ap (λ t. t % (2 * q)) split
    ∙ add-mul-mod_self_left (a % 2 + 2 * (a / 2 % q)) (2 * q) (a / 2 / q)
    ∙ mod-eq_of_lt small
  where
    split : a ≡ a % 2 + 2 * (a / 2 % q) + 2 * q * (a / 2 / q)
    split = omega (arith, mod-add-div (a / 2) q)

    small : a % 2 + 2 * (a / 2 % q) < 2 * q
    small = omega (arith, mod-lt (a / 2) pos)

-- A number of k ones as a mask.
bit_and_mask : (k m a : ℕ) → suc m ≡ 2 ^ k → bit_and a m ≡ a % 2 ^ k
bit_and_mask zero zero a h = omega (arith, bit_and-zero a)
bit_and_mask zero (suc m) a h = absurd (omega arith)
bit_and_mask (suc k) m a h =
    rw (power, mod-two-mul a (2 ^ k) (omega arith))
      (omega (arith, bit_and_lowest a m, bit_and_mask k (m / 2) (a / 2) (omega (arith, power, h))))
  where
    power : 2 ^ suc k ≡ 2 * 2 ^ k
    power = omega arith

reduced :
    (p : ℕ)
    → p < 2 ^ 46
    → 1 ≤ p % modulus
    → (if ltb modulus ((p / 2 ^ 31 + p % 2 ^ 31) % 2 ^ 32)
        then (p / 2 ^ 31 + p % 2 ^ 31) % 2 ^ 32 - modulus
        else (p / 2 ^ 31 + p % 2 ^ 31) % 2 ^ 32)
      ≡ p % modulus
reduced p few low = ground arith

-- From a seed between 1 and 2^31 - 2, Next gives the product of the seed with 16807 modulo 2^31 -
-- 1, which its shifts and its one subtraction compute without a division.
pub next_random-multiplies :
    (seed : ℕ) → 1 ≤ seed → seed < modulus → next_random seed ≡ seed * factor % modulus
unfolding next_random
next_random-multiplies seed low high =
    rw (wraps, bit_and_mask 31 modulus (seed * factor) refl)
      (reduced (seed * factor) (omega arith) (omega arith))
  where
    wraps : seed * factor % 2 ^ 64 ≡ seed * factor
    wraps = omega arith
