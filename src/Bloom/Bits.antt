-- ===== src/Bloom/Bits.antt =====
-- The bits of the array of a Bloom filter.
use native.Mathlib.Nat.{pow-suc}
use tleveldb.Base.{
  ℕ, zero, suc, ◌*◌, ◌/◌, ◌%◌, ◌^◌, ◌<◌, ◌≤◌, ◌≡◌, refl, ap, ◌∙◌, bit_and, bit_or, true, not, List,
  [], ◌∷◌, ltb, ◌==◌, ◌&&◌, if◌then◌else◌, length, set, get_or, arith, length-set,
}
use tleveldb.Base.Bits.{bit_or_lowest, bit_and_lowest, bit_and-zero}
use tleveldb.Bloom.{set_bit, has_bit}

-- The binary digit at a place.
digit : ℕ → ℕ → ℕ
digit n zero = n % 2
digit n (suc i) = digit (n / 2) i

digit-zero : (i : ℕ) → digit 0 i ≡ 0
unfolding digit
digit-zero zero = refl
digit-zero (suc i) = digit-zero i

digit-bit_or_left : (i a b : ℕ) → digit a i ≤ digit (bit_or a b) i
unfolding digit
digit-bit_or_left zero a b = omega (arith, bit_or_lowest a b)
digit-bit_or_left (suc i) a b = rw half (digit-bit_or_left i (a / 2) (b / 2))
  where
    half : bit_or a b / 2 ≡ bit_or (a / 2) (b / 2)
    half = omega (arith, bit_or_lowest a b)

digit-bit_or_pow : (i a : ℕ) → 0 < digit (bit_or a (2 ^ i)) i
unfolding digit
digit-bit_or_pow zero a = omega (arith, bit_or_lowest a (2 ^ 0))
digit-bit_or_pow (suc i) a = rw half (digit-bit_or_pow i (a / 2))
  where
    half' : 2 ^ suc i / 2 ≡ 2 ^ i
    half' = omega (arith, pow-suc 2 i)

    half : bit_or a (2 ^ suc i) / 2 ≡ bit_or (a / 2) (2 ^ i)
    half = omega (arith, bit_or_lowest a (2 ^ suc i)) ∙ ap (λ (t : ℕ). bit_or (a / 2) t) half'

bit_and_pow : (i a : ℕ) → bit_and a (2 ^ i) ≡ digit a i * 2 ^ i
unfolding digit
bit_and_pow zero a = omega (arith, bit_and_lowest a (2 ^ 0), bit_and-zero (a / 2))
bit_and_pow (suc i) a = omega (
  arith,
  bit_and_lowest a (2 ^ suc i),
  pow-suc 2 i,
  ap (λ (t : ℕ). bit_and (a / 2) t) half',
  bit_and_pow i (a / 2),
  ap (λ (t : ℕ). digit (a / 2) i * t) (pow-suc 2 i),
)
  where
    half' : 2 ^ suc i / 2 ≡ 2 ^ i
    half' = omega (arith, pow-suc 2 i)

get_or-set :
    {A : Type 0} (xs : List A) (i j : ℕ) (v d : A)
    → get_or (set xs i v) j d ≡ (if i == j && ltb i (length xs) then v else get_or xs j d)
get_or-set [] i j v d = ground arith
get_or-set (x ∷ xs) zero zero v d = ground arith
get_or-set (x ∷ xs) zero (suc j) v d = ground arith
get_or-set (x ∷ xs) (suc i) zero v d = ground arith
get_or-set (x ∷ xs) (suc i) (suc j) v d = get_or-set xs i j v d ∙ ground arith

pow_pos : (i : ℕ) → 0 < 2 ^ i
pow_pos zero = omega arith
pow_pos (suc i) = omega (arith, pow-suc 2 i, pow_pos i)

product_zero : (d k : ℕ) → 0 < k → (d * k == 0) ≡ (d == 0)
product_zero zero k h = ground arith
product_zero (suc d) k h = ground arith

has_bit-digit :
    (array : List ℕ) (p : ℕ) → has_bit array p ≡ not (digit (get_or array (p / 8) 0) (p % 8) == 0)
unfolding has_bit
has_bit-digit array p =
    rw (bit_and_pow (p % 8) (get_or array (p / 8) 0), product_zero _ _ (pow_pos (p % 8)))

-- The bit that is set is there.
pub has_bit-set_bit :
    (array : List ℕ) (p : ℕ) → p / 8 < length array → has_bit (set_bit array p) p ≡ true
unfolding set_bit
has_bit-set_bit array p h =
    rw (has_bit-digit, get_or-set array (p / 8) (p / 8))
      (ground (arith, digit-bit_or_pow (p % 8) (get_or array (p / 8) 0)))

-- And those that were there stay.
pub has_bit-keeps :
    (array : List ℕ) (p q : ℕ) → has_bit array q ≡ true → has_bit (set_bit array p) q ≡ true
unfolding set_bit
has_bit-keeps array p q h =
    rw (has_bit-digit, get_or-set array (p / 8) (q / 8))
      (ground (
        arith,
        h,
        has_bit-digit array q,
        ap (λ (t : ℕ). digit (bit_or (get_or array t 0) (2 ^ (p % 8))) (q % 8)) {x = p / 8}
            {y = q / 8},
        digit-bit_or_left (q % 8) (get_or array (q / 8) 0) (2 ^ (p % 8)),
      ))

pub length-set_bit : (array : List ℕ) (p : ℕ) → length (set_bit array p) ≡ length array
unfolding set_bit
length-set_bit array p = length-set array _ _
