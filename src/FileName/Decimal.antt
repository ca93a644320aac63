-- ===== src/FileName/Decimal.antt =====
-- Decimal numbers, written and read back.
use tleveldb.Base.{
  ℕ, zero, suc, ◌+◌, ◌-◌, ◌*◌, ◌/◌, ◌%◌, ◌^◌, ◌<◌, ◌≤◌, ◌≡◌, refl, ap, ◌∙◌, true, false, ◌&&◌, ◌||◌,
  none, some, List, [], ◌∷◌, ◌++◌, All, ltb, leb, ◌==◌, if◌then◌else◌, length, replicate, inl, inr,
  Bool-cases, ltb-false, lt→ltb, length-append, All-append, arith,
}
use tleveldb.FileName.{
  digits_before, append_number_to, number_to_string, is_digit, max_uint64, last_digit_of_max_uint64,
  consume_loop, consume_decimal_number, six_digits,
}

abbrev pub IsDigit : ℕ → Type 0
IsDigit c = (48 ≤ c) × (c ≤ 57)

-- The number that digits stand for, behind a number already read.
abbrev pub value_from : ℕ → List ℕ → ℕ
value_from num [] = num
value_from num (c ∷ digits) = value_from (num * 10 + (c - 48)) digits

-- The text does not go on with a digit.
abbrev pub NoDigit : List ℕ → Type 0
NoDigit [] = Unit {0}
NoDigit (c ∷ rest) = is_digit c ≡ false

value_from-le : (num : ℕ) (digits : List ℕ) → num ≤ value_from num digits
value_from-le num [] = omega arith
value_from-le num (c ∷ digits) = omega (arith, value_from-le (num * 10 + (c - 48)) digits)

digit_test : (c : ℕ) → IsDigit c → is_digit c ≡ true
digit_test c h = ground arith

overflow_test :
    (num c : ℕ)
    → IsDigit c
    → (ltb (max_uint64 / 10) num || (num == max_uint64 / 10 && ltb last_digit_of_max_uint64 c))
      ≡ leb (2 ^ 64) (num * 10 + (c - 48))
overflow_test num c h = ground arith

consume_rest : (rest : List ℕ) (num : ℕ) → NoDigit rest → consume_loop rest num ≡ some (num, rest)
unfolding consume_loop
consume_rest [] num h = refl
consume_rest (c ∷ rest) num h = rw h refl

-- The loop reads all digits, and fails if their number does not fit 64 bits.
consume_loop-digits :
    (digits rest : List ℕ) (num : ℕ)
    → All IsDigit digits
    → NoDigit rest
    → num < 2 ^ 64
    → consume_loop (digits ++ rest) num
      ≡ (if ltb (value_from num digits) (2 ^ 64) then some (value_from num digits, rest) else none)
unfolding consume_loop
consume_loop-digits [] rest num all stop small =
    rw (lt→ltb num (2 ^ 64) small) (consume_rest rest num stop)
consume_loop-digits (c ∷ digits) rest num (digit, all) stop small =
    elim (Bool-cases (leb (2 ^ 64) (num * 10 + (c - 48)))) [
      | inl over ↦
          rw
            (
              digit_test c digit,
              overflow_test num c digit,
              over,
              ltb-false (value_from (num * 10 + (c - 48)) digits) (2 ^ 64) (too_large over),
            )
            refl
      | inr fits ↦
          rw (digit_test c digit, overflow_test num c digit, fits)
            (consume_loop-digits digits rest (num * 10 + (c - 48)) all stop
              (fits_lt (num * 10 + (c - 48)) fits))
    ]
  where
    fits_lt : (n : ℕ) → leb (2 ^ 64) n ≡ false → n < 2 ^ 64
    fits_lt n h = ground arith

    le_of_test : (n : ℕ) → leb (2 ^ 64) n ≡ true → 2 ^ 64 ≤ n
    le_of_test n h = ground arith

    too_large :
        leb (2 ^ 64) (num * 10 + (c - 48)) ≡ true → 2 ^ 64 ≤ value_from (num * 10 + (c - 48)) digits
    too_large over =
        omega
          (arith, le_of_test (num * 10 + (c - 48)) over, value_from-le (num * 10 + (c - 48)) digits)

-- ConsumeDecimalNumber, on at least one digit and a text that does not go on with one, takes the
-- digits and gives their number if that is a uint64_t, and fails if it is not.
pub consume_decimal_number-digits :
    (c : ℕ) (digits rest : List ℕ)
    → All IsDigit (c ∷ digits)
    → NoDigit rest
    → consume_decimal_number ((c ∷ digits) ++ rest) ≡ (
        if ltb (value_from 0 (c ∷ digits)) (2 ^ 64)
        then some (value_from 0 (c ∷ digits), rest)
        else none)
unfolding consume_decimal_number
consume_decimal_number-digits c digits rest all stop =
    elim (Bool-cases (ltb (value_from 0 (c ∷ digits)) (2 ^ 64))) [
      | inl fits ↦ rw (fits) (
          rw
            (
              consume_decimal_number,
              consume_loop-digits (c ∷ digits) rest 0 all stop (omega arith),
              fits,
              shorter,
            )
            refl)
      | inr over ↦ rw (over) (
          rw
            (
              consume_decimal_number,
              consume_loop-digits (c ∷ digits) rest 0 all stop (omega arith),
              over,
            )
            refl)
    ]
  where
    not_same : (a b : ℕ) → a < b → (a == b) ≡ false
    not_same a b h = ground arith

    shorter : (length rest == length ((c ∷ digits) ++ rest)) ≡ false
    shorter =
        not_same (length rest) (length ((c ∷ digits) ++ rest))
          (omega (arith, length-append (c ∷ digits) rest))

digits_before-digits :
    (fuel num : ℕ) (tail : List ℕ) → All IsDigit tail → All IsDigit (digits_before fuel num tail)
unfolding digits_before
digits_before-digits zero num tail all = all
digits_before-digits (suc fuel) num tail all = elim (Bool-cases (num / 10 == 0)) [
  | inl done ↦ rw done (omega arith, all)
  | inr more ↦
      rw more (digits_before-digits fuel (num / 10) ((48 + num % 10) ∷ tail) (omega arith, all))
]

-- The digits stand for the number, if there may be enough of them.
value_from-digits_before :
    (fuel num : ℕ) (tail : List ℕ)
    → num < 10 ^ fuel
    → value_from 0 (digits_before fuel num tail) ≡ value_from num tail
unfolding digits_before
value_from-digits_before zero num tail small = ap (λ n. value_from n tail) (is_zero num small)
  where
    is_zero : (n : ℕ) → n < 10 ^ 0 → 0 ≡ n
    is_zero n h = omega arith
value_from-digits_before (suc fuel) num tail small = elim (Bool-cases (num / 10 == 0)) [
  | inl done ↦ rw done (ap (λ n. value_from n tail) (one_digit num done))
  | inr more ↦ rw more (
      value_from-digits_before fuel (num / 10) ((48 + num % 10) ∷ tail) (omega arith)
      ∙ ap (λ n. value_from n tail) (last_digit num))
]
  where
    one_digit : (n : ℕ) → (n / 10 == 0) ≡ true → 0 * 10 + ((48 + n % 10) - 48) ≡ n
    one_digit n h = ground arith

    last_digit : (n : ℕ) → n / 10 * 10 + ((48 + n % 10) - 48) ≡ n
    last_digit n = omega arith

length-digits_before :
    (fuel num : ℕ) (tail : List ℕ) → length tail ≤ length (digits_before fuel num tail)
unfolding digits_before
length-digits_before zero num tail = omega arith
length-digits_before (suc fuel) num tail = elim (Bool-cases (num / 10 == 0)) [
  | inl done ↦ rw done (omega arith)
  | inr more ↦
      rw more (omega (arith, length-digits_before fuel (num / 10) ((48 + num % 10) ∷ tail)))
]

has_digit : (num : ℕ) → 1 ≤ length (digits_before 20 num [])
unfolding digits_before
has_digit num = elim (Bool-cases (num / 10 == 0)) [
  | inl done ↦ rw done (omega arith)
  | inr more ↦ rw more (length-digits_before 19 (num / 10) ((48 + num % 10) ∷ []))
]

zeros-digits : (n : ℕ) → All IsDigit (replicate n 48)
zeros-digits zero = tt
zeros-digits (suc n) = (omega arith, zeros-digits n)

value_from-zeros :
    (n : ℕ) (digits : List ℕ) → value_from 0 (replicate n 48 ++ digits) ≡ value_from 0 digits
value_from-zeros zero digits = refl
value_from-zeros (suc n) digits = value_from-zeros n digits

pub six_digits-digits : (num : ℕ) → All IsDigit (six_digits num)
unfolding number_to_string append_number_to
six_digits-digits num =
    All-append IsDigit (replicate (6 - length (number_to_string num)) 48) (number_to_string num)
      (zeros-digits (6 - length (number_to_string num))) (digits_before-digits 20 num [] tt)

pub six_digits-length : (num : ℕ) → 1 ≤ length (six_digits num)
unfolding number_to_string append_number_to
six_digits-length num = omega (
  arith,
  has_digit num,
  length-append (replicate (6 - length (number_to_string num)) 48) (number_to_string num),
)

pub value_from-six_digits : (num : ℕ) → num < 2 ^ 64 → value_from 0 (six_digits num) ≡ num
unfolding number_to_string append_number_to
value_from-six_digits num small =
    value_from-zeros (6 - length (number_to_string num)) (number_to_string num)
    ∙ value_from-digits_before 20 num [] (omega arith)

-- The same for digits that need not be written out.
pub consume_digits :
    (digits rest : List ℕ)
    → All IsDigit digits
    → 1 ≤ length digits
    → NoDigit rest
    → value_from 0 digits < 2 ^ 64
    → consume_decimal_number (digits ++ rest) ≡ some (value_from 0 digits, rest)
consume_digits [] rest all long stop small = absurd (omega arith)
consume_digits (c ∷ digits) rest all long stop small =
    consume_decimal_number-digits c digits rest all stop
    ∙ rw (lt→ltb (value_from 0 (c ∷ digits)) (2 ^ 64) small) refl
