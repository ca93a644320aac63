-- ===== src/Coding/Varint.antt =====
-- The variable-length numbers and the length-prefixed strings of lib/leveldb/util/coding.cc.
use native.Mathlib.Nat.{mod-eq_of_lt, div-add-mod}
use native.Mathlib.Numerals.{towards_suc}
use tleveldb.Base.{
  ℕ, zero, suc, ◌+◌, ◌*◌, ◌/◌, ◌%◌, ◌^◌, ◌≤◌, ◌<◌, bit_and, bit_or, ◌≡◌, ◌≢◌, refl, sym, ap, ◌∙◌,
  some, List, [], ◌∷◌, ◌++◌, arith, length, All, inl, inr, if◌then◌else◌, Bool-cases, ltb, ltb→lt,
  leb, ◌==◌,
}
use tleveldb.Base.Bits.{bit_or_high, bit_and_127, bit_and_128, bit_or_128}
use tleveldb.Coding.{
  more_byte, encode_varint32, encode_varint64_loop, encode_varint64, get_varint_loop,
  get_varint32_fallback, get_varint32, get_varint64,
}

loop_last : (k v : ℕ) → v < 128 → encode_varint64_loop k v ≡ v % 256 ∷ []
unfolding encode_varint64_loop
loop_last zero v h = refl
loop_last (suc k) v h = ground arith

loop_more :
    (k v : ℕ)
    → 128 ≤ v
    → encode_varint64_loop (suc k) v ≡ more_byte v ∷ encode_varint64_loop k (v / 128)
unfolding encode_varint64_loop
loop_more k v h = ground arith

shift_14 : (v : ℕ) → v / 128 / 128 ≡ v / 2 ^ 14
shift_14 v = omega arith

shift_21 : (v : ℕ) → v / 2 ^ 14 / 128 ≡ v / 2 ^ 21
shift_21 v = omega arith

shift_28 : (v : ℕ) → v / 2 ^ 21 / 128 ≡ v / 2 ^ 28
shift_28 v = omega arith

-- The last two of the unrolled cases: the groups from bit 21 on.
four_or_five :
    (v : ℕ)
    → v < 2 ^ 32
    → (if ltb v (2 ^ 28)
        then more_byte v ∷ more_byte (v / 2 ^ 7) ∷ more_byte (v / 2 ^ 14) ∷ v / 2 ^ 21 % 256 ∷ []
        else more_byte v
          ∷ more_byte (v / 2 ^ 7)
          ∷ more_byte (v / 2 ^ 14)
          ∷ more_byte (v / 2 ^ 21)
          ∷ v / 2 ^ 28 % 256
          ∷ [])
      ≡ more_byte v
        ∷ more_byte (v / 2 ^ 7)
        ∷ more_byte (v / 2 ^ 14)
        ∷ encode_varint64_loop 1 (v / 2 ^ 21)
four_or_five v h = elim (Bool-cases (ltb v (2 ^ 28))) [
  | inl four ↦ rw (four, loop_last 1 (v / 2 ^ 21) (ground arith))
  | inr more ↦ rw (
    more,
    loop_more 0 (v / 2 ^ 21) (ground arith),
    shift_28,
    loop_last 0 (v / 2 ^ 28) (ground arith),
  )
]

-- The unrolled cases of EncodeVarint32 are the loop of EncodeVarint64.
pub encode_varint32-eq-loop : (v : ℕ) → v < 2 ^ 32 → encode_varint32 v ≡ encode_varint64_loop 4 v
unfolding encode_varint32
encode_varint32-eq-loop v h = elim (Bool-cases (ltb v (2 ^ 7))) [
  | inl one ↦ rw (one, loop_last 4 v (ltb→lt _ _ one))
  | inr more1 ↦ elim (Bool-cases (ltb v (2 ^ 14))) [
    | inl two ↦ rw (more1, two, loop_more 3 v (ground arith), loop_last 3 (v / 128) (ground arith))
    | inr more2 ↦ elim (Bool-cases (ltb v (2 ^ 21))) [
      | inl three ↦ rw (
        more1,
        more2,
        three,
        loop_more 3 v (ground arith),
        loop_more 2 (v / 128) (ground arith),
        shift_14,
        loop_last 2 (v / 2 ^ 14) (ground arith),
      )
      | inr more3 ↦
          rw
            (
              more1,
              more2,
              more3,
              loop_more 3 v (ground arith),
              loop_more 2 (v / 128) (ground arith),
              shift_14,
              loop_more 1 (v / 2 ^ 14) (ground arith),
              shift_21,
            )
            (four_or_five v h)
    ]
  ]
]

pow-add_seven : (k : ℕ) → 2 ^ (k + 7) ≡ 2 ^ k * 128
pow-add_seven k = simp towards_suc (omega arith)

-- What stays of `v`, shifted by `k`, when its lowest seven bits go out on their own.
seven_bits : (k v : ℕ) → v / 128 * 2 ^ (k + 7) + v % 128 * 2 ^ k ≡ v * 2 ^ k
seven_bits k v = rw (pow-add_seven k) (omega (arith, ap (λ (n : ℕ). n * 2 ^ k) (div-add-mod v 128)))

module _ (last_shift modulus : ℕ) where
  -- A byte without the top bit ends the number.
  last_byte :
      (w shift result : ℕ) (rest : List ℕ)
      → w < 128
      → result < 2 ^ shift
      → result + w * 2 ^ shift < modulus
      → shift ≤ last_shift
      → get_varint_loop last_shift modulus (w ∷ rest) shift result
        ≡ some (result + w * 2 ^ shift, rest)
  unfolding get_varint_loop
  last_byte w shift result rest small low fits now = ground (
    arith,
    bit_and_128 w,
    bit_or_high shift result w,
    mod-eq_of_lt {n = w * 2 ^ shift} {m = modulus} (omega arith),
  )

  -- A byte with the top bit adds its group and the loop goes on.
  inner_byte :
      (g shift result : ℕ) (rest : List ℕ)
      → g < 128
      → result < 2 ^ shift
      → result + g * 2 ^ shift < modulus
      → shift ≤ last_shift
      → get_varint_loop last_shift modulus ((g + 128) ∷ rest) shift result
        ≡ get_varint_loop last_shift modulus rest (shift + 7) (result + g * 2 ^ shift)
  unfolding get_varint_loop
  inner_byte g shift result rest small low fits now = ground (
    arith,
    group,
    bit_and_128 (g + 128),
    bit_or_high shift result g,
    mod-eq_of_lt {n = g * 2 ^ shift} {m = modulus} (omega arith),
  )
    where
      group : bit_and (g + 128) 127 ≡ g
      group = omega (arith, bit_and_127 (g + 128))

  group_below :
      (g shift result : ℕ) → g < 128 → result < 2 ^ shift → result + g * 2 ^ shift < 2 ^ (shift + 7)
  group_below g shift result small low = grind (arith, pow-add_seven shift)

  -- The loop reads the groups of `v`, which count from bit `shift` on.
  get_varint_loop-encode :
      (k v shift result : ℕ) (rest : List ℕ)
      → v < 128 ^ suc k
      → result < 2 ^ shift
      → result + v * 2 ^ shift < modulus
      → shift + 7 * k ≤ last_shift
      → get_varint_loop last_shift modulus (encode_varint64_loop k v ++ rest) shift result
        ≡ some (result + v * 2 ^ shift, rest)
  unfolding encode_varint64_loop
  get_varint_loop-encode zero v shift result rest hv low fits now =
      rw (mod-eq_of_lt {n = v} {m = 256} (omega arith))
        (last_byte v shift result rest (omega arith) low fits (omega arith))
  get_varint_loop-encode (suc k) v shift result rest hv low fits now =
      elim (Bool-cases (leb 128 v)) [
        | inl more ↦
            rw (more, bit_or_128 v)
              (inner_byte (v % 128) shift result (encode_varint64_loop k (v / 128) ++ rest)
                  (omega arith) low (omega (arith, seven_bits shift v)) (omega arith)
                ∙ get_varint_loop-encode k (v / 128) (shift + 7) (result + v % 128 * 2 ^ shift) rest
                    (omega arith) (group_below (v % 128) shift result (omega arith) low)
                    (omega (arith, seven_bits shift v)) (omega arith)
                ∙ ap (λ (t : ℕ). some (t, rest)) (omega (arith, seven_bits shift v)))
        | inr last ↦
            rw (last, mod-eq_of_lt {n = v} {m = 256} (ground arith))
              (last_byte v shift result rest (ground arith) low fits (omega arith))
      ]

get_varint32-fallback_head :
    (byte : ℕ) (p : List ℕ)
    → byte < 256
    → get_varint32 (byte ∷ p) ≡ get_varint32_fallback (byte ∷ p)
unfolding get_varint32
get_varint32-fallback_head byte p h = elim (Bool-cases (bit_and byte 128 == 0)) [
  | inl short ↦
      let small : byte < 128 = ground (arith, bit_and_128 byte) in
      rw short (
        sym (
          unfold get_varint32_fallback in
          last_byte 28 (2 ^ 32) byte 0 0 p small (omega arith) (omega arith) (omega arith)
          ∙ ap (λ (t : ℕ). some (t, p)) (omega arith)))
  | inr long ↦ rw long
]

-- The fast path of GetVarint32Ptr gives what GetVarint32PtrFallback would, on every list of bytes.
pub get_varint32-fallback :
    (p : List ℕ) → All (λ b. b < 256) p → get_varint32 p ≡ get_varint32_fallback p
get_varint32-fallback [] h = unfold get_varint32 in refl
get_varint32-fallback (byte ∷ p) h = get_varint32-fallback_head byte p h.0

encode_varint64_loop-IsByte : (k v : ℕ) → All (λ b. b < 256) (encode_varint64_loop k v)
unfolding encode_varint64_loop
encode_varint64_loop-IsByte zero v = omega arith
encode_varint64_loop-IsByte (suc k) v =
    ground (arith, bit_or_128 v, encode_varint64_loop-IsByte k (v / 128))

pub encode_varint64-IsByte : (v : ℕ) → All (λ b. b < 256) (encode_varint64 v)
unfolding encode_varint64
encode_varint64-IsByte v = encode_varint64_loop-IsByte 9 v

pub encode_varint32-IsByte : (v : ℕ) → v < 2 ^ 32 → All (λ b. b < 256) (encode_varint32 v)
encode_varint32-IsByte v h = rw (encode_varint32-eq-loop v h) (encode_varint64_loop-IsByte 4 v)

encode_varint32-ne-nil : (v : ℕ) → encode_varint32 v ≢ []
unfolding encode_varint32
encode_varint32-ne-nil v e = ground arith

get_fallback-encode :
    (v : ℕ) (rest : List ℕ)
    → v < 2 ^ 32
    → get_varint32_fallback (encode_varint32 v ++ rest) ≡ some (v, rest)
unfolding get_varint32_fallback
get_fallback-encode v rest h = rw (encode_varint32-eq-loop v h) (
    get_varint_loop-encode 28 (2 ^ 32) 4 v 0 0 rest (omega arith) (omega arith) (omega arith)
      (omega arith)
    ∙ ap (λ (t : ℕ). some (t, rest)) (omega arith))

-- What EncodeVarint32 wrote, GetVarint32 reads back, and it leaves what follows.
pub get-encode_varint32 :
    (v : ℕ) (rest : List ℕ) → v < 2 ^ 32 → get_varint32 (encode_varint32 v ++ rest) ≡ some (v, rest)
get-encode_varint32 v rest h =
    head_byte (encode_varint32 v) (encode_varint32-IsByte v h) (encode_varint32-ne-nil v)
    ∙ get_fallback-encode v rest h
  where
    head_byte :
        (bytes : List ℕ)
        → All (λ b. b < 256) bytes
        → bytes ≢ []
        → get_varint32 (bytes ++ rest) ≡ get_varint32_fallback (bytes ++ rest)
    head_byte [] small filled = absurd (filled refl)
    head_byte (b ∷ bytes) small filled = get_varint32-fallback_head b (bytes ++ rest) small.0

-- What EncodeVarint64 wrote, GetVarint64 reads back, and it leaves what follows.
pub get-encode_varint64 :
    (v : ℕ) (rest : List ℕ) → v < 2 ^ 64 → get_varint64 (encode_varint64 v ++ rest) ≡ some (v, rest)
unfolding get_varint64 encode_varint64
get-encode_varint64 v rest h =
    get_varint_loop-encode 63 (2 ^ 64) 9 v 0 0 rest (omega arith) (omega arith) (omega arith)
      (omega arith)
    ∙ ap (λ (t : ℕ). some (t, rest)) (omega arith)

-- A number that is read takes one byte at least, and one for each seven bits at most.
get_varint_loop-length :
    (last_shift modulus : ℕ) (p : List ℕ) (j shift result v : ℕ) (rest : List ℕ)
    → shift ≡ 7 * j
    → get_varint_loop last_shift modulus p shift result ≡ some (v, rest)
    → (length rest < length p) × (7 * (length p + j) ≤ 7 * length rest + last_shift + 7)
unfolding get_varint_loop
get_varint_loop-length last_shift modulus [] j shift result v rest hs e = cc
get_varint_loop-length last_shift modulus (byte ∷ p) j shift result v rest hs e = ground (
  arith,
  get_varint_loop-length last_shift modulus p (j + 1) (shift + 7)
      (bit_or result (bit_and byte 127 * 2 ^ shift % modulus)) v rest,
)

-- GetVarint64 takes one to ten bytes of any input that it accepts.
pub get_varint64-length :
    (p : List ℕ) (v : ℕ) (rest : List ℕ)
    → get_varint64 p ≡ some (v, rest)
    → (length rest < length p) × (length p ≤ length rest + 10)
unfolding get_varint64
get_varint64-length p v rest e =
    omega (arith, get_varint_loop-length 63 (2 ^ 64) p 0 0 0 v rest refl e)

-- GetVarint32 takes one to five bytes of any input that it accepts.
pub get_varint32-length :
    (p : List ℕ) (v : ℕ) (rest : List ℕ)
    → get_varint32 p ≡ some (v, rest)
    → (length rest < length p) × (length p ≤ length rest + 5)
unfolding get_varint32 get_varint32_fallback
get_varint32-length [] v rest e =
    omega (arith, get_varint_loop-length 28 (2 ^ 32) [] 0 0 0 v rest refl e)
get_varint32-length (byte ∷ p) v rest e =
    ground (arith, get_varint_loop-length 28 (2 ^ 32) (byte ∷ p) 0 0 0 v rest refl)
