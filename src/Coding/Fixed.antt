-- ===== src/Coding/Fixed.antt =====
-- The fixed-width numbers of lib/leveldb/util/coding.h, as little-endian sums.
use native.Mathlib.Nat.{mod-eq_of_lt}
use tleveldb.Base.{
  ℕ, ◌+◌, ◌*◌, ◌/◌, ◌%◌, ◌^◌, ◌<◌, bit_or, ◌≡◌, refl, ap, ◌∙◌, List, [], ◌∷◌, ◌++◌, arith, length,
  All,
}
use tleveldb.Base.Bits.{bit_or_high}
use tleveldb.Coding.{encode_fixed32, encode_fixed64, decode_fixed32, decode_fixed64}

-- One more byte above `k` bits that are already read.
next_field :
    (k width low field : ℕ)
    → low < 2 ^ k
    → field * 2 ^ k < 2 ^ width
    → bit_or low (field * 2 ^ k % 2 ^ width) ≡ low + field * 2 ^ k
next_field k width low field h fits =
    ap (λ (t : ℕ). bit_or low t) (mod-eq_of_lt fits) ∙ bit_or_high k low field h

-- The sum that four bytes stand for.
pub decode_fixed32-sum :
    (a b c d : ℕ) (rest : List ℕ)
    → a < 256
    → b < 256
    → c < 256
    → d < 256
    → decode_fixed32 (a ∷ b ∷ c ∷ d ∷ rest) ≡ a + b * 2 ^ 8 + c * 2 ^ 16 + d * 2 ^ 24
unfolding decode_fixed32
decode_fixed32-sum a b c d rest ha hb hc hd = rw (
  next_field 8 32 a b (omega arith) (omega arith),
  next_field 16 32 (a + b * 2 ^ 8) c (omega arith) (omega arith),
  next_field 24 32 (a + b * 2 ^ 8 + c * 2 ^ 16) d (omega arith) (omega arith),
)

-- A uint32_t is read back from the four bytes that were written for it.
pub decode-encode_fixed32 :
    (v : ℕ) (rest : List ℕ) → v < 2 ^ 32 → decode_fixed32 (encode_fixed32 v ++ rest) ≡ v
unfolding encode_fixed32
decode-encode_fixed32 v rest h =
    decode_fixed32-sum (v % 256) (v / 2 ^ 8 % 256) (v / 2 ^ 16 % 256) (v / 2 ^ 24 % 256) rest
      (omega arith) (omega arith) (omega arith) (omega arith)
    ∙ omega arith

-- The other way round: four bytes are written again as they were read.
pub encode-decode_fixed32 :
    (a b c d : ℕ)
    → a < 256
    → b < 256
    → c < 256
    → d < 256
    → encode_fixed32 (decode_fixed32 (a ∷ b ∷ c ∷ d ∷ [])) ≡ a ∷ b ∷ c ∷ d ∷ []
unfolding encode_fixed32
encode-decode_fixed32 a b c d ha hb hc hd =
    rw (decode_fixed32-sum a b c d [] ha hb hc hd) (ground arith)

pub decode_fixed64-sum :
    (a b c d e f g h : ℕ) (rest : List ℕ)
    → All (λ x. x < 256) (a ∷ b ∷ c ∷ d ∷ e ∷ f ∷ g ∷ h ∷ [])
    → decode_fixed64 (a ∷ b ∷ c ∷ d ∷ e ∷ f ∷ g ∷ h ∷ rest)
      ≡ a + b * 2 ^ 8 + c * 2 ^ 16 + d * 2 ^ 24 + e * 2 ^ 32 + f * 2 ^ 40 + g * 2 ^ 48 + h * 2 ^ 56
unfolding decode_fixed64
decode_fixed64-sum a b c d e f g h rest small =
    let s2 = a + b * 2 ^ 8 in
    let s3 = s2 + c * 2 ^ 16 in
    let s4 = s3 + d * 2 ^ 24 in
    let s5 = s4 + e * 2 ^ 32 in
    let s6 = s5 + f * 2 ^ 40 in
    let s7 = s6 + g * 2 ^ 48 in
    rw (
      next_field 8 64 a b (omega arith) (omega arith),
      next_field 16 64 s2 c (omega arith) (omega arith),
      next_field 24 64 s3 d (omega arith) (omega arith),
      next_field 32 64 s4 e (omega arith) (omega arith),
      next_field 40 64 s5 f (omega arith) (omega arith),
      next_field 48 64 s6 g (omega arith) (omega arith),
      next_field 56 64 s7 h (omega arith) (omega arith),
    )

-- A uint64_t is read back from the eight bytes that were written for it.
pub decode-encode_fixed64 :
    (v : ℕ) (rest : List ℕ) → v < 2 ^ 64 → decode_fixed64 (encode_fixed64 v ++ rest) ≡ v
unfolding encode_fixed64
decode-encode_fixed64 v rest h =
    decode_fixed64-sum (v % 256) (v / 2 ^ 8 % 256) (v / 2 ^ 16 % 256) (v / 2 ^ 24 % 256)
      (v / 2 ^ 32 % 256) (v / 2 ^ 40 % 256) (v / 2 ^ 48 % 256) (v / 2 ^ 56 % 256) rest (omega arith)
    ∙ omega arith

pub encode_fixed32-IsByte : (v : ℕ) → All (λ x. x < 256) (encode_fixed32 v)
unfolding encode_fixed32
encode_fixed32-IsByte v = omega arith

pub length-encode_fixed32 : (v : ℕ) → length (encode_fixed32 v) ≡ 4
unfolding encode_fixed32
length-encode_fixed32 v = refl

pub length-encode_fixed64 : (v : ℕ) → length (encode_fixed64 v) ≡ 8
unfolding encode_fixed64
length-encode_fixed64 v = refl
