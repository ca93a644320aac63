-- ===== src/Coding/Arrays.antt =====
-- Arrays of fixed32 numbers in a block.
use tleveldb.Base.{
  ℕ, ◌+◌, ◌*◌, ◌^◌, ◌<◌, ◌≡◌, refl, sym, ap, ◌∙◌, List, [], ◌∷◌, ◌++◌, length, drop, length-append,
  append_assoc, drop-append, arith,
}
use tleveldb.Coding.{encode_fixed32, decode_fixed32}
use tleveldb.Coding.Fixed.{decode-encode_fixed32, length-encode_fixed32}

abbrev pub encode_all : List ℕ → List ℕ
encode_all [] = []
encode_all (o ∷ os) = encode_fixed32 o ++ encode_all os

pub encode_all-append : (xs ys : List ℕ) → encode_all (xs ++ ys) ≡ encode_all xs ++ encode_all ys
encode_all-append [] ys = refl
encode_all-append (x ∷ xs) ys =
    ap (λ t. encode_fixed32 x ++ t) (encode_all-append xs ys)
    ∙ sym (append_assoc (encode_fixed32 x) (encode_all xs) (encode_all ys))

pub length-encode_all : (os : List ℕ) → length (encode_all os) ≡ 4 * length os
length-encode_all [] = refl
length-encode_all (o ∷ os) = omega (
  arith,
  length-append (encode_fixed32 o) (encode_all os),
  length-encode_fixed32 o,
  length-encode_all os,
)

-- An offset is read at its place behind the filters.
pub offset_at :
    (front os : List ℕ) (o : ℕ) (rest tail : List ℕ) (n : ℕ)
    → n ≡ length front + 4 * length os
    → o < 2 ^ 32
    → decode_fixed32 (drop n (front ++ (encode_all (os ++ (o ∷ rest)) ++ tail))) ≡ o
offset_at front os o rest tail n place small =
    ap (λ t. decode_fixed32 (drop n t)) shape
    ∙ (ap decode_fixed32 (
          drop-append (front ++ encode_all os) (encode_fixed32 o ++ (encode_all rest ++ tail)) n
            size)
        ∙ decode-encode_fixed32 o (encode_all rest ++ tail) small)
  where
    shape :
        front ++ (encode_all (os ++ (o ∷ rest)) ++ tail)
        ≡ (front ++ encode_all os) ++ (encode_fixed32 o ++ (encode_all rest ++ tail))
    shape =
        rw
          (
            encode_all-append os (o ∷ rest),
            append_assoc (encode_all os) (encode_fixed32 o ++ encode_all rest) tail,
            append_assoc (encode_fixed32 o) (encode_all rest) tail,
            append_assoc front (encode_all os) (encode_fixed32 o ++ (encode_all rest ++ tail)),
          )
          refl

    size : n ≡ length (front ++ encode_all os)
    size = omega (arith, length-append front (encode_all os), length-encode_all os)
