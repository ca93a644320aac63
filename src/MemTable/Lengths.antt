-- ===== src/MemTable/Lengths.antt =====
-- lib/leveldb/db/memtable.cc: the length that stands before a key or a value.
use tleveldb.Base.{
  ℕ, zero, suc, ◌+◌, ◌-◌, ◌^◌, ◌≤◌, ◌<◌, ◌≡◌, refl, ap, some, List, [], ◌∷◌, ◌++◌, length, take,
  drop, take-append-drop, arith, take-append,
}
use tleveldb.Coding.{encode_varint32}
use tleveldb.Coding.Varint.{get-encode_varint32}
use tleveldb.MemTable.{read_length, prefixed}

length-encode_varint32 : (v : ℕ) → length (encode_varint32 v) ≤ 5
unfolding encode_varint32
length-encode_varint32 v = ground arith

take_through : (n m : ℕ) (xs ys : List ℕ) → n ≡ length xs + m → take n (xs ++ ys) ≡ xs ++ take m ys
take_through n m [] ys h = ap (λ t. take t ys) {y = m} (omega (arith, h))
take_through zero m (x ∷ xs) ys h = absurd (omega (arith, h))
take_through (suc n) m (x ∷ xs) ys h = ap (λ t. x ∷ t) (take_through n m xs ys (omega (arith, h)))

drop_through : (n m : ℕ) (xs ys : List ℕ) → n ≡ length xs + m → drop n (xs ++ ys) ≡ drop m ys
drop_through n m [] ys h = ap (λ t. drop t ys) {y = m} (omega (arith, h))
drop_through zero m (x ∷ xs) ys h = absurd (omega (arith, h))
drop_through (suc n) m (x ∷ xs) ys h = drop_through n m xs ys (omega (arith, h))

pub read_length-encode :
    (v : ℕ) (rest : List ℕ) → v < 2 ^ 32 → read_length (encode_varint32 v ++ rest) ≡ some (v, rest)
unfolding read_length
read_length-encode v rest h =
    let more = 5 - length (encode_varint32 v) in
    let split : 5 ≡ length (encode_varint32 v) + more = omega (arith, length-encode_varint32 v) in
    rw
      (
        read_length,
        take_through 5 more (encode_varint32 v) rest split,
        get-encode_varint32 v (take more rest) h,
        drop_through 5 more (encode_varint32 v) rest split,
        take-append-drop more rest,
      )
      refl

pub prefixed-encode :
    (bytes rest : List ℕ)
    → length bytes < 2 ^ 32
    → prefixed (encode_varint32 (length bytes) ++ (bytes ++ rest)) ≡ bytes
unfolding prefixed
prefixed-encode bytes rest h =
    rw (prefixed, read_length-encode (length bytes) (bytes ++ rest) h)
      (take-append bytes rest _ refl)
