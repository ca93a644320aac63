-- ===== src/Block/Entry.antt =====
-- DecodeEntry on an entry that Add wrote.
use tleveldb.Base.{
  ℕ, zero, suc, ◌+◌, ◌-◌, ◌/◌, ◌%◌, ◌^◌, ◌<◌, ◌≤◌, ◌≡◌, refl, ◌∙◌, bit_or, bit_and, true, false,
  some, List, [], ◌∷◌, ◌++◌, ltb, ◌==◌, length, drop, inl, inr, Bool-cases, ltb-false, ltb→lt,
  length-append, length-drop, arith,
}
use tleveldb.Base.Bits.{bit_or_lowest, bit_and_128}
use tleveldb.Coding.{encode_varint32, get_varint32}
use tleveldb.Coding.Varint.{get-encode_varint32}
use tleveldb.Block.Iter.{decode_sizes, decode_entry}

-- `a | b` is no smaller than either.
le-bit_or : (fuel a b : ℕ) → a + b ≤ fuel → (a ≤ bit_or a b) × (b ≤ bit_or a b)
le-bit_or zero zero zero h = omega (arith, bit_or_lowest 0 0)
le-bit_or zero (suc a) b h = absurd (omega arith)
le-bit_or zero zero (suc b) h = absurd (omega arith)
le-bit_or (suc fuel) a b h =
    omega (arith, bit_or_lowest a b, le-bit_or fuel (a / 2) (b / 2) (omega arith))

one_byte : (a : ℕ) (p : List ℕ) → a < 128 → get_varint32 (a ∷ p) ≡ some (a, p)
unfolding get_varint32
one_byte a p h = rw (zero_bit) refl
  where
    zero_bit : (bit_and a 128 == 0) ≡ true
    zero_bit = ground (arith, bit_and_128 a)

-- The fast path of DecodeEntry gives what the general one would.
pub decode_entry-sizes : (p : List ℕ) → 3 ≤ length p → decode_entry p ≡ decode_sizes p
unfolding decode_entry
decode_entry-sizes [] h = absurd (omega arith)
decode_entry-sizes (a ∷ []) h = absurd (omega arith)
decode_entry-sizes (a ∷ b ∷ []) h = absurd (omega arith)
decode_entry-sizes (a ∷ b ∷ c ∷ p) h = elim (Bool-cases (ltb (bit_or (bit_or a b) c) 128)) [
  | inr general ↦ rw general refl
  | inl fast ↦
      rw
        (
          fast,
          decode_sizes,
          one_byte a (b ∷ c ∷ p) (omega (arith, small fast)),
          one_byte b (c ∷ p) (omega (arith, small fast)),
          one_byte c p (omega (arith, small fast)),
        )
        refl
]
  where
    small : ltb (bit_or (bit_or a b) c) 128 ≡ true → (a < 128) × (b < 128) × (c < 128)
    small fast = omega (
      arith,
      ltb→lt (bit_or (bit_or a b) c) 128 fast,
      le-bit_or (bit_or a b + c) (bit_or a b) c (omega arith),
      le-bit_or (a + b) a b (omega arith),
    )

-- The bytes of an entry in front of `rest`.
abbrev pub entry_bytes : ℕ → List ℕ → List ℕ → List ℕ → List ℕ
entry_bytes shared key value rest =
    encode_varint32 shared
    ++ (encode_varint32 (length key - shared)
        ++ (encode_varint32 (length value) ++ (drop shared key ++ (value ++ rest))))

encode_varint32-some : (v : ℕ) → 0 < length (encode_varint32 v)
unfolding encode_varint32
encode_varint32-some v = ground arith

pub length-entry_bytes :
    (shared : ℕ) (key value rest : List ℕ)
    → 3 + length rest ≤ length (entry_bytes shared key value rest)
length-entry_bytes shared key value rest = omega (
  arith,
  encode_varint32-some shared,
  encode_varint32-some (length key - shared),
  encode_varint32-some (length value),
  length-append {0},
)

-- An entry that Add wrote is decoded to its sizes, with the key delta in front of the value.
pub decode_entry-entry_bytes :
    (shared : ℕ) (key value rest : List ℕ)
    → shared ≤ length key
    → length key + length value < 2 ^ 32
    → length (entry_bytes shared key value rest) < 2 ^ 32
    → decode_entry (entry_bytes shared key value rest)
      ≡ some (record {
        shared = shared;
        non_shared = length key - shared;
        value_length = length value;
        delta = drop shared key ++ (value ++ rest);
      })
decode_entry-entry_bytes shared key value rest inside small room =
    decode_entry-sizes (entry_bytes shared key value rest)
      (omega (arith, length-entry_bytes shared key value rest))
    ∙ sizes_read
  where
    left : List ℕ
    left = drop shared key ++ (value ++ rest)

    left_small : length left < 2 ^ 32
    left_small = omega (arith, room, length-append {0})

    enough : ltb (length left % 2 ^ 32) ((length key - shared + length value) % 2 ^ 32) ≡ false
    enough = ltb-false (length left % 2 ^ 32) ((length key - shared + length value) % 2 ^ 32) (
        omega (
          arith,
          left_small,
          length-append (drop shared key) (value ++ rest),
          length-append value rest,
          length-drop shared key,
        ))

    sizes_read :
        decode_sizes (entry_bytes shared key value rest)
        ≡ some (record {
          shared = shared;
          non_shared = length key - shared;
          value_length = length value;
          delta = left;
        })
    sizes_read =
        unfold decode_sizes in
        rw
          (
            decode_sizes,
            get-encode_varint32 shared
                (encode_varint32 (length key - shared) ++ (encode_varint32 (length value) ++ left))
                (omega arith),
            get-encode_varint32 (length key - shared) (encode_varint32 (length value) ++ left)
                (omega arith),
            get-encode_varint32 (length value) left (omega arith),
            enough,
          )
          refl
