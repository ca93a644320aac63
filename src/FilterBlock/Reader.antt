-- ===== src/FilterBlock/Reader.antt =====
-- What FilterBlockReader takes from the end of a finished filter block.
use tleveldb.Base.{
  ℕ, ◌+◌, ◌-◌, ◌*◌, ◌/◌, ◌%◌, ◌^◌, ◌<◌, ◌≡◌, refl, sym, ap, ◌∙◌, List, [], ◌∷◌, ◌++◌, length, drop,
  get_or, length-append, append_assoc, ltb-false, arith,
}
use tleveldb.Coding.{decode_fixed32}
use tleveldb.FilterBlock.{FilterBlockReader, new_reader}
use tleveldb.Coding.Arrays.{encode_all, length-encode_all, offset_at}

get_or-append : (xs ys : List ℕ) (n d : ℕ) → n ≡ length xs → get_or (xs ++ ys) n d ≡ get_or ys 0 d
get_or-append xs ys n d e = rw e (at_end xs)
  where
    at_end : (xs : List ℕ) → get_or (xs ++ ys) (length xs) d ≡ get_or ys 0 d
    at_end [] = refl
    at_end (x ∷ xs) = at_end xs

-- A block of these filters and these offsets, and the reader of it.
abbrev pub block_of : (filters os : List ℕ) → List ℕ
block_of filters os = filters ++ (encode_all (os ++ (length filters % 2 ^ 32 ∷ [])) ++ (11 ∷ []))

abbrev pub reader_of : (filters os : List ℕ) → FilterBlockReader
reader_of filters os = record {
  contents = block_of filters os;
  offset = length filters;
  num = length os;
  base_lg = 11;
}

length-block_of :
    (filters os : List ℕ) → length (block_of filters os) ≡ length filters + 4 * length os + 5
length-block_of filters os = omega (
  arith,
  length-append filters (encode_all (os ++ (length filters % 2 ^ 32 ∷ [])) ++ (11 ∷ [])),
  length-append (encode_all (os ++ (length filters % 2 ^ 32 ∷ []))) (11 ∷ []),
  length-encode_all (os ++ (length filters % 2 ^ 32 ∷ [])),
  length-append os (length filters % 2 ^ 32 ∷ []),
)

last_byte :
    (filters os : List ℕ) → get_or (block_of filters os) (length (block_of filters os) - 1) 0 ≡ 11
last_byte filters os =
    ap (λ t. get_or t (length (block_of filters os) - 1) 0)
      (sym (append_assoc filters offsets (11 ∷ [])))
    ∙ get_or-append (filters ++ offsets) (11 ∷ []) (length (block_of filters os) - 1) 0 (
        omega (
          arith,
          length-append filters (offsets ++ (11 ∷ [])),
          length-append offsets (11 ∷ []),
          length-append filters offsets,
        ))
  where
    offsets : List ℕ
    offsets = encode_all (os ++ (length filters % 2 ^ 32 ∷ []))

last_word :
    (filters os : List ℕ)
    → length filters < 2 ^ 32
    → decode_fixed32 (drop (length (block_of filters os) - 5) (block_of filters os))
      ≡ length filters
last_word filters os small =
    offset_at filters os (length filters % 2 ^ 32) [] (11 ∷ []) (length (block_of filters os) - 5)
      (omega (arith, length-block_of filters os)) (omega arith)
    ∙ omega arith

-- The reader finds the offset array, and the number of filters.
pub new_reader-block_of :
    (filters os : List ℕ)
    → length filters < 2 ^ 32
    → new_reader (block_of filters os) ≡ reader_of filters os
unfolding new_reader
new_reader-block_of filters os small =
    let size = length-block_of filters os in
    rw
      (
        last_byte filters os,
        last_word filters os small,
        ltb-false (length (block_of filters os)) 5 (omega (arith, size)),
        ltb-false (length (block_of filters os) - 5) (length filters) (omega (arith, size)),
      )
      (ap (λ (t : ℕ). record (reader_of filters os) { num = t }) count)
  where
    count : (length (block_of filters os) - 5 - length filters) / 4 ≡ length os
    count = omega (arith, length-block_of filters os)
