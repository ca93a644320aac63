-- ===== src/Hash.antt =====
-- lib/leveldb/util/hash.cc: a hash of a string of bytes with a seed, on uint32_t.
use tleveldb.Base.{ℕ, ◌+◌, ◌*◌, ◌/◌, ◌%◌, ◌^◌, bit_xor, List, [], ◌∷◌, length}
use tleveldb.Coding.{decode_fixed32}

abbrev multiplier : ℕ
multiplier = 0xc6a4a793

-- `h += w; h *= m; h ^= (h >> r);`
abbrev mix : ℕ → ℕ → ℕ → ℕ
mix h w r = let h' = (h + w) % 2 ^ 32 * multiplier % 2 ^ 32 in bit_xor h' (h' / 2 ^ r)

-- The loop on groups of four bytes, and the switch on what remains.
unfoldable pub hash_loop : List ℕ → ℕ → ℕ
hash_loop (a ∷ b ∷ c ∷ d ∷ rest) h = hash_loop rest (mix h (decode_fixed32 (a ∷ b ∷ c ∷ d ∷ [])) 16)
hash_loop (a ∷ b ∷ c ∷ []) h = mix (((h + c * 2 ^ 16) % 2 ^ 32 + b * 2 ^ 8) % 2 ^ 32) a 24
hash_loop (a ∷ b ∷ []) h = mix ((h + b * 2 ^ 8) % 2 ^ 32) a 24
hash_loop (a ∷ []) h = mix h a 24
hash_loop [] h = h

unfoldable pub hash : List ℕ → ℕ → ℕ
unfolding hash_loop
hash bytes seed = hash_loop bytes (bit_xor seed (length bytes * multiplier % 2 ^ 64) % 2 ^ 32)
