-- ===== src/Coding/Strings.antt =====
-- PutLengthPrefixedSlice, GetLengthPrefixedSlice and VarintLength of lib/leveldb/util/coding.cc.
use native.Mathlib.Nat.{mod-eq_of_lt}
use tleveldb.Base.{
  ℕ, zero, suc, ◌+◌, ◌/◌, ◌^◌, ◌<◌, ◌≡◌, refl, true, some, List, [], ◌++◌, arith, append_assoc,
  length, length-append, take-append, drop-append, length-take, length-drop, Option-cases, inl, inr,
  leb,
}
use tleveldb.Coding.{
  encode_varint64_loop, encode_varint64, varint_length_loop, varint_length, put_varint32,
  get_varint32, put_length_prefixed_slice, slice_of_length, get_length_prefixed_slice,
}
use tleveldb.Coding.Varint.{get-encode_varint32, get_varint32-length}

slice_of_length-append :
    (value rest : List ℕ) → slice_of_length (length value) (value ++ rest) ≡ some (value, rest)
unfolding slice_of_length
slice_of_length-append value rest =
    rw (enough, take-append value rest _ refl, drop-append value rest _ refl)
  where
    enough : leb (length value) (length (value ++ rest)) ≡ true
    enough = ground (arith, length-append value rest)

-- A string is read back from its length-prefixed form, and what follows is left.
pub get-put_length_prefixed_slice :
    (value rest : List ℕ)
    → length value < 2 ^ 32
    → get_length_prefixed_slice (put_length_prefixed_slice [] value ++ rest) ≡ some (value, rest)
unfolding get_length_prefixed_slice put_length_prefixed_slice put_varint32
get-put_length_prefixed_slice value rest h =
    rw (mod-eq_of_lt h, append_assoc)
      (rw (get-encode_varint32 (length value) (value ++ rest) h, get_length_prefixed_slice)
        (slice_of_length-append value rest))

-- GetLengthPrefixedSlice takes a byte at least, and what it returns is no longer than the input.
pub get_length_prefixed_slice-length :
    (input value rest : List ℕ)
    → get_length_prefixed_slice input ≡ some (value, rest)
    → length value + length rest < length input
unfolding get_length_prefixed_slice slice_of_length
get_length_prefixed_slice-length input value rest e = elim (Option-cases (get_varint32 input)) [
  | inl bad ↦ absurd (ground (arith, bad))
  | inr ((len, left), got) ↦ ground (
    arith,
    got,
    get_varint32-length input len left got,
    length-take len left,
    length-drop len left,
  )
]

varint_length_loop-length :
    (k v len : ℕ) → varint_length_loop k v (len + 1) ≡ len + length (encode_varint64_loop k v)
unfolding varint_length_loop encode_varint64_loop
varint_length_loop-length zero v len = omega arith
varint_length_loop-length (suc k) v len =
    ground (arith, varint_length_loop-length k (v / 128) (len + 1))

-- VarintLength is the number of bytes that EncodeVarint64 writes.
pub varint_length-encode : (v : ℕ) → varint_length v ≡ length (encode_varint64 v)
unfolding varint_length encode_varint64
varint_length-encode v = omega (arith, varint_length_loop-length 9 v 0)
