-- ===== src/Coding.antt =====
-- lib/leveldb/util/coding.h and coding.cc: numbers and strings as bytes. A std::string and a Slice
-- are lists of bytes; a function that writes at `char* dst` returns the bytes that it writes, and
-- one that reads from a Slice returns the value with what is left of the Slice, or `none` for false.
pub mod Fixed
pub mod Varint
pub mod Strings
pub mod Arrays
mod Examples
use tleveldb.Base.{
  ℕ, zero, suc, ◌+◌, ◌*◌, ◌/◌, ◌%◌, ◌^◌, bit_and, bit_or, Option, none, some, List, [], ◌∷◌, ◌++◌,
  ltb, leb, ◌==◌, if◌then◌else◌, length, take, drop, get_or,
}

-- EncodeFixed32, EncodeFixed64: the lowest byte first.
unfoldable pub encode_fixed32 : ℕ → List ℕ
encode_fixed32 value =
    value % 256 ∷ value / 2 ^ 8 % 256 ∷ value / 2 ^ 16 % 256 ∷ value / 2 ^ 24 % 256 ∷ []

unfoldable pub encode_fixed64 : ℕ → List ℕ
encode_fixed64 value =
    value % 256
    ∷ value / 2 ^ 8 % 256
    ∷ value / 2 ^ 16 % 256
    ∷ value / 2 ^ 24 % 256
    ∷ value / 2 ^ 32 % 256
    ∷ value / 2 ^ 40 % 256
    ∷ value / 2 ^ 48 % 256
    ∷ value / 2 ^ 56 % 256
    ∷ []

unfoldable pub put_fixed32 : List ℕ → ℕ → List ℕ
put_fixed32 dst value = dst ++ encode_fixed32 value

unfoldable pub put_fixed64 : List ℕ → ℕ → List ℕ
put_fixed64 dst value = dst ++ encode_fixed64 value

-- DecodeFixed32, DecodeFixed64: the callers pass four or eight readable bytes, so the 0 that
-- stands for a byte behind the buffer is never read.
unfoldable pub decode_fixed32 : List ℕ → ℕ
decode_fixed32 buffer =
    bit_or
      (bit_or (bit_or (get_or buffer 0 0) (get_or buffer 1 0 * 2 ^ 8 % 2 ^ 32))
        (get_or buffer 2 0 * 2 ^ 16 % 2 ^ 32))
      (get_or buffer 3 0 * 2 ^ 24 % 2 ^ 32)

unfoldable pub decode_fixed64 : List ℕ → ℕ
decode_fixed64 buffer =
    bit_or
      (bit_or
        (bit_or
          (bit_or
            (bit_or
              (bit_or (bit_or (get_or buffer 0 0) (get_or buffer 1 0 * 2 ^ 8 % 2 ^ 64))
                (get_or buffer 2 0 * 2 ^ 16 % 2 ^ 64))
              (get_or buffer 3 0 * 2 ^ 24 % 2 ^ 64))
            (get_or buffer 4 0 * 2 ^ 32 % 2 ^ 64))
          (get_or buffer 5 0 * 2 ^ 40 % 2 ^ 64))
        (get_or buffer 6 0 * 2 ^ 48 % 2 ^ 64))
      (get_or buffer 7 0 * 2 ^ 56 % 2 ^ 64)

-- `*(ptr++) = v | B` with B = 128, stored in a uint8_t.
abbrev pub more_byte : ℕ → ℕ
more_byte v = bit_or v 128 % 256

unfoldable pub encode_varint32 : ℕ → List ℕ
encode_varint32 v =
    if ltb v (2 ^ 7)
    then v % 256 ∷ []
    else if ltb v (2 ^ 14)
    then more_byte v ∷ v / 2 ^ 7 % 256 ∷ []
    else if ltb v (2 ^ 21)
    then more_byte v ∷ more_byte (v / 2 ^ 7) ∷ v / 2 ^ 14 % 256 ∷ []
    else if ltb v (2 ^ 28)
    then more_byte v ∷ more_byte (v / 2 ^ 7) ∷ more_byte (v / 2 ^ 14) ∷ v / 2 ^ 21 % 256 ∷ []
    else more_byte v
      ∷ more_byte (v / 2 ^ 7)
      ∷ more_byte (v / 2 ^ 14)
      ∷ more_byte (v / 2 ^ 21)
      ∷ v / 2 ^ 28 % 256
      ∷ []

-- The loop of EncodeVarint64, with the rounds that it may still make.
unfoldable pub encode_varint64_loop : ℕ → ℕ → List ℕ
encode_varint64_loop zero v = v % 256 ∷ []
encode_varint64_loop (suc rounds) v =
    let rest = encode_varint64_loop rounds (v / 2 ^ 7) in
    if leb 128 v then more_byte v ∷ rest else v % 256 ∷ []

-- Nine rounds shift a uint64_t down to one bit.
unfoldable pub encode_varint64 : ℕ → List ℕ
encode_varint64 v = encode_varint64_loop 9 v

unfoldable pub put_varint32 : List ℕ → ℕ → List ℕ
put_varint32 dst v = dst ++ encode_varint32 v

unfoldable pub put_varint64 : List ℕ → ℕ → List ℕ
put_varint64 dst v = dst ++ encode_varint64 v

-- The loop of VarintLength.
varint_length_loop : ℕ → ℕ → ℕ → ℕ
varint_length_loop zero v len = len
varint_length_loop (suc rounds) v len =
    let rest = varint_length_loop rounds (v / 2 ^ 7) (len + 1) in if leb 128 v then rest else len

unfoldable pub varint_length : ℕ → ℕ
unfolding varint_length_loop
varint_length v = varint_length_loop 9 v 1

-- The loop that GetVarint32PtrFallback (last shift 28, modulus 2 ^ 32) and GetVarint64Ptr (63 and
-- 2 ^ 64) share.
unfoldable pub get_varint_loop : (last_shift modulus : ℕ) → List ℕ → ℕ → ℕ → Option (ℕ × List ℕ)
get_varint_loop last_shift modulus [] shift result = none
get_varint_loop last_shift modulus (byte ∷ p) shift result =
    let group = bit_and byte 127 * 2 ^ shift % modulus in
    let more = get_varint_loop last_shift modulus p (shift + 7) (bit_or result group) in
    if leb shift last_shift
    then (if bit_and byte 128 == 0
        then some (bit_or result (byte * 2 ^ shift % modulus), p)
        else more)
    else none

unfoldable pub get_varint32_fallback : List ℕ → Option (ℕ × List ℕ)
get_varint32_fallback p = get_varint_loop 28 (2 ^ 32) p 0 0

-- GetVarint32Ptr and GetVarint32.
unfoldable pub get_varint32 : List ℕ → Option (ℕ × List ℕ)
get_varint32 [] = get_varint32_fallback []
get_varint32 (byte ∷ p) =
    if bit_and byte 128 == 0 then some (byte, p) else get_varint32_fallback (byte ∷ p)

-- GetVarint64Ptr and GetVarint64.
unfoldable pub get_varint64 : List ℕ → Option (ℕ × List ℕ)
get_varint64 p = get_varint_loop 63 (2 ^ 64) p 0 0

-- The size_t is passed to PutVarint32 as a uint32_t.
unfoldable pub put_length_prefixed_slice : List ℕ → List ℕ → List ℕ
put_length_prefixed_slice dst value = put_varint32 dst (length value % 2 ^ 32) ++ value

unfoldable pub slice_of_length : ℕ → List ℕ → Option (List ℕ × List ℕ)
slice_of_length len input =
    if leb len (length input) then some (take len input, drop len input) else none

unfoldable pub get_length_prefixed_slice : List ℕ → Option (List ℕ × List ℕ)
get_length_prefixed_slice input = elim (get_varint32 input) [
  | none ↦ none
  | some (len, rest) ↦ slice_of_length len rest
]
