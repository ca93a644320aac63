-- ===== src/Crc32c/Extend.antt =====
-- lib/leveldb/util/crc32c.cc: Extend. `accelerated` is what port::AcceleratedCRC32C returns, which is
-- the Extend of the library crc32c, or 0 in a build without it.
use tleveldb.Base.{
  ℕ, zero, suc, ◌+◌, ◌-◌, ◌*◌, ◌/◌, ◌%◌, ◌^◌, Bool, ltb, leb, ◌==◌, true, false, if◌then◌else◌,
  bit_xor, List, [], ◌∷◌, length, take, drop, get_or,
}
use tleveldb.Coding.{decode_fixed32}
use tleveldb.Crc32c.Tables.{
  byte_extension_table, stride_extension_table0, stride_extension_table1, stride_extension_table2,
  stride_extension_table3,
}

-- kCRC32Xor.
abbrev pub crc32_xor : ℕ
crc32_xor = 0xffffffff

-- "TestCRCBuffer", and its checksum.
abbrev test_crc_buffer : List ℕ
test_crc_buffer = 84 ∷ 101 ∷ 115 ∷ 116 ∷ 67 ∷ 82 ∷ 67 ∷ 66 ∷ 117 ∷ 102 ∷ 102 ∷ 101 ∷ 114 ∷ []

unfoldable pub can_accelerate_crc32c : (ℕ → List ℕ → ℕ) → Bool
can_accelerate_crc32c accelerated = accelerated 0 test_crc_buffer == 0xdcbc59fa

-- STEP1, and the loops that do it for each byte.
unfoldable pub step1 : ℕ → ℕ → ℕ
unfolding byte_extension_table
step1 l byte = bit_xor (get_or byte_extension_table (bit_xor (l % 256) byte) 0) (l / 2 ^ 8)

unfoldable pub step1_all : ℕ → List ℕ → ℕ
unfolding step1
step1_all l [] = l
step1_all l (byte ∷ p) = step1_all (step1 l byte) p

-- STEP4, on the word that is read.
unfoldable pub step4 : ℕ → ℕ → ℕ
unfolding stride_extension_table0 stride_extension_table1 stride_extension_table2
    stride_extension_table3
step4 word crc =
    bit_xor
      (bit_xor
        (bit_xor (bit_xor word (get_or stride_extension_table3 (crc % 256) 0))
          (get_or stride_extension_table2 (crc / 2 ^ 8 % 256) 0))
        (get_or stride_extension_table1 (crc / 2 ^ 16 % 256) 0))
      (get_or stride_extension_table0 (crc / 2 ^ 24) 0)

-- STEP4W.
abbrev shift_byte : ℕ → ℕ
shift_byte w = bit_xor (w / 2 ^ 8) (get_or byte_extension_table (w % 256) 0)

unfoldable pub step4w : ℕ → ℕ → ℕ
unfolding byte_extension_table
step4w l w = shift_byte (shift_byte (shift_byte (shift_byte (bit_xor w l))))

-- The partial results of the four strides, crc0 to crc3.
pub record Strides : Type 0 where
  pub crc0 : ℕ
  pub crc1 : ℕ
  pub crc2 : ℕ
  pub crc3 : ℕ

-- STEP16 while there are 16 bytes; a round takes some, so their number is fuel enough.
unfoldable pub swath_loop : ℕ → Strides → List ℕ → Strides × List ℕ
unfolding step4
swath_loop zero s p = (s, p)
swath_loop (suc fuel) s p = elim (ltb (length p) 16) [
  | true ↦ (s, p)
  | false ↦
      swath_loop fuel
        (record {
          crc0 = step4 (decode_fixed32 p) s.crc0;
          crc1 = step4 (decode_fixed32 (drop 4 p)) s.crc1;
          crc2 = step4 (decode_fixed32 (drop 8 p)) s.crc2;
          crc3 = step4 (decode_fixed32 (drop 12 p)) s.crc3;
        })
        (drop 16 p)
]

-- The words that follow, while there are four bytes.
unfoldable pub word_loop : ℕ → Strides → List ℕ → Strides × List ℕ
unfolding step4
word_loop zero s p = (s, p)
word_loop (suc fuel) s p = elim (ltb (length p) 4) [
  | true ↦ (s, p)
  | false ↦
      word_loop fuel
        (record {
          crc0 = s.crc1;
          crc1 = s.crc2;
          crc2 = s.crc3;
          crc3 = step4 (decode_fixed32 p) s.crc0;
        })
        (drop 4 p)
]

unfoldable pub combine : Strides → ℕ
unfolding step4w
combine s = step4w (step4w (step4w (step4w 0 s.crc0) s.crc1) s.crc2) s.crc3

-- The block on 16 bytes or more.
unfoldable pub by_strides : ℕ → List ℕ → ℕ × List ℕ
unfolding swath_loop word_loop combine
by_strides l p =
    let first : Strides = record {
      crc0 = bit_xor (decode_fixed32 p) l;
      crc1 = decode_fixed32 (drop 4 p);
      crc2 = decode_fixed32 (drop 8 p);
      crc3 = decode_fixed32 (drop 12 p);
    } in
    let (s, rest) = swath_loop (length p) first (drop 16 p) in
    let (s', rest') = word_loop (length p) s rest in (combine s', rest')

-- How many bytes there are up to RoundUp<4>(p), for an address of `p`.
abbrev bytes_to_align : ℕ → ℕ
bytes_to_align address = (address + 3) / 4 * 4 - address

unfoldable pub portable_extend : (address crc : ℕ) → List ℕ → ℕ
unfolding step1_all by_strides
portable_extend address crc p =
    let l = bit_xor crc crc32_xor in
    let n = if leb (bytes_to_align address) (length p) then bytes_to_align address else 0 in
    let l' = step1_all l (take n p) in
    let p' = drop n p in
    let (l'', rest) = if leb 16 (length p') then by_strides l' p' else (l', p') in
    bit_xor (step1_all l'' rest) crc32_xor

unfoldable pub extend : (ℕ → List ℕ → ℕ) → (address crc : ℕ) → List ℕ → ℕ
unfolding can_accelerate_crc32c portable_extend
extend accelerated address crc p =
    if can_accelerate_crc32c accelerated then accelerated crc p else portable_extend address crc p
