-- ===== src/Log/Physical.antt =====
-- ReadPhysicalRecord on what AddRecord wrote.
use tleveldb.Base.{
  ℕ, zero, suc, ◌+◌, ◌-◌, ◌*◌, ◌/◌, ◌%◌, ◌^◌, ◌<◌, ◌≤◌, ◌≡◌, refl, sym, ap, ◌∙◌, Bool, true, false,
  ◌&&◌, List, [], ◌∷◌, ◌++◌, ltb, ◌==◌, length, take, drop, get_or, append_assoc, take-append,
  drop-append, length-append, ltb-false, lt→ltb, ==_self, arith,
}
use tleveldb.Coding.{encode_fixed32, decode_fixed32}
use tleveldb.Coding.Fixed.{decode-encode_fixed32}
use tleveldb.Crc32c.{mask, unmask}
use tleveldb.Crc32c.Masked.{unmask-mask}
use tleveldb.Log.{Checksum, IsChecksum, SequentialFile, header_size, physical}
use tleveldb.Log.Reader.{Reader, less, char_value, parse_physical}

pub take-append_more :
    (xs ys : List ℕ) (n : ℕ) → length xs ≤ n → take n (xs ++ ys) ≡ xs ++ take (n - length xs) ys
take-append_more [] ys n h = ap (λ (t : ℕ). take t ys) (omega arith)
take-append_more (x ∷ xs) ys zero h = absurd (omega arith)
take-append_more (x ∷ xs) ys (suc n) h =
    ap (λ t. x ∷ t)
      (take-append_more xs ys n (omega arith) ∙ ap (λ (t : ℕ). xs ++ take t ys) (omega arith))

pub drop-append_more :
    (xs ys : List ℕ) (n : ℕ) → length xs ≤ n → drop n (xs ++ ys) ≡ drop (n - length xs) ys
drop-append_more [] ys n h = ap (λ (t : ℕ). drop t ys) (omega arith)
drop-append_more (x ∷ xs) ys zero h = absurd (omega arith)
drop-append_more (x ∷ xs) ys (suc n) h =
    drop-append_more xs ys n (omega arith) ∙ ap (λ (t : ℕ). drop t ys) (omega arith)

-- The bytes of a header in front of `rest`.
byte_4 :
    (v : ℕ) (a b t : ℕ) (rest : List ℕ) → get_or (encode_fixed32 v ++ (a ∷ b ∷ t ∷ rest)) 4 0 ≡ a
unfolding encode_fixed32
byte_4 v a b t rest = refl

byte_5 :
    (v : ℕ) (a b t : ℕ) (rest : List ℕ) → get_or (encode_fixed32 v ++ (a ∷ b ∷ t ∷ rest)) 5 0 ≡ b
unfolding encode_fixed32
byte_5 v a b t rest = refl

byte_6 :
    (v : ℕ) (a b t : ℕ) (rest : List ℕ) → get_or (encode_fixed32 v ++ (a ∷ b ∷ t ∷ rest)) 6 0 ≡ t
unfolding encode_fixed32
byte_6 v a b t rest = refl

drop_6 :
    (v : ℕ) (a b t : ℕ) (rest : List ℕ) → drop 6 (encode_fixed32 v ++ (a ∷ b ∷ t ∷ rest)) ≡ t ∷ rest
unfolding encode_fixed32
drop_6 v a b t rest = refl

drop_7 :
    (v : ℕ) (a b t : ℕ) (rest : List ℕ) → drop 7 (encode_fixed32 v ++ (a ∷ b ∷ t ∷ rest)) ≡ rest
unfolding encode_fixed32
drop_7 v a b t rest = refl

header_length :
    (v : ℕ) (a b t : ℕ) (rest : List ℕ)
    → length (encode_fixed32 v ++ (a ∷ b ∷ t ∷ rest)) ≡ 7 + length rest
unfolding encode_fixed32
header_length v a b t rest = omega arith

abbrev pub record_bytes : Checksum → ℕ → List ℕ → List ℕ → List ℕ
record_bytes crc type fragment rest =
    encode_fixed32 (mask (crc.extend (crc.extend 0 (type ∷ [])) fragment))
    ++ (length fragment % 256 ∷ length fragment / 2 ^ 8 % 256 ∷ type ∷ (fragment ++ rest))

pub physical-record_bytes :
    (crc : Checksum) (type : ℕ) (fragment rest : List ℕ)
    → physical crc type fragment ++ rest ≡ record_bytes crc type fragment rest
physical-record_bytes crc type fragment rest =
    append_assoc (encode_fixed32 (mask (crc.extend (crc.extend 0 (type ∷ [])) fragment)))
      (length fragment % 256 ∷ length fragment / 2 ^ 8 % 256 ∷ type ∷ fragment) rest

pub length-physical :
    (crc : Checksum) (type : ℕ) (fragment : List ℕ)
    → length (physical crc type fragment) ≡ header_size + length fragment
length-physical crc type fragment =
    header_length (mask (crc.extend (crc.extend 0 (type ∷ [])) fragment)) (length fragment % 256)
      (length fragment / 2 ^ 8 % 256) type fragment

two_bytes : (n : ℕ) → n < 2 ^ 16 → n % 256 + n / 2 ^ 8 % 256 * 2 ^ 8 ≡ n
two_bytes n h = omega arith

mask-small : (c : ℕ) → mask c < 2 ^ 32
unfolding mask
mask-small c = omega arith

and_false : (b : Bool) → (b && false) ≡ false
and_false true = refl
and_false false = refl

low_char : (t : ℕ) → t < 128 → char_value t ≡ t
low_char t h = rw (lt→ltb t 128 h) refl

not_zero : (t : ℕ) → 0 < t → (t == 0) ≡ false
not_zero t h = ground arith

-- The checksum in the header is that of the type and the fragment.
checksum_read :
    (crc : Checksum) (type : ℕ) (fragment rest : List ℕ)
    → IsChecksum crc
    → unmask (decode_fixed32 (record_bytes crc type fragment rest)) ≡ crc.extend 0 (type ∷ fragment)
checksum_read crc type fragment rest is =
    ap unmask (
      decode-encode_fixed32 (mask (crc.extend (crc.extend 0 (type ∷ [])) fragment))
        (length fragment % 256 ∷ length fragment / 2 ^ 8 % 256 ∷ type ∷ (fragment ++ rest))
        mask_small)
    ∙ unmask-mask (crc.extend (crc.extend 0 (type ∷ [])) fragment)
        (is.small (crc.extend 0 (type ∷ [])) fragment)
    ∙ is.extends 0 (type ∷ []) fragment
  where
    mask_small : mask (crc.extend (crc.extend 0 (type ∷ [])) fragment) < 2 ^ 32
    mask_small = mask-small (crc.extend (crc.extend 0 (type ∷ [])) fragment)

module _ (crc : Checksum) (files : SequentialFile) where
  -- A header and a whole fragment in the buffer are taken from it.
  pub parse_physical-record_bytes :
      (type : ℕ) (fragment rest old : List ℕ) (r : Reader crc files)
      → IsChecksum crc
      → r.buffer ≡ record_bytes crc type fragment rest
      → r.initial_offset ≡ 0
      → 0 < type
      → type < 128
      → length fragment < 2 ^ 16
      → parse_physical crc files old r ≡ (type, fragment, record r { buffer = rest })
  unfolding parse_physical
  parse_physical-record_bytes type fragment rest old r is e whole low high short =
      rw
        (
          size,
          type_read,
          enough,
          not_zero type low,
          same_crc,
          and_false r.checksum,
          after,
          no_skip,
          taken,
        )
        refl
    where
      crc_of : ℕ
      crc_of = mask (crc.extend (crc.extend 0 (type ∷ [])) fragment)

      low_byte : ℕ
      low_byte = length fragment % 256

      high_byte : ℕ
      high_byte = length fragment / 2 ^ 8 % 256

      size : get_or r.buffer 4 0 + get_or r.buffer 5 0 * 2 ^ 8 ≡ length fragment
      size =
          rw
            (
              e,
              byte_4 crc_of low_byte high_byte type (fragment ++ rest),
              byte_5 crc_of low_byte high_byte type (fragment ++ rest),
            )
            (two_bytes (length fragment) short)

      type_read : char_value (get_or r.buffer 6 0) ≡ type
      type_read =
          ap (λ t. char_value (get_or t 6 0)) e
          ∙ ap char_value (byte_6 crc_of low_byte high_byte type (fragment ++ rest))
          ∙ low_char type high

      enough : ltb (length r.buffer) (header_size + length fragment) ≡ false
      enough = ltb-false (length r.buffer) (header_size + length fragment) (
          omega (
            arith,
            ap (λ (t : List ℕ). length t) e,
            header_length crc_of low_byte high_byte type (fragment ++ rest),
            length-append fragment rest,
          ))

      same_crc :
          (crc.extend 0 (take (1 + length fragment) (drop 6 r.buffer))
            == unmask (decode_fixed32 r.buffer))
          ≡ true
      same_crc =
          rw
            (
              e,
              drop_6 crc_of low_byte high_byte type (fragment ++ rest),
              take-append (type ∷ fragment) rest (1 + length fragment) (omega arith),
              checksum_read crc type fragment rest is,
            )
            (==_self (crc.extend 0 (type ∷ fragment)))

      after : drop (header_size + length fragment) r.buffer ≡ rest
      after =
          ap (drop (header_size + length fragment))
            (e ∙ sym (physical-record_bytes crc type fragment rest))
          ∙ drop-append (physical crc type fragment) rest (header_size + length fragment)
              (sym (header_length crc_of low_byte high_byte type fragment))

      no_skip :
          ltb
            (less (less (less r.end_of_buffer_offset (length rest)) header_size) (length fragment))
            r.initial_offset
          ≡ false
      no_skip = ltb-false _ r.initial_offset (omega arith)

      taken : take (length fragment) (drop header_size r.buffer) ≡ fragment
      taken =
          ap (λ t. take (length fragment) (drop 7 t)) e
          ∙ ap (take (length fragment)) (drop_7 crc_of low_byte high_byte type (fragment ++ rest))
          ∙ take-append fragment rest (length fragment) refl
