-- ===== src/DbFormat/Keys.antt =====
-- Internal keys are taken apart as they were put together.
use native.Mathlib.Nat.{mod-eq_of_lt}
use tleveldb.Base.{
  ℕ, ◌+◌, ◌-◌, ◌*◌, ◌%◌, ◌^◌, ◌<◌, ◌≤◌, ◌≡◌, refl, sym, ap, ◌∙◌, some, List, [], ◌++◌, length,
  length-append, take-append, drop-append, append-nil, arith,
}
use tleveldb.Base.Bits.{bit_or_low}
use tleveldb.Coding.{
  encode_fixed64, encode_varint32, decode_fixed64, put_varint32, put_length_prefixed_slice,
  get_length_prefixed_slice,
}
use tleveldb.Coding.Fixed.{length-encode_fixed64, decode-encode_fixed64}
use tleveldb.Coding.Strings.{get-put_length_prefixed_slice}
use tleveldb.DbFormat.{
  ParsedInternalKey, max_sequence_number, value_type_for_seek, pack_sequence_and_type,
  append_internal_key, extract_user_key, extract_tag, parse_internal_key,
  internal_key_encoding_length, lookup_key, memtable_key, internal_key, user_key_of,
}

-- A sequence number and a type that eight bytes hold.
pub record IsKey (key : ParsedInternalKey) : Type 0 where
  pub sequence_fits : key.sequence ≤ max_sequence_number
  pub type_known : key.type ≤ 1

pub pack_sum :
    (seq t : ℕ) → seq ≤ max_sequence_number → t ≤ 1 → pack_sequence_and_type seq t ≡ seq * 2 ^ 8 + t
unfolding pack_sequence_and_type
pack_sum seq t h k =
    rw (mod-eq_of_lt {n = seq * 2 ^ 8} {m = 2 ^ 64} (omega arith))
      (bit_or_low 8 seq t (omega arith))

-- The bytes of a key.
abbrev pub encoded : List ℕ → ℕ → List ℕ
encoded user_key tag = user_key ++ encode_fixed64 tag

pub append_internal_key-encoded :
    (key : ParsedInternalKey)
    → IsKey key
    → append_internal_key [] key ≡ encoded key.user_key (key.sequence * 2 ^ 8 + key.type)
unfolding append_internal_key
append_internal_key-encoded key is =
    ap (encoded key.user_key) (pack_sum key.sequence key.type is.sequence_fits is.type_known)

pub length-encoded :
    (user_key : List ℕ) (tag : ℕ) → length (encoded user_key tag) ≡ length user_key + 8
length-encoded user_key tag =
    omega (arith, length-append {0} user_key (encode_fixed64 tag), length-encode_fixed64 tag)

user_length : (user_key : List ℕ) (tag : ℕ) → length (encoded user_key tag) - 8 ≡ length user_key
user_length user_key tag = omega (arith, length-encoded user_key tag)

pub extract_user_key-encoded :
    (user_key : List ℕ) (tag : ℕ) → extract_user_key (encoded user_key tag) ≡ user_key
unfolding extract_user_key
extract_user_key-encoded user_key tag =
    take-append user_key (encode_fixed64 tag) _ (user_length user_key tag)

pub extract_tag-encoded :
    (user_key : List ℕ) (tag : ℕ) → tag < 2 ^ 64 → extract_tag (encoded user_key tag) ≡ tag
unfolding extract_tag
extract_tag-encoded user_key tag h =
    ap decode_fixed64
      (drop-append user_key (encode_fixed64 tag) _ (user_length user_key tag) ∙ sym (append-nil _))
    ∙ decode-encode_fixed64 tag [] h

pub tag_fits : (key : ParsedInternalKey) → IsKey key → key.sequence * 2 ^ 8 + key.type < 2 ^ 64
tag_fits key is = omega (arith, is.sequence_fits, is.type_known)

-- ParseInternalKey reads back the key that AppendInternalKey wrote.
pub parse-append_internal_key :
    (key : ParsedInternalKey)
    → IsKey key
    → parse_internal_key (append_internal_key [] key) ≡ some key
unfolding parse_internal_key
parse-append_internal_key key is =
    let tag = key.sequence * 2 ^ 8 + key.type in
    rw
      (
        append_internal_key-encoded key is,
        extract_tag-encoded key.user_key tag (tag_fits key is),
        extract_user_key-encoded key.user_key tag,
      )
      (ground (arith, length-encoded key.user_key tag, is.type_known))

-- InternalKeyEncodingLength is the number of bytes that AppendInternalKey adds.
pub length-append_internal_key :
    (result : List ℕ) (key : ParsedInternalKey)
    → length (append_internal_key result key) ≡ length result + internal_key_encoding_length key
unfolding append_internal_key internal_key_encoding_length
length-append_internal_key result key = omega (
  arith,
  length-encoded (result ++ key.user_key) (pack_sequence_and_type key.sequence key.type),
  length-append {0} result key.user_key,
)

abbrev seek_tag : ℕ → ℕ
seek_tag s = s * 2 ^ 8 + value_type_for_seek

internal_key-lookup_key :
    (user_key : List ℕ) (s : ℕ)
    → s ≤ max_sequence_number
    → internal_key (lookup_key user_key s) ≡ encoded user_key (seek_tag s)
unfolding internal_key lookup_key
internal_key-lookup_key user_key s h =
    drop-append (encode_varint32 ((length user_key + 8) % 2 ^ 32)) _ _ refl
    ∙ ap (encoded user_key) (pack_sum s value_type_for_seek h (omega arith))

memtable_key-lookup_key :
    (user_key : List ℕ) (s : ℕ)
    → s ≤ max_sequence_number
    → memtable_key (lookup_key user_key s)
      ≡ put_length_prefixed_slice [] (encoded user_key (seek_tag s))
unfolding memtable_key lookup_key put_length_prefixed_slice put_varint32
memtable_key-lookup_key user_key s h =
    rw (pack_sum s value_type_for_seek h (omega arith), length-encoded user_key (seek_tag s))

pub user_key_of-lookup_key :
    (user_key : List ℕ) (s : ℕ) → user_key_of (lookup_key user_key s) ≡ user_key
unfolding user_key_of lookup_key
user_key_of-lookup_key user_key s =
    let klength = encode_varint32 ((length user_key + 8) % 2 ^ 32) in
    let tag = pack_sequence_and_type s value_type_for_seek in
    rw (drop-append klength (encoded user_key tag) _ refl) (
      take-append user_key (encode_fixed64 tag) _ (
        omega
          (arith, length-append {0} klength (encoded user_key tag), length-encoded user_key tag)))

-- The bytes of a LookupKey are a length-prefixed internal key that parses to the user key, the
-- sequence number and the type for a seek, and user_key() is the user key, for user keys shorter
-- than 2^32 - 8 and sequence numbers of 56 bits.
pub get-lookup_key :
    (user_key : List ℕ) (s : ℕ)
    → length user_key + 8 < 2 ^ 32
    → s ≤ max_sequence_number
    → (get_length_prefixed_slice (memtable_key (lookup_key user_key s))
        ≡ some (internal_key (lookup_key user_key s), []))
      × (parse_internal_key (internal_key (lookup_key user_key s))
          ≡ some (record { user_key = user_key; sequence = s; type = value_type_for_seek }))
      × (user_key_of (lookup_key user_key s) ≡ user_key)
get-lookup_key user_key s short h =
    let key : ParsedInternalKey = record {
      user_key = user_key;
      sequence = s;
      type = value_type_for_seek;
    } in
    let is : IsKey key = record { sequence_fits = h; type_known = omega arith } in
    let bytes = encoded user_key (seek_tag s) in
    rw (internal_key-lookup_key user_key s h, memtable_key-lookup_key user_key s h)
      (
        ap get_length_prefixed_slice (sym (append-nil (put_length_prefixed_slice [] bytes)))
            ∙ get-put_length_prefixed_slice bytes []
                (omega (arith, length-encoded user_key (seek_tag s))),
        rw (← append_internal_key-encoded key is) (parse-append_internal_key key is),
        user_key_of-lookup_key user_key s,
      )
