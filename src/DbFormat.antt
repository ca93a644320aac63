-- ===== src/DbFormat.antt =====
-- lib/leveldb/db/dbformat.h and dbformat.cc: internal keys, which are a user key and eight bytes for
-- its sequence number and type. The bytes of an InternalKey are a list of numbers below 256.
pub mod Keys
pub mod Order
mod Examples
use Prim.Native.Nat.{Ordering, compare}
use tleveldb.Base.{
  ℕ, ◌+◌, ◌-◌, ◌*◌, ◌/◌, ◌%◌, ◌^◌, Bool, false, bit_or, Option, none, some, List, [], ◌∷◌, ◌++◌,
  leb, ltb, ◌==◌, if◌then◌else◌, length, take, drop,
}
use tleveldb.Coding.{put_fixed64, encode_fixed64, encode_varint32, decode_fixed64}
use tleveldb.Comparator.{or_else}

-- kMaxSequenceNumber and kValueTypeForSeek.
abbrev pub max_sequence_number : ℕ
max_sequence_number = 2 ^ 56 - 1

abbrev pub value_type_for_seek : ℕ
value_type_for_seek = 1

pub record ParsedInternalKey : Type 0 where
  pub user_key : List ℕ
  pub sequence : ℕ
  pub type : ℕ

unfoldable pub pack_sequence_and_type : ℕ → ℕ → ℕ
pack_sequence_and_type seq t = bit_or (seq * 2 ^ 8 % 2 ^ 64) t

unfoldable pub internal_key_encoding_length : ParsedInternalKey → ℕ
internal_key_encoding_length key = length key.user_key + 8

unfoldable pub append_internal_key : List ℕ → ParsedInternalKey → List ℕ
unfolding pack_sequence_and_type put_fixed64
append_internal_key result key =
    put_fixed64 (result ++ key.user_key) (pack_sequence_and_type key.sequence key.type)

-- The key without its last eight bytes, which the callers see to.
unfoldable pub extract_user_key : List ℕ → List ℕ
extract_user_key internal_key = take (length internal_key - 8) internal_key

-- DecodeFixed64 at the last eight bytes.
unfoldable pub extract_tag : List ℕ → ℕ
extract_tag internal_key = decode_fixed64 (drop (length internal_key - 8) internal_key)

-- `none` for false.
unfoldable pub parse_internal_key : List ℕ → Option ParsedInternalKey
parse_internal_key internal_key =
    let num = extract_tag internal_key in
    if ltb (length internal_key) 8
    then none
    else if leb (num % 256) 1
    then some (record {
      user_key = extract_user_key internal_key;
      sequence = num / 2 ^ 8;
      type = num % 256;
    })
    else none

-- A user comparator: the sign of Compare, and what its two methods leave in their first argument.
pub record UserComparator : Type 0 where
  pub cmp : List ℕ → List ℕ → Ordering
  pub shortest_separator : List ℕ → List ℕ → List ℕ
  pub short_successor : List ℕ → List ℕ

module _ (user : UserComparator) where
  -- InternalKeyComparator::Compare.
  unfoldable pub internal_compare : List ℕ → List ℕ → Ordering
  unfolding extract_user_key extract_tag
  internal_compare akey bkey =
      or_else (user.cmp (extract_user_key akey) (extract_user_key bkey))
        (compare (extract_tag bkey) (extract_tag akey))

  -- The common end of the two methods below: `tmp` replaces `key` if it is shorter and larger.
  unfoldable pub tack_on : List ℕ → List ℕ → List ℕ
  unfolding extract_user_key pack_sequence_and_type put_fixed64
  tack_on key tmp =
      let user_key = extract_user_key key in
      if ltb (length tmp) (length user_key)
      then elim (user.cmp user_key tmp) [
        | Ordering.lt ↦
            put_fixed64 tmp (pack_sequence_and_type max_sequence_number value_type_for_seek)
        | _ ↦ key
      ]
      else key

  unfoldable pub internal_shortest_separator : List ℕ → List ℕ → List ℕ
  internal_shortest_separator start limit =
      tack_on start (user.shortest_separator (extract_user_key start) (extract_user_key limit))

  unfoldable pub internal_short_successor : List ℕ → List ℕ
  internal_short_successor key = tack_on key (user.short_successor (extract_user_key key))

-- LookupKey: the bytes from start_ to end_, and where the key begins among them.
pub record LookupKey : Type 0 where
  pub space : List ℕ
  pub kstart : ℕ

unfoldable pub lookup_key : List ℕ → ℕ → LookupKey
unfolding pack_sequence_and_type
lookup_key user_key s =
    let klength = encode_varint32 ((length user_key + 8) % 2 ^ 32) in
    record {
      space =
          klength ++ (user_key ++ encode_fixed64 (pack_sequence_and_type s value_type_for_seek));
      kstart = length klength;
    }

unfoldable pub memtable_key : LookupKey → List ℕ
memtable_key k = k.space

unfoldable pub internal_key : LookupKey → List ℕ
internal_key k = drop k.kstart k.space

unfoldable pub user_key_of : LookupKey → List ℕ
user_key_of k = take (length k.space - k.kstart - 8) (drop k.kstart k.space)
