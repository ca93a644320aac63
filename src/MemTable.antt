-- ===== src/MemTable.antt =====
-- lib/leveldb/db/memtable.cc: the memtable, a skip list of the entries that Add writes. Its arena gives
-- the address of a node.
pub mod Lengths
pub mod Entries
pub mod Newest
pub mod Answered
pub mod Added
mod Examples
use Prim.Native.Nat.{Ordering}
use tleveldb.Base.{
  ℕ, ◌+◌, ◌-◌, ◌%◌, ◌^◌, Bool, Option, none, some, List, [], ◌∷◌, ◌++◌, ◌==◌, if◌then◌else◌, length,
  take, drop,
}
use tleveldb.Coding.{encode_varint32, encode_fixed64, decode_fixed64, get_varint32}
use tleveldb.DbFormat.{
  UserComparator, LookupKey, internal_compare, pack_sequence_and_type, memtable_key, user_key_of,
}
use tleveldb.SkipList.{SkipList, null, is_eq, new_skip_list, insert, iter_seek}

-- GetVarint32Ptr(p, p + 5, &len): the number, and the bytes behind it.
unfoldable pub read_length : List ℕ → Option (ℕ × List ℕ)
read_length bytes = elim (get_varint32 (take 5 bytes)) [
  | none ↦ none
  | some (len, rest) ↦ some (len, rest ++ drop 5 bytes)
]

-- GetLengthPrefixedSlice, which takes it that there is a length.
unfoldable pub prefixed : List ℕ → List ℕ
unfolding read_length
prefixed bytes = elim (read_length bytes) [ none ↦ [] | some (len, p) ↦ take len p ]

-- The bytes that Add writes.
unfoldable pub entry : (s type : ℕ) → (key value : List ℕ) → List ℕ
unfolding pack_sequence_and_type
entry s type key value =
    encode_varint32 ((length key + 8) % 2 ^ 32)
    ++ ((key ++ encode_fixed64 (pack_sequence_and_type s type))
        ++ (encode_varint32 (length value % 2 ^ 32) ++ value))

-- What Get leaves: true and the value, true and NotFound, or false.
pub data Answer : Type 0 where
  found : List ℕ → Answer
  deleted : Answer
  absent : Answer

abbrev pub by_type : ℕ → Answer → Answer → Answer → Answer
by_type type value deletion rest = if type == 1 then value else if type == 0 then deletion else rest

-- The switch on the type in the tag.
unfoldable pub read_value : ℕ → List ℕ → Answer
unfolding prefixed
read_value key_length key_ptr =
    let tag = decode_fixed64 (drop (key_length - 8) key_ptr) in
    by_type (tag % 256) (found (prefixed (drop key_length key_ptr))) deleted absent

module _ (user : UserComparator) where
  -- MemTable::KeyComparator.
  unfoldable pub key_comparator : List ℕ → List ℕ → Ordering
  unfolding prefixed
  key_comparator a b = internal_compare user (prefixed a) (prefixed b)

  unfoldable pub new_mem_table : SkipList (List ℕ)
  unfolding new_skip_list
  new_mem_table = new_skip_list key_comparator []

  unfoldable pub add :
      (fuel e s type : ℕ) → (key value : List ℕ) → SkipList (List ℕ) → Option (SkipList (List ℕ))
  add fuel e s type key value table = insert key_comparator fuel e (entry s type key value) table

  unfoldable pub read_entry : List ℕ → List ℕ → Answer
  read_entry user_key bytes = elim (read_length bytes) [
    | none ↦ absent
    | some (key_length, key_ptr) ↦
        if is_eq (user.cmp (take (key_length - 8) key_ptr) user_key)
        then read_value key_length key_ptr
        else absent
  ]

  unfoldable pub get : ℕ → LookupKey → SkipList (List ℕ) → Option Answer
  unfolding iter_seek
  get fuel key table = elim (iter_seek key_comparator fuel (memtable_key key) table) [
    | none ↦ none
    | some x ↦ some (if x == null then absent else read_entry (user_key_of key) (table.key x))
  ]
