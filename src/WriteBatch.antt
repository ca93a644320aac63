-- ===== src/WriteBatch.antt =====
-- lib/leveldb/db/write_batch.cc: a batch of updates is the string `rep_`, a header of twelve bytes
-- (the sequence number and the count) and then the records. A method takes `rep_` and returns what
-- it leaves in it.
pub mod Records
pub mod Iterate
pub mod Insert
mod Examples
use tleveldb.Base.{
  ℕ, zero, suc, ◌+◌, ◌^◌, ◌%◌, Option, none, some, List, [], ◌∷◌, ◌++◌, ltb, ◌==◌, if◌then◌else◌,
  length, take, drop, replicate,
}
use tleveldb.Status.{Status, ok, corruption}
use tleveldb.Coding.{
  encode_fixed32, encode_fixed64, decode_fixed32, decode_fixed64, put_length_prefixed_slice,
  get_length_prefixed_slice,
}

abbrev pub header : ℕ
header = 12

-- ValueType of db/dbformat.h, as the byte that is stored.
abbrev pub type_deletion : ℕ
type_deletion = 0

abbrev pub type_value : ℕ
type_value = 1

-- The two calls that a WriteBatch::Handler receives.
pub data Update : Type 0 where
  put : List ℕ → List ℕ → Update
  delete : List ℕ → Update

unfoldable pub clear : List ℕ
clear = replicate header 0

-- An int is kept as its 32 bits, as the conversions between int and uint32_t keep them, and the sums
-- below wrap; the theorems stay below 2^31, where no sum of ints overflows.
unfoldable pub count : List ℕ → ℕ
count rep = decode_fixed32 (drop 8 rep)

-- Writes over bytes 8 to 11.
unfoldable pub set_count : List ℕ → ℕ → List ℕ
set_count rep n = take 8 rep ++ (encode_fixed32 (n % 2 ^ 32) ++ drop 12 rep)

unfoldable pub sequence : List ℕ → ℕ
sequence rep = decode_fixed64 rep

unfoldable pub set_sequence : List ℕ → ℕ → List ℕ
set_sequence rep seq = encode_fixed64 seq ++ drop 8 rep

unfoldable pub put_record : List ℕ → List ℕ → List ℕ → List ℕ
put_record rep key value =
    put_length_prefixed_slice
      (put_length_prefixed_slice (set_count rep ((count rep + 1) % 2 ^ 32) ++ (type_value ∷ []))
        key)
      value

unfoldable pub delete_record : List ℕ → List ℕ → List ℕ
delete_record rep key =
    put_length_prefixed_slice (set_count rep ((count rep + 1) % 2 ^ 32) ++ (type_deletion ∷ [])) key

unfoldable pub append : List ℕ → List ℕ → List ℕ
append dst src = set_count dst ((count dst + count src) % 2 ^ 32) ++ drop header src

unfoldable pub approximate_size : List ℕ → ℕ
approximate_size rep = length rep

-- One record: the update and what follows it, or the status with which Iterate returns.
pub data Scanned : Type 0 where
  update : Update → List ℕ → Scanned
  failed : Status → Scanned

unfoldable pub scan_put : List ℕ → Scanned
scan_put input = elim (get_length_prefixed_slice input) [
  | none ↦ failed (corruption "bad WriteBatch Put")
  | some (key, rest) ↦ elim (get_length_prefixed_slice rest) [
    | none ↦ failed (corruption "bad WriteBatch Put")
    | some (value, rest') ↦ update (put key value) rest'
  ]
]

unfoldable pub scan_delete : List ℕ → Scanned
scan_delete input = elim (get_length_prefixed_slice input) [
  | none ↦ failed (corruption "bad WriteBatch Delete")
  | some (key, rest) ↦ update (delete key) rest
]

unfoldable pub scan_record : ℕ → List ℕ → Scanned
unfolding scan_put scan_delete
scan_record tag input =
    if tag == type_value
    then scan_put input
    else if tag == type_deletion
    then scan_delete input
    else failed (corruption "unknown WriteBatch tag")

-- A Handler, as what each update does to its state.
module _ {S : Type 0} (handle : S → Update → S) where
  -- The loop of Iterate. A record takes a byte at least, so the length of the input is fuel enough.
  unfoldable pub iterate_loop : ℕ → List ℕ → ℕ → ℕ → S → S × Status
  iterate_loop fuel [] found expected s =
      (s, if found == expected then ok else corruption "WriteBatch has wrong count")
  iterate_loop zero (tag ∷ input) found expected s = (s, ok)
  iterate_loop (suc fuel) (tag ∷ input) found expected s = elim (scan_record tag input) [
    | failed status ↦ (s, status)
    | update u rest ↦ iterate_loop fuel rest ((found + 1) % 2 ^ 32) expected (handle s u)
  ]

  unfoldable pub iterate : List ℕ → S → S × Status
  unfolding iterate_loop
  iterate rep s =
      if ltb (length rep) header
      then (s, corruption "malformed WriteBatch (too small)")
      else iterate_loop (length rep) (drop header rep) 0 (count rep) s

-- MemTableInserter: the sequence number that is next, and the memtable, which is known by what
-- MemTable::Add (sequence, type, key, value) does to it.
module _ {M : Type 0} (add : ℕ → ℕ → List ℕ → List ℕ → M → M) where
  unfoldable pub memtable_insert : ℕ × M → Update → ℕ × M
  memtable_insert (seq, mem) (put key value) =
      ((seq + 1) % 2 ^ 64, add seq type_value key value mem)
  memtable_insert (seq, mem) (delete key) = ((seq + 1) % 2 ^ 64, add seq type_deletion key [] mem)

  unfoldable pub insert_into : List ℕ → M → M × Status
  unfolding memtable_insert iterate
  insert_into rep mem =
      let ((seq, mem'), status) = iterate memtable_insert rep (sequence rep, mem) in (mem', status)
