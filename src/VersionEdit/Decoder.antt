-- ===== src/VersionEdit/Decoder.antt =====
-- GetInternalKey, GetLevel and VersionEdit::DecodeFrom of lib/leveldb/db/version_edit.cc.
use Prim.Native.String.{String}
use tleveldb.Base.{
  ℕ, zero, suc, ◌+◌, true, Option, none, some, List, [], ◌∷◌, ◌++◌, ltb, ◌==◌, if◌then◌else◌,
  length,
}
use tleveldb.Status.{Status, ok, corruption}
use tleveldb.Coding.{get_varint32, get_varint64, get_length_prefixed_slice}
use tleveldb.VersionEdit.{
  FileMetaData, VersionEdit, cleared, set_log_number, set_prev_log_number, set_next_file,
  set_last_sequence, insert, comparator_tag, log_number_tag, next_file_number_tag,
  last_sequence_tag, compact_pointer_tag, deleted_file_tag, new_file_tag, prev_log_number_tag,
  num_levels,
}

-- InternalKey::DecodeFrom fails on an empty key.
unfoldable pub get_internal_key : List ℕ → Option (List ℕ × List ℕ)
get_internal_key input = elim (get_length_prefixed_slice input) [
  | none ↦ none
  | some (str, rest) ↦ if length str == 0 then none else some (str, rest)
]

unfoldable pub get_level : List ℕ → Option (ℕ × List ℕ)
get_level input = elim (get_varint32 input) [
  | none ↦ none
  | some (v, rest) ↦ if ltb v num_levels then some (v, rest) else none
]

-- A field of DecodeFrom: the edit with it and the rest of the input, or the message.
pub data Parsed : Type 0 where
  parsed : VersionEdit → List ℕ → Parsed
  wrong : String → Parsed

infixl 5 ◌>>=◌
abbrev ◌>>=◌ : {A B : Type 0} → Option (A × List ℕ) → (A × List ℕ → Option B) → Option B
none >>= f = none
some a >>= f = f a

abbrev pub or_wrong : String → Option (VersionEdit × List ℕ) → Parsed
or_wrong msg none = wrong msg
or_wrong msg (some (edit, rest)) = parsed edit rest

unfoldable pub decode_comparator : VersionEdit → List ℕ → Option (VersionEdit × List ℕ)
decode_comparator edit input = do
  (str, rest) ← get_length_prefixed_slice input
  some (record edit { comparator = str; has_comparator = true }, rest)

-- The four cases of a number, which differ in the member that they set.
unfoldable pub decode_number : (ℕ → VersionEdit) → List ℕ → Option (VersionEdit × List ℕ)
decode_number with_number input = do
  (number, rest) ← get_varint64 input
  some (with_number number, rest)

unfoldable pub decode_compact_pointer : VersionEdit → List ℕ → Option (VersionEdit × List ℕ)
unfolding get_level get_internal_key
decode_compact_pointer edit input = do
  (level, rest) ← get_level input
  (key, rest') ← get_internal_key rest
  some (record edit { compact_pointers = edit.compact_pointers ++ ((level, key) ∷ []) }, rest')

unfoldable pub decode_deleted_file : VersionEdit → List ℕ → Option (VersionEdit × List ℕ)
unfolding get_level insert
decode_deleted_file edit input = do
  (level, rest) ← get_level input
  (number, rest') ← get_varint64 rest
  some (record edit { deleted_files = insert (level, number) edit.deleted_files }, rest')

unfoldable pub decode_new_file : VersionEdit → List ℕ → Option (VersionEdit × List ℕ)
unfolding get_level get_internal_key
decode_new_file edit input = do
  (level, rest) ← get_level input
  (number, rest1) ← get_varint64 rest
  (file_size, rest2) ← get_varint64 rest1
  (smallest, rest3) ← get_internal_key rest2
  (largest, rest4) ← get_internal_key rest3
  let f : FileMetaData = record {
    number = number;
    file_size = file_size;
    smallest = smallest;
    largest = largest;
  }
  some (record edit { new_files = edit.new_files ++ ((level, f) ∷ []) }, rest4)

-- The switch of DecodeFrom.
unfoldable pub decode_field : ℕ → VersionEdit → List ℕ → Parsed
unfolding decode_comparator decode_number decode_compact_pointer decode_deleted_file decode_new_file
decode_field tag edit input =
    if tag == comparator_tag
    then or_wrong "comparator name" (decode_comparator edit input)
    else if tag == log_number_tag
    then or_wrong "log number" (decode_number (set_log_number edit) input)
    else if tag == prev_log_number_tag
    then or_wrong "previous log number" (decode_number (set_prev_log_number edit) input)
    else if tag == next_file_number_tag
    then or_wrong "next file number" (decode_number (set_next_file edit) input)
    else if tag == last_sequence_tag
    then or_wrong "last sequence number" (decode_number (set_last_sequence edit) input)
    else if tag == compact_pointer_tag
    then or_wrong "compaction pointer" (decode_compact_pointer edit input)
    else if tag == deleted_file_tag
    then or_wrong "deleted file" (decode_deleted_file edit input)
    else if tag == new_file_tag
    then or_wrong "new-file entry" (decode_new_file edit input)
    else wrong "unknown tag"

-- The loop of DecodeFrom, with the edit and the message that it leaves. Each round takes a byte at
-- least, so the length of the input is fuel enough.
unfoldable pub decode_loop : ℕ → VersionEdit → List ℕ → VersionEdit × Option String
decode_loop zero edit input = (edit, none)
decode_loop (suc fuel) edit input = elim (get_varint32 input) [
  | none ↦ (edit, if length input == 0 then none else some "invalid tag")
  | some (tag, rest) ↦ elim (decode_field tag edit rest) [
    | wrong msg ↦ (edit, some msg)
    | parsed edit' rest' ↦ decode_loop fuel edit' rest'
  ]
]

-- Corruption("VersionEdit", msg).
abbrev pub status_of : Option String → Status
status_of none = ok
status_of (some msg) = corruption "VersionEdit"

unfoldable pub decode_from : List ℕ → VersionEdit × Status
unfolding decode_loop decode_field
decode_from src =
    let (edit, msg) = decode_loop (length src + 1) cleared src in (edit, status_of msg)
