-- ===== src/VersionEdit.antt =====
-- lib/leveldb/db/version_edit.h and version_edit.cc: the changes of a version, as records of the
-- manifest. An InternalKey is its bytes `rep_`. Of a FileMetaData there is what is written: `refs`
-- and `allowed_seeks` belong to the running database.
pub mod Decoder
pub mod Fields
pub mod Decode
pub mod Encode
pub mod RoundTrip
mod Examples
use tleveldb.Base.{
  ℕ, zero, suc, Bool, true, false, ◌&&◌, ◌||◌, Option, none, some, List, [], ◌∷◌, ◌++◌, ltb, ◌==◌,
  if◌then◌else◌, length,
}
use tleveldb.Status.{Status, ok, corruption}
use tleveldb.Coding.{
  put_varint32, put_varint64, put_length_prefixed_slice, get_varint32, get_varint64,
  get_length_prefixed_slice,
}

pub record FileMetaData : Type 0 where
  pub number : ℕ
  pub file_size : ℕ
  pub smallest : List ℕ
  pub largest : List ℕ

-- `deleted_files` is the std::set in its order.
pub record VersionEdit : Type 0 where
  pub comparator : List ℕ
  pub log_number : ℕ
  pub prev_log_number : ℕ
  pub next_file_number : ℕ
  pub last_sequence : ℕ
  pub has_comparator : Bool
  pub has_log_number : Bool
  pub has_prev_log_number : Bool
  pub has_next_file_number : Bool
  pub has_last_sequence : Bool
  pub compact_pointers : List (ℕ × List ℕ)
  pub deleted_files : List (ℕ × ℕ)
  pub new_files : List (ℕ × FileMetaData)

-- What Clear leaves, and the constructor.
abbrev pub cleared : VersionEdit
cleared = record {
  comparator = [];
  log_number = 0;
  prev_log_number = 0;
  next_file_number = 0;
  last_sequence = 0;
  has_comparator = false;
  has_log_number = false;
  has_prev_log_number = false;
  has_next_file_number = false;
  has_last_sequence = false;
  compact_pointers = [];
  deleted_files = [];
  new_files = [];
}

module _ (edit : VersionEdit) where
  unfoldable pub set_comparator_name : List ℕ → VersionEdit
  set_comparator_name name = record edit { has_comparator = true; comparator = name }

  unfoldable pub set_log_number : ℕ → VersionEdit
  set_log_number num = record edit { has_log_number = true; log_number = num }

  unfoldable pub set_prev_log_number : ℕ → VersionEdit
  set_prev_log_number num = record edit { has_prev_log_number = true; prev_log_number = num }

  unfoldable pub set_next_file : ℕ → VersionEdit
  set_next_file num = record edit { has_next_file_number = true; next_file_number = num }

  unfoldable pub set_last_sequence : ℕ → VersionEdit
  set_last_sequence seq = record edit { has_last_sequence = true; last_sequence = seq }

  unfoldable pub set_compact_pointer : ℕ → List ℕ → VersionEdit
  set_compact_pointer level key = record edit {
    compact_pointers = edit.compact_pointers ++ ((level, key) ∷ []);
  }

  -- The last four arguments of AddFile are `f`.
  unfoldable pub add_file : ℕ → FileMetaData → VersionEdit
  add_file level f = record edit { new_files = edit.new_files ++ ((level, f) ∷ []) }

-- The order of std::pair, and std::set::insert.
abbrev pub before : ℕ × ℕ → ℕ × ℕ → Bool
before (level, number) (level', number') =
    ltb level level' || (level == level' && ltb number number')

unfoldable pub insert : ℕ × ℕ → List (ℕ × ℕ) → List (ℕ × ℕ)
insert file [] = file ∷ []
insert file (file' ∷ files) =
    if before file file'
    then file ∷ file' ∷ files
    else if before file' file
    then file' ∷ insert file files
    else file' ∷ files

unfoldable pub remove_file : VersionEdit → ℕ → ℕ → VersionEdit
unfolding insert
remove_file edit level file = record edit {
  deleted_files = insert (level, file) edit.deleted_files;
}

-- The values of Tag.
abbrev pub comparator_tag : ℕ
comparator_tag = 1

abbrev pub log_number_tag : ℕ
log_number_tag = 2

abbrev pub next_file_number_tag : ℕ
next_file_number_tag = 3

abbrev pub last_sequence_tag : ℕ
last_sequence_tag = 4

abbrev pub compact_pointer_tag : ℕ
compact_pointer_tag = 5

abbrev pub deleted_file_tag : ℕ
deleted_file_tag = 6

abbrev pub new_file_tag : ℕ
new_file_tag = 7

abbrev pub prev_log_number_tag : ℕ
prev_log_number_tag = 9

-- config::kNumLevels.
abbrev pub num_levels : ℕ
num_levels = 7

-- The four fields of EncodeTo that are a number, and the three loops.
unfoldable pub put_number : Bool → ℕ → ℕ → List ℕ → List ℕ
put_number has tag number dst = if has then put_varint64 (put_varint32 dst tag) number else dst

unfoldable pub put_compact_pointers : List (ℕ × List ℕ) → List ℕ → List ℕ
put_compact_pointers [] dst = dst
put_compact_pointers ((level, key) ∷ pointers) dst =
    put_compact_pointers pointers
      (put_length_prefixed_slice (put_varint32 (put_varint32 dst compact_pointer_tag) level) key)

unfoldable pub put_deleted_files : List (ℕ × ℕ) → List ℕ → List ℕ
put_deleted_files [] dst = dst
put_deleted_files ((level, number) ∷ files) dst =
    put_deleted_files files
      (put_varint64 (put_varint32 (put_varint32 dst deleted_file_tag) level) number)

unfoldable pub put_file : ℕ × FileMetaData → List ℕ → List ℕ
put_file (level, f) dst =
    let head = put_varint32 (put_varint32 dst new_file_tag) level in
    let numbers = put_varint64 (put_varint64 head f.number) f.file_size in
    put_length_prefixed_slice (put_length_prefixed_slice numbers f.smallest) f.largest

unfoldable pub put_new_files : List (ℕ × FileMetaData) → List ℕ → List ℕ
unfolding put_file
put_new_files [] dst = dst
put_new_files (file ∷ files) dst = put_new_files files (put_file file dst)

unfoldable pub encode_to : VersionEdit → List ℕ → List ℕ
unfolding put_number put_compact_pointers put_deleted_files put_new_files
encode_to edit dst =
    let d1 =
      if edit.has_comparator
      then put_length_prefixed_slice (put_varint32 dst comparator_tag) edit.comparator
      else dst in
    let d2 = put_number edit.has_log_number log_number_tag edit.log_number d1 in
    let d3 = put_number edit.has_prev_log_number prev_log_number_tag edit.prev_log_number d2 in
    let d4 = put_number edit.has_next_file_number next_file_number_tag edit.next_file_number d3 in
    let d5 = put_number edit.has_last_sequence last_sequence_tag edit.last_sequence d4 in
    put_new_files edit.new_files
      (put_deleted_files edit.deleted_files (put_compact_pointers edit.compact_pointers d5))
