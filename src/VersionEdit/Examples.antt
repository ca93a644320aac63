-- ===== src/VersionEdit/Examples.antt =====
-- An edit that adds a file and deletes two.
use tleveldb.Base.{◌≡◌, true, refl, List, [], ◌∷◌, arith}
use tleveldb.Status.{ok}
use tleveldb.VersionEdit.{
  FileMetaData, VersionEdit, cleared, set_log_number, remove_file, add_file, insert, encode_to,
}
use tleveldb.VersionEdit.Decoder.{decode_from}
use tleveldb.VersionEdit.Fields.{Field, deleted_file, log_number, new_file}
use tleveldb.VersionEdit.Decode.{write_all, change_all, decode_from-write_all}
use tleveldb.VersionEdit.RoundTrip.{IsEdit, decode_from-encode_to}

abbrev new_table : FileMetaData
new_table = record { number = 12; file_size = 70000; smallest = 97 ∷ []; largest = 120 ∷ [] }

abbrev compaction : VersionEdit
compaction = record cleared {
  has_log_number = true;
  log_number = 300;
  compact_pointers = (1, 110 ∷ []) ∷ [];
  deleted_files = (0, 9) ∷ (1, 4) ∷ [];
  new_files = (1, new_table) ∷ [];
}

compaction-IsEdit : IsEdit compaction
compaction-IsEdit = record {
  fields = omega arith;
  comparator_default = λ h. refl;
  log_number_default = λ h. cc;
  prev_log_number_default = λ h. refl;
  next_file_number_default = λ h. refl;
  last_sequence_default = λ h. refl;
  deleted_order = ground arith;
}

decode_from-encode_to_example : decode_from (encode_to compaction []) ≡ (compaction, ok)
decode_from-encode_to_example = decode_from-encode_to compaction compaction-IsEdit

abbrev out_of_order : List Field
out_of_order =
    new_file 1 new_table
    ∷ deleted_file 1 4
    ∷ log_number 300
    ∷ deleted_file 0 9
    ∷ deleted_file 1 4
    ∷ []

decode_from-write_all_example :
    decode_from (write_all out_of_order []) ≡ (change_all out_of_order cleared, ok)
decode_from-write_all_example = decode_from-write_all out_of_order (omega arith)

deletions_in_order : (change_all out_of_order cleared).deleted_files ≡ (0, 9) ∷ (1, 4) ∷ []
unfolding add_file remove_file set_log_number insert
deletions_in_order = refl
