-- ===== src/VersionEdit/Fields.antt =====
-- A version edit as the sequence of its fields: what each is in bytes, and what it does to an edit.
use tleveldb.Base.{ℕ, ◌^◌, ◌<◌, ◌≡◌, refl, false, some, List, [], ◌++◌, length, ◌==◌, lt→ltb, arith}
use tleveldb.Coding.{encode_varint32, encode_varint64, put_length_prefixed_slice, get_varint32}
use tleveldb.Coding.Varint.{get-encode_varint32, get-encode_varint64}
use tleveldb.Coding.Strings.{get-put_length_prefixed_slice}
use tleveldb.VersionEdit.{
  FileMetaData, VersionEdit, set_comparator_name, set_log_number, set_prev_log_number,
  set_next_file, set_last_sequence, set_compact_pointer, remove_file, add_file,
}
use tleveldb.VersionEdit.Decoder.{
  parsed, decode_field, decode_comparator, decode_number, decode_compact_pointer,
  decode_deleted_file, decode_new_file, get_level, get_internal_key,
}

pub data Field : Type 0 where
  comparator : List ℕ → Field
  log_number prev_log_number next_file_number last_sequence : ℕ → Field
  compact_pointer : ℕ → List ℕ → Field
  deleted_file : ℕ → ℕ → Field
  new_file : ℕ → FileMetaData → Field

abbrev pub IsString : List ℕ → Type 0
IsString s = length s < 2 ^ 32

-- An internal key is not empty.
abbrev pub IsInternalKey : List ℕ → Type 0
IsInternalKey key = (0 < length key) × IsString key

-- A field that the format can hold.
abbrev pub IsField : Field → Type 0
IsField (comparator name) = IsString name
IsField (log_number n) = n < 2 ^ 64
IsField (prev_log_number n) = n < 2 ^ 64
IsField (next_file_number n) = n < 2 ^ 64
IsField (last_sequence n) = n < 2 ^ 64
IsField (compact_pointer level key) = (level < 7) × IsInternalKey key
IsField (deleted_file level n) = (level < 7) × (n < 2 ^ 64)
IsField (new_file level f) =
    (level < 7)
    × (f.number < 2 ^ 64)
    × (f.file_size < 2 ^ 64)
    × IsInternalKey f.smallest
    × IsInternalKey f.largest

abbrev pub tag_of : Field → ℕ
tag_of (comparator name) = 1
tag_of (log_number n) = 2
tag_of (prev_log_number n) = 9
tag_of (next_file_number n) = 3
tag_of (last_sequence n) = 4
tag_of (compact_pointer level key) = 5
tag_of (deleted_file level n) = 6
tag_of (new_file level f) = 7

-- The bytes behind the tag, in front of `rest`.
abbrev pub body : Field → List ℕ → List ℕ
body (comparator name) rest = put_length_prefixed_slice [] name ++ rest
body (log_number n) rest = encode_varint64 n ++ rest
body (prev_log_number n) rest = encode_varint64 n ++ rest
body (next_file_number n) rest = encode_varint64 n ++ rest
body (last_sequence n) rest = encode_varint64 n ++ rest
body (compact_pointer level key) rest =
    encode_varint32 level ++ (put_length_prefixed_slice [] key ++ rest)
body (deleted_file level n) rest = encode_varint32 level ++ (encode_varint64 n ++ rest)
body (new_file level f) rest =
    encode_varint32 level
    ++ (encode_varint64 f.number
        ++ (encode_varint64 f.file_size
            ++ (put_length_prefixed_slice [] f.smallest
                ++ (put_length_prefixed_slice [] f.largest ++ rest))))

abbrev pub write : Field → List ℕ → List ℕ
write field rest = encode_varint32 (tag_of field) ++ body field rest

-- What a field says of a version.
abbrev pub change : Field → VersionEdit → VersionEdit
change (comparator name) edit = set_comparator_name edit name
change (log_number n) edit = set_log_number edit n
change (prev_log_number n) edit = set_prev_log_number edit n
change (next_file_number n) edit = set_next_file edit n
change (last_sequence n) edit = set_last_sequence edit n
change (compact_pointer level key) edit = set_compact_pointer edit level key
change (deleted_file level n) edit = remove_file edit level n
change (new_file level f) edit = add_file edit level f

get_level-encode :
    (level : ℕ) (rest : List ℕ)
    → level < 7
    → get_level (encode_varint32 level ++ rest) ≡ some (level, rest)
unfolding get_level
get_level-encode level rest h =
    rw (get_level, get-encode_varint32 level rest (omega arith), lt→ltb level 7 h) refl

not_empty : (s : List ℕ) → 0 < length s → (length s == 0) ≡ false
not_empty s h = ground arith

get_internal_key-put :
    (key rest : List ℕ)
    → IsInternalKey key
    → get_internal_key (put_length_prefixed_slice [] key ++ rest) ≡ some (key, rest)
unfolding get_internal_key
get_internal_key-put key rest (some_byte, short) =
    rw (get_internal_key, get-put_length_prefixed_slice key rest short, not_empty key some_byte)
      refl

pub tag_read :
    (field : Field) (rest : List ℕ)
    → get_varint32 (write field rest) ≡ some (tag_of field, body field rest)
tag_read field rest = get-encode_varint32 (tag_of field) (body field rest) (small field)
  where
    small : (field : Field) → tag_of field < 2 ^ 32
    small (comparator name) = omega arith
    small (log_number n) = omega arith
    small (prev_log_number n) = omega arith
    small (next_file_number n) = omega arith
    small (last_sequence n) = omega arith
    small (compact_pointer level key) = omega arith
    small (deleted_file level n) = omega arith
    small (new_file level f) = omega arith

number_read :
    (with_number : ℕ → VersionEdit) (n : ℕ) (rest : List ℕ)
    → n < 2 ^ 64
    → decode_number with_number (encode_varint64 n ++ rest) ≡ some (with_number n, rest)
unfolding decode_number
number_read with_number n rest h = rw (decode_number, get-encode_varint64 n rest h) refl

-- A written field is read as what it says.
pub decode_field-write :
    (field : Field) (edit : VersionEdit) (rest : List ℕ)
    → IsField field
    → decode_field (tag_of field) edit (body field rest) ≡ parsed (change field edit) rest
unfolding decode_field set_comparator_name set_compact_pointer add_file remove_file
decode_field-write (comparator name) edit rest h =
    rw (decode_comparator, get-put_length_prefixed_slice name rest h) refl
decode_field-write (log_number n) edit rest h = rw (number_read (set_log_number edit) n rest h) refl
decode_field-write (prev_log_number n) edit rest h =
    rw (number_read (set_prev_log_number edit) n rest h) refl
decode_field-write (next_file_number n) edit rest h =
    rw (number_read (set_next_file edit) n rest h) refl
decode_field-write (last_sequence n) edit rest h =
    rw (number_read (set_last_sequence edit) n rest h) refl
decode_field-write (compact_pointer level key) edit rest (low, is) =
    rw
      (
        decode_compact_pointer,
        get_level-encode level (put_length_prefixed_slice [] key ++ rest) low,
        get_internal_key-put key rest is,
      )
      refl
decode_field-write (deleted_file level n) edit rest (low, h) =
    rw
      (
        decode_deleted_file,
        get_level-encode level (encode_varint64 n ++ rest) low,
        get-encode_varint64 n rest h,
      )
      refl
decode_field-write (new_file level f) edit rest (low, h, h', is, is') =
    rw
      (
        decode_new_file,
        get_level-encode level _ low,
        get-encode_varint64 f.number _ h,
        get-encode_varint64 f.file_size _ h',
        get_internal_key-put f.smallest _ is,
        get_internal_key-put f.largest rest is',
      )
      refl
