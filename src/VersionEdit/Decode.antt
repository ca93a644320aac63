-- ===== src/VersionEdit/Decode.antt =====
-- DecodeFrom on the fields of an edit, and on what EncodeTo wrote.
use tleveldb.Base.{
  ℕ, zero, suc, ◌+◌, ◌<◌, ◌≤◌, ◌≡◌, refl, none, List, [], ◌∷◌, ◌++◌, All, length, arith,
  length-append,
}
use tleveldb.Status.{ok}
use tleveldb.Coding.{encode_varint32, get_varint32, get_varint32_fallback, get_varint_loop}
use tleveldb.VersionEdit.{VersionEdit, cleared}
use tleveldb.VersionEdit.Decoder.{decode_loop, decode_from}
use tleveldb.VersionEdit.Fields.{
  Field, comparator, IsField, write, tag_of, body, change, tag_read, decode_field-write,
}

abbrev pub write_all : List Field → List ℕ → List ℕ
write_all [] rest = rest
write_all (field ∷ fields) rest = write field (write_all fields rest)

abbrev pub change_all : List Field → VersionEdit → VersionEdit
change_all [] edit = edit
change_all (field ∷ fields) edit = change_all fields (change field edit)

no_tag : get_varint32 [] ≡ none
unfolding get_varint32 get_varint32_fallback get_varint_loop
no_tag = refl

decode_loop-write_all :
    (fuel : ℕ) (fields : List Field) (edit : VersionEdit)
    → length fields < fuel
    → All IsField fields
    → decode_loop fuel edit (write_all fields []) ≡ (change_all fields edit, none)
unfolding decode_loop
decode_loop-write_all zero fields edit h all = absurd (omega arith)
decode_loop-write_all (suc fuel) [] edit h all = rw (decode_loop, no_tag) refl
decode_loop-write_all (suc fuel) (field ∷ fields) edit h (is, all) =
    rw
      (
        decode_loop,
        tag_read field (write_all fields []),
        decode_field-write field edit (write_all fields []) is,
      )
      (decode_loop-write_all fuel fields (change field edit) (omega arith) all)

encode_varint32-longer : (v : ℕ) (rest : List ℕ) → length rest < length (encode_varint32 v ++ rest)
unfolding encode_varint32
encode_varint32-longer v rest = ground arith

body-longer : (field : Field) (rest : List ℕ) → length rest ≤ length (body field rest)
body-longer (comparator name) rest = omega (arith, length-append {0})
body-longer field rest = omega (arith, length-append {0})

length-write_all : (fields : List Field) → length fields ≤ length (write_all fields [])
length-write_all [] = omega arith
length-write_all (field ∷ fields) = omega (
  arith,
  length-write_all fields,
  body-longer field (write_all fields []),
  encode_varint32-longer (tag_of field) (body field (write_all fields [])),
)

-- VersionEdit::DecodeFrom accepts each sequence of well-formed fields, in any order and with
-- repetitions, and the edit is what the setters make of the fields one after another.
pub decode_from-write_all :
    (fields : List Field)
    → All IsField fields
    → decode_from (write_all fields []) ≡ (change_all fields cleared, ok)
unfolding decode_from
decode_from-write_all fields all =
    rw
      (decode_loop-write_all (length (write_all fields []) + 1) fields cleared
        (omega (arith, length-write_all fields)) all)
      refl
