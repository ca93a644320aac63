-- ===== src/VersionEdit/Encode.antt =====
-- EncodeTo as the fields of an edit, and its round trip.
use tleveldb.Base.{
  ℕ, ◌≡◌, refl, sym, ap, ◌∙◌, Bool, true, false, List, [], ◌∷◌, ◌++◌, map, if◌then◌else◌,
  append_assoc,
}
use tleveldb.Coding.{
  encode_varint32, encode_varint64, put_length_prefixed_slice, put_varint32, put_varint64,
}
use tleveldb.VersionEdit.{
  FileMetaData, VersionEdit, encode_to, put_number, put_compact_pointers, put_deleted_files,
  put_file, put_new_files,
}
use tleveldb.VersionEdit.Fields.{
  Field, comparator, log_number, prev_log_number, next_file_number, last_sequence, compact_pointer,
  deleted_file, new_file, write,
}
use tleveldb.VersionEdit.Decode.{write_all}

abbrev pub optional : Bool → Field → List Field
optional true field = field ∷ []
optional false field = []

abbrev pub pointers_of : List (ℕ × List ℕ) → List Field
pointers_of = map (λ p. compact_pointer p.0 p.1)

abbrev pub deleted_of : List (ℕ × ℕ) → List Field
deleted_of = map (λ p. deleted_file p.0 p.1)

abbrev pub added_of : List (ℕ × FileMetaData) → List Field
added_of = map (λ p. new_file p.0 p.1)

-- The fields of an edit in the order in which EncodeTo writes them.
abbrev pub fields_of : VersionEdit → List Field
fields_of edit =
    optional edit.has_comparator (comparator edit.comparator)
    ++ (optional edit.has_log_number (log_number edit.log_number)
        ++ (optional edit.has_prev_log_number (prev_log_number edit.prev_log_number)
            ++ (optional edit.has_next_file_number (next_file_number edit.next_file_number)
                ++ (optional edit.has_last_sequence (last_sequence edit.last_sequence)
                    ++ (pointers_of edit.compact_pointers
                        ++ (deleted_of edit.deleted_files ++ added_of edit.new_files))))))

write_all-append :
    (xs ys : List Field) (rest : List ℕ)
    → write_all (xs ++ ys) rest ≡ write_all xs (write_all ys rest)
write_all-append [] ys rest = refl
write_all-append (x ∷ xs) ys rest = ap (write x) (write_all-append xs ys rest)

put_slice :
    (dst value rest : List ℕ)
    → put_length_prefixed_slice dst value ++ rest
      ≡ dst ++ (put_length_prefixed_slice [] value ++ rest)
unfolding put_length_prefixed_slice put_varint32
put_slice dst value rest = simp (append_assoc)

put_comparator :
    (has : Bool) (name dst rest : List ℕ)
    → (if has then put_length_prefixed_slice (put_varint32 dst 1) name else dst) ++ rest
      ≡ dst ++ write_all (optional has (comparator name)) rest
unfolding put_varint32
put_comparator true name dst rest =
    put_slice (dst ++ encode_varint32 1) name rest
    ∙ append_assoc dst (encode_varint32 1) (put_length_prefixed_slice [] name ++ rest)
put_comparator false name dst rest = refl

put_number-optional :
    (has : Bool) (tag n : ℕ) (field : Field) (dst rest : List ℕ)
    → write field rest ≡ encode_varint32 tag ++ (encode_varint64 n ++ rest)
    → put_number has tag n dst ++ rest ≡ dst ++ write_all (optional has field) rest
unfolding put_number put_varint32 put_varint64
put_number-optional true tag n field dst rest e = rw e (simp (append_assoc))
put_number-optional false tag n field dst rest e = refl

put_pointers :
    (ps : List (ℕ × List ℕ)) (dst rest : List ℕ)
    → put_compact_pointers ps dst ++ rest ≡ dst ++ write_all (pointers_of ps) rest
unfolding put_compact_pointers put_varint32
put_pointers [] dst rest = refl
put_pointers ((level, key) ∷ ps) dst rest =
    put_pointers ps _ rest
    ∙ put_slice ((dst ++ encode_varint32 5) ++ encode_varint32 level) key
        (write_all (pointers_of ps) rest)
    ∙ simp (append_assoc)

put_deleted :
    (fs : List (ℕ × ℕ)) (dst rest : List ℕ)
    → put_deleted_files fs dst ++ rest ≡ dst ++ write_all (deleted_of fs) rest
unfolding put_deleted_files put_varint32 put_varint64
put_deleted [] dst rest = refl
put_deleted ((level, n) ∷ fs) dst rest = put_deleted fs _ rest ∙ simp (append_assoc)

put_file-write :
    (level : ℕ) (f : FileMetaData) (dst rest : List ℕ)
    → put_file (level, f) dst ++ rest ≡ dst ++ write (new_file level f) rest
unfolding put_file put_varint32 put_varint64
put_file-write level f dst rest =
    put_slice _ f.largest rest ∙ put_slice _ f.smallest _ ∙ simp (append_assoc)

put_added :
    (fs : List (ℕ × FileMetaData)) (dst rest : List ℕ)
    → put_new_files fs dst ++ rest ≡ dst ++ write_all (added_of fs) rest
unfolding put_new_files
put_added [] dst rest = refl
put_added ((level, f) ∷ fs) dst rest =
    put_added fs (put_file (level, f) dst) rest
    ∙ put_file-write level f dst (write_all (added_of fs) rest)

-- EncodeTo appends the fields of the edit.
pub encode_to-fields_of :
    (edit : VersionEdit) (dst rest : List ℕ)
    → encode_to edit dst ++ rest ≡ dst ++ write_all (fields_of edit) rest
unfolding encode_to
encode_to-fields_of edit dst rest =
    put_added edit.new_files _ rest
    ∙ put_deleted edit.deleted_files _ _
    ∙ put_pointers edit.compact_pointers _ _
    ∙ put_number-optional edit.has_last_sequence 4 edit.last_sequence
        (last_sequence edit.last_sequence) _ _ refl
    ∙ put_number-optional edit.has_next_file_number 3 edit.next_file_number
        (next_file_number edit.next_file_number) _ _ refl
    ∙ put_number-optional edit.has_prev_log_number 9 edit.prev_log_number
        (prev_log_number edit.prev_log_number) _ _ refl
    ∙ put_number-optional edit.has_log_number 2 edit.log_number (log_number edit.log_number) _ _
        refl
    ∙ put_comparator edit.has_comparator edit.comparator dst _
    ∙ sym (ap (λ t. dst ++ t) (simp (write_all-append)))
