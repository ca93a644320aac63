-- ===== src/VersionEdit/RoundTrip.antt =====
-- An edit that EncodeTo wrote is read back by DecodeFrom.
use tleveldb.Base.{
  ℕ, ◌≡◌, refl, sym, ap, ◌∙◌, Bool, true, false, List, [], ◌∷◌, ◌++◌, All, append_assoc, append-nil,
  arith,
}
use tleveldb.Status.{ok}
use tleveldb.VersionEdit.{
  FileMetaData, VersionEdit, cleared, insert, before, encode_to, set_comparator_name,
  set_log_number, set_prev_log_number, set_next_file, set_last_sequence, set_compact_pointer,
  remove_file, add_file,
}
use tleveldb.VersionEdit.Decoder.{decode_from}
use tleveldb.VersionEdit.Fields.{
  Field, comparator, log_number, prev_log_number, next_file_number, last_sequence, IsField, change,
}
use tleveldb.VersionEdit.Decode.{change_all, decode_from-write_all}
use tleveldb.VersionEdit.Encode.{
  optional, pointers_of, deleted_of, added_of, fields_of, encode_to-fields_of,
}

-- The order of a std::set.
abbrev pub IsSetOrder : List (ℕ × ℕ) → Type 0
IsSetOrder [] = Unit {0}
IsSetOrder (x ∷ xs) = All (λ y. before x y ≡ true) xs × IsSetOrder xs

-- A member that is not set has its default.
abbrev pub Default {ℓ} : {A : Type ℓ} → Bool → A → A → Type ℓ
Default has value default = has ≡ false → value ≡ default

-- The edits that the setters make: an unset member has its default, the set is in order, and the
-- numbers, levels and keys fit the format.
pub record IsEdit (edit : VersionEdit) : Type 0 where
  pub fields : All IsField (fields_of edit)
  pub comparator_default : Default edit.has_comparator edit.comparator []
  pub log_number_default : Default edit.has_log_number edit.log_number 0
  pub prev_log_number_default : Default edit.has_prev_log_number edit.prev_log_number 0
  pub next_file_number_default : Default edit.has_next_file_number edit.next_file_number 0
  pub last_sequence_default : Default edit.has_last_sequence edit.last_sequence 0
  pub deleted_order : IsSetOrder edit.deleted_files

change_all-append :
    (xs ys : List Field) (edit : VersionEdit)
    → change_all (xs ++ ys) edit ≡ change_all ys (change_all xs edit)
change_all-append [] ys edit = refl
change_all-append (x ∷ xs) ys edit = change_all-append xs ys (change x edit)

change_pointers :
    (ps : List (ℕ × List ℕ)) (edit : VersionEdit)
    → change_all (pointers_of ps) edit
      ≡ record edit { compact_pointers = edit.compact_pointers ++ ps }
unfolding set_compact_pointer
change_pointers [] edit = rw (append-nil edit.compact_pointers) refl
change_pointers (p ∷ ps) edit =
    rw (change_pointers ps, append_assoc edit.compact_pointers (p ∷ []) ps) refl

change_added :
    (fs : List (ℕ × FileMetaData)) (edit : VersionEdit)
    → change_all (added_of fs) edit ≡ record edit { new_files = edit.new_files ++ fs }
unfolding add_file
change_added [] edit = rw (append-nil edit.new_files) refl
change_added (f ∷ fs) edit = rw (change_added fs, append_assoc edit.new_files (f ∷ []) fs) refl

before_back : (x y : ℕ × ℕ) → before y x ≡ true → before x y ≡ false
before_back (l, n) (l', n') h = ground arith

insert_last :
    (xs : List (ℕ × ℕ)) (x : ℕ × ℕ) → All (λ y. before y x ≡ true) xs → insert x xs ≡ xs ++ (x ∷ [])
unfolding insert
insert_last [] x all = refl
insert_last (y ∷ xs) x (h, all) = rw (before_back x y h, h) (ap (λ t. y ∷ t) (insert_last xs x all))

order_front :
    (xs : List (ℕ × ℕ)) (x : ℕ × ℕ) (ys : List (ℕ × ℕ))
    → IsSetOrder (xs ++ (x ∷ ys))
    → All (λ y. before y x ≡ true) xs
order_front [] x ys h = tt
order_front (y ∷ xs) x ys (all, h) = (member xs all, order_front xs x ys h)
  where
    member : (xs : List (ℕ × ℕ)) → All (λ z. before y z ≡ true) (xs ++ (x ∷ ys)) → before y x ≡ true
    member [] (h, rest) = h
    member (z ∷ xs) (h, rest) = member xs rest

change_deleted :
    (fs : List (ℕ × ℕ)) (edit : VersionEdit)
    → IsSetOrder (edit.deleted_files ++ fs)
    → change_all (deleted_of fs) edit ≡ record edit { deleted_files = edit.deleted_files ++ fs }
unfolding remove_file
change_deleted [] edit order = rw (append-nil edit.deleted_files) refl
change_deleted (f ∷ fs) edit order =
    ap (λ (t : List (ℕ × ℕ)). change_all (deleted_of fs) (record edit { deleted_files = t }))
      (insert_last edit.deleted_files f (order_front edit.deleted_files f fs order))
    ∙ change_deleted fs (record edit { deleted_files = edit.deleted_files ++ (f ∷ []) })
        (rw (append_assoc edit.deleted_files (f ∷ []) fs) order)
    ∙ ap (λ (t : List (ℕ × ℕ)). record edit { deleted_files = t })
        (append_assoc edit.deleted_files (f ∷ []) fs)

-- A member that may be unset: `built` is the edit with the member and its flag.
change_member {ℓ} :
    {A : Type ℓ} (has : Bool) (value default : A) (field : Field) (built : Bool → A → VersionEdit)
    (edit : VersionEdit)
    → change field edit ≡ built true value
    → edit ≡ built false default
    → Default has value default
    → change_all (optional has field) edit ≡ built has value
change_member true value default field built edit set unset d = set
change_member false value default field built edit set unset d =
    unset ∙ ap (built false) (sym (d refl))

-- The five members that may be unset.
change_numbers :
    (edit : VersionEdit)
    → IsEdit edit
    → change_all (optional edit.has_last_sequence (last_sequence edit.last_sequence)) (
        change_all (optional edit.has_next_file_number (next_file_number edit.next_file_number)) (
          change_all (optional edit.has_prev_log_number (prev_log_number edit.prev_log_number)) (
            change_all
              (optional edit.has_log_number (log_number edit.log_number))
              (change_all (optional edit.has_comparator (comparator edit.comparator)) cleared))))
      ≡ record edit { compact_pointers = []; deleted_files = []; new_files = [] }
unfolding set_comparator_name set_log_number set_prev_log_number set_next_file set_last_sequence
change_numbers edit is =
    rw
      (
        change_member edit.has_comparator edit.comparator [] (comparator edit.comparator)
            (λ h (n : List ℕ). record cleared { has_comparator = h; comparator = n }) cleared refl
            refl is.comparator_default,
        change_member edit.has_log_number edit.log_number 0 (log_number edit.log_number)
            (λ h (n : ℕ). record cleared {
              has_comparator = edit.has_comparator;
              comparator = edit.comparator;
              has_log_number = h;
              log_number = n;
            })
            _ refl refl is.log_number_default,
        change_member edit.has_prev_log_number edit.prev_log_number 0
            (prev_log_number edit.prev_log_number)
            (λ h (n : ℕ). record cleared {
              has_comparator = edit.has_comparator;
              comparator = edit.comparator;
              has_log_number = edit.has_log_number;
              log_number = edit.log_number;
              has_prev_log_number = h;
              prev_log_number = n;
            })
            _ refl refl is.prev_log_number_default,
        change_member edit.has_next_file_number edit.next_file_number 0
            (next_file_number edit.next_file_number)
            (λ h (n : ℕ). record cleared {
              has_comparator = edit.has_comparator;
              comparator = edit.comparator;
              has_log_number = edit.has_log_number;
              log_number = edit.log_number;
              has_prev_log_number = edit.has_prev_log_number;
              prev_log_number = edit.prev_log_number;
              has_next_file_number = h;
              next_file_number = n;
            })
            _ refl refl is.next_file_number_default,
      )
      (change_member edit.has_last_sequence edit.last_sequence 0 (last_sequence edit.last_sequence)
        (λ h (n : ℕ). record edit {
          compact_pointers = [];
          deleted_files = [];
          new_files = [];
          has_last_sequence = h;
          last_sequence = n;
        })
        _ refl refl is.last_sequence_default)

pub change_all-fields_of :
    (edit : VersionEdit) → IsEdit edit → change_all (fields_of edit) cleared ≡ edit
change_all-fields_of edit is = simp (change_all-append) (
    rw (change_numbers edit is, change_pointers edit.compact_pointers)
      (ap (change_all (added_of edit.new_files))
          (change_deleted edit.deleted_files _ is.deleted_order)
        ∙ change_added edit.new_files _))

-- VersionEdit::DecodeFrom gives back the edit that EncodeTo wrote to an empty string, with OK,
-- where an unset member has its default, the deleted files are in the order of the set, and the
-- numbers, the levels and the keys fit the format.
pub decode_from-encode_to :
    (edit : VersionEdit) → IsEdit edit → decode_from (encode_to edit []) ≡ (edit, ok)
decode_from-encode_to edit is =
    rw (sym (append-nil (encode_to edit [])), encode_to-fields_of edit [] [])
      (decode_from-write_all (fields_of edit) is.fields
        ∙ ap (λ (t : VersionEdit). (t, ok)) (change_all-fields_of edit is))
