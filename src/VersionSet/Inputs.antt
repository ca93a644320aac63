-- ===== src/VersionSet/Inputs.antt =====
-- lib/leveldb/db/version_set.cc: Version::GetOverlappingInputs, which collects the files of a level
-- that overlap a range of keys. A null pointer is none.
use Prim.Native.Nat.{Ordering}
use tleveldb.Base.{
  ℕ, zero, suc, ◌+◌, ◌*◌, Bool, true, false, ◌||◌, ◌&&◌, Option, none, some, List, [], ◌∷◌, ◌++◌,
  if◌then◌else◌, length, ◌==◌,
}
use tleveldb.DbFormat.{UserComparator, extract_user_key}
use tleveldb.VersionEdit.{FileMetaData}

-- A round over the files ends with the inputs, or because the range grew.
pub data Scan : Type 0 where
  scanned : List FileMetaData → Scan
  restarted : Option (List ℕ) → Option (List ℕ) → Scan

module _ (user : UserComparator) where
  abbrev pub below : List ℕ → Option (List ℕ) → Bool
  below key none = false
  below key (some bound) = elim (user.cmp key bound) [ Ordering.lt ↦ true | _ ↦ false ]

  abbrev pub above : List ℕ → Option (List ℕ) → Bool
  above key none = false
  above key (some bound) = elim (user.cmp key bound) [ Ordering.gt ↦ true | _ ↦ false ]

  -- The file is completely before or after the range.
  unfoldable pub is_skipped : Option (List ℕ) → Option (List ℕ) → FileMetaData → Bool
  unfolding extract_user_key
  is_skipped user_begin user_end f =
      below (extract_user_key f.largest) user_begin || above (extract_user_key f.smallest) user_end

  -- The loop over the files, from the first one up to a restart; `level_0` says that they may
  -- overlap each other.
  unfoldable pub scan_files :
      Bool → Option (List ℕ) → Option (List ℕ) → List FileMetaData → List FileMetaData → Scan
  unfolding is_skipped
  scan_files level_0 user_begin user_end [] inputs = scanned inputs
  scan_files level_0 user_begin user_end (f ∷ files) inputs =
      let file_start = extract_user_key f.smallest in
      let file_limit = extract_user_key f.largest in
      let skipped = is_skipped user_begin user_end f in
      let rest =
        scan_files level_0 user_begin user_end files
          (if skipped then inputs else inputs ++ (f ∷ [])) in
      if skipped
      then rest
      else if level_0 && below file_start user_begin
      then restarted (some file_start) user_end
      else if level_0 && above file_limit user_end
      then restarted user_begin (some file_limit)
      else rest

  -- The rounds, with their number for fuel.
  unfoldable pub inputs_loop :
      ℕ → Bool → List FileMetaData → Option (List ℕ) → Option (List ℕ) → Option (List FileMetaData)
  unfolding scan_files
  inputs_loop zero level_0 files user_begin user_end = none
  inputs_loop (suc fuel) level_0 files user_begin user_end =
      elim (scan_files level_0 user_begin user_end files []) [
        | scanned inputs ↦ some inputs
        | restarted user_begin' user_end' ↦ inputs_loop fuel level_0 files user_begin' user_end'
      ]

  abbrev pub user_key_of_bound : Option (List ℕ) → Option (List ℕ)
  user_key_of_bound none = none
  user_key_of_bound (some key) = some (extract_user_key key)

  -- Each restart takes an end of a file for one end of the range, so there are at most two for each
  -- file; `none` stands for a loop that goes on longer.
  unfoldable pub get_overlapping_inputs :
      ℕ → List FileMetaData → Option (List ℕ) → Option (List ℕ) → Option (List FileMetaData)
  unfolding inputs_loop extract_user_key
  get_overlapping_inputs level files begin end =
      inputs_loop (2 * length files + 1) (level == 0) files (user_key_of_bound begin)
        (user_key_of_bound end)
