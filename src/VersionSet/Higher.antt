-- ===== src/VersionSet/Higher.antt =====
-- GetOverlappingInputs above level 0, where no file restarts the loop.
use tleveldb.Base.{
  ℕ, zero, suc, ◌+◌, ◌*◌, ◌<◌, ◌≡◌, refl, sym, ap, ◌∙◌, false, ◌==◌, Option, some, List, [], ◌∷◌,
  ◌++◌, length, inl, inr, Bool-cases, append_assoc, append-nil, arith,
}
use tleveldb.DbFormat.{UserComparator}
use tleveldb.VersionEdit.{FileMetaData}
use tleveldb.VersionSet.Inputs.{
  scanned, is_skipped, scan_files, inputs_loop, user_key_of_bound, get_overlapping_inputs,
}
use tleveldb.VersionSet.Rounds.{select}

module _ (user : UserComparator) where
  scan_files-select :
      (begin end : Option (List ℕ)) (files inputs : List FileMetaData)
      → scan_files user false begin end files inputs
        ≡ scanned (inputs ++ select user begin end files)
  unfolding scan_files select
  scan_files-select begin end [] inputs = ap scanned (sym (append-nil inputs))
  scan_files-select begin end (f ∷ files) inputs = elim (Bool-cases (is_skipped user begin end f)) [
    | inl skipped ↦ rw skipped (scan_files-select begin end files inputs)
    | inr taken ↦ rw taken (
        scan_files-select begin end files (inputs ++ (f ∷ []))
        ∙ ap scanned (append_assoc inputs (f ∷ []) (select user begin end files)))
  ]

  inputs_loop-select :
      (fuel : ℕ) (files : List FileMetaData) (begin end : Option (List ℕ))
      → 0 < fuel
      → inputs_loop user fuel false files begin end ≡ some (select user begin end files)
  unfolding inputs_loop
  inputs_loop-select zero files begin end h = absurd (omega arith)
  inputs_loop-select (suc fuel) files begin end h =
      rw (inputs_loop, scan_files-select begin end files []) refl

  -- Above level 0, GetOverlappingInputs gives the files that overlap the range asked for, in their
  -- order.
  pub get_overlapping_inputs-select :
      (level : ℕ) (files : List FileMetaData) (begin end : Option (List ℕ))
      → 0 < level
      → get_overlapping_inputs user level files begin end
        ≡ some (select user (user_key_of_bound user begin) (user_key_of_bound user end) files)
  unfolding get_overlapping_inputs
  get_overlapping_inputs-select level files begin end h = rw (not_zero level h) (
      inputs_loop-select (2 * length files + 1) files (user_key_of_bound user begin)
        (user_key_of_bound user end) (omega arith))
    where
      not_zero : (n : ℕ) → 0 < n → (n == 0) ≡ false
      not_zero n h = ground arith
