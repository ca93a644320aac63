-- ===== src/VersionSet/Rounds.antt =====
-- The rounds of GetOverlappingInputs: what one ends with, and counts of files.
use mathlib.Core.Option.{some-injective}
use tleveldb.Base.{
  ℕ, zero, suc, ◌+◌, ◌<◌, ◌≤◌, ◌≡◌, ◌⊎◌, refl, sym, ap, ◌∙◌, Bool, true, false, Option, some, List,
  [], ◌∷◌, ◌++◌, All, if◌then◌else◌, length, get_elem?, inl, inr, Bool-cases, append_assoc,
  append-nil, arith,
}
use tleveldb.DbFormat.{UserComparator, extract_user_key}
use tleveldb.VersionEdit.{FileMetaData}
use tleveldb.VersionSet.Inputs.{scanned, restarted, below, above, is_skipped, scan_files}

unfoldable pub count_where : (FileMetaData → Bool) → List FileMetaData → ℕ
count_where p [] = 0
count_where p (f ∷ files) = (if p f then 1 else 0) + count_where p files

module _ (p q : FileMetaData → Bool) (weaker : (g : FileMetaData) → p g ≡ true → q g ≡ true) where
  pub count_where-le : (files : List FileMetaData) → count_where p files ≤ count_where q files
  unfolding count_where
  count_where-le [] = omega arith
  count_where-le (f ∷ files) = ground (arith, count_where-le files, weaker f)

  pub count_where-less :
      (files : List FileMetaData) (i : ℕ) (f : FileMetaData)
      → get_elem? files i ≡ some f
      → p f ≡ false
      → q f ≡ true
      → count_where p files < count_where q files
  unfolding count_where
  count_where-less [] i f at low high = absurd (ground arith)
  count_where-less (g ∷ files) zero f at low high =
      let same = some-injective g f at in
      ground (arith, count_where-le files, ap p same ∙ low, ap q same ∙ high)
  count_where-less (g ∷ files) (suc i) f at low high =
      ground (arith, count_where-less files i f at low high, weaker g)

pub count_where-length :
    (p : FileMetaData → Bool) (files : List FileMetaData) → count_where p files ≤ length files
unfolding count_where
count_where-length p [] = omega arith
count_where-length p (f ∷ files) = ground (arith, count_where-length p files)

module _ (user : UserComparator) where
  -- The files that are not completely before or after a range.
  unfoldable pub select : Option (List ℕ) → Option (List ℕ) → List FileMetaData → List FileMetaData
  unfolding is_skipped
  select begin end [] = []
  select begin end (f ∷ files) =
      let rest = select begin end files in if is_skipped user begin end f then rest else f ∷ rest

  abbrev pub IsInside : Option (List ℕ) → Option (List ℕ) → FileMetaData → Type 0
  IsInside begin end f =
      (below user (extract_user_key f.smallest) begin ≡ false)
      × (above user (extract_user_key f.largest) end ≡ false)

  -- What a round over the files ends with.
  unfoldable pub Outcome :
      Option (List ℕ) → Option (List ℕ) → List FileMetaData → List FileMetaData → Type 0
  Outcome begin end files inputs =
      ((scan_files user true begin end files inputs ≡ scanned (inputs ++ select begin end files))
        × All (IsInside begin end) (select begin end files))
      ⊎ ((i : ℕ) × (f : FileMetaData) × (get_elem? files i ≡ some f)
          × (is_skipped user begin end f ≡ false)
          × (((below user (extract_user_key f.smallest) begin ≡ true)
                × (scan_files user true begin end files inputs
                    ≡ restarted (some (extract_user_key f.smallest)) end))
              ⊎ ((above user (extract_user_key f.largest) end ≡ true)
                  × (scan_files user true begin end files inputs
                      ≡ restarted begin (some (extract_user_key f.largest))))))

  pub scan_files-Outcome :
      (begin end : Option (List ℕ)) (files inputs : List FileMetaData)
      → Outcome begin end files inputs
  unfolding Outcome scan_files select
  scan_files-Outcome begin end [] inputs = inl (ap scanned (sym (append-nil inputs)), tt)
  scan_files-Outcome begin end (f ∷ files) inputs =
      elim (Bool-cases (is_skipped user begin end f)) [
        | inl skipped ↦ rw skipped (elim (scan_files-Outcome begin end files inputs) [
          | inl done ↦ inl done
          | inr (i, g, at, met, restart) ↦ inr (suc i, g, at, met, restart)
        ])
        | inr taken ↦ elim (Bool-cases (below user (extract_user_key f.smallest) begin)) [
          | inl low ↦ inr (zero, f, refl, taken, inl (low, rw (taken, low) refl))
          | inr not_low ↦ elim (Bool-cases (above user (extract_user_key f.largest) end)) [
            | inl high ↦ inr (zero, f, refl, taken, inr (high, rw (taken, not_low, high) refl))
            | inr not_high ↦
                rw (taken, not_low, not_high)
                  (elim (scan_files-Outcome begin end files (inputs ++ (f ∷ []))) [
                    | inl (done, inside) ↦ inl (
                      done ∙ ap scanned (append_assoc inputs (f ∷ []) (select begin end files)),
                      ((refl, refl), inside),
                    )
                    | inr (i, g, at, met, restart) ↦ inr (suc i, g, at, met, restart)
                  ])
          ]
        ]
      ]
