-- ===== src/VersionSet/Placed.antt =====
-- The level for a memtable: no file of it, or of a level above it, overlaps the memtable's range.
use tleveldb.Base.{
  ℕ, zero, suc, ◌+◌, ◌^◌, ◌<◌, ◌≤◌, ◌≡◌, ◌⊎◌, refl, sym, ap, ◌∙◌, Bool, true, false, ◌||◌, some,
  List, [], ◌∷◌, length, get_elem?, inl, inr, lt→ltb, arith,
}
use mathlib.Core.Path.{subst}
use mathlib.Core.Option.{some-injective}
use tleveldb.Comparator.Order.{IsOrder}
use tleveldb.DbFormat.{UserComparator}
use tleveldb.VersionEdit.{FileMetaData}
use tleveldb.VersionSet.{after_file, before_file, check_all_files, some_file_overlaps_range}
use tleveldb.VersionSet.Overlap.{IsLevel, some_file_overlaps_range-disjoint}
use tleveldb.VersionSet.Pick.{
  max_mem_compact_level, overlap_in_level, pick_loop, pick_level_for_mem_table_output,
}

-- The file is completely after or before the range of these user keys.
abbrev pub is_apart : UserComparator → List ℕ → List ℕ → FileMetaData → Bool
is_apart user small large f = after_file user (some small) f || before_file user (some large) f

module _ (user : UserComparator) (small large : List ℕ) where
  check_all_files-apart :
      (files : List FileMetaData) (i : ℕ) (f : FileMetaData)
      → check_all_files user (some small) (some large) files ≡ false
      → get_elem? files i ≡ some f
      → is_apart user small large f ≡ true
  unfolding check_all_files
  check_all_files-apart [] i f clear at = absurd (ground arith)
  check_all_files-apart (g ∷ files) zero f clear at =
      sym (ap (is_apart user small large) (some-injective g f at)) ∙ ground (arith, clear)
  check_all_files-apart (g ∷ files) (suc i) f clear at =
      check_all_files-apart files i f (ground (arith, clear)) at

  module _ (max_file_size : ℕ) (files : ℕ → List FileMetaData) where
    IsClear : ℕ → Type 0
    IsClear level =
        overlap_in_level user max_file_size files level (some small) (some large) ≡ false

    pick_loop-cases :
        (fuel level : ℕ)
        → (pick_loop user max_file_size files small large (suc fuel) level ≡ level)
          ⊎ (IsClear (level + 1)
              × (pick_loop user max_file_size files small large (suc fuel) level
                  ≡ pick_loop user max_file_size files small large fuel (level + 1)))
    unfolding pick_loop IsClear
    pick_loop-cases fuel level = ground arith

    up_to_next :
        (level : ℕ)
        → ((k : ℕ) → k ≤ level → IsClear k)
        → IsClear (level + 1)
        → (k : ℕ) → k ≤ level + 1
        → IsClear k
    up_to_next level clear next_clear k h = elim (at_or_below k level h) [
      | inl below ↦ clear k below
      | inr at ↦ subst IsClear (sym at) next_clear
    ]
      where
        at_or_below : (k level : ℕ) → k ≤ level + 1 → (k ≤ level) ⊎ (k ≡ level + 1)
        at_or_below k level h = ground arith

    pick_loop-IsClear :
        (fuel level l : ℕ)
        → ((k : ℕ) → k ≤ level → IsClear k)
        → l ≤ pick_loop user max_file_size files small large fuel level
        → IsClear l
    unfolding pick_loop
    pick_loop-IsClear zero level l clear h = clear l h
    pick_loop-IsClear (suc fuel) level l clear h = elim (pick_loop-cases fuel level) [
      | inl stays ↦ clear l (omega (arith, h, stays))
      | inr (next_clear, goes_on) ↦
          pick_loop-IsClear fuel (level + 1) l (up_to_next level clear next_clear)
            (omega (arith, h, goes_on))
    ]

    pick_loop-le :
        (fuel level : ℕ)
        → level + fuel ≤ max_mem_compact_level
        → pick_loop user max_file_size files small large fuel level ≤ max_mem_compact_level
    unfolding pick_loop
    pick_loop-le zero level h = omega (arith, h)
    pick_loop-le (suc fuel) level h = ground (arith, pick_loop-le fuel (level + 1))

    pick_level-pick_loop :
        0 < pick_level_for_mem_table_output user max_file_size files small large
        → IsClear 0
          × (pick_level_for_mem_table_output user max_file_size files small large
              ≡ pick_loop user max_file_size files small large max_mem_compact_level 0)
    unfolding pick_level_for_mem_table_output IsClear
    pick_level-pick_loop deep = ground (arith, deep)

    only_zero : IsClear 0 → (k : ℕ) → k ≤ 0 → IsClear k
    only_zero clear k h = subst IsClear (zero_only k h) clear
      where
        zero_only : (k : ℕ) → k ≤ 0 → 0 ≡ k
        zero_only k h = omega arith

    IsClear-check_all_files :
        (l : ℕ)
        → IsOrder user.cmp
        → ((k : ℕ) → 0 < k → IsLevel user (files k))
        → ((k : ℕ) → length (files k) < 2 ^ 31)
        → IsClear l
        → some_file_overlaps_range user (some small) (some large) false (files l) ≡ false
    unfolding IsClear overlap_in_level
    IsClear-check_all_files zero order levels bound clear = clear
    IsClear-check_all_files (suc l) order levels bound clear =
        sym (
          some_file_overlaps_range-disjoint user (files (suc l)) order
            (levels (suc l) (omega arith)) (some small) (some large) (bound (suc l)))
        ∙ ap (λ b. some_file_overlaps_range user (some small) (some large) b (files (suc l)))
            (sym (lt→ltb 0 (suc l) (omega arith)))
        ∙ clear

    files_apart :
        (l i : ℕ) (f : FileMetaData)
        → IsOrder user.cmp
        → ((k : ℕ) → 0 < k → IsLevel user (files k))
        → ((k : ℕ) → length (files k) < 2 ^ 31)
        → 0 < pick_level_for_mem_table_output user max_file_size files small large
        → l ≤ pick_level_for_mem_table_output user max_file_size files small large
        → get_elem? (files l) i ≡ some f
        → is_apart user small large f ≡ true
    unfolding check_all_files some_file_overlaps_range
    files_apart l i f order levels bound deep h at =
        let (clear, looped) = pick_level-pick_loop deep in
        check_all_files-apart (files l) i f
          (IsClear-check_all_files l order levels bound (
            pick_loop-IsClear max_mem_compact_level 0 l (only_zero clear)
              (omega (arith, h, looped))))
          at

    -- Each file of the level that is picked and of those above it is apart from the range.
    pub AllApart : Type 0
    AllApart =
        (l i : ℕ) (f : FileMetaData)
        → l ≤ pick_level_for_mem_table_output user max_file_size files small large
        → get_elem? (files l) i ≡ some f
        → is_apart user small large f ≡ true

    zero_or_above : (n : ℕ) → (n ≡ 0) ⊎ (0 < n)
    zero_or_above zero = inl refl
    zero_or_above (suc n) = inr (omega arith)

    pick_level-le :
        pick_level_for_mem_table_output user max_file_size files small large ≤ max_mem_compact_level
    pick_level-le =
        elim (zero_or_above
          (pick_level_for_mem_table_output user max_file_size files small large)) [
            | inl none_picked ↦ omega (arith, none_picked)
            | inr deep ↦ omega (
              arith,
              (pick_level-pick_loop deep).1,
              pick_loop-le max_mem_compact_level 0 (omega arith),
            )
          ]

    -- With a total order for the user's comparator, in a version whose levels above 0 are sorted
    -- and have fewer than 2^31 files, PickLevelForMemTableOutput gives at most level 2, and if it
    -- is not level 0, each file of the level and of those above it is completely before or after
    -- the range of the memtable.
    pub pick_level_for_mem_table_output_lem :
        IsOrder user.cmp
        → ((k : ℕ) → 0 < k → IsLevel user (files k))
        → ((k : ℕ) → length (files k) < 2 ^ 31)
        → (pick_level_for_mem_table_output user max_file_size files small large
            ≤ max_mem_compact_level)
          × ((pick_level_for_mem_table_output user max_file_size files small large ≡ 0) ⊎ AllApart)
    unfolding AllApart
    pick_level_for_mem_table_output_lem order levels bound = (
      pick_level-le,
      elim (zero_or_above (pick_level_for_mem_table_output user max_file_size files small large)) [
        | inl none_picked ↦ inl none_picked
        | inr deep ↦ inr (λ l i f h at. files_apart l i f order levels bound deep h at)
      ],
    )
