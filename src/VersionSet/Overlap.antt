-- ===== src/VersionSet/Overlap.antt =====
-- SomeFileOverlapsRange: the binary search in a sorted level finds what the loop over all files finds.
use Prim.Native.Nat.{Ordering, compare}
use tleveldb.Base.{
  ℕ, zero, suc, ◌+◌, ◌*◌, ◌^◌, ◌<◌, ◌≤◌, ◌≡◌, ◌≢◌, refl, sym, ◌∙◌, Bool, true, false, Option, none,
  some, List, [], ◌∷◌, length, get_elem?, leb, inl, inr, Bool-cases, arith,
}
use tleveldb.Comparator.{or_else}
use tleveldb.Comparator.Order.{IsOrder}
use tleveldb.DbFormat.{
  UserComparator, internal_compare, append_internal_key, extract_user_key, extract_tag,
  max_sequence_number, value_type_for_seek,
}
use tleveldb.DbFormat.Keys.{
  append_internal_key-encoded, extract_user_key-encoded, extract_tag-encoded,
}
use tleveldb.VersionEdit.{FileMetaData}
use tleveldb.VersionSet.{
  is_below, after_file, before_file, check_all_files, first_index, check_file,
  some_file_overlaps_range,
}
use tleveldb.VersionSet.Find.{IsSorted, find_file-IsFirst}

-- The files of a level above 0: each file's keys are from its smallest to its largest, those of a
-- file are below those of the files behind it, and a sequence number and type make eight bytes.
pub record IsLevel (user : UserComparator) (files : List FileMetaData) : Type 0 where
  pub ordered :
      (i j : ℕ) (f g : FileMetaData)
      → i < j
      → get_elem? files i ≡ some f
      → get_elem? files j ≡ some g
      → internal_compare user f.largest g.smallest ≡ Ordering.lt
  pub range :
      (i : ℕ) (f : FileMetaData)
      → get_elem? files i ≡ some f
      → internal_compare user f.smallest f.largest ≢ Ordering.gt
  pub tags :
      (i : ℕ) (f : FileMetaData)
      → get_elem? files i ≡ some f
      → extract_tag f.largest ≤ max_sequence_number * 2 ^ 8 + value_type_for_seek

module _ (cmp : List ℕ → List ℕ → Ordering) (order : IsOrder cmp) where
  then_not_above :
      (a b c : List ℕ) (s t u : ℕ)
      → or_else (cmp a b) (compare t s) ≡ Ordering.lt
      → or_else (cmp b c) (compare u t) ≢ Ordering.gt
      → or_else (cmp a c) (compare u s) ≡ Ordering.lt
  then_not_above a b c s t u e h =
      ground (arith, order.trans a b c, order.eq_of_same a b, order.eq_of_same b c, order.same a)

  below_not_above :
      (x a b : List ℕ) (s t : ℕ)
      → cmp x a ≡ Ordering.lt
      → or_else (cmp a b) (compare t s) ≢ Ordering.gt
      → cmp x b ≡ Ordering.lt
  below_not_above x a b s t e h = ground (arith, order.trans x a b, order.eq_of_same a b)

  above_iff_below :
      (a x : List ℕ) (s t : ℕ)
      → s ≤ t
      → (elim (or_else (cmp a x) (compare t s)) as (λ _. Bool) [ Ordering.lt ↦ true | _ ↦ false ])
        ≡ (elim (cmp x a) as (λ _. Bool) [ Ordering.gt ↦ true | _ ↦ false ])
  above_iff_below a x s t h = ground (arith, order.swap a x, order.swap_back x a)

module _ (user : UserComparator) (files : List FileMetaData) where
  IsLevel-IsSorted : IsOrder user.cmp → IsLevel user files → IsSorted user files
  unfolding internal_compare
  IsLevel-IsSorted order level i j f g h at_i at_j =
      then_not_above user.cmp order _ _ _ _ _ _ (level.ordered i j f g h at_i at_j)
        (level.range j g at_j)

-- The search in a list in which the files up to `m` are all that end too early, and the files
-- behind one that begins too late do so too.
module _ (user : UserComparator) (small large : Option (List ℕ)) where
  none_overlaps :
      (files : List FileMetaData)
      → ((i : ℕ) (f : FileMetaData) → get_elem? files i ≡ some f → before_file user large f ≡ true)
      → check_all_files user small large files ≡ false
  unfolding check_all_files
  none_overlaps [] late = refl
  none_overlaps (f ∷ files) late =
      let rest = none_overlaps files (λ i g e. late (suc i) g e) in
      ground (arith, late zero f refl, rest)

  first_decides :
      (files : List FileMetaData) (m : ℕ)
      → ((i : ℕ) (f : FileMetaData)
          → i < m
          → get_elem? files i ≡ some f
          → after_file user small f ≡ true)
      → ((i : ℕ) (f : FileMetaData)
          → m ≤ i
          → get_elem? files i ≡ some f
          → after_file user small f ≡ false)
      → ((i j : ℕ) (f g : FileMetaData)
          → i < j
          → get_elem? files i ≡ some f
          → get_elem? files j ≡ some g
          → before_file user large f ≡ true
          → before_file user large g ≡ true)
      → check_file user small large files m ≡ check_all_files user small large files
  unfolding check_all_files check_file
  first_decides [] zero early reached late = refl
  first_decides [] (suc m) early reached late = refl
  first_decides (f ∷ files) (suc m) early reached late = rw (early zero f (omega arith) refl) (
      first_decides files m (λ i g h e. early (suc i) g (omega arith) e)
        (λ i g h e. reached (suc i) g (omega arith) e)
        (λ i j g g' h e e'. late (suc i) (suc j) g g' (omega arith) e e'))
  first_decides (f ∷ files) zero early reached late = elim (Bool-cases (before_file user large f)) [
    | inl begins_late ↦
        rw
          (
            reached zero f (omega arith) refl,
            begins_late,
            none_overlaps files (λ i g e. late zero (suc i) f g (omega arith) refl e begins_late),
          )
          refl
    | inr overlaps ↦ rw (reached zero f (omega arith) refl, overlaps) refl
  ]

  check_file-end :
      (files : List FileMetaData) (m : ℕ)
      → length files ≤ m
      → check_file user small large files m ≡ false
  unfolding check_file
  check_file-end [] zero h = refl
  check_file-end [] (suc m) h = refl
  check_file-end (f ∷ files) zero h = absurd (omega arith)
  check_file-end (f ∷ files) (suc m) h = check_file-end files m (omega arith)

-- The key that the search looks for.
abbrev small_key : List ℕ → List ℕ
small_key x =
    append_internal_key []
      (record { user_key = x; sequence = max_sequence_number; type = value_type_for_seek })

abbrev greatest_tag : ℕ
greatest_tag = max_sequence_number * 2 ^ 8 + value_type_for_seek

small_key-parts :
    (x : List ℕ) → (extract_user_key (small_key x) ≡ x) × (extract_tag (small_key x) ≡ greatest_tag)
small_key-parts x =
    rw
      (append_internal_key-encoded
        (record { user_key = x; sequence = max_sequence_number; type = value_type_for_seek })
        (record { sequence_fits = omega arith; type_known = omega arith }))
      (extract_user_key-encoded x greatest_tag, extract_tag-encoded x greatest_tag (omega arith))

before_file-lt :
    (user : UserComparator) (x : List ℕ) (f : FileMetaData)
    → before_file user (some x) f ≡ true
    → user.cmp x (extract_user_key f.smallest) ≡ Ordering.lt
unfolding before_file
before_file-lt user x f e = ground arith

lt-before_file :
    (user : UserComparator) (x : List ℕ) (f : FileMetaData)
    → user.cmp x (extract_user_key f.smallest) ≡ Ordering.lt
    → before_file user (some x) f ≡ true
unfolding before_file
lt-before_file user x f e = ground (arith, e)

lt-not_gt : (o : Ordering) → o ≡ Ordering.lt → o ≢ Ordering.gt
lt-not_gt o e = ground arith

module _ (user : UserComparator) (files : List FileMetaData) (order : IsOrder user.cmp)
    (level : IsLevel user files) where
  before_file-later :
      (large : Option (List ℕ)) (i j : ℕ) (f g : FileMetaData)
      → i < j
      → get_elem? files i ≡ some f
      → get_elem? files j ≡ some g
      → before_file user large f ≡ true
      → before_file user large g ≡ true
  unfolding internal_compare before_file
  before_file-later none i j f g h at_i at_j e = e
  before_file-later (some x) i j f g h at_i at_j e =
      let below =
        below_not_above user.cmp order x (extract_user_key f.smallest) _ _ _
          (before_file-lt user x f e) (level.range i f at_i) in
      lt-before_file user x g (
        below_not_above user.cmp order x (extract_user_key f.largest) _ _ _ below
          (lt-not_gt _ (level.ordered i j f g h at_i at_j)))

  is_below-after_file :
      (x : List ℕ) (i : ℕ) (f : FileMetaData)
      → get_elem? files i ≡ some f
      → is_below user files (small_key x) i ≡ after_file user (some x) f
  unfolding is_below internal_compare after_file
  is_below-after_file x i f at =
      let (key_read, tag_read) = small_key-parts x in
      rw (is_below, at, key_read, tag_read)
        (above_iff_below user.cmp order (extract_user_key f.largest) x (extract_tag f.largest)
          greatest_tag (level.tags i f at))

  first_index-splits :
      (small large : Option (List ℕ))
      → length files < 2 ^ 31
      → ((i : ℕ) (f : FileMetaData)
          → i < first_index user small large files
          → get_elem? files i ≡ some f
          → after_file user small f ≡ true)
        × ((i : ℕ) (f : FileMetaData)
            → first_index user small large files ≤ i
            → get_elem? files i ≡ some f
            → after_file user small f ≡ false)
  unfolding first_index after_file
  first_index-splits none large bound = (λ i f h at. absurd (omega arith), λ i f h at. refl)
  first_index-splits (some x) large bound =
      let (first, inside) =
        find_file-IsFirst user files (small_key x) order (IsLevel-IsSorted user files order level)
          bound in
      (
        λ i f h at. sym (is_below-after_file x i f at) ∙ first.before i h,
        λ i f h at. sym (is_below-after_file x i f at) ∙ first.after i h,
      )

  -- In a level above 0, with a total order for the user's comparator and fewer than 2^31 files, the
  -- binary search of SomeFileOverlapsRange says what its loop over all files says, for each range
  -- of user keys, also one that is open at an end.
  pub some_file_overlaps_range-disjoint :
      (small large : Option (List ℕ))
      → length files < 2 ^ 31
      → some_file_overlaps_range user small large true files
        ≡ some_file_overlaps_range user small large false files
  unfolding some_file_overlaps_range
  some_file_overlaps_range-disjoint small large bound =
      let (early, reached) = first_index-splits small large bound in
      let decided =
        first_decides user small large files (first_index user small large files) early reached
          (before_file-later large) in
      elim (Bool-cases (leb (length files) (first_index user small large files))) [
        | inl behind ↦ rw behind (
            sym (
              check_file-end user small large files (first_index user small large files)
                (ground (arith, behind)))
            ∙ decided)
        | inr inside ↦ rw inside decided
      ]
