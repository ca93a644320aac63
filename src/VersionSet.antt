-- ===== src/VersionSet.antt =====
-- lib/leveldb/db/version_set.cc: the search for a file of a sorted level, and the
-- test whether a file overlaps a range of user keys.
pub mod Find
pub mod Overlap
pub mod Inputs
pub mod Pick
pub mod Placed
pub mod Rounds
pub mod Closed
pub mod Higher
mod Examples
use Prim.Native.Nat.{Ordering}
use tleveldb.Base.{
  ℕ, zero, suc, ◌+◌, ◌/◌, ◌%◌, ◌^◌, Bool, true, false, ◌||◌, not, Option, none, some, List, [], ◌∷◌,
  ltb, leb, if◌then◌else◌, length, get_elem?,
}
use tleveldb.DbFormat.{
  UserComparator, internal_compare, append_internal_key, extract_user_key, max_sequence_number,
  value_type_for_seek,
}
use tleveldb.VersionEdit.{FileMetaData}

module _ (user : UserComparator) (files : List FileMetaData) (key : List ℕ) where
  -- The test of FindFile. The file is there at each index that FindFile asks for.
  unfoldable pub is_below : ℕ → Bool
  is_below mid = elim (get_elem? files mid) [
    | none ↦ false
    | some f ↦ elim (internal_compare user f.largest key) [ Ordering.lt ↦ true | _ ↦ false ]
  ]

  -- The loop of FindFile from `left` and `right`, with the number of rounds for fuel.
  unfoldable pub find_loop : ℕ → ℕ → ℕ → ℕ
  find_loop zero left right = right
  find_loop (suc fuel) left right =
      let mid = (left + right) % 2 ^ 32 / 2 in
      let below = is_below mid in
      let rest = find_loop fuel (if below then mid + 1 else left) (if below then right else mid) in
      if ltb left right then rest else right

  unfoldable pub find_file : ℕ
  unfolding find_loop
  find_file = find_loop (length files) 0 (length files % 2 ^ 32)

module _ (user : UserComparator) where
  -- AfterFile; a key that is a null pointer is none.
  unfoldable pub after_file : Option (List ℕ) → FileMetaData → Bool
  after_file none f = false
  after_file (some user_key) f = elim (user.cmp user_key (extract_user_key f.largest)) [
    | Ordering.gt ↦ true
    | _ ↦ false
  ]

  unfoldable pub before_file : Option (List ℕ) → FileMetaData → Bool
  before_file none f = false
  before_file (some user_key) f = elim (user.cmp user_key (extract_user_key f.smallest)) [
    | Ordering.lt ↦ true
    | _ ↦ false
  ]

  module _ (smallest_user_key largest_user_key : Option (List ℕ)) where
    -- The loop over all files.
    unfoldable pub check_all_files : List FileMetaData → Bool
    unfolding after_file before_file
    check_all_files [] = false
    check_all_files (f ∷ files) =
        let rest = check_all_files files in
        if after_file smallest_user_key f || before_file largest_user_key f then rest else true

    -- The earliest file that may overlap, by binary search.
    unfoldable pub first_index : List FileMetaData → ℕ
    unfolding find_file append_internal_key
    first_index files = elim smallest_user_key [
      | none ↦ 0
      | some user_key ↦ find_file user files (
          append_internal_key [] (record {
            user_key = user_key;
            sequence = max_sequence_number;
            type = value_type_for_seek;
          }))
    ]

    -- SomeFileOverlapsRange behind the search. There is a file at each index below the length.
    unfoldable pub check_file : List FileMetaData → ℕ → Bool
    unfolding before_file
    check_file files index = elim (get_elem? files index) [
      | none ↦ false
      | some f ↦ not (before_file largest_user_key f)
    ]

    unfoldable pub some_file_overlaps_range : Bool → List FileMetaData → Bool
    unfolding check_all_files first_index check_file
    some_file_overlaps_range disjoint_sorted_files files =
        let index = first_index files in
        if not disjoint_sorted_files
        then check_all_files files
        else if leb (length files) index
        then false
        else check_file files index
