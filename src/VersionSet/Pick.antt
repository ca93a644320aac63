-- ===== src/VersionSet/Pick.antt =====
-- lib/leveldb/db/version_set.cc: the level to which a memtable is written.
use tleveldb.Base.{
  ℕ, zero, suc, ◌+◌, ◌*◌, ◌%◌, ◌^◌, Bool, ◌&&◌, Option, none, some, List, [], ◌∷◌, ltb,
  if◌then◌else◌,
}
use tleveldb.DbFormat.{
  UserComparator, append_internal_key, max_sequence_number, value_type_for_seek,
}
use tleveldb.VersionEdit.{FileMetaData, num_levels}
use tleveldb.VersionSet.{some_file_overlaps_range}
use tleveldb.VersionSet.Inputs.{get_overlapping_inputs}

-- config::kMaxMemCompactLevel.
abbrev pub max_mem_compact_level : ℕ
max_mem_compact_level = 2

-- `sum` is an int64_t to which a uint64_t is added.
unfoldable pub add_file_sizes : ℕ → List FileMetaData → ℕ
add_file_sizes sum [] = sum
add_file_sizes sum (f ∷ files) = add_file_sizes ((sum + f.file_size) % 2 ^ 64) files

unfoldable pub total_file_size : List FileMetaData → ℕ
unfolding add_file_sizes
total_file_size files = add_file_sizes 0 files

abbrev pub max_grand_parent_overlap_bytes : ℕ → ℕ
max_grand_parent_overlap_bytes max_file_size = 10 * max_file_size % 2 ^ 64

-- `a < b` on int64_t, in two's complement.
abbrev pub less_int64 : ℕ → ℕ → Bool
less_int64 a b = ltb ((a + 2 ^ 63) % 2 ^ 64) ((b + 2 ^ 63) % 2 ^ 64)

-- The files that GetOverlappingInputs gives; its rounds do end.
abbrev inputs_of : Option (List FileMetaData) → List FileMetaData
inputs_of none = []
inputs_of (some inputs) = inputs

-- A version's `files_`, by level, with options->max_file_size.
module _ (user : UserComparator) (max_file_size : ℕ) (files : ℕ → List FileMetaData) where
  unfoldable pub overlap_in_level : ℕ → Option (List ℕ) → Option (List ℕ) → Bool
  unfolding some_file_overlaps_range
  overlap_in_level level smallest_user_key largest_user_key =
      some_file_overlaps_range user smallest_user_key largest_user_key (ltb 0 level) (files level)

  module _ (smallest_user_key largest_user_key : List ℕ) where
    -- The files of a level that overlap the range have too many bytes.
    unfoldable pub overlaps_too_much : ℕ → Bool
    unfolding get_overlapping_inputs total_file_size append_internal_key
    overlaps_too_much level =
        let start = append_internal_key [] (record {
          user_key = smallest_user_key;
          sequence = max_sequence_number;
          type = value_type_for_seek;
        }) in
        let limit =
          append_internal_key [] (record { user_key = largest_user_key; sequence = 0; type = 0 }) in
        let overlaps =
          inputs_of (get_overlapping_inputs user level (files level) (some start) (some limit)) in
        less_int64 (max_grand_parent_overlap_bytes max_file_size) (total_file_size overlaps)

    -- The loop from `level` on, with the levels that are left for fuel.
    unfoldable pub pick_loop : ℕ → ℕ → ℕ
    unfolding overlap_in_level overlaps_too_much
    pick_loop zero level = level
    pick_loop (suc fuel) level =
        let rest = pick_loop fuel (level + 1) in
        if ltb level max_mem_compact_level
        then (if overlap_in_level (level + 1) (some smallest_user_key) (some largest_user_key)
            then level
            else if ltb (level + 2) num_levels && overlaps_too_much (level + 2)
            then level
            else rest)
        else level

    unfoldable pub pick_level_for_mem_table_output : ℕ
    unfolding overlap_in_level pick_loop
    pick_level_for_mem_table_output =
        if overlap_in_level 0 (some smallest_user_key) (some largest_user_key)
        then 0
        else pick_loop max_mem_compact_level 0
