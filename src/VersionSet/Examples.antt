-- ===== src/VersionSet/Examples.antt =====
-- The search in a level of two files.
use Prim.Native.Nat.{Ordering}
use tleveldb.Base.{
  ◌⊎◌, ℕ, ◌<◌, ◌+◌, ◌*◌, ◌^◌, ◌≢◌, none, some, get_elem?, true, false, zero, suc, ◌≤◌, ◌≡◌, refl,
  sym, List, [], ◌∷◌, length, arith,
}
use tleveldb.Coding.{encode_fixed64, decode_fixed64}
use tleveldb.Comparator.{bytes_compare}
use tleveldb.Comparator.Order.{bytes_compare-IsOrder}
use tleveldb.DbFormat.{
  append_internal_key, internal_compare, extract_user_key, extract_tag, pack_sequence_and_type,
  max_sequence_number, value_type_for_seek,
}
use tleveldb.DbFormat.Order.{bytewise}
use mathlib.Core.Option.{some-injective}
use tleveldb.VersionEdit.{FileMetaData}
use tleveldb.VersionSet.{
  is_below, find_loop, find_file, some_file_overlaps_range, first_index, check_file,
  check_all_files, after_file, before_file,
}
use tleveldb.VersionSet.Find.{IsSorted, IsFirst, find_file-IsFirst}
use tleveldb.VersionSet.Inputs.{
  is_skipped, scan_files, inputs_loop, user_key_of_bound, get_overlapping_inputs,
}
use tleveldb.VersionSet.Pick.{
  add_file_sizes, total_file_size, overlap_in_level, overlaps_too_much, pick_loop,
  pick_level_for_mem_table_output,
}
use tleveldb.VersionSet.Placed.{AllApart, pick_level_for_mem_table_output_lem}
use tleveldb.VersionSet.Closed.{Closure, get_overlapping_inputs-Closure}
use tleveldb.VersionSet.Overlap.{IsLevel, some_file_overlaps_range-disjoint}

abbrev key_of : ℕ → List ℕ
key_of c = append_internal_key [] (record { user_key = c ∷ []; sequence = 5; type = 1 })

abbrev first_file : FileMetaData
first_file = record { number = 7; file_size = 2000; smallest = key_of 97; largest = key_of 103 }

abbrev second_file : FileMetaData
second_file = record { number = 9; file_size = 900; smallest = key_of 104; largest = key_of 120 }

abbrev level : List FileMetaData
level = first_file ∷ second_file ∷ []

in_order : internal_compare bytewise (key_of 103) (key_of 120) ≡ Ordering.lt
unfolding internal_compare bytes_compare append_internal_key encode_fixed64
in_order = refl

level-IsSorted : IsSorted bytewise level
level-IsSorted zero zero f g h e e' = absurd (omega arith)
level-IsSorted zero (suc zero) f g h e e' =
    rw (sym (some-injective first_file f e), sym (some-injective second_file g e')) in_order
level-IsSorted zero (suc (suc j)) f g h e e' = absurd (ground arith)
level-IsSorted (suc i) zero f g h e e' = absurd (omega arith)
level-IsSorted (suc zero) (suc zero) f g h e e' = absurd (omega arith)
level-IsSorted (suc zero) (suc (suc j)) f g h e e' = absurd (ground arith)
level-IsSorted (suc (suc i)) (suc j) f g h e e' = absurd (ground arith)

find_file-IsFirst_example :
    IsFirst (is_below bytewise level (key_of 110)) (find_file bytewise level (key_of 110))
    × (find_file bytewise level (key_of 110) ≤ length level)
find_file-IsFirst_example =
    find_file-IsFirst bytewise level (key_of 110) bytes_compare-IsOrder level-IsSorted (omega arith)

next_above : internal_compare bytewise (key_of 103) (key_of 104) ≡ Ordering.lt
unfolding internal_compare bytes_compare append_internal_key encode_fixed64
next_above = refl

first_range : internal_compare bytewise (key_of 97) (key_of 103) ≡ Ordering.lt
unfolding internal_compare bytes_compare append_internal_key encode_fixed64
first_range = refl

second_range : internal_compare bytewise (key_of 104) (key_of 120) ≡ Ordering.lt
unfolding internal_compare bytes_compare append_internal_key encode_fixed64
second_range = refl

tag_of : (c : ℕ) → extract_tag (key_of c) ≡ 1281
unfolding extract_tag append_internal_key pack_sequence_and_type encode_fixed64 decode_fixed64
tag_of c = refl

level-IsLevel : IsLevel bytewise level
level-IsLevel = record { ordered = ordered; range = range; tags = tags }
  where
    ordered :
        (i j : ℕ) (f g : FileMetaData)
        → i < j
        → get_elem? level i ≡ some f
        → get_elem? level j ≡ some g
        → internal_compare bytewise f.largest g.smallest ≡ Ordering.lt
    ordered i zero f g h e e' = absurd (omega arith)
    ordered zero (suc zero) f g h e e' =
        rw (sym (some-injective first_file f e), sym (some-injective second_file g e')) next_above
    ordered (suc i) (suc zero) f g h e e' = absurd (omega arith)
    ordered i (suc (suc j)) f g h e e' = absurd (ground arith)

    range :
        (i : ℕ) (f : FileMetaData)
        → get_elem? level i ≡ some f
        → internal_compare bytewise f.smallest f.largest ≢ Ordering.gt
    range zero f e = rw (sym (some-injective first_file f e)) (ground (arith, first_range))
    range (suc zero) f e = rw (sym (some-injective second_file f e)) (ground (arith, second_range))
    range (suc (suc i)) f e = absurd (ground arith)

    tags :
        (i : ℕ) (f : FileMetaData)
        → get_elem? level i ≡ some f
        → extract_tag f.largest ≤ max_sequence_number * 2 ^ 8 + value_type_for_seek
    tags zero f e = rw (sym (some-injective first_file f e)) (omega (arith, tag_of 103))
    tags (suc zero) f e = rw (sym (some-injective second_file f e)) (omega (arith, tag_of 120))
    tags (suc (suc i)) f e = absurd (ground arith)

overlap_test :
    some_file_overlaps_range bytewise (some (110 ∷ [])) (some (112 ∷ [])) false level ≡ true
unfolding some_file_overlaps_range check_all_files after_file before_file bytes_compare
    append_internal_key extract_user_key encode_fixed64
overlap_test = refl

some_file_overlaps_range-disjoint_example :
    some_file_overlaps_range bytewise (some (110 ∷ [])) none true level
    ≡ some_file_overlaps_range bytewise (some (110 ∷ [])) none false level
some_file_overlaps_range-disjoint_example =
    some_file_overlaps_range-disjoint bytewise level bytes_compare-IsOrder level-IsLevel
      (some (110 ∷ [])) none (omega arith)

abbrev wide_file : FileMetaData
wide_file = record { number = 3; file_size = 100; smallest = key_of 100; largest = key_of 106 }

-- On level 0 the second file makes the range larger, so that the first one overlaps it too.
level_0_test :
    get_overlapping_inputs bytewise 0
      (first_file ∷ wide_file ∷ second_file ∷ [])
      (some (key_of 104))
      (some (key_of 104))
    ≡ some (first_file ∷ wide_file ∷ second_file ∷ [])
unfolding get_overlapping_inputs inputs_loop scan_files is_skipped bytes_compare append_internal_key
    extract_user_key encode_fixed64
level_0_test = refl

higher_level_test :
    get_overlapping_inputs bytewise 1 level (some (key_of 104)) none ≡ some (second_file ∷ [])
unfolding get_overlapping_inputs inputs_loop scan_files is_skipped bytes_compare append_internal_key
    extract_user_key encode_fixed64
higher_level_test = refl

get_overlapping_inputs-Closure_example :
    Closure bytewise
      (first_file ∷ wide_file ∷ [])
      (user_key_of_bound bytewise (some (key_of 104)))
      (user_key_of_bound bytewise none)
      (get_overlapping_inputs bytewise 0 (first_file ∷ wide_file ∷ []) (some (key_of 104)) none)
get_overlapping_inputs-Closure_example =
    get_overlapping_inputs-Closure bytewise bytes_compare-IsOrder (first_file ∷ wide_file ∷ [])
      (some (key_of 104)) none

abbrev picked : ℕ
picked = pick_level_for_mem_table_output bytewise 2097152 (λ k. level) (121 ∷ []) (125 ∷ [])

picked_test : picked ≡ 2
unfolding pick_level_for_mem_table_output pick_loop overlap_in_level overlaps_too_much
    total_file_size add_file_sizes some_file_overlaps_range check_all_files first_index check_file
    find_file find_loop is_below internal_compare pack_sequence_and_type decode_fixed64 extract_tag
    after_file before_file get_overlapping_inputs inputs_loop scan_files is_skipped bytes_compare
    append_internal_key extract_user_key encode_fixed64
picked_test = refl

pick_level_for_mem_table_output_example :
    (picked ≤ 2) × ((picked ≡ 0) ⊎ AllApart bytewise (121 ∷ []) (125 ∷ []) 2097152 (λ k. level))
pick_level_for_mem_table_output_example =
    pick_level_for_mem_table_output_lem bytewise (121 ∷ []) (125 ∷ []) 2097152 (λ k. level)
      bytes_compare-IsOrder (λ k h. level-IsLevel) (λ k. omega arith)
