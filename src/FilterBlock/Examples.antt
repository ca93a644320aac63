-- ===== src/FilterBlock/Examples.antt =====
-- A filter block of two blocks, at the offsets 0 and 5000.
use tleveldb.Base.{◌≡◌, ◌<◌, ◌^◌, refl, true, [], ◌∷◌, length, arith, inl}
use tleveldb.Hash.{hash}
use tleveldb.Bloom.{create_filter, num_probes, set_bit, filter_bytes, bloom_hash, rotate}
use tleveldb.FilterPolicy.{bloom_policy}
use tleveldb.FilterPolicy.Sound.{bloom_policy-IsFilterPolicy}
use tleveldb.FilterBlock.{
  FilterBlockBuilder, new_builder, add_key, start_block, finish, new_reader, block_may_match,
}
use tleveldb.FilterBlock.Build.{
  Holds, filters_of, new_builder-Holds, add_key-Holds, advance, start_block-Holds,
}
use tleveldb.FilterBlock.Sound.{may_match-finish}

abbrev first_block : FilterBlockBuilder
first_block = add_key (7 ∷ []) new_builder

abbrev second_block : FilterBlockBuilder
second_block = add_key (2 ∷ 3 ∷ []) (start_block (bloom_policy 10) 5000 first_block)

first_block-Holds : Holds (bloom_policy 10) first_block [] ((7 ∷ []) ∷ [])
first_block-Holds =
    add_key-Holds (bloom_policy 10) new_builder [] [] (7 ∷ []) (new_builder-Holds (bloom_policy 10))

start_block-Holds_example :
    Holds
      (bloom_policy 10)
      (start_block (bloom_policy 10) 5000 first_block)
      (advance 2 [] ((7 ∷ []) ∷ [])).0
      (advance 2 [] ((7 ∷ []) ∷ [])).1
    × (length (advance 2 [] ((7 ∷ []) ∷ [])).0 ≡ 2)
start_block-Holds_example =
    start_block-Holds (bloom_policy 10) first_block [] ((7 ∷ []) ∷ []) 5000
      (bloom_policy-IsFilterPolicy 10) first_block-Holds (omega arith)

second_block-Holds :
    Holds (bloom_policy 10) second_block (((7 ∷ []) ∷ []) ∷ [] ∷ []) ((2 ∷ 3 ∷ []) ∷ [])
second_block-Holds =
    add_key-Holds (bloom_policy 10) (start_block (bloom_policy 10) 5000 first_block)
      (((7 ∷ []) ∷ []) ∷ [] ∷ []) [] (2 ∷ 3 ∷ [])
      (start_block-Holds (bloom_policy 10) first_block [] ((7 ∷ []) ∷ []) 5000
        (bloom_policy-IsFilterPolicy 10) first_block-Holds (omega arith)).0

two_filters_small :
    length (filters_of (bloom_policy 10) (((7 ∷ []) ∷ []) ∷ [] ∷ ((2 ∷ 3 ∷ []) ∷ []) ∷ [])) < 2 ^ 32
unfolding create_filter num_probes set_bit filter_bytes bloom_hash hash rotate
two_filters_small = omega arith

may_match-finish_example :
    block_may_match
      (bloom_policy 10)
      (new_reader (finish (bloom_policy 10) second_block))
      5000
      (2 ∷ 3 ∷ [])
    ≡ true
may_match-finish_example =
    may_match-finish (bloom_policy 10) second_block (((7 ∷ []) ∷ []) ∷ [] ∷ []) ((2 ∷ 3 ∷ []) ∷ [])
      (((7 ∷ []) ∷ []) ∷ [] ∷ []) [] ((2 ∷ 3 ∷ []) ∷ []) 5000 (2 ∷ 3 ∷ [])
      (bloom_policy-IsFilterPolicy 10) second_block-Holds refl two_filters_small refl (inl refl)
