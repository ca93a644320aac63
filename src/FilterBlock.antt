-- ===== src/FilterBlock.antt =====
-- lib/leveldb/table/filter_block.cc: the filters of a table, one for each 2 KiB of its blocks.
pub mod Build
pub mod Layout
pub mod Reader
pub mod Sound
mod Examples
use tleveldb.Base.{
  ℕ, zero, suc, ◌+◌, ◌-◌, ◌*◌, ◌/◌, ◌%◌, ◌^◌, Bool, true, false, ◌&&◌, List, [], ◌∷◌, ◌++◌, ltb,
  leb, ◌==◌, if◌then◌else◌, length, take, drop, get_or,
}
use tleveldb.Coding.{put_fixed32, decode_fixed32}
use tleveldb.FilterPolicy.{FilterPolicy}

abbrev pub filter_base_lg : ℕ
filter_base_lg = 11

-- FilterBlockBuilder: the flattened keys with the start of each, the filters, and their offsets.
pub record FilterBlockBuilder : Type 0 where
  pub keys : List ℕ
  pub start : List ℕ
  pub result : List ℕ
  pub filter_offsets : List ℕ

abbrev pub new_builder : FilterBlockBuilder
new_builder = record { keys = []; start = []; result = []; filter_offsets = [] }

-- The loop that makes tmp_keys_: the pieces of `keys` between the positions that stand in a row.
unfoldable pub slices : List ℕ → List ℕ → List (List ℕ)
slices keys [] = []
slices keys (a ∷ []) = []
slices keys (a ∷ b ∷ rest) = take (b - a) (drop a keys) ∷ slices keys (b ∷ rest)

-- The loop of Finish.
unfoldable pub put_offsets : List ℕ → List ℕ → List ℕ
unfolding put_fixed32
put_offsets result [] = result
put_offsets result (o ∷ os) = put_offsets (put_fixed32 result o) os

module _ (policy : FilterPolicy) where
  unfoldable pub generate_filter : FilterBlockBuilder → FilterBlockBuilder
  unfolding slices
  generate_filter b =
      let offsets = b.filter_offsets ++ (length b.result % 2 ^ 32 ∷ []) in
      let tmp_keys = slices b.keys (b.start ++ (length b.keys ∷ [])) in
      if length b.start == 0 then record b { filter_offsets = offsets } else record {
        keys = [];
        start = [];
        result = policy.create tmp_keys b.result;
        filter_offsets = offsets;
      }

  -- The loop of StartBlock: each round adds one offset.
  unfoldable pub generate_filters : ℕ → FilterBlockBuilder → FilterBlockBuilder
  generate_filters zero b = b
  generate_filters (suc rounds) b = generate_filters rounds (generate_filter b)

  unfoldable pub start_block : ℕ → FilterBlockBuilder → FilterBlockBuilder
  unfolding generate_filters
  start_block block_offset b =
      generate_filters (block_offset / 2 ^ filter_base_lg - length b.filter_offsets) b

  -- What Finish leaves in `result_`.
  unfoldable pub finish : FilterBlockBuilder → List ℕ
  unfolding put_fixed32
  finish b =
      let b' = if length b.start == 0 then b else generate_filter b in
      put_fixed32 (put_offsets b'.result b'.filter_offsets) (length b'.result % 2 ^ 32)
      ++ (filter_base_lg ∷ [])

unfoldable pub add_key : List ℕ → FilterBlockBuilder → FilterBlockBuilder
add_key key b = record b { start = b.start ++ (length b.keys ∷ []); keys = b.keys ++ key }

-- FilterBlockReader: `offset` is where the offset array begins in `contents`, which data_ points to.
pub record FilterBlockReader : Type 0 where
  pub contents : List ℕ
  pub offset : ℕ
  pub num : ℕ
  pub base_lg : ℕ

unfoldable pub new_reader : List ℕ → FilterBlockReader
new_reader contents =
    let n = length contents in
    let base_lg = get_or contents (n - 1) 0 in
    let last_word = decode_fixed32 (drop (n - 5) contents) in
    if ltb n 5
    then record { contents = []; offset = 0; num = 0; base_lg = 0 }
    else if ltb (n - 5) last_word
    then record { contents = []; offset = 0; num = 0; base_lg = base_lg }
    else record {
      contents = contents;
      offset = last_word;
      num = (n - 5 - last_word) / 4;
      base_lg = base_lg;
    }

module _ (policy : FilterPolicy) where
  unfoldable pub block_may_match : FilterBlockReader → ℕ → List ℕ → Bool
  block_may_match r block_offset key =
      let index = block_offset / 2 ^ r.base_lg in
      let start = decode_fixed32 (drop (r.offset + index * 4) r.contents) in
      let limit = decode_fixed32 (drop (r.offset + index * 4 + 4) r.contents) in
      if ltb index r.num
      then (if leb start limit && leb limit r.offset
          then policy.may_match key (take (limit - start) (drop start r.contents))
          else if start == limit
          then false
          else true)
      else true
