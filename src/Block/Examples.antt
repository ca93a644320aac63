-- ===== src/Block/Examples.antt =====
-- A block of three entries with a restart point at every second one.
use tleveldb.Base.{ℕ, ◌<◌, ◌^◌, ◌≡◌, List, [], ◌∷◌, length, arith}
use tleveldb.Coding.{put_fixed32, put_varint32, encode_varint32, encode_fixed32}
use tleveldb.Block.{new_builder, add, finish}
use tleveldb.Block.Iter.{Iter, new_block, seek_to_first}
use tleveldb.Block.Seek.{new_iterator, iterator}
use tleveldb.Block.Built.{add_all}
use tleveldb.Block.Scan.{Yields}
use tleveldb.Block.Whole.{Yields-add_all}

abbrev three_entries : List (List ℕ × List ℕ)
three_entries = (97 ∷ 98 ∷ [], 1 ∷ []) ∷ (97 ∷ 98 ∷ 99 ∷ [], []) ∷ (97 ∷ 100 ∷ [], 2 ∷ 3 ∷ []) ∷ []

small_block : length (finish (add_all 2 three_entries new_builder)).buffer < 2 ^ 32
unfolding add_all finish add put_fixed32 put_varint32 encode_varint32 encode_fixed32
small_block = omega arith

Yields-add_all_example :
    (i : Iter) × (new_iterator (new_block (finish (add_all 2 three_entries new_builder)).buffer)
      ≡ iterator i)
    × Yields (seek_to_first i) three_entries
Yields-add_all_example = Yields-add_all 2 three_entries (omega arith) small_block
