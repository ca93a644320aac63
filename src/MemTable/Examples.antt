-- ===== src/MemTable/Examples.antt =====
-- A memtable of a few entries under one key.
use tleveldb.Base.{ℕ, ◌≤◌, ◌≡◌, ◌≢◌, Option, none, some, List, [], ◌∷◌, refl, occ, arith}
use tleveldb.DbFormat.{lookup_key, memtable_key, user_key_of, internal_compare}
use tleveldb.Coding.{get_varint32, encode_varint32, encode_fixed64, decode_fixed64}
use tleveldb.Comparator.{bytes_compare}
use tleveldb.DbFormat.Order.{bytewise}
use tleveldb.Comparator.Order.{bytes_compare-IsOrder}
use tleveldb.SkipList.{SkipList, new_skip_list, random_height, insert, set_key}
use tleveldb.SkipList.Search.{steps_below}
use tleveldb.MemTable.{
  Answer, key_comparator, entry, found, deleted, absent, new_mem_table, add, get, read_entry,
  read_length, read_value,
}
use tleveldb.MemTable.Entries.{Item, IsItem}
use tleveldb.MemTable.Newest.{IsAnswer}
use tleveldb.MemTable.Answered.{get-IsAnswer}
use tleveldb.MemTable.Added.{Added, new_mem_table-IsMemTable, add-Added}

-- "k" is written with 1, under the number 5, and removed under the number 7.
abbrev written : Option (SkipList (List ℕ))
written = elim (add bytewise 40 2 5 1 (107 ∷ []) (1 ∷ []) (new_mem_table bytewise)) [
  | none ↦ none
  | some t ↦ add bytewise 40 3 7 0 (107 ∷ []) [] t
]

abbrev asked : ℕ → Option Answer
asked s = elim written [ none ↦ none | some t ↦ get bytewise 40 (lookup_key (107 ∷ []) s) t ]

get_test : (asked 4 ≡ some absent) × (asked 6 ≡ some (found (1 ∷ []))) × (asked 9 ≡ some deleted)
unfolding new_mem_table add get read_entry read_length read_value new_skip_list random_height insert
    key_comparator internal_compare bytes_compare get_varint32 entry encode_varint32 encode_fixed64
    decode_fixed64 memtable_key lookup_key user_key_of
get_test = (refl, refl, refl)

abbrev one_item : Item
one_item = record { key = record { user_key = 107 ∷ []; sequence = 5; type = 1 }; value = 1 ∷ [] }

one_item-IsItem : IsItem one_item
one_item-IsItem = record {
  key = record { sequence_fits = omega arith; type_known = omega arith };
  short_key = omega arith;
  short_value = omega arith;
}

no_items : (a : ℕ) → 1 ≤ occ a [] → one_item.key ≢ one_item.key
unfolding occ
no_items a h = absurd (omega (arith, h))

none_unused : occ 2 [] ≡ 0
unfolding occ
none_unused = refl

few_steps : steps_below (λ i. []) (new_mem_table bytewise).max_height ≤ 40
unfolding new_mem_table new_skip_list steps_below
few_steps = omega arith

add-Added_example :
    Added bytewise 2 one_item
      (λ i. [])
      (λ a. one_item)
      (add bytewise 40 2 5 1 (107 ∷ []) (1 ∷ []) (new_mem_table bytewise))
add-Added_example =
    add-Added bytewise bytes_compare-IsOrder (new_mem_table bytewise) (λ i. []) (λ a. one_item)
      (new_mem_table-IsMemTable bytewise (λ a. one_item)) 2 (omega arith) none_unused one_item
      one_item-IsItem no_items 40 few_steps

get-IsAnswer_example :
    (answer : Answer) × (get bytewise
        (steps_below add-Added_example.nodes_after add-Added_example.table.max_height)
        (lookup_key (107 ∷ []) 6)
        add-Added_example.table
      ≡ some answer)
    × IsAnswer
        (107 ∷ [])
        6
        (add-Added_example.nodes_after 0)
        (set_key 2 one_item (λ a. one_item))
        answer
get-IsAnswer_example =
    get-IsAnswer bytewise bytes_compare-IsOrder (107 ∷ []) 6 add-Added_example.table
      add-Added_example.nodes_after (set_key 2 one_item (λ a. one_item)) add-Added_example.whole
      (omega arith) (omega arith)
      (steps_below add-Added_example.nodes_after add-Added_example.table.max_height) (omega arith)
