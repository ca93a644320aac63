-- ===== src/SkipList/Examples.antt =====
-- The skip list on numbers.
use Prim.Native.Nat.{Ordering, compare}
use tleveldb.Base.{
  ℕ, ◌≤◌, ◌≡◌, ◌↔◌, Bool, true, false, List, [], ◌∷◌, Option, none, some, refl, occ, arith,
}
use tleveldb.SkipList.{
  SkipList, is_eq, new_skip_list, insert, contains, random_height, key_is_after_node,
  iter_seek_to_first, iter_seek, iter_prev, iter_seek_to_last,
}
use tleveldb.SkipList.Search.{steps_below}
use tleveldb.SkipList.Levels.{IsWeakOrder, new_skip_list-IsSkipList}
use tleveldb.SkipList.Contains.{contains_lem}
use tleveldb.SkipList.Insert.{with_node, Linked, insert-Linked}

compare-IsWeakOrder : IsWeakOrder compare
compare-IsWeakOrder = record {
  swap_back = λ a b h. ground (arith, h);
  swap_eq = λ a b h. ground (arith, h);
  trans = λ a b c h k. ground (arith, h, k);
  trans_eq = λ a b c h k. ground (arith, h, k);
}

abbrev empty_list : SkipList ℕ
empty_list = new_skip_list compare 0

none_unused : occ 2 [] ≡ 0
unfolding occ
none_unused = refl

no_key : (a : ℕ) → 1 ≤ occ a [] → is_eq (compare (empty_list.key a) 50) ≡ false
unfolding occ
no_key a h = absurd (omega (arith, h))

insert-Linked_example : Linked compare 2 50 empty_list (λ i. []) (insert compare 20 2 50 empty_list)
insert-Linked_example =
    insert-Linked compare compare-IsWeakOrder 2 50 empty_list (λ i. [])
      (new_skip_list-IsSkipList compare 0) (omega arith) none_unused no_key 20
      (unfold new_skip_list in unfold steps_below in omega arith)

abbrev one_node : SkipList ℕ
one_node = insert-Linked_example.list

abbrev one_node_lists : ℕ → List ℕ
one_node_lists =
    with_node (λ n. key_is_after_node compare 50 n empty_list) 2 (random_height empty_list.rnd).0
      (λ i. [])

contains_example :
    (answer : Bool) × (contains compare (steps_below one_node_lists one_node.max_height) 50 one_node
      ≡ some answer)
    × ((answer ≡ true)
        ↔ ((a : ℕ) × (1 ≤ occ a (one_node_lists 0)) × (compare 50 (one_node.key a) ≡ Ordering.eq)))
contains_example =
    contains_lem compare compare-IsWeakOrder 50 one_node one_node_lists insert-Linked_example.whole
      (steps_below one_node_lists one_node.max_height) (omega arith)

abbrev after_three : Option (SkipList ℕ)
after_three = elim (insert compare 20 2 50 empty_list) [
  | none ↦ none
  | some l ↦ elim (insert compare 20 3 30 l) [ none ↦ none | some l' ↦ insert compare 20 4 40 l' ]
]

abbrev asked : Option (SkipList ℕ) → List (Option ℕ)
asked none = []
asked (some l) =
    some (iter_seek_to_first compare l)
    ∷ iter_seek compare 20 35 l
    ∷ iter_prev compare 20 3 l
    ∷ iter_prev compare 20 2 l
    ∷ iter_seek_to_last compare 20 l
    ∷ []

iterator_test : asked after_three ≡ some 3 ∷ some 4 ∷ some 0 ∷ some 4 ∷ some 2 ∷ []
unfolding new_skip_list insert random_height iter_seek_to_first iter_seek iter_prev
    iter_seek_to_last
iterator_test = refl
