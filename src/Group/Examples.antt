-- ===== src/Group/Examples.antt =====
-- A group on a pool of libpmemobj that hands out four places.
use tleveldb.Base.{
  ℕ, ◌≡◌, ◌≢◌, refl, All, Option-cases, inl, inr, false, Option, some, none, List, [], ◌∷◌, arith,
  ◌==◌, if◌then◌else◌,
}
use tleveldb.Base.Int.{pos, ◌+ℤ◌, ◌-ℤ◌}
use tleveldb.Pool.{Oid, oid_null, zero_root, Listroot, Listnode, Pool, Pmemobj, IsLibpmemobj, nexts}
use tleveldb.Group.{
  Group, and_then, alloc_node, add_node_to_tail, check_list_exist, delete_node_from_list, group_new,
}
use tleveldb.Group.Chain.{Returns, Ensures, IsList, IsDurable}
use tleveldb.Group.Delete.{delete_node_from_list_lem}
use tleveldb.Group.Alloc.{IsNewNode, AddsNode, alloc_node_lem, add-alloc_node}
use tleveldb.Group.New.{StartsList, group_new-IsList}

abbrev at : ℕ → Oid
at a = record { pool_uuid_lo = 7; off = a }

-- The first of the places that holds nothing.
abbrev vacant : (ℕ → Option Listnode) → List ℕ → Option Oid
vacant nodes [] = none
vacant nodes (a ∷ as') = elim (nodes a) [ none ↦ some (at a) | some n ↦ vacant nodes as' ]

abbrev four_places : Pmemobj
four_places = record {
  root_oid = λ p size. at 64;
  alloc_at = λ p size. vacant p.nodes (100 ∷ 200 ∷ 300 ∷ 400 ∷ []);
  fresh_bytes = λ i. 0;
}

vacant_lem :
    (nodes : ℕ → Option Listnode) (places : List ℕ) (o : Oid)
    → All (λ a. a ≢ 0) places
    → vacant nodes places ≡ some o
    → (o.off ≢ 0) × (nodes o.off ≡ none)
vacant_lem nodes [] o filled e = cc
vacant_lem nodes (a ∷ rest) o filled e = elim (Option-cases (nodes a)) [
  | inl free ↦ ground (arith, free)
  | inr (n, taken) ↦ vacant_lem nodes rest o filled.1 (ground (arith, taken))
]

four_places-IsLibpmemobj : IsLibpmemobj four_places
four_places-IsLibpmemobj = record {
  alloc_filled =
      λ p size o e. (vacant_lem p.nodes (100 ∷ 200 ∷ 300 ∷ 400 ∷ []) o (omega arith) e).0;
  alloc_fresh = λ p size o e. (vacant_lem p.nodes (100 ∷ 200 ∷ 300 ∷ 400 ∷ []) o (omega arith) e).1;
}

abbrev blank : Pool
blank = record {
  root = zero_root;
  nodes = λ a. none;
  durable = record { root = zero_root; next = λ a. none };
  pending = [];
}

blank-IsDurable : IsDurable blank
blank-IsDurable = record { root = refl; next = λ a. refl; none_pending = refl }

group_new-IsList_example :
    Returns
      (λ _ g. StartsList four_places blank 3 (at 100) g)
      (group_new four_places 3 (pos 9) none 5 blank)
group_new-IsList_example =
    group_new-IsList four_places blank 3 (pos 9) none 5 (at 100) four_places-IsLibpmemobj
      blank-IsDurable none_yet refl
  where
    none_yet : check_list_exist four_places blank ≡ false
    none_yet = unfold check_list_exist in refl

-- A pool with a list of the nodes at 100, 200 and 300.
abbrev three_nodes : ℕ → Option Listnode
three_nodes a =
    if a == 100
    then some (record { bytes = λ i. 0; next = at 200 })
    else if a == 200
    then some (record { bytes = λ i. 0; next = at 300 })
    else if a == 300
    then some (record { bytes = λ i. 0; next = oid_null })
    else none

abbrev three_root : Listroot
three_root = record zero_root { node_count = pos 3; head = at 100; tail = at 300 }

abbrev three : Group
three = record {
  pool = record {
    root = three_root;
    nodes = three_nodes;
    durable = record { root = three_root; next = nexts three_nodes };
    pending = [];
  };
  gid_dram = 0;
  node_count_dram = pos 3;
  tail_dram = some 300;
  offset_dram = 0;
}

three-IsList : IsList three.pool (at 100) (at 200 ∷ at 300 ∷ [])
three-IsList = record { head = refl; tail = refl; count = refl; chain = ground arith }

three-IsDurable : IsDurable three.pool
three-IsDurable = record { root = refl; next = λ a. refl; none_pending = refl }

-- The node at 200 is taken out from between the others.
delete_node_from_list_example :
    Returns
      (λ _ g'.
        IsList g'.pool (at 100) (at 300 ∷ [])
        × IsDurable g'.pool
        × (g'.pool.nodes 200 ≡ none)
        × (g'.node_count_dram ≡ pos 3 -ℤ pos 1)
        × (g'.tail_dram ≡ some 300)
        × (g'.offset_dram ≡ 0)
        × (g'.gid_dram ≡ 0))
      (delete_node_from_list four_places (at 100) (at 200) three)
delete_node_from_list_example =
    delete_node_from_list_lem four_places three (at 100) [] (at 200) (at 300 ∷ []) three-IsList
      three-IsDurable refl

add-alloc_node_example :
    Ensures
      (λ _ g'. AddsNode four_places three (at 100) (at 200 ∷ at 300 ∷ []) g')
      (λ g'. g' ≡ three)
      (and_then (alloc_node four_places three) (add_node_to_tail four_places))
add-alloc_node_example =
    add-alloc_node four_places three (at 100) (at 200 ∷ at 300 ∷ []) four_places-IsLibpmemobj
      three-IsList three-IsDurable

alloc_node_example :
    Ensures
      (λ o g'.
        IsList g'.pool (at 100) (at 200 ∷ at 300 ∷ [])
        × IsDurable g'.pool
        × IsNewNode g'.pool (at 100) (at 200 ∷ at 300 ∷ []) o
        × (g'.node_count_dram ≡ pos 3 +ℤ pos 1))
      (λ g'. g' ≡ three)
      (alloc_node four_places three)
alloc_node_example =
    alloc_node_lem four_places three (at 100) (at 200 ∷ at 300 ∷ []) four_places-IsLibpmemobj
      three-IsList three-IsDurable
