-- ===== src/Group/Delete.antt =====
-- Group::delete_node_from_list.
use tleveldb.Base.{
  ℕ, ◌≡◌, ◌≢◌, refl, sym, ap, ◌∙◌, suc, false, Option, none, some, List, [], ◌∷◌, ◌++◌, arith, ◌==◌,
  if◌then◌else◌, length, length-append, append-nil,
}
use tleveldb.Base.Int.{pos, ◌-ℤ◌, pos-suc-ℤ_one}
use tleveldb.Pool.{
  Oid, oid_null, oid_is_null, Listnode, Pool, Pmemobj, nexts, update, load, store, flush, drain,
  release, listroot_size,
}
use tleveldb.Group.{
  Group, ok, with_root, persist_node_and_root, free_node, unlink_and_free, retarget_tail,
  delete_node_from_list,
}
use tleveldb.Group.Chain.{
  Returns, has, last, Chain, IsList, IsDurable, has-append, has-last, Chain-frame, load-some,
}

-- The `next` pointers once `node` is unlinked from behind `prev` and freed.
abbrev Unlinked : (next next' : ℕ → Option Oid) (prev node : Oid) → Type 0
Unlinked next next' prev node =
    (a : ℕ)
    → next' a ≡ (if a == node.off then none else if a == prev.off then next node.off else next a)

Chain-unlink :
    (next next' : ℕ → Option Oid) (x : Oid) (xs : List Oid) (node : Oid) (ys : List Oid)
    → Chain next x (xs ++ (node ∷ ys))
    → Unlinked next next' (last x xs) node
    → Chain next' x (xs ++ ys)
Chain-unlink next next' x [] node [] c gone = ground (arith, gone x.off)
Chain-unlink next next' x [] node (y ∷ ys) c gone = (
  ground (arith, gone x.off),
  c.1,
  ground arith,
  Chain-frame next next' y ys (λ a h. ground (arith, gone a)) c.3.3,
)
Chain-unlink next next' x (z ∷ zs) node ys c gone = (
  ground (arith, gone x.off, has-append x.off zs (node ∷ ys), has-last z zs),
  c.1,
  ground (arith, has-append x.off zs (node ∷ ys), has-append x.off zs ys),
  Chain-unlink next next' z zs node ys c.3 gone,
)

-- What the last `next` pointer of a list that ends before `ys` holds.
abbrev first : List Oid → Oid
first [] = oid_null
first (y ∷ ys) = y

-- What a chain says of one of its nodes and of the node before it.
record IsLink (next : ℕ → Option Oid) (prev node : Oid) (ys : List Oid) : Type 0 where
  to_node : next prev.off ≡ some node
  to_rest : next node.off ≡ some (first ys)
  prev_filled : prev.off ≢ 0
  node_filled : node.off ≢ 0
  apart : (prev.off == node.off) ≡ false
  out_of_rest : has node.off ys ≡ false

Chain-IsLink :
    (next : ℕ → Option Oid) (x : Oid) (xs : List Oid) (node : Oid) (ys : List Oid)
    → Chain next x (xs ++ (node ∷ ys))
    → IsLink next (last x xs) node ys
Chain-IsLink next x [] node [] c = ground arith
Chain-IsLink next x [] node (y ∷ ys) c = ground arith
Chain-IsLink next x (z ∷ zs) node ys c = Chain-IsLink next z zs node ys c.3

last-append :
    (x : Oid) (xs : List Oid) (y : Oid) (ys : List Oid) → last x (xs ++ (y ∷ ys)) ≡ last y ys
last-append x [] y ys = refl
last-append x (z ∷ zs) y ys = last-append z zs y ys

-- The tail that is left once `node` is gone.
retargeted :
    (x : Oid) (xs : List Oid) (node : Oid) (ys : List Oid)
    → has node.off ys ≡ false
    → (if node.off == (last node ys).off then last x xs else last node ys) ≡ last x (xs ++ ys)
retargeted x xs node [] out = rw append-nil (ground arith)
retargeted x xs node (y ∷ ys) out = rw last-append (ground (arith, has-last y ys))

-- The pool that delete_node_from_list leaves.
abbrev deleted : (prev node : Oid) (prev_node node' : Listnode) → Group → Group
deleted prev node prev_node node' g = retarget_tail prev node (
    free_node node (record g {
      pool =
          store
            (with_root g.pool (record g.pool.root { node_count = g.pool.root.node_count -ℤ pos 1 }))
            prev.off (some (record prev_node { next = node'.next }));
    }))

-- A flush of one node and of the root makes all durable, if nothing else was left to flush.
persist_node_and_root-IsDurable :
    (p : Pool) (off : ℕ)
    → p.pending ≡ []
    → ((a : ℕ) → (a == off) ≡ false → p.durable.next a ≡ nexts p.nodes a)
    → IsDurable (persist_node_and_root p off)
unfolding drain flush update
persist_node_and_root-IsDurable p off empty others =
    rw empty (record { root = refl; next = λ a. ground (arith, others a); none_pending = refl })

module _ (g : Group) (prev node : Oid) (prev_node cur_node : Listnode) where
  nexts-deleted :
      (a : ℕ)
      → nexts g.pool.nodes node.off ≡ some cur_node.next
      → node.off ≢ 0
      → nexts (deleted prev node prev_node cur_node g).pool.nodes a ≡ (
          if a == node.off
          then none
          else if a == prev.off
          then nexts g.pool.nodes node.off
          else nexts g.pool.nodes a)
  unfolding retarget_tail free_node release store update drain flush
  nexts-deleted a to filled = ground arith

  deleted-IsDurable :
      IsDurable g.pool → node.off ≢ 0 → IsDurable (deleted prev node prev_node cur_node g).pool
  unfolding retarget_tail free_node release store update
  deleted-IsDurable settled filled =
      persist_node_and_root-IsDurable _ prev.off (ground (arith, settled.none_pending))
        (λ a other. ground (arith, settled.next a))

  delete_node_from_list-eq :
      (lib : Pmemobj)
      → oid_is_null (lib.root_oid g.pool listroot_size) ≡ false
      → load g.pool prev ≡ some prev_node
      → load g.pool node ≡ some cur_node
      → delete_node_from_list lib prev node g ≡ ok tt (deleted prev node prev_node cur_node g)
  unfolding delete_node_from_list unlink_and_free
  delete_node_from_list-eq lib root prev_found cur_found = ground arith

module _ (g : Group) (x : Oid) (xs : List Oid) (node : Oid) (ys : List Oid)
    (prev_node cur_node : Listnode) (is : IsList g.pool x (xs ++ (node ∷ ys)))
    (link : IsLink (nexts g.pool.nodes) (last x xs) node ys)
    (at_rest : nexts g.pool.nodes node.off ≡ some cur_node.next) where
  abbrev result : Group
  result = deleted (last x xs) node prev_node cur_node g

  result_tail : result.pool.root.tail ≡ last x (xs ++ ys)
  unfolding retarget_tail free_node release store drain flush
  result_tail =
      rw (← retargeted x xs node ys link.out_of_rest)
        (ground (arith, link.node_filled, is.tail, last-append x xs node ys))

  result_count : result.pool.root.node_count ≡ pos (suc (length (xs ++ ys)))
  unfolding retarget_tail free_node release store drain flush
  result_count =
      ground (arith, is.count, link.node_filled, longer, pos-suc-ℤ_one (suc (length (xs ++ ys))))
    where
      longer : length (xs ++ (node ∷ ys)) ≡ suc (length (xs ++ ys))
      longer = omega (arith, length-append xs (node ∷ ys), length-append xs ys)

  result_head : result.pool.root.head ≡ x
  unfolding retarget_tail free_node release store drain flush
  result_head = ground (arith, is.head)

  result_freed : result.pool.nodes node.off ≡ none
  unfolding retarget_tail free_node release store drain flush update
  result_freed = ground (arith, link.node_filled)

  result-IsList : IsList result.pool x (xs ++ ys)
  result-IsList = record {
    head = result_head;
    tail = result_tail;
    count = result_count;
    chain =
        Chain-unlink (nexts g.pool.nodes) _ x xs node ys is.chain
          (λ a. nexts-deleted g (last x xs) node prev_node cur_node a at_rest link.node_filled);
  }

  result_dram :
      (result.node_count_dram ≡ g.node_count_dram -ℤ pos 1)
      × (result.tail_dram ≡ g.tail_dram)
      × (result.offset_dram ≡ g.offset_dram)
      × (result.gid_dram ≡ g.gid_dram)
  unfolding retarget_tail free_node
  result_dram = (refl, refl, refl, refl)

-- delete_node_from_list takes a node that has one before it out of a durable list, where
-- pmemobj_root finds the root: the other nodes keep their order, the count falls by one, the node
-- is freed, the result is durable, and of the DRAM fields only the count changes.
pub delete_node_from_list_lem :
    (lib : Pmemobj) (g : Group) (x : Oid) (xs : List Oid) (node : Oid) (ys : List Oid)
    → IsList g.pool x (xs ++ (node ∷ ys))
    → IsDurable g.pool
    → oid_is_null (lib.root_oid g.pool listroot_size) ≡ false
    → Returns
        (λ _ g'.
          IsList g'.pool x (xs ++ ys)
          × IsDurable g'.pool
          × (g'.pool.nodes node.off ≡ none)
          × (g'.node_count_dram ≡ g.node_count_dram -ℤ pos 1)
          × (g'.tail_dram ≡ g.tail_dram)
          × (g'.offset_dram ≡ g.offset_dram)
          × (g'.gid_dram ≡ g.gid_dram))
        (delete_node_from_list lib (last x xs) node g)
delete_node_from_list_lem lib g x xs node ys is settled root =
    let link = Chain-IsLink (nexts g.pool.nodes) x xs node ys is.chain in
    let (prev_node, prev_found, at_node) =
      load-some g.pool (last x xs) {o = node} link.to_node link.prev_filled in
    let (cur_node, cur_found, at_rest) =
      load-some g.pool node {o = first ys} link.to_rest link.node_filled in
    let to_rest : nexts g.pool.nodes node.off ≡ some cur_node.next =
      link.to_rest ∙ ap (λ (o : Oid). some o) (sym at_rest) in
    let dram = result_dram g x xs node ys prev_node cur_node is link to_rest in
    rw
      (delete_node_from_list-eq g (last x xs) node prev_node cur_node lib root prev_found cur_found)
      (
        result-IsList g x xs node ys prev_node cur_node is link to_rest,
        deleted-IsDurable g (last x xs) node prev_node cur_node settled link.node_filled,
        result_freed g x xs node ys prev_node cur_node is link to_rest,
        dram.0,
        dram.1,
        dram.2,
        dram.3,
      )
