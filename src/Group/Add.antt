-- ===== src/Group/Add.antt =====
-- Group::add_node_to_tail.
use tleveldb.Base.{
  ℕ, ◌≡◌, ◌≢◌, refl, sym, ap, false, Option, some, List, [], ◌∷◌, ◌++◌, arith, ◌==◌, if◌then◌else◌,
  length-append,
}
use tleveldb.Base.Int.{pos, pos-+ℤ_one}
use tleveldb.Pool.{
  Oid, oid_null, oid_is_null, Listnode, Pool, Pmemobj, nexts, update, store, flush, drain,
  listroot_size,
}
use tleveldb.Group.{Group, link_tail, add_node_to_tail}
use tleveldb.Group.Chain.{
  Returns, has, last, Chain, IsList, IsDurable, has-append, has-last, last-snoc, Chain-last,
  load-some,
}

-- The chain after the last `next` is set to `o`.
Chain-snoc :
    (next next' : ℕ → Option Oid) (x : Oid) (xs : List Oid) (o : Oid)
    → Chain next x xs
    → ((a : ℕ) → next' a ≡ (if a == (last x xs).off then some o else next a))
    → next o.off ≡ some oid_null
    → o.off ≢ 0
    → has o.off (x ∷ xs) ≡ false
    → Chain next' x (xs ++ (o ∷ []))
Chain-snoc next next' x [] o c changed ends filled out =
    ground (arith, changed x.off, changed o.off)
Chain-snoc next next' x (y ∷ ys) o (to_y, filled_x, out_x, c) changed ends filled out = (
  ground (arith, changed x.off, has-last y ys),
  filled_x,
  ground (arith, has-append x.off ys (o ∷ [])),
  Chain-snoc next next' y ys o c changed ends filled (ground arith),
)

-- What a call leaves as it was: the DRAM fields of the group.
abbrev pub SameDram : Group → Group → Type 0
SameDram g g' =
    (g'.gid_dram ≡ g.gid_dram)
    × (g'.node_count_dram ≡ g.node_count_dram)
    × (g'.tail_dram ≡ g.tail_dram)
    × (g'.offset_dram ≡ g.offset_dram)

module _ (p : Pool) (x : Oid) (xs : List Oid) (node : Oid) (tail_node : Listnode)
    (tail_last : p.root.tail ≡ last x xs) where
  link_tail-nexts :
      (a : ℕ)
      → nexts (link_tail node tail_node p).nodes a
        ≡ (if a == (last x xs).off then some node else nexts p.nodes a)
  unfolding link_tail store update drain flush
  link_tail-nexts a = rw (← tail_last) (ground arith)

  link_tail-IsDurable : IsDurable p → IsDurable (link_tail node tail_node p)
  unfolding link_tail store update drain flush
  link_tail-IsDurable settled =
      rw settled.none_pending
        (record { root = refl; next = λ a. ground (arith, settled.next a); none_pending = refl })

  link_tail-IsList :
      IsList p x xs
      → nexts p.nodes node.off ≡ some oid_null
      → node.off ≢ 0
      → has node.off (x ∷ xs) ≡ false
      → IsList (link_tail node tail_node p) x (xs ++ (node ∷ []))
  unfolding link_tail drain flush store
  link_tail-IsList is ends filled out = record {
    head = is.head;
    tail = sym (last-snoc x xs node);
    count = rw (is.count, pos-+ℤ_one, length-append xs (node ∷ [])) (ap pos (omega arith));
    chain = Chain-snoc (nexts p.nodes) _ x xs node is.chain link_tail-nexts ends filled out;
  }

-- add_node_to_tail puts an allocated node that is not in the list behind its last node; the count
-- grows by one, what it wrote is durable, and the DRAM fields stay as they were.
pub add_node_to_tail_lem :
    (lib : Pmemobj) (g : Group) (x : Oid) (xs : List Oid) (node : Oid)
    → IsList g.pool x xs
    → IsDurable g.pool
    → oid_is_null (lib.root_oid g.pool listroot_size) ≡ false
    → nexts g.pool.nodes node.off ≡ some oid_null
    → node.off ≢ 0
    → has node.off (x ∷ xs) ≡ false
    → Returns
        (λ _ g'. IsList g'.pool x (xs ++ (node ∷ [])) × IsDurable g'.pool × SameDram g g')
        (add_node_to_tail lib node g)
unfolding add_node_to_tail
add_node_to_tail_lem lib g x xs node is durable root ends filled out =
    let (tail_ends, tail_filled) = Chain-last (nexts g.pool.nodes) x xs is.chain in
    let (tail_node, found, at_end) =
      load-some g.pool g.pool.root.tail {o = oid_null} (rw is.tail tail_ends)
        (rw is.tail tail_filled) in
    rw (root, found)
      (
        link_tail-IsList g.pool x xs node tail_node is.tail is ends filled out,
        link_tail-IsDurable g.pool x xs node tail_node is.tail durable,
        (refl, refl, refl, refl),
      )
