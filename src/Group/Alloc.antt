-- ===== src/Group/Alloc.antt =====
-- Group::alloc_node on a group that has a list, and the two calls that append a new node.
use tleveldb.Base.{
  ℕ, ◌≡◌, ◌≢◌, refl, false, Option, none, some, List, [], ◌∷◌, ◌++◌, arith, ◌==◌, if◌then◌else◌,
  Option-cases, inl, inr, ◌⊎◌, Bool-cases, true,
}
use tleveldb.Base.Int.{pos, ◌+ℤ◌}
use tleveldb.Pool.{
  Oid, oid_null, oid_is_null, Pool, Pmemobj, IsLibpmemobj, nexts, update, construct,
  list_node_size_256m, listroot_size,
}
use tleveldb.Group.{Group, Run, ok, throw, fault, and_then, alloc_node, add_node_to_tail}
use tleveldb.Group.Chain.{Ensures, Returns-Ensures, has, Chain, Chain-frame, IsList, IsDurable}
use tleveldb.Group.Add.{SameDram, add_node_to_tail_lem}

-- Where no object stands, no node of a chain does.
Chain-out :
    (next : ℕ → Option Oid) (a : ℕ) (x : Oid) (xs : List Oid)
    → Chain next x xs
    → next a ≡ none
    → has a (x ∷ xs) ≡ false
Chain-out next a x [] c e = ground arith
Chain-out next a x (y ∷ ys) c e = ground (arith, Chain-out next a y ys)

module _ (lib : Pmemobj) (p : Pool) (o : Oid) (vacant : p.nodes o.off ≡ none) where
  construct-nexts :
      (a : ℕ)
      → nexts (construct lib p o).nodes a ≡ (if a == o.off then some oid_null else nexts p.nodes a)
  unfolding construct update
  construct-nexts a = ground arith

  construct-IsList : (x : Oid) (xs : List Oid) → IsList p x xs → IsList (construct lib p o) x xs
  unfolding construct
  construct-IsList x xs is = record {
    head = is.head;
    tail = is.tail;
    count = is.count;
    chain =
        Chain-frame (nexts p.nodes) _ x xs
          (λ a h. ground (
            arith,
            construct-nexts a,
            Chain-out (nexts p.nodes) o.off x xs is.chain (ground arith),
          ))
          is.chain;
  }

  construct-IsDurable : IsDurable p → IsDurable (construct lib p o)
  unfolding construct update
  construct-IsDurable settled = record {
    root = settled.root;
    next = λ a. ground (arith, settled.next a);
    none_pending = settled.none_pending;
  }

-- What alloc_node gives: a durable node outside of the list whose `next` is null.
pub record IsNewNode (p : Pool) (x : Oid) (xs : List Oid) (o : Oid) : Type 0 where
  pub at_end : nexts p.nodes o.off ≡ some oid_null
  pub filled : o.off ≢ 0
  pub outside : has o.off (x ∷ xs) ≡ false

pub alloc_node-ok :
    (lib : Pmemobj) (g : Group) (o : Oid)
    → lib.alloc_at g.pool list_node_size_256m ≡ some o
    → alloc_node lib g
      ≡ ok o
          (record g { pool = construct lib g.pool o; node_count_dram = g.node_count_dram +ℤ pos 1 })
unfolding alloc_node
alloc_node-ok lib g o e = ground arith

alloc_node-throw :
    (lib : Pmemobj) (g : Group)
    → lib.alloc_at g.pool list_node_size_256m ≡ none
    → alloc_node lib g ≡ throw g
unfolding alloc_node
alloc_node-throw lib g e = ground arith

-- alloc_node on a durable list either throws and changes nothing, or keeps the list and gives a
-- durable node outside of it whose next pointer is null, and counts it in the DRAM count.
pub alloc_node_lem :
    (lib : Pmemobj) (g : Group) (x : Oid) (xs : List Oid)
    → IsLibpmemobj lib
    → IsList g.pool x xs
    → IsDurable g.pool
    → Ensures
        (λ o g'.
          IsList g'.pool x xs
          × IsDurable g'.pool
          × IsNewNode g'.pool x xs o
          × (g'.node_count_dram ≡ g.node_count_dram +ℤ pos 1))
        (λ g'. g' ≡ g)
        (alloc_node lib g)
alloc_node_lem lib g x xs law is settled =
    elim (Option-cases (lib.alloc_at g.pool list_node_size_256m)) [
      | inl full ↦ rw (alloc_node-throw lib g full) refl
      | inr (o, found) ↦
          let vacant = law.alloc_fresh g.pool list_node_size_256m o found in
          rw (alloc_node-ok lib g o found) (
            construct-IsList lib g.pool o vacant x xs is,
            construct-IsDurable lib g.pool o vacant settled,
            record {
              at_end = rw (construct-nexts lib g.pool o vacant o.off) (ground arith);
              filled = law.alloc_filled g.pool list_node_size_256m o found;
              outside = Chain-out (nexts g.pool.nodes) o.off x xs is.chain (rw vacant refl);
            },
            refl,
          )
    ]

add_node_to_tail_null :
    (lib : Pmemobj) (node : Oid) (g : Group)
    → oid_is_null (lib.root_oid g.pool listroot_size) ≡ true
    → add_node_to_tail lib node g ≡ ok tt g
unfolding add_node_to_tail
add_node_to_tail_null lib node g no_root = rw no_root refl

-- What the two calls leave: a list with one node more, or, where the root is not found again, the
-- list as it was, with a node that is in no list but is counted in DRAM.
pub record IsLeft (lib : Pmemobj) (g : Group) (x : Oid) (xs : List Oid) (g' : Group) : Type 0 where
  pub no_root : oid_is_null (lib.root_oid g'.pool listroot_size) ≡ true
  pub node : Oid
  pub list : IsList g'.pool x xs
  pub durable : IsDurable g'.pool
  pub outside : IsNewNode g'.pool x xs node
  pub counted : g'.node_count_dram ≡ g.node_count_dram +ℤ pos 1

pub AddsNode : Pmemobj → Group → Oid → List Oid → Group → Type 0
AddsNode lib g x xs g' =
    ((o : Oid) × IsList g'.pool x (xs ++ (o ∷ [])) × IsDurable g'.pool) ⊎ IsLeft lib g x xs g'

-- alloc_node followed by add_node_to_tail on a durable list throws and leaves the group unchanged,
-- or leaves a durable list with one more node at its end, or, if pmemobj_root fails in between,
-- leaves the durable list as it was and the new node outside of it, counted in the DRAM count.
pub add-alloc_node :
    (lib : Pmemobj) (g : Group) (x : Oid) (xs : List Oid)
    → IsLibpmemobj lib
    → IsList g.pool x xs
    → IsDurable g.pool
    → Ensures
        (λ _ g'. AddsNode lib g x xs g')
        (λ g'. g' ≡ g)
        (and_then (alloc_node lib g) (add_node_to_tail lib))
add-alloc_node lib g x xs law is settled =
    after (alloc_node lib g) (alloc_node_lem lib g x xs law is settled)
  where
    added :
        (o : Oid) (g' : Group) (u : Unit {0}) (g'' : Group)
        → IsList g''.pool x (xs ++ (o ∷ [])) × IsDurable g''.pool × SameDram g' g''
        → AddsNode lib g x xs g''
    added o g' u g'' h = unfold AddsNode in inl (o, h.0, h.1)

    after :
        (r : Run Oid)
        → Ensures
            (λ o g'.
              IsList g'.pool x xs
              × IsDurable g'.pool
              × IsNewNode g'.pool x xs o
              × (g'.node_count_dram ≡ g.node_count_dram +ℤ pos 1))
            (λ g'. g' ≡ g)
            r
        → Ensures
            (λ _ g'. AddsNode lib g x xs g')
            (λ g'. g' ≡ g)
            (and_then r (add_node_to_tail lib))
    after (ok o g') (is', settled', new, grown) =
        elim (Bool-cases (oid_is_null (lib.root_oid g'.pool listroot_size))) [
          | inl no_root ↦ rw (add_node_to_tail_null lib o g' no_root) (
              unfold AddsNode in
              inr (record {
                no_root = no_root;
                node = o;
                list = is';
                durable = settled';
                outside = new;
                counted = grown;
              }))
          | inr root ↦
              Returns-Ensures _ (λ _ g''. AddsNode lib g x xs g'') (λ g''. g'' ≡ g)
                (add_node_to_tail lib o g') (added o g')
                (add_node_to_tail_lem lib g' x xs o is' settled' root new.at_end new.filled
                  new.outside)
        ]
    after (throw g') h = h
    after fault h = h
