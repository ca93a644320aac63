-- ===== src/Group.antt =====
-- class Group of include/groupManager.h and src/groupManager.cc: the list of the nodes of one
-- partition. A method takes the group and returns what `Run` says; the pool is a field of it.
pub mod Chain
pub mod Add
pub mod Delete
pub mod Alloc
pub mod New
mod Examples
use tleveldb.Base.{ℕ, Bool, true, false, ◌||◌, Option, none, some, ◌==◌, if◌then◌else◌}
use tleveldb.Base.Int.{ℤ, pos, negsuc, ◌+ℤ◌, ◌-ℤ◌}
use tleveldb.Pool.{
  Oid, oid_is_null, Listroot, Listnode, Pool, Pmemobj, load, store, flush, drain, root_line,
  node_line, construct, release, list_node_size_256m, listroot_size,
}

-- `tail_dram` is the offset of the node that the C++ pointer leads to.
pub record Group : Type 0 where
  pub pool : Pool
  pub gid_dram : ℕ
  pub node_count_dram : ℤ
  pub tail_dram : Option ℕ
  pub offset_dram : ℕ

-- How a call ends: normally, by the exception that alloc_node throws, or by following a pointer
-- to no object.
pub data Run (A : Type 0) : Type 0 where
  ok : A → Group → Run A
  throw : Group → Run A
  fault : Run A

abbrev pub and_then : {A B : Type 0} → Run A → (A → Group → Run B) → Run B
and_then (ok a g) k = k a g
and_then (throw g) k = throw g
and_then fault k = fault

abbrev pub with_root : Pool → Listroot → Pool
with_root p r = record p { root = r }

abbrev pub is_zero : ℤ → Bool
is_zero (pos n) = n == 0
is_zero (negsuc n) = false

unfoldable pub get_pm_root : Pmemobj → Group → Option Listroot
get_pm_root lib g =
    if oid_is_null (lib.root_oid g.pool listroot_size) then none else some g.pool.root

unfoldable pub check_list_exist : Pmemobj → Pool → Bool
check_list_exist lib p =
    if oid_is_null (lib.root_oid p listroot_size)
    then false
    else if is_zero p.root.node_count || (p.root.head.off == 0) || (p.root.tail.off == 0)
    then false
    else true

unfoldable pub alloc_node : Pmemobj → Group → Run Oid
alloc_node lib g = elim (lib.alloc_at g.pool list_node_size_256m) [
  | none ↦ throw g
  | some o ↦
      ok o
        (record g { pool = construct lib g.pool o; node_count_dram = g.node_count_dram +ℤ pos 1 })
]

unfoldable pub free_node : Oid → Group → Group
free_node node g = record g {
  pool = release g.pool node;
  node_count_dram = g.node_count_dram -ℤ pos 1;
}

-- The two flushes and the drain that end both updates of the list.
abbrev pub persist_node_and_root : Pool → ℕ → Pool
persist_node_and_root p off = drain (flush (flush p (node_line off)) root_line)

-- add_node_to_tail once both pointers are found: the last node, the root object and their flushes.
unfoldable pub link_tail : Oid → Listnode → Pool → Pool
link_tail node last p =
    let tail = p.root.tail in
    let linked = store p tail.off (some (record last { next = node })) in
    let root = record linked.root { tail = node; node_count = linked.root.node_count +ℤ pos 1 } in
    persist_node_and_root (with_root linked root) tail.off

unfoldable pub add_node_to_tail : Pmemobj → Oid → Group → Run (Unit {0})
unfolding link_tail
add_node_to_tail lib node g =
    if oid_is_null (lib.root_oid g.pool listroot_size)
    then ok tt g
    else elim (load g.pool g.pool.root.tail) [
      | none ↦ fault
      | some last ↦ ok tt (record g { pool = link_tail node last g.pool })
    ]

-- delete_node_from_list up to free_node: the count, the unlinking and the release.
unfoldable pub unlink_and_free : Oid → Oid → Group → Run (Unit {0})
unlink_and_free prev node g =
    let root = record g.pool.root { node_count = g.pool.root.node_count -ℤ pos 1 } in
    elim (load g.pool prev) [
      | none ↦ fault
      | some prev_node ↦ elim (load g.pool node) [
        | none ↦ fault
        | some cur_node ↦
            let p = with_root g.pool root in
            let linked = store p prev.off (some (record prev_node { next = cur_node.next })) in
            ok tt (free_node node (record g { pool = linked }))
      ]
    ]

-- Its rest: the tail pointer, the flushes and the drain.
unfoldable pub retarget_tail : Oid → Oid → Group → Group
retarget_tail prev node g =
    let root =
      if node.off == g.pool.root.tail.off
      then record g.pool.root { tail = prev }
      else g.pool.root in
    record g { pool = persist_node_and_root (with_root g.pool root) prev.off }

unfoldable pub delete_node_from_list : Pmemobj → Oid → Oid → Group → Run (Unit {0})
delete_node_from_list lib prev node g =
    if oid_is_null (lib.root_oid g.pool listroot_size)
    then ok tt g
    else and_then (unlink_and_free prev node g) (λ u g'. ok tt (retarget_tail prev node g'))

-- The part of the constructor that makes a new list.
unfoldable pub init_list : Pmemobj → ℕ → Group → Run (Unit {0})
init_list lib gid g =
    if oid_is_null (lib.root_oid g.pool list_node_size_256m)
    then ok tt g
    else let root = record g.pool.root { gid = gid; node_count = pos 1 } in
      and_then (alloc_node lib (record g { pool = with_root g.pool root })) (λ new_node g'.
        let p = with_root g'.pool (record g'.pool.root { head = new_node; tail = new_node }) in
        ok tt (record g' {
          pool = drain (flush p root_line);
          gid_dram = gid;
          node_count_dram = pos 0;
          tail_dram = some new_node.off;
          offset_dram = 0;
        }))

-- Group::Group. `count`, `tail` and `offset` are what the memory of the new object holds, since the
-- initialiser list sets the pool and the group number only.
unfoldable pub group_new : Pmemobj → ℕ → ℤ → Option ℕ → ℕ → Pool → Run (Unit {0})
group_new lib gid count tail offset p =
    let g : Group = record {
      pool = p;
      gid_dram = gid;
      node_count_dram = count;
      tail_dram = tail;
      offset_dram = offset;
    } in
    if check_list_exist lib p then ok tt g else init_list lib gid g
