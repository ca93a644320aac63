-- ===== src/Pool.antt =====
-- The persistent structures of include/groupManager.h and what libpmemobj does with them: the pool
-- as the program sees it, and the image of it that has reached the medium.
pub mod Node
mod Examples
use tleveldb.Base.{
  ℕ, ◌+◌, ◌*◌, ◌-◌, ◌^◌, ◌≡◌, ◌≢◌, Bool, false, Option, none, some, List, [], ◌∷◌, ◌==◌,
  if◌then◌else◌,
}
use tleveldb.Base.Int.{ℤ, pos}

-- PMEMoid. OID_IS_NULL tests the offset alone.
pub record Oid : Type 0 where
  pub pool_uuid_lo : ℕ
  pub off : ℕ

abbrev pub oid_null : Oid
oid_null = record { pool_uuid_lo = 0; off = 0 }

abbrev pub oid_is_null : Oid → Bool
oid_is_null o = o.off == 0

-- struct listroot, the root object of a pool.
pub record Listroot : Type 0 where
  pub write_front : Oid
  pub node_count : ℤ
  pub gid : ℕ
  pub head : Oid
  pub tail : Oid

-- pmemobj_root allocates the root object filled with zeros.
abbrev pub zero_root : Listroot
zero_root = record {
  write_front = oid_null;
  node_count = pos 0;
  gid = 0;
  head = oid_null;
  tail = oid_null;
}

-- CACHE_LINE_SIZE, LIST_NODE_SIZE_256M, and the length of the member `data` of struct listnode.
abbrev pub cache_line_size : ℕ
cache_line_size = 64

abbrev pub list_node_size_256m : ℕ
list_node_size_256m = 256 * 2 ^ 20

abbrev pub data_size : ℕ
data_size = list_node_size_256m - cache_line_size

abbrev pub listroot_size : ℕ
listroot_size = 56

-- struct listnode: the bytes of `data` and `padding` by their offset, and `next`.
pub record Listnode : Type 0 where
  pub bytes : ℕ → ℕ
  pub next : Oid

-- The part of a pool that has reached the medium: the root, and the `next` of each object.
pub record Durable : Type 0 where
  pub root : Listroot
  pub next : ℕ → Option Oid

-- A range that pmemobj_flush was given and no pmemobj_drain has followed yet.
pub data Flushed : Type 0 where
  root_line : Flushed
  node_line : ℕ → Flushed

-- A pool: the root object, the objects by offset, and what is durable of both.
pub record Pool : Type 0 where
  pub root : Listroot
  pub nodes : ℕ → Option Listnode
  pub durable : Durable
  pub pending : List Flushed

abbrev pub next_of : Option Listnode → Option Oid
next_of none = none
next_of (some n) = some n.next

-- The `next` pointers as the program reads them.
abbrev pub nexts : (ℕ → Option Listnode) → ℕ → Option Oid
nexts nodes a = next_of (nodes a)

unfoldable pub update {ℓ} : {A : Type ℓ} → (ℕ → A) → ℕ → A → ℕ → A
update f a v b = if b == a then v else f b

-- pmemobj_direct of an oid, read as an object: nothing stands at offset 0.
unfoldable pub load : Pool → Oid → Option Listnode
load p o = if o.off == 0 then none else p.nodes o.off

unfoldable pub store : Pool → ℕ → Option Listnode → Pool
unfolding update
store p off n = record p { nodes = update p.nodes off n }

-- pmemobj_flush and pmemobj_drain.
unfoldable pub flush : Pool → Flushed → Pool
flush p line = record p { pending = line ∷ p.pending }

commit : (ℕ → Option Listnode) → Listroot → List Flushed → Durable → Durable
unfolding update
commit nodes root [] d = d
commit nodes root (root_line ∷ lines) d = record (commit nodes root lines d) { root = root }
commit nodes root (node_line off ∷ lines) d =
    let d' = commit nodes root lines d in record d' { next = update d'.next off (nexts nodes off) }

unfoldable pub drain : Pool → Pool
unfolding commit
drain p = record p { durable = commit p.nodes p.root p.pending p.durable; pending = [] }

-- What libpmemobj decides: the oid of the root object for a size (null on an error), the place of
-- a new object of a size (`none` for the return value -1), and what its bytes hold.
pub record Pmemobj : Type 0 where
  pub root_oid : Pool → ℕ → Oid
  pub alloc_at : Pool → ℕ → Option Oid
  pub fresh_bytes : ℕ → ℕ

-- What its documentation promises: a new object stands where none does, and not at offset 0.
pub record IsLibpmemobj (lib : Pmemobj) : Type 0 where
  pub alloc_filled : (p : Pool) (size : ℕ) (o : Oid) → lib.alloc_at p size ≡ some o → o.off ≢ 0
  pub alloc_fresh :
      (p : Pool) (size : ℕ) (o : Oid) → lib.alloc_at p size ≡ some o → p.nodes o.off ≡ none

-- pmemobj_alloc with listnode_construct: the object and its `next` are durable when it returns.
unfoldable pub construct : Pmemobj → Pool → Oid → Pool
unfolding update
construct lib p o = record p {
  nodes = update p.nodes o.off (some (record { bytes = lib.fresh_bytes; next = oid_null }));
  durable = record { root = p.durable.root; next = update p.durable.next o.off (some oid_null) };
}

-- pmemobj_free: of a null oid it does nothing, and otherwise the object is gone when it returns.
unfoldable pub release : Pool → Oid → Pool
unfolding update
release p o = if oid_is_null o then p else record p {
  nodes = update p.nodes o.off none;
  durable = record { root = p.durable.root; next = update p.durable.next o.off none };
}
