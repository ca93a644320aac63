-- ===== src/Group/New.antt =====
-- Group::Group on a pool that holds no list yet, and get_pm_root afterwards.
use tleveldb.Base.{ℕ, ◌≡◌, ◌⊎◌, inl, inr, Bool-cases, refl, true, false, Option, some, [], arith}
use tleveldb.Base.Int.{ℤ, pos}
use tleveldb.Pool.{
  Oid, oid_is_null, Pool, Pmemobj, IsLibpmemobj, update, construct, flush, drain,
  list_node_size_256m,
}
use tleveldb.Group.{Group, with_root, check_list_exist, init_list, group_new}
use tleveldb.Group.Chain.{Returns, IsList, IsDurable}
use tleveldb.Group.Alloc.{alloc_node-ok}

-- The pool with the root's first two fields written, as alloc_node finds it in the constructor.
abbrev pub started : Pool → ℕ → Pool
started p gid = with_root p (record p.root { gid = gid; node_count = pos 1 })

-- What the constructor leaves: a list of one node, or, where the root cannot be allocated, the pool as
-- it was.
pub record IsStarted (gid : ℕ) (o : Oid) (g : Group) : Type 0 where
  pub list : IsList g.pool o []
  pub durable : IsDurable g.pool
  pub root_gid : g.pool.root.gid ≡ gid
  pub gid_dram : g.gid_dram ≡ gid
  pub count_dram : g.node_count_dram ≡ pos 0
  pub tail_dram : g.tail_dram ≡ some o.off
  pub offset_dram : g.offset_dram ≡ 0

pub StartsList : Pmemobj → Pool → ℕ → Oid → Group → Type 0
StartsList lib p gid o g =
    ((oid_is_null (lib.root_oid p list_node_size_256m) ≡ false) × IsStarted gid o g)
    ⊎ ((oid_is_null (lib.root_oid p list_node_size_256m) ≡ true)
        × (g.pool ≡ p)
        × (g.gid_dram ≡ gid))

-- On a durable pool without a list, where an object can be allocated, the constructor of Group
-- makes a durable list of one new node, and sets the DRAM fields to the group number, that node,
-- the offset 0 and the count 0; but if pmemobj_root fails it leaves the pool unchanged.
pub group_new-IsList :
    (lib : Pmemobj) (p : Pool) (gid : ℕ) (count : ℤ) (tail : Option ℕ) (offset : ℕ) (o : Oid)
    → IsLibpmemobj lib
    → IsDurable p
    → check_list_exist lib p ≡ false
    → lib.alloc_at (started p gid) list_node_size_256m ≡ some o
    → Returns (λ _ g. StartsList lib p gid o g) (group_new lib gid count tail offset p)
unfolding group_new init_list construct flush drain update
group_new-IsList lib p gid count tail offset o law settled absent found =
    elim (Bool-cases (oid_is_null (lib.root_oid p list_node_size_256m))) [
      | inl no_root ↦ rw (absent, no_root) (unfold StartsList in inr (no_root, refl, refl))
      | inr root ↦
          rw (absent, root, alloc_node-ok lib g o found)
            (unfold StartsList in
              inl (
                root,
                record {
                  list = record {
                    head = refl;
                    tail = refl;
                    count = refl;
                    chain = (
                      ground arith,
                      law.alloc_filled (started p gid) list_node_size_256m o found,
                    );
                  };
                  durable = record {
                    root = refl;
                    next = λ a. rw settled.none_pending (ground (arith, settled.next a));
                    none_pending = refl;
                  };
                  root_gid = refl;
                  gid_dram = refl;
                  count_dram = refl;
                  tail_dram = refl;
                  offset_dram = refl;
                },
              ))
    ]
  where
    g : Group
    g = record {
      pool = started p gid;
      gid_dram = gid;
      node_count_dram = count;
      tail_dram = tail;
      offset_dram = offset;
    }
