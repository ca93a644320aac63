-- ===== src/Cache/Shard/Erase.antt =====
-- Erase keeps the invariant, and takes one key out of the cache.
use tleveldb.Base.{
  ℕ, ◌≤◌, ◌≡◌, refl, sym, ap, ◌∙◌, false, Option, none, some, ◌==◌, ==_iff, if◌then◌else◌, inl, inr,
  Bool-cases, Option-cases, arith,
}
use mathlib.Core.Option.{some-injective}
use tleveldb.Cache.Table
use tleveldb.Cache.Table.{CacheKey, same_key, TableEntry, HandleTable}
use tleveldb.Cache.Table.Chains.{same_key-eq, same_key_self}
use tleveldb.Cache.Table.Buckets.{view}
use tleveldb.Cache.Table.Methods.{Removed, remove-Removed}
use tleveldb.Cache.Shard.{LruHandle, LruCache, without, finish_erase, erase}
use tleveldb.Cache.Shard.Kept.{listed, IsShard, table-IsListed, Detached, finish_erase-Detached}
use tleveldb.Cache.Shard.Leave.{occ_after, leave-IsListed, leave_usage}

-- What Erase of a key does: nothing if no handle has the key, and otherwise the handle leaves.
pub record Erased (k : CacheKey) (c c' : LruCache) : Type 0 where
  pub shard : IsShard c'
  pub capacity : c'.capacity ≡ c.capacity
  pub reads :
      (q : CacheKey) → view c'.table.list q ≡ (if same_key q k then none else view c.table.list q)
  pub elems : c'.table.elems ≤ c.table.elems
  pub kept : (a : ℕ) → same_key (c.handles a).key k ≡ false → c'.handles a ≡ c.handles a
  pub lru : (t : TableEntry) → view c.table.list k ≡ some t → c'.lru ≡ without t.handle c.lru
  pub in_use :
      (t : TableEntry) → view c.table.list k ≡ some t → c'.in_use ≡ without t.handle c.in_use

module _ (k : CacheKey) (c : LruCache) (s : IsShard c) where
  abbrev taken : Option TableEntry × HandleTable
  taken = Table.remove c.table k

  removed : Removed c.table k (Table.remove c.table k)
  removed = remove-Removed c.table s.index.table k (omega (arith, s.index.few))

  abbrev cleared : LruCache
  cleared = record c { table = (Table.remove c.table k).1 }

  absent-Erased : view c.table.list k ≡ none → Erased k c cleared
  absent-Erased missing = record {
    shard = record {
      lists = table-IsListed c (Table.remove c.table k).1 s.lists;
      index = record {
        table = removed.valid;
        few = omega (arith, removed.elems, s.index.few);
        named = λ q t e. s.index.named q t (sym (same_reads q) ∙ e);
        entered = λ a h. same_reads (c.handles a).key ∙ s.index.entered a h;
      };
      usage = s.usage;
    };
    capacity = refl;
    reads = removed.reads;
    elems = removed.elems;
    kept = λ a other_key. refl;
    lru = λ t found. absurd (ground (arith, missing, found));
    in_use = λ t found. absurd (ground (arith, missing, found));
  }
    where
      same_reads : (q : CacheKey) → view (Table.remove c.table k).1.list q ≡ view c.table.list q
      same_reads q = removed.reads q ∙ ground (arith, missing, same_key-eq q k)

  module _ (t : TableEntry) (found : view c.table.list k ≡ some t) where
    abbrev cut : LruCache
    cut = finish_erase (some t) cleared

    inside : (listed c t.handle ≡ 1) × ((c.handles t.handle).key ≡ k)
    inside = s.index.named k t found

    has_ref : 1 ≤ (c.handles t.handle).refs
    has_ref = ground (arith, inside, s.lists.idle t.handle, s.lists.busy t.handle)

    detached : Detached t.handle cleared cut
    detached =
        finish_erase-Detached t cleared has_ref (s.lists.refs t.handle (omega (arith, inside)))

    other_handle : (a : ℕ) → same_key (c.handles a).key k ≡ false → (a == t.handle) ≡ false
    other_handle a other_key = elim (Bool-cases (a == t.handle)) [
      | inr other ↦ other
      | inl same ↦ cc (
        ap (λ x. same_key (c.handles x).key k) ((==_iff a t.handle).0 same),
        ap (λ x. same_key x k) inside.1,
        same_key_self k,
        other_key,
      )
    ]

    other_key_of :
        (a : ℕ) → 1 ≤ listed c a → (a == t.handle) ≡ false → same_key (c.handles a).key k ≡ false
    other_key_of a h other = elim (Bool-cases (same_key (c.handles a).key k)) [
      | inr other_key ↦ other_key
      | inl same ↦
          ground (arith, other, s.index.entered a h, found, same_key-eq (c.handles a).key k)
    ]

    cut_reads :
        (q : CacheKey)
        → view cut.table.list q ≡ (if same_key q k then none else view c.table.list q)
    cut_reads q = ap (λ (u : HandleTable). view u.list q) detached.table ∙ removed.reads q

    cut_named :
        (q : CacheKey) (u : TableEntry)
        → view cut.table.list q ≡ some u
        → (listed cut u.handle ≡ 1) × ((cut.handles u.handle).key ≡ q)
    cut_named q u e =
        let (other_key, before) = kept (sym (cut_reads q) ∙ e) in
        let (in_lists, key) = s.index.named q u before in
        let other : (u.handle == t.handle) ≡ false =
          other_handle u.handle (ap (λ x. same_key x k) key ∙ other_key) in
        (
          ground (arith, in_lists, other, occ_after t.handle cleared cut detached u.handle),
          ap (λ (h : LruHandle). h.key) (detached.other u.handle other) ∙ key,
        )
      where
        kept :
            (if same_key q k then none else view c.table.list q) ≡ some u
            → (same_key q k ≡ false) × (view c.table.list q ≡ some u)
        kept h = ground (arith, h)

    cut_entered :
        (a : ℕ)
        → 1 ≤ listed cut a
        → view cut.table.list (cut.handles a).key
          ≡ some (record { key = (cut.handles a).key; handle = a })
    cut_entered a h =
        let other : (a == t.handle) ≡ false =
          ground (arith, occ_after t.handle cleared cut detached a) in
        let before : 1 ≤ listed c a =
          ground (arith, other, occ_after t.handle cleared cut detached a) in
        let e = s.index.entered a before in
        rw (detached.other a other)
          (cut_reads (c.handles a).key ∙ rw (other_key_of a before other) e)

    cut-Erased : Erased k c cut
    cut-Erased = record {
      shard = record {
        lists =
            leave-IsListed t.handle cleared cut detached
              (table-IsListed c (Table.remove c.table k).1 s.lists);
        index = record {
          table = rw detached.table removed.valid;
          few =
              omega (
                arith,
                removed.elems,
                s.index.few,
                ap (λ (u : HandleTable). u.elems) detached.table,
              );
          named = cut_named;
          entered = cut_entered;
        };
        usage =
            leave_usage t.handle cleared cut detached
              (table-IsListed c (Table.remove c.table k).1 s.lists) inside.0 s.usage;
      };
      capacity = detached.capacity;
      reads = cut_reads;
      elems = omega (arith, removed.elems, ap (λ (u : HandleTable). u.elems) detached.table);
      kept = λ a other_key. detached.other a (other_handle a other_key);
      lru = λ u e.
          detached.lru
          ∙ ap (λ (x : TableEntry). without x.handle c.lru) (some-injective t u (sym found ∙ e));
      in_use = λ u e.
          detached.in_use
          ∙ ap (λ (x : TableEntry). without x.handle c.in_use) (some-injective t u (sym found ∙ e));
    }

  -- Erase of a key keeps the invariant of a shard; its handle, if there is one, leaves the list
  -- that it is in and the table, and all other keys and handles stay.
  pub erase-Erased : Erased k c (erase k c)
  unfolding erase
  erase-Erased = elim (Option-cases (view c.table.list k)) [
    | inl missing ↦ rw (removed.result ∙ missing) (absent-Erased missing)
    | inr (t, found) ↦ rw (removed.result ∙ found) (cut-Erased t found)
  ]
