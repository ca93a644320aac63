-- ===== src/Cache/Shard/Insert.antt =====
-- Insert keeps the invariant, makes its key lead to the new handle, and then holds the capacity
-- while there is a handle that no client uses.
use mathlib.Core.Path.{subst}
use tleveldb.Base.{
  occ, ℕ, ◌+◌, ◌%◌, ◌^◌, ◌≤◌, ◌<◌, ◌≡◌, refl, sym, ap, ◌∙◌, true, false, none, some, [], ◌∷◌, ◌++◌,
  ◌==◌, ==_iff, if◌then◌else◌, inl, inr, Bool-cases, Option-cases, lt→ltb, arith,
}
use mathlib.Core.Option.{some-injective}
use tleveldb.Cache.Table
use tleveldb.Cache.Table.{CacheKey, same_key, TableEntry, HandleTable}
use tleveldb.Cache.Table.Chains.{same_key-eq, same_key_self}
use tleveldb.Cache.Table.Buckets.{view}
use tleveldb.Cache.Table.Methods.{Inserted, insert-Inserted}
use tleveldb.Cache.Shard.{LruHandle, LruCache, write_handle, finish_erase, attach, insert}
use tleveldb.Cache.Shard.Lists.{occ-append, total, total-append, total_frame}
use tleveldb.Cache.Shard.Kept.{
  listed, IsListed, IsIndexed, IsShard, Detached, write_self, finish_erase-Detached,
}
use tleveldb.Cache.Shard.Leave.{occ_after, leave-IsListed, leave_usage}
use tleveldb.Cache.Shard.Evict.{Evicted, evict-Evicted}

-- What a shard is like with the new handle `e` under its key.
pub record Attached (e : ℕ) (key : CacheKey) (value charge : ℕ) (c c' : LruCache) : Type 0 where
  pub shard : IsShard c'
  pub capacity : c'.capacity ≡ c.capacity
  pub reads :
      (q : CacheKey)
      → view c'.table.list q
        ≡ (if same_key q key then some (record { key = key; handle = e }) else view c.table.list q)
  pub handle :
      c'.handles e ≡ record { value = value; charge = charge; in_cache = true; refs = 2; key = key }

module _ (e : ℕ) (key : CacheKey) (value charge : ℕ) (c : LruCache) (s : IsShard c)
    (fresh : listed c e ≡ 0) (room : c.table.elems < 2 ^ 31) (fits : charge < 2 ^ 64) where
  abbrev new_handle : LruHandle
  new_handle = record { value = value; charge = charge; in_cache = true; refs = 2; key = key }

  abbrev entry : TableEntry
  entry = record { key = key; handle = e }

  -- The state before FinishErase.
  abbrev added : LruCache
  added = record c {
    handles = write_handle c.handles e new_handle;
    in_use = c.in_use ++ (e ∷ []);
    usage = (c.usage + charge) % 2 ^ 64;
    table = (Table.insert c.table entry).1;
  }

  inserted : Inserted c.table entry (Table.insert c.table entry)
  inserted = insert-Inserted c.table s.index.table entry room

  -- The new handle is in use, all others are as before.
  added_occ : (a : ℕ) → occ a added.in_use ≡ occ a c.in_use + (if e == a then 1 else 0)
  added_occ a = occ-append a e c.in_use

  added_same : (a : ℕ) → 1 ≤ listed c a → (a == e) ≡ false
  added_same a h = ground (arith, fresh, ap (listed c) {x = a} {y = e})

  added-IsListed : IsListed added
  added-IsListed = record {
    once = λ a. ground (arith, s.lists.once a, added_occ a, fresh);
    idle = λ a h. ground (arith, s.lists.idle a, fresh);
    busy = λ a h. ground (arith, s.lists.busy a, added_occ a, fresh);
    cached = λ a h. ground (arith, s.lists.cached a, added_occ a, fresh);
    in_cache = λ a h. ground (arith, s.lists.in_cache a, added_occ a, fresh);
    charges = λ a h. ground (arith, s.lists.charges a, added_occ a, fresh, fits);
    refs = λ a h. ground (arith, s.lists.refs a, added_occ a, fresh);
  }

  added_usage :
      added.usage ≡ (total added.handles added.lru + total added.handles added.in_use) % 2 ^ 64
  added_usage = omega (
    arith,
    s.usage,
    total-append added.handles e c.in_use,
    ap (λ (h : LruHandle). h.charge) (write_self c.handles e new_handle),
    total_frame c.handles added.handles c.lru (λ a h. same_charge a (omega (arith, h))),
    total_frame c.handles added.handles c.in_use (λ a h. same_charge a (omega (arith, h))),
  )
    where
      same_charge : (a : ℕ) → 1 ≤ listed c a → (added.handles a).charge ≡ (c.handles a).charge
      same_charge a h = rw (added_same a h) refl

  -- Old handles in a state behind Insert are those with another key.
  record Keeps (c' : LruCache) : Type 0 where
    table : c'.table ≡ (Table.insert c.table entry).1
    new_listed : listed c' e ≡ 1
    new_handle_of : c'.handles e ≡ new_handle
    was_there :
        (a : ℕ)
        → (a == e) ≡ false
        → 1 ≤ listed c' a
        → (1 ≤ listed c a) × (c'.handles a ≡ c.handles a) × (same_key (c.handles a).key key ≡ false)
    stays :
        (a : ℕ)
        → 1 ≤ listed c a
        → same_key (c.handles a).key key ≡ false
        → (listed c' a ≡ 1) × (c'.handles a ≡ c.handles a)

  module _ (c' : LruCache) (keeps : Keeps c') where
    keeps_reads :
        (q : CacheKey)
        → view c'.table.list q ≡ (if same_key q key then some entry else view c.table.list q)
    keeps_reads q = ap (λ (u : HandleTable). view u.list q) keeps.table ∙ inserted.reads q

    keeps_named :
        (q : CacheKey) (u : TableEntry)
        → view c'.table.list q ≡ some u
        → (listed c' u.handle ≡ 1) × ((c'.handles u.handle).key ≡ q)
    keeps_named q u found = elim (Bool-cases (same_key q key)) [
      | inl same ↦
          let is_new : entry ≡ u =
            some-injective entry u (ground (arith, same, keeps_reads q, found)) in
          subst (λ (x : TableEntry). (listed c' x.handle ≡ 1) × ((c'.handles x.handle).key ≡ q))
            is_new
            (
              keeps.new_listed,
              ap (λ (h : LruHandle). h.key) keeps.new_handle_of ∙ sym (same_key-eq q key same),
            )
      | inr other ↦
          let before : view c.table.list q ≡ some u = ground (arith, other, keeps_reads q, found) in
          let (inside, named) = s.index.named q u before in
          let (still, handle) =
            keeps.stays u.handle (omega (arith, inside)) (ap (λ x. same_key x key) named ∙ other) in
          (still, ap (λ (h : LruHandle). h.key) handle ∙ named)
    ]

    keeps_entered :
        (a : ℕ)
        → 1 ≤ listed c' a
        → view c'.table.list (c'.handles a).key
          ≡ some (record { key = (c'.handles a).key; handle = a })
    keeps_entered a h = elim (Bool-cases (a == e)) [
      | inl same ↦
          subst
            (λ x.
              view c'.table.list (c'.handles x).key
              ≡ some (record { key = (c'.handles x).key; handle = x }))
            (sym ((==_iff a e).0 same))
            (rw keeps.new_handle_of (keeps_reads key ∙ rw (same_key_self key) refl))
      | inr other ↦
          let (before, handle, other_key) = keeps.was_there a other h in
          rw handle (keeps_reads (c.handles a).key ∙ rw other_key (s.index.entered a before))
    ]

    keeps-IsIndexed : IsIndexed c'
    keeps-IsIndexed = record {
      table = rw keeps.table inserted.valid;
      few = omega (arith, ap (λ (u : HandleTable). u.elems) keeps.table, inserted.elems, room);
      named = keeps_named;
      entered = keeps_entered;
    }

    keeps-Attached :
        IsListed c'
        → c'.usage ≡ (total c'.handles c'.lru + total c'.handles c'.in_use) % 2 ^ 64
        → c'.capacity ≡ c.capacity
        → Attached e key value charge c c'
    keeps-Attached lists usage capacity = record {
      shard = record { lists = lists; index = keeps-IsIndexed; usage = usage };
      capacity = capacity;
      reads = keeps_reads;
      handle = keeps.new_handle_of;
    }

  new_once : listed added e ≡ 1
  new_once = ground (arith, fresh, added_occ e)

  added-Keeps : view c.table.list key ≡ none → Keeps added
  added-Keeps missing = record {
    table = refl;
    new_listed = new_once;
    new_handle_of = write_self c.handles e new_handle;
    was_there = λ a other h.
        let before : 1 ≤ listed c a = ground (arith, other, added_occ a) in
        (before, rw other refl, no_such_key a before);
    stays = λ a h other_key.
        (ground (arith, s.lists.once a, added_occ a, added_same a h), rw (added_same a h) refl);
  }
    where
      no_such_key : (a : ℕ) → 1 ≤ listed c a → same_key (c.handles a).key key ≡ false
      no_such_key a h =
          ground (arith, s.index.entered a h, missing, same_key-eq (c.handles a).key key)

  module _ (o : TableEntry) (found : view c.table.list key ≡ some o) where
    abbrev replaced : LruCache
    replaced = finish_erase (some o) added

    inside : (listed c o.handle ≡ 1) × ((c.handles o.handle).key ≡ key)
    inside = s.index.named key o found

    old_other : (o.handle == e) ≡ false
    old_other = added_same o.handle (omega (arith, inside))

    old_handle : added.handles o.handle ≡ c.handles o.handle
    old_handle = rw old_other refl

    detached : Detached o.handle added replaced
    detached =
        finish_erase-Detached o added
          (rw old_handle (ground (arith, inside, s.lists.idle o.handle, s.lists.busy o.handle)))
          (rw old_handle (s.lists.refs o.handle (omega (arith, inside))))

    old_occ : (a : ℕ) → listed replaced a ≡ (if a == o.handle then 0 else listed added a)
    old_occ a = ground (arith, occ_after o.handle added replaced detached a)

    not_old : (a : ℕ) → same_key (c.handles a).key key ≡ false → (a == o.handle) ≡ false
    not_old a other_key = elim (Bool-cases (a == o.handle)) [
      | inr other ↦ other
      | inl same ↦ cc (
        ap (λ x. same_key (c.handles x).key key) ((==_iff a o.handle).0 same),
        ap (λ x. same_key x key) inside.1,
        same_key_self key,
        other_key,
      )
    ]

    other_key_of :
        (a : ℕ) → 1 ≤ listed c a → (a == o.handle) ≡ false → same_key (c.handles a).key key ≡ false
    other_key_of a h other =
        ground (arith, other, s.index.entered a h, found, same_key-eq (c.handles a).key key)

    replaced-Keeps : Keeps replaced
    replaced-Keeps = record {
      table = detached.table;
      new_listed = ground (arith, new_once, old_occ e, old_other);
      new_handle_of =
          detached.other e (ground (arith, old_other)) ∙ write_self c.handles e new_handle;
      was_there = λ a other h.
          let elsewhere : (a == o.handle) ≡ false = ground (arith, old_occ a) in
          let before : 1 ≤ listed c a = ground (arith, other, elsewhere, old_occ a, added_occ a) in
          (before, detached.other a elsewhere ∙ rw other refl, other_key_of a before elsewhere);
      stays = λ a h other_key.
          let elsewhere = not_old a other_key in
          (
            ground (arith, elsewhere, old_occ a, s.lists.once a, added_occ a, added_same a h),
            detached.other a elsewhere ∙ rw (added_same a h) refl,
          );
    }

    replaced-Attached : Attached e key value charge c replaced
    replaced-Attached =
        keeps-Attached replaced replaced-Keeps
          (leave-IsListed o.handle added replaced detached added-IsListed)
          (leave_usage o.handle added replaced detached added-IsListed
            (ground (arith, inside, added_occ o.handle, old_other)) added_usage)
          detached.capacity

  attach-Attached : Attached e key value charge c (attach e key value charge c)
  unfolding attach
  attach-Attached = elim (Option-cases (view c.table.list key)) [
    | inl missing ↦
        rw (inserted.old ∙ missing)
          (keeps-Attached added (added-Keeps missing) added-IsListed added_usage refl)
    | inr (o, found) ↦ rw (inserted.old ∙ found) (replaced-Attached o found)
  ]

  -- Insert into a shard with its invariant and a capacity, of a handle in no list, where there are
  -- fewer than 2^31 entries and the charge is a size_t, puts the handle under the key, in place of
  -- the one that was there, and then removes handles that no client uses, the oldest first, each
  -- while the usage is above the capacity, until it is within the capacity or there is none; the
  -- invariant is kept, that the usage is the sum of the charges in the cache included.
  pub insert-Evicted :
      0 < c.capacity
      → (c' : LruCache) × Attached e key value charge c c'
        × Evicted c' (insert e key value charge c)
  unfolding insert
  insert-Evicted some_capacity = (
    attach e key value charge c,
    attach-Attached,
    rw (lt→ltb 0 c.capacity some_capacity)
        (evict-Evicted _ (attach e key value charge c) attach-Attached.shard (omega arith)),
  )
