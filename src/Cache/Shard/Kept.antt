-- ===== src/Cache/Shard/Kept.antt =====
-- The invariant of a shard, and that it is kept when a handle leaves the cache.
use tleveldb.Base.{
  occ, ℕ, ◌+◌, ◌-◌, ◌%◌, ◌^◌, ◌≤◌, ◌<◌, ◌≡◌, refl, ap, true, false, some, ◌∷◌, ◌==◌, ==_self,
  if◌then◌else◌, arith,
}
use tleveldb.Cache.Table.{CacheKey, TableEntry, HandleTable}
use tleveldb.Cache.Table.Buckets.{view}
use tleveldb.Cache.Table.Methods.{IsTable}
use tleveldb.Cache.Shard.{
  LruHandle, LruCache, write_handle, without, lru_remove, unref, finish_erase,
}
use tleveldb.Cache.Shard.Lists.{total}

-- How often a handle is in the two lists.
abbrev pub listed : LruCache → ℕ → ℕ
listed c a = occ a c.lru + occ a c.in_use

-- Of the lists: a handle is in one of them at most, and is in one if and only if it is in the
-- cache; the cache has one reference to it, and the clients have the others.
pub record IsListed (c : LruCache) : Type 0 where
  pub once : (a : ℕ) → listed c a ≤ 1
  pub idle : (a : ℕ) → 1 ≤ occ a c.lru → (c.handles a).refs ≡ 1
  pub busy : (a : ℕ) → 1 ≤ occ a c.in_use → 2 ≤ (c.handles a).refs
  pub cached : (a : ℕ) → (c.handles a).in_cache ≡ true → listed c a ≡ 1
  pub in_cache : (a : ℕ) → 1 ≤ listed c a → (c.handles a).in_cache ≡ true
  pub charges : (a : ℕ) → 1 ≤ listed c a → (c.handles a).charge < 2 ^ 64
  pub refs : (a : ℕ) → 1 ≤ listed c a → (c.handles a).refs < 2 ^ 32

-- Of the table: it has the handles of the lists, each under its key.
pub record IsIndexed (c : LruCache) : Type 0 where
  pub table : IsTable c.table
  pub few : c.table.elems ≤ 2 ^ 31
  pub named :
      (q : CacheKey) (t : TableEntry)
      → view c.table.list q ≡ some t
      → (listed c t.handle ≡ 1) × ((c.handles t.handle).key ≡ q)
  pub entered :
      (a : ℕ)
      → 1 ≤ listed c a
      → view c.table.list (c.handles a).key ≡ some (record { key = (c.handles a).key; handle = a })

-- The invariant of a shard: also, usage_ is the sum of the charges of the handles in the cache.
pub record IsShard (c : LruCache) : Type 0 where
  pub lists : IsListed c
  pub index : IsIndexed c
  pub usage : c.usage ≡ (total c.handles c.lru + total c.handles c.in_use) % 2 ^ 64

pub table-IsListed :
    (c : LruCache) (t : HandleTable) → IsListed c → IsListed (record c { table = t })
table-IsListed c t l = record {
  once = l.once;
  idle = l.idle;
  busy = l.busy;
  cached = l.cached;
  in_cache = l.in_cache;
  charges = l.charges;
  refs = l.refs;
}

-- What FinishErase does with a handle.
pub record Detached (e : ℕ) (c c' : LruCache) : Type 0 where
  pub capacity : c'.capacity ≡ c.capacity
  pub table : c'.table ≡ c.table
  pub lru : c'.lru ≡ without e c.lru
  pub in_use : c'.in_use ≡ without e c.in_use
  pub usage : c'.usage ≡ (c.usage + 2 ^ 64 - (c.handles e).charge) % 2 ^ 64
  pub other : (a : ℕ) → (a == e) ≡ false → c'.handles a ≡ c.handles a
  pub key : (c'.handles e).key ≡ (c.handles e).key
  pub gone : (c'.handles e).in_cache ≡ false
  pub freed : c'.freed ≡ (if (c.handles e).refs == 1 then e ∷ c.freed else c.freed)

pub one_less : (n : ℕ) → 1 ≤ n → n < 2 ^ 32 → (n + 2 ^ 32 - 1) % 2 ^ 32 ≡ n - 1
one_less n h k = omega arith

-- Unref of a handle that is not in the cache frees it with its last reference.
pub unref_out :
    (e : ℕ) (c : LruCache)
    → (c.handles e).in_cache ≡ false
    → 1 ≤ (c.handles e).refs
    → (c.handles e).refs < 2 ^ 32
    → unref e c ≡ record c {
      handles = write_handle c.handles e (record (c.handles e) { refs = (c.handles e).refs - 1 });
      freed = if (c.handles e).refs == 1 then e ∷ c.freed else c.freed;
    }
unfolding unref
unref_out e c out some_ref fits =
    rw (unref, one_less (c.handles e).refs some_ref fits, out) (ground (arith, some_ref))

pub write_self : (handles : ℕ → LruHandle) (e : ℕ) (h : LruHandle) → write_handle handles e h e ≡ h
write_self handles e h = rw (==_self e) refl

-- The state in which FinishErase gives the reference of the cache up.
abbrev taken_out : ℕ → LruCache → LruCache
taken_out e c = record c {
  lru = without e c.lru;
  in_use = without e c.in_use;
  handles = write_handle c.handles e (record (c.handles e) { in_cache = false });
  usage = (c.usage + 2 ^ 64 - (c.handles e).charge) % 2 ^ 64;
}

pub finish_erase-Detached :
    (t : TableEntry) (c : LruCache)
    → 1 ≤ (c.handles t.handle).refs
    → (c.handles t.handle).refs < 2 ^ 32
    → Detached t.handle c (finish_erase (some t) c)
unfolding finish_erase lru_remove
finish_erase-Detached t c some_ref fits =
    let e : ℕ = t.handle in
    let self = write_self c.handles e (record (c.handles e) { in_cache = false }) in
    rw
      (
        unref_out e (taken_out e c) (ap (λ (h : LruHandle). h.in_cache) self) (rw self some_ref)
            (rw self fits),
        self,
      )
      (record {
        capacity = refl;
        table = refl;
        lru = refl;
        in_use = refl;
        usage = refl;
        other = λ a different. ground (arith, different);
        key = rw (==_self e) refl;
        gone = rw (==_self e) refl;
        freed = refl;
      })
