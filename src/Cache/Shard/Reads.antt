-- ===== src/Cache/Shard/Reads.antt =====
-- A new shard, and Lookup behind Insert and Erase.
use mathlib.Core.Path.{subst}
use tleveldb.Base.{
  occ, ℕ, ◌+◌, ◌^◌, ◌≤◌, ◌<◌, ◌≡◌, refl, ap, ◌∙◌, true, false, none, some, ◌∷◌, ◌==◌, if◌then◌else◌,
  arith,
}
use tleveldb.Cache.Table.{CacheKey, new_table}
use tleveldb.Cache.Table.Chains.{same_key_self}
use tleveldb.Cache.Table.Buckets.{view}
use tleveldb.Cache.Table.Methods.{lookup-view, new_table-IsTable}
use tleveldb.Cache.Shard.{LruHandle, LruCache, new_cache, lookup, release, erase, insert}
use tleveldb.Cache.Shard.Lists.{total}
use tleveldb.Cache.Shard.Kept.{listed, IsShard, unref_out}
use tleveldb.Cache.Shard.Erase.{erase-Erased}
use tleveldb.Cache.Shard.Insert.{insert-Evicted}
use tleveldb.Cache.Shard.Evict.{Shrunk}
use tleveldb.Cache.Shard.Use.{Referenced, ref-Referenced}

-- A new shard is empty and keeps the invariant.
pub new_cache-IsShard :
    (capacity : ℕ) (handles : ℕ → LruHandle)
    → ((a : ℕ) → (handles a).in_cache ≡ false)
    → IsShard (new_cache capacity handles)
unfolding new_cache occ total new_table
new_cache-IsShard capacity handles out = record {
  lists = record {
    once = λ a. omega arith;
    idle = λ a h. absurd (omega (arith, h));
    busy = λ a h. absurd (omega (arith, h));
    cached = λ a h. absurd (ground (arith, h, out a));
    in_cache = λ a h. absurd (omega (arith, h));
    charges = λ a h. absurd (omega (arith, h));
    refs = λ a h. absurd (omega (arith, h));
  };
  index = record {
    table = new_table-IsTable.0;
    few = omega arith;
    named = λ q t e. absurd (ground (arith, e, new_table-IsTable.1 q));
    entered = λ a h. absurd (omega (arith, h));
  };
  usage = refl;
}

in_use_of : (m n refs : ℕ) → m + n ≡ 1 → (1 ≤ m → refs ≡ 1) → refs ≡ 2 → 1 ≤ n
in_use_of m n refs one idle two = ground arith

module _ (e : ℕ) (key : CacheKey) (value charge : ℕ) (c : LruCache) (s : IsShard c) where
  -- Lookup of a key behind its Insert, into a shard with a capacity, gives the handle that Insert
  -- gave, with the value, whatever Insert removed from the cache.
  pub lookup-insert :
      listed c e ≡ 0
      → c.table.elems < 2 ^ 31
      → charge < 2 ^ 64
      → 0 < c.capacity
      → ((lookup key (insert e key value charge c)).0 ≡ some e)
        × Referenced e (insert e key value charge c) (lookup key (insert e key value charge c)).1
        × (((lookup key (insert e key value charge c)).1.handles e).value ≡ value)
  unfolding lookup
  lookup-insert fresh room fits some_capacity =
      let (c', attached, out) =
        insert-Evicted e key value charge c s fresh room fits some_capacity in
      let shrunk : Shrunk c' (insert e key value charge c) = out.shrunk in
      let found : view c'.table.list key ≡ some (record { key = key; handle = e }) =
        attached.reads key ∙ rw (same_key_self key) refl in
      let there = attached.shard.index.named key (record { key = key; handle = e }) found in
      let used : 1 ≤ occ e c'.in_use =
        in_use_of (occ e c'.lru) (occ e c'.in_use) (c'.handles e).refs there.0
          (attached.shard.lists.idle e) (ap (λ (h : LruHandle). h.refs) attached.handle) in
      let c2 : LruCache = insert e key value charge c in
      let kept : c2.handles e
          ≡ record { value = value; charge = charge; in_cache = true; refs = 2; key = key } =
        shrunk.handle e used ∙ attached.handle in
      let used' : 1 ≤ occ e c2.in_use = rw shrunk.in_use used in
      let inside : listed c2 e ≡ 1 = omega (arith, shrunk.shard.lists.once e, used') in
      let seen : view c2.table.list key ≡ some (record { key = key; handle = e }) =
        subst (λ q. view c2.table.list q ≡ some (record { key = q; handle = e }))
          (ap (λ (h : LruHandle). h.key) kept)
          (shrunk.shard.index.entered e (omega (arith, inside))) in
      let r =
        ref-Referenced e c2 shrunk.shard inside
          (omega (arith, ap (λ (h : LruHandle). h.refs) kept)) in
      (
        rw (lookup, lookup-view c2.table key ∙ seen) refl,
        rw (lookup, lookup-view c2.table key ∙ seen) r,
        rw (lookup, lookup-view c2.table key ∙ seen)
            (r.value ∙ ap (λ (h : LruHandle). h.value) kept),
      )

-- Lookup of a key behind its Erase gives none, and changes nothing.
pub lookup-erase :
    (key : CacheKey) (c : LruCache) → IsShard c → lookup key (erase key c) ≡ (none, erase key c)
unfolding lookup
lookup-erase key c s =
    let e = erase-Erased key c s in
    rw (lookup, lookup-view (erase key c).table key ∙ e.reads key, same_key_self key) refl

-- Release of a handle that is in the cache no more frees it if it was the last reference, and only
-- counts down otherwise.
pub release_out :
    (e : ℕ) (c : LruCache)
    → (c.handles e).in_cache ≡ false
    → 1 ≤ (c.handles e).refs
    → (c.handles e).refs < 2 ^ 32
    → ((release e c).freed ≡ (if (c.handles e).refs == 1 then e ∷ c.freed else c.freed))
      × ((release e c).lru ≡ c.lru)
      × ((release e c).in_use ≡ c.in_use)
      × ((release e c).usage ≡ c.usage)
unfolding release
release_out e c out some_ref fits = rw (unref_out e c out some_ref fits) (refl, refl, refl, refl)
