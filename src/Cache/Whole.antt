-- ===== src/Cache/Whole.antt =====
-- The cache as its clients see it: Lookup behind Insert, in any shard.
use tleveldb.Base.{ℕ, ◌^◌, ◌<◌, ◌≡◌, refl, ap, ◌∙◌, some, List, ==_self}
use tleveldb.Cache.Shard
use tleveldb.Cache.Shard.{LruCache}
use tleveldb.Cache.Shard.Kept.{listed, IsShard}
use tleveldb.Cache.Shard.Reads
use tleveldb.Cache.Sharded.{
  ShardedLruCache, hash_slice, shard_of, key_of_slice, insert, lookup, value_of,
}

module _ (c : ShardedLruCache) (e : ℕ) (key : List ℕ) (value charge : ℕ) where
  abbrev shard : LruCache
  shard = c.shards (shard_of (hash_slice key))

  shard_inserted :
      (insert e key value charge c).shards (shard_of (hash_slice key))
      ≡ Shard.insert e (key_of_slice key) value charge shard
  unfolding insert
  shard_inserted = rw (==_self (shard_of (hash_slice key))) refl

  shard_looked_up :
      (d : ShardedLruCache)
      → (lookup key d).1.shards (shard_of (hash_slice key))
        ≡ (Shard.lookup (key_of_slice key) (d.shards (shard_of (hash_slice key)))).1
  unfolding lookup
  shard_looked_up d = rw (==_self (shard_of (hash_slice key))) refl

  -- Lookup of a key behind its Insert gives the handle that Insert gave, and Value of the handle
  -- the value, if the shard of the key keeps its invariant and has a capacity; the new handle is in
  -- no list, the shard has fewer than 2^31 entries, and the charge is a size_t.
  pub lookup-insert_whole :
      IsShard shard
      → listed shard e ≡ 0
      → shard.table.elems < 2 ^ 31
      → charge < 2 ^ 64
      → 0 < shard.capacity
      → ((lookup key (insert e key value charge c)).0 ≡ some e)
        × (value_of e (hash_slice key) (lookup key (insert e key value charge c)).1 ≡ value)
  unfolding lookup value_of
  lookup-insert_whole s fresh room fits some_capacity =
      let (found, referenced, read) =
        Reads.lookup-insert e (key_of_slice key) value charge shard s fresh room fits
          some_capacity in
      (
        ap (λ d. (Shard.lookup (key_of_slice key) d).0) shard_inserted ∙ found,
        ap (λ (d : LruCache). (d.handles e).value)
              (shard_looked_up (insert e key value charge c)
                ∙ ap (λ d. (Shard.lookup (key_of_slice key) d).1) shard_inserted)
            ∙ read,
      )
