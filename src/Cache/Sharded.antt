-- ===== src/Cache/Sharded.antt =====
-- class ShardedLRUCache of lib/leveldb/util/cache.cc. `handles` of a shard is its part of the memory;
-- a Cache::Handle is the address of a handle, whose hash says in which shard it is.
use tleveldb.Base.{ℕ, zero, suc, ◌+◌, ◌-◌, ◌/◌, ◌%◌, ◌^◌, Option, List, ◌==◌, if◌then◌else◌}
use tleveldb.Hash.{hash}
use tleveldb.Cache.Table.{CacheKey}
use tleveldb.Cache.Shard
use tleveldb.Cache.Shard.{LruHandle, LruCache, new_cache, prune, total_charge}

abbrev pub num_shard_bits : ℕ
num_shard_bits = 4

abbrev pub num_shards : ℕ
num_shards = 2 ^ num_shard_bits

pub record ShardedLruCache : Type 0 where
  pub shards : ℕ → LruCache
  pub last_id : ℕ

unfoldable pub hash_slice : List ℕ → ℕ
unfolding hash
hash_slice s = hash s 0

abbrev pub shard_of : ℕ → ℕ
shard_of h = h / 2 ^ (32 - num_shard_bits)

abbrev pub key_of_slice : List ℕ → CacheKey
key_of_slice s = record { bytes = s; hash = hash_slice s }

unfoldable pub new_sharded : ℕ → (ℕ → ℕ → LruHandle) → ShardedLruCache
unfolding new_cache
new_sharded capacity memory =
    let per_shard = (capacity + (num_shards - 1)) % 2 ^ 64 / num_shards in
    record { shards = λ i. new_cache per_shard (memory i); last_id = 0 }

abbrev pub with_shard : ℕ → LruCache → ShardedLruCache → ShardedLruCache
with_shard i shard c = record c { shards = λ j. if j == i then shard else c.shards j }

unfoldable pub insert : ℕ → List ℕ → (value charge : ℕ) → ShardedLruCache → ShardedLruCache
unfolding hash_slice Shard.insert
insert e key value charge c =
    let i = shard_of (hash_slice key) in
    with_shard i (Shard.insert e (key_of_slice key) value charge (c.shards i)) c

unfoldable pub lookup : List ℕ → ShardedLruCache → Option ℕ × ShardedLruCache
unfolding hash_slice Shard.lookup
lookup key c =
    let i = shard_of (hash_slice key) in
    let (found, shard) = Shard.lookup (key_of_slice key) (c.shards i) in
    (found, with_shard i shard c)

unfoldable pub release : (address hash : ℕ) → ShardedLruCache → ShardedLruCache
unfolding Shard.release
release address hash c =
    with_shard (shard_of hash) (Shard.release address (c.shards (shard_of hash))) c

unfoldable pub erase : List ℕ → ShardedLruCache → ShardedLruCache
unfolding hash_slice Shard.erase
erase key c =
    let i = shard_of (hash_slice key) in
    with_shard i (Shard.erase (key_of_slice key) (c.shards i)) c

unfoldable pub value_of : (address hash : ℕ) → ShardedLruCache → ℕ
value_of address hash c = ((c.shards (shard_of hash)).handles address).value

unfoldable pub new_id : ShardedLruCache → ℕ × ShardedLruCache
new_id c = let id = (c.last_id + 1) % 2 ^ 64 in (id, record c { last_id = id })

-- The loop of Prune over the shards, with the number of those left.
unfoldable pub prune_shards : ℕ → ShardedLruCache → ShardedLruCache
unfolding prune
prune_shards zero c = c
prune_shards (suc left) c =
    let i = num_shards - suc left in prune_shards left (with_shard i (prune (c.shards i)) c)

unfoldable pub prune_all : ShardedLruCache → ShardedLruCache
unfolding prune_shards
prune_all c = prune_shards num_shards c

unfoldable pub sum_charges : ℕ → ℕ → ShardedLruCache → ℕ
unfolding total_charge
sum_charges zero total c = total
sum_charges (suc left) total c =
    sum_charges left ((total + total_charge (c.shards (num_shards - suc left))) % 2 ^ 64) c

unfoldable pub total_charge_all : ShardedLruCache → ℕ
unfolding sum_charges
total_charge_all c = sum_charges num_shards 0 c
