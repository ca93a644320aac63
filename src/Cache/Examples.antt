-- ===== src/Cache/Examples.antt =====
-- The cache at a few handles.
use tleveldb.Base.{occ, ℕ, ◌+◌, ◌*◌, ◌^◌, ◌<◌, ◌≡◌, refl, false, none, some, [], ◌∷◌, arith}
use tleveldb.Cache.Table
use tleveldb.Cache.Table.{CacheKey, TableEntry, HandleTable, new_table}
use tleveldb.Cache.Table.Methods.{Inserted, new_table-IsTable, insert-Inserted}
use tleveldb.Cache.Shard
use tleveldb.Cache.Shard.{LruHandle, LruCache, new_cache}
use tleveldb.Cache.Shard.Kept.{listed, IsShard}
use tleveldb.Cache.Shard.Erase.{Erased, erase-Erased}
use tleveldb.Cache.Shard.Evict.{Evicted}
use tleveldb.Cache.Shard.Insert.{Attached, insert-Evicted}
use tleveldb.Cache.Shard.Use.{Released, release-Released}
use tleveldb.Cache.Shard.Reads.{new_cache-IsShard}
use tleveldb.Cache.Sharded.{ShardedLruCache, shard_of, hash_slice, new_sharded}
use tleveldb.Cache.Sharded
use tleveldb.Cache.Whole.{lookup-insert_whole}

abbrev first : CacheKey
first = record { bytes = 97 ∷ []; hash = 5 }

abbrev second : CacheKey
second = record { bytes = 98 ∷ []; hash = 9 }

-- Two keys in one bucket, a fifth element that makes the table larger, and a removal.
abbrev entry_of : ℕ → TableEntry
entry_of a = record { key = record { bytes = a ∷ []; hash = 4 * a + 1 }; handle = a }

abbrev filled : HandleTable
filled =
    (Table.insert
      (Table.insert
        (Table.insert (Table.insert (Table.insert new_table (entry_of 1)).1 (entry_of 2)).1
          (entry_of 3)).1
        (entry_of 4)).1
      (entry_of 5)).1

table_test :
    Table.lookup (Table.remove filled (entry_of 2).key).1 (entry_of 4).key ≡ some (entry_of 4)
unfolding new_table Table.insert Table.lookup Table.remove
table_test = refl

removed_test : Table.lookup (Table.remove filled (entry_of 2).key).1 (entry_of 2).key ≡ none
unfolding new_table Table.insert Table.lookup Table.remove
removed_test = refl

insert-Inserted_example : Inserted new_table (entry_of 1) (Table.insert new_table (entry_of 1))
insert-Inserted_example = insert-Inserted new_table new_table-IsTable.0 (entry_of 1) none_yet
  where
    none_yet : new_table.elems < 2 ^ 31
    none_yet = unfold new_table in omega arith

abbrev blank : LruHandle
blank = record { value = 0; charge = 0; in_cache = false; refs = 0; key = first }

abbrev empty_shard : LruCache
empty_shard = new_cache 10 (λ a. blank)

empty-IsShard : IsShard empty_shard
empty-IsShard = new_cache-IsShard 10 (λ a. blank) (λ a. refl)

-- The handle of the first key is released and is the first that the third insertion removes.
abbrev one_in : LruCache
one_in = Shard.insert 1 first 100 6 empty_shard

abbrev over : LruCache
over = Shard.insert 2 second 200 6 (Shard.release 1 one_in)

over_test : (over.usage ≡ 6) × (over.lru ≡ []) × (over.in_use ≡ 2 ∷ []) × (over.freed ≡ 1 ∷ [])
unfolding new_cache new_table Shard.insert Shard.release Table.insert Table.lookup Table.remove
over_test = (refl, refl, refl, refl)

none_listed : listed empty_shard 1 ≡ 0
unfolding occ new_cache
none_listed = refl

insert-Evicted_example : (c' : LruCache) × Attached 1 first 100 6 empty_shard c' × Evicted c' one_in
unfolding new_cache
insert-Evicted_example =
    insert-Evicted 1 first 100 6 empty_shard empty-IsShard none_listed none_yet (omega arith)
      (omega arith)
  where
    none_yet : empty_shard.table.elems < 2 ^ 31
    none_yet = unfold new_cache new_table in omega arith

one_in-IsShard : IsShard one_in
one_in-IsShard = insert-Evicted_example.2.shrunk.shard

erase-Erased_example : Erased first one_in (Shard.erase first one_in)
erase-Erased_example = erase-Erased first one_in one_in-IsShard

in_lists : listed one_in 1 ≡ 1
unfolding new_cache new_table occ Shard.insert Table.insert Table.lookup
in_lists = refl

two_references : (one_in.handles 1).refs ≡ 2
unfolding new_cache new_table Shard.insert Table.insert Table.lookup
two_references = refl

release-Released_example : Released 1 one_in (Shard.release 1 one_in)
release-Released_example =
    release-Released 1 one_in one_in-IsShard in_lists (omega (arith, two_references))

abbrev cache : ShardedLruCache
cache = new_sharded 160 (λ i a. blank)

abbrev its_shard : LruCache
its_shard = cache.shards (shard_of (hash_slice (97 ∷ [])))

its_shard-IsShard : IsShard its_shard
unfolding new_sharded
its_shard-IsShard = empty-IsShard

lookup-insert_whole_example :
    ((Sharded.lookup (97 ∷ []) (Sharded.insert 1 (97 ∷ []) 100 6 cache)).0 ≡ some 1)
    × (Sharded.value_of 1
          (hash_slice (97 ∷ []))
          (Sharded.lookup (97 ∷ []) (Sharded.insert 1 (97 ∷ []) 100 6 cache)).1
        ≡ 100)
lookup-insert_whole_example =
    lookup-insert_whole cache 1 (97 ∷ []) 100 6 its_shard-IsShard
      (unfold new_sharded in unfold new_cache in unfold occ in refl)
      (unfold new_sharded in unfold new_cache in unfold new_table in omega arith) (omega arith)
      (unfold new_sharded in unfold new_cache in omega arith)
