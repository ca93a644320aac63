-- ===== src/Cache/Shard.antt =====
-- class LRUCache of lib/leveldb/util/cache.cc, a shard of the cache. A pointer to a handle is its
-- address. The two circular lists are the addresses in them from `next` of the head on, so a handle
-- is in a list at one place; `handles` is the memory, and `freed` the handles that were passed to
-- their deleter and freed, the last one first.
pub mod Lists
pub mod Links
pub mod Kept
pub mod Leave
pub mod Erase
pub mod Evict
pub mod Insert
pub mod Use
pub mod Reads
use tleveldb.Base.{
  ℕ, zero, suc, ◌+◌, ◌-◌, ◌%◌, ◌^◌, Bool, true, false, ◌&&◌, Option, none, some, List, [], ◌∷◌,
  ◌++◌, ltb, ◌==◌, if◌then◌else◌, length,
}
use tleveldb.Cache.Table
use tleveldb.Cache.Table.{CacheKey, TableEntry, HandleTable, new_table}

-- key_data with key_length, and hash, are `key`.
pub record LruHandle : Type 0 where
  pub value : ℕ
  pub charge : ℕ
  pub in_cache : Bool
  pub refs : ℕ
  pub key : CacheKey

pub record LruCache : Type 0 where
  pub capacity : ℕ
  pub usage : ℕ
  pub lru : List ℕ
  pub in_use : List ℕ
  pub table : HandleTable
  pub handles : ℕ → LruHandle
  pub freed : List ℕ

abbrev pub write_handle : (ℕ → LruHandle) → ℕ → LruHandle → ℕ → LruHandle
write_handle handles e h a = if a == e then h else handles a

-- The constructor and SetCapacity, in a memory.
unfoldable pub new_cache : ℕ → (ℕ → LruHandle) → LruCache
new_cache capacity handles = record {
  capacity = capacity;
  usage = 0;
  lru = [];
  in_use = [];
  table = new_table;
  handles = handles;
  freed = [];
}

unfoldable pub without : ℕ → List ℕ → List ℕ
without e [] = []
without e (a ∷ list) = let rest = without e list in if a == e then rest else a ∷ rest

-- LRU_Remove splices a handle out of the circular list that its links are in. The two lists are the
-- addresses in the order of these links, from the oldest to the newest, so the handle leaves the one
-- that it is in. Links.antt has the pointers.
unfoldable pub lru_remove : ℕ → LruCache → LruCache
unfolding without
lru_remove e c = record c { lru = without e c.lru; in_use = without e c.in_use }

unfoldable pub ref : ℕ → LruCache → LruCache
unfolding lru_remove
ref e c =
    let h = c.handles e in
    let removed = lru_remove e c in
    let moved = record removed { in_use = removed.in_use ++ (e ∷ []) } in
    let c' = if h.refs == 1 && h.in_cache then moved else c in
    record c' { handles = write_handle c'.handles e (record h { refs = (h.refs + 1) % 2 ^ 32 }) }

unfoldable pub unref : ℕ → LruCache → LruCache
unfolding lru_remove
unref e c =
    let h = c.handles e in
    let refs = (h.refs + 2 ^ 32 - 1) % 2 ^ 32 in
    let c' = record c { handles = write_handle c.handles e (record h { refs = refs }) } in
    let removed = lru_remove e c' in
    if refs == 0
    then record c' { freed = e ∷ c.freed }
    else if h.in_cache && refs == 1
    then record removed { lru = removed.lru ++ (e ∷ []) }
    else c'

-- FinishErase; the callers only assert its result, that there is a handle.
unfoldable pub finish_erase : Option TableEntry → LruCache → LruCache
unfolding lru_remove unref
finish_erase none c = c
finish_erase (some t) c =
    let e = t.handle in
    let removed = lru_remove e c in
    let h = c.handles e in
    unref e (record removed {
      handles = write_handle c.handles e (record h { in_cache = false });
      usage = (c.usage + 2 ^ 64 - h.charge) % 2 ^ 64;
    })

-- Lookup, with the handle that it returns.
unfoldable pub lookup : CacheKey → LruCache → Option ℕ × LruCache
unfolding ref Table.lookup
lookup k c = elim (Table.lookup c.table k) [
  | none ↦ (none, c)
  | some t ↦ (some t.handle, ref t.handle c)
]

unfoldable pub release : ℕ → LruCache → LruCache
unfolding unref
release e c = unref e c

-- Also the loops of Insert and Prune remove a handle from the table by its key and finish so.
unfoldable pub erase : CacheKey → LruCache → LruCache
unfolding finish_erase Table.remove
erase k c =
    let (result, table) = Table.remove c.table k in finish_erase result (record c { table = table })

-- A round of the last loop of Insert takes the oldest handle out of the list.
unfoldable pub evict_round : LruCache → (ℕ → LruCache) → List ℕ → LruCache
evict_round c next [] = c
evict_round c next (old ∷ _) = if ltb c.capacity c.usage then next old else c

unfoldable pub evict : ℕ → LruCache → LruCache
unfolding evict_round erase
evict zero c = c
evict (suc fuel) c = evict_round c (λ old. evict fuel (erase (c.handles old).key c)) c.lru

-- Insert for a capacity above 0, up to the loop.
unfoldable pub attach : ℕ → CacheKey → (value charge : ℕ) → LruCache → LruCache
unfolding finish_erase Table.insert
attach e key value charge c =
    let h : LruHandle = record {
      value = value;
      charge = charge;
      in_cache = true;
      refs = 2;
      key = key;
    } in
    let (old, table) = Table.insert c.table (record { key = key; handle = e }) in
    finish_erase old (record c {
      handles = write_handle c.handles e h;
      in_use = c.in_use ++ (e ∷ []);
      usage = (c.usage + charge) % 2 ^ 64;
      table = table;
    })

-- Insert, where malloc returns the address `e`; this is the handle that it returns, too.
unfoldable pub insert : ℕ → CacheKey → (value charge : ℕ) → LruCache → LruCache
unfolding attach evict
insert e key value charge c =
    let h : LruHandle = record {
      value = value;
      charge = charge;
      in_cache = false;
      refs = 1;
      key = key;
    } in
    let c' =
      if ltb 0 c.capacity
      then attach e key value charge c
      else record c { handles = write_handle c.handles e h } in
    evict (length c'.lru) c'

-- The loop of Prune.
unfoldable pub prune_round : LruCache → (ℕ → LruCache) → List ℕ → LruCache
prune_round c next [] = c
prune_round c next (e ∷ _) = next e

unfoldable pub prune_loop : ℕ → LruCache → LruCache
unfolding prune_round erase
prune_loop zero c = c
prune_loop (suc fuel) c = prune_round c (λ e. prune_loop fuel (erase (c.handles e).key c)) c.lru

unfoldable pub prune : LruCache → LruCache
unfolding prune_loop
prune c = prune_loop (length c.lru) c

unfoldable pub total_charge : LruCache → ℕ
total_charge c = c.usage
