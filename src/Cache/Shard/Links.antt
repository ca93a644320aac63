-- ===== src/Cache/Shard/Links.antt =====
-- LRU_Remove and LRU_Append of lib/leveldb/util/cache.cc on the pointers of the handles. The children
-- compare them with what the shard does to its lists of addresses.
pub mod Remove
pub mod Append
use tleveldb.Base.{occ, ℕ, ◌≡◌, ◌≢◌, refl, List, [], ◌∷◌, ◌==◌, if◌then◌else◌}
use tleveldb.Cache.Shard.{LruHandle, LruCache, new_cache}
use tleveldb.Cache.Shard.Kept.{listed}

-- The pointers next and prev of the handles.
pub record Links : Type 0 where
  pub next : ℕ → ℕ
  pub prev : ℕ → ℕ

abbrev pub write_link : (ℕ → ℕ) → ℕ → ℕ → ℕ → ℕ
write_link links a b x = if x == a then b else links x

unfoldable pub splice : ℕ → Links → Links
splice e l =
    let l' = record l { prev = write_link l.prev (l.next e) (l.prev e) } in
    record l' { next = write_link l'.next (l'.prev e) (l'.next e) }

unfoldable pub link_before : (list e : ℕ) → Links → Links
link_before list e l =
    let l' = record l {
      next = write_link l.next e list;
      prev = write_link l.prev e (l.prev list);
    } in
    let l'' = record l' { next = write_link l'.next (l'.prev e) e } in
    record l'' { prev = write_link l''.prev (l''.next e) e }

-- The links lead from `a` through the list to `b`, and back. A circular list leads from its head
-- to its head.
unfoldable pub Linked : Links → ℕ → List ℕ → ℕ → Type 0
Linked l a [] b = (l.next a ≡ b) × (l.prev b ≡ a)
Linked l a (x ∷ list) b = (l.next a ≡ x) × (l.prev x ≡ a) × Linked l x list b

-- The two lists of a shard, on the links, with the addresses of their heads.
pub record IsLinked (l : Links) (lru_head in_use_head : ℕ) (c : LruCache) : Type 0 where
  pub lru : Linked l lru_head c.lru lru_head
  pub in_use : Linked l in_use_head c.in_use in_use_head
  pub apart : lru_head ≢ in_use_head
  pub lru_free : listed c lru_head ≡ 0
  pub in_use_free : listed c in_use_head ≡ 0

-- The constructor leaves each head linked to itself.
new_cache-IsLinked :
    (capacity : ℕ) (handles : ℕ → LruHandle) (l : Links) (lru_head in_use_head : ℕ)
    → lru_head ≢ in_use_head
    → (l.next lru_head ≡ lru_head) × (l.prev lru_head ≡ lru_head)
    → (l.next in_use_head ≡ in_use_head) × (l.prev in_use_head ≡ in_use_head)
    → IsLinked l lru_head in_use_head (new_cache capacity handles)
unfolding Linked new_cache occ
new_cache-IsLinked capacity handles l lru_head in_use_head apart lru in_use = record {
  lru = lru;
  in_use = in_use;
  apart = apart;
  lru_free = refl;
  in_use_free = refl;
}
