-- ===== src/Cache/Table.antt =====
-- class HandleTable of lib/leveldb/util/cache.cc. A pointer to a handle is its address; the handles
-- of a bucket, which next_hash links, are a list. Key and hash of a handle in the table do not
-- change, so they stand beside its address.
pub mod Chains
pub mod Buckets
pub mod Moves
pub mod Methods
use tleveldb.Base.{
  ℕ, zero, suc, ◌+◌, ◌-◌, ◌*◌, ◌%◌, ◌^◌, bit_and, Bool, true, false, ◌&&◌, Option, none, some, List,
  [], ◌∷◌, ltb, ◌==◌, if◌then◌else◌, length, get_or, set, replicate,
}

-- Equality of two Slices.
abbrev pub same_bytes : List ℕ → List ℕ → Bool
same_bytes [] [] = true
same_bytes [] (y ∷ t) = false
same_bytes (x ∷ s) [] = false
same_bytes (x ∷ s) (y ∷ t) = x == y && same_bytes s t

-- What an entry is found by.
pub record CacheKey : Type 0 where
  pub bytes : List ℕ
  pub hash : ℕ

pub record TableEntry : Type 0 where
  pub key : CacheKey
  pub handle : ℕ

abbrev pub Chain : Type 0
Chain = List TableEntry

unfoldable pub same_key : CacheKey → CacheKey → Bool
same_key a b = a.hash == b.hash && same_bytes a.bytes b.bytes

-- The chain from the slot that FindPointer returns on: the entry there, or the end.
unfoldable pub find_pointer : CacheKey → Chain → Option TableEntry
unfolding same_key
find_pointer k [] = none
find_pointer k (e ∷ c) = let rest = find_pointer k c in if same_key k e.key then some e else rest

-- `*ptr = h` behind `h->next_hash = (old == nullptr ? nullptr : old->next_hash)`.
unfoldable pub replace_at : TableEntry → Chain → Chain
unfolding same_key
replace_at h [] = h ∷ []
replace_at h (e ∷ c) = let rest = replace_at h c in if same_key h.key e.key then h ∷ c else e ∷ rest

-- `*ptr = result->next_hash`.
unfoldable pub unlink_at : CacheKey → Chain → Chain
unfolding same_key
unlink_at k [] = []
unlink_at k (e ∷ c) = let rest = unlink_at k c in if same_key k e.key then c else e ∷ rest

-- `length_` is the number of buckets.
pub record HandleTable : Type 0 where
  pub elems : ℕ
  pub list : List Chain

abbrev pub slot_of : CacheKey → ℕ → ℕ
slot_of k length_ = bit_and k.hash (length_ - 1)

abbrev pub bucket_of : List Chain → CacheKey → Chain
bucket_of list k = get_or list (slot_of k (length list)) []

-- The loop of Resize that doubles; a uint32_t reaches 2 ^ 31 in 29 rounds.
unfoldable pub double_until : ℕ → ℕ → ℕ → ℕ
double_until zero elems new_length = new_length
double_until (suc fuel) elems new_length =
    let rest = double_until fuel elems (new_length * 2 % 2 ^ 32) in
    if ltb new_length elems then rest else new_length

-- The loops of Resize over the handles of a bucket, and over the buckets.
unfoldable pub move_chain : Chain → List Chain → List Chain
move_chain [] new_list = new_list
move_chain (h ∷ next) new_list =
    move_chain next (set new_list (slot_of h.key (length new_list)) (h ∷ bucket_of new_list h.key))

unfoldable pub move_all : List Chain → List Chain → List Chain
unfolding move_chain
move_all [] new_list = new_list
move_all (c ∷ list) new_list = move_all list (move_chain c new_list)

unfoldable pub resize : HandleTable → HandleTable
unfolding double_until move_all
resize t =
    let new_length = double_until 29 t.elems 4 in
    record t { list = move_all t.list (replicate new_length []) }

unfoldable pub new_table : HandleTable
unfolding resize
new_table = resize (record { elems = 0; list = [] })

unfoldable pub lookup : HandleTable → CacheKey → Option TableEntry
unfolding find_pointer
lookup t k = find_pointer k (bucket_of t.list k)

-- The table that Insert leaves with a new element, before it looks at the load.
unfoldable pub put_in : HandleTable → TableEntry → ℕ → HandleTable
unfolding replace_at
put_in t h elems = record {
  elems = elems;
  list = set t.list (slot_of h.key (length t.list)) (replace_at h (bucket_of t.list h.key));
}

-- Insert, with the handle that it replaced.
unfoldable pub insert : HandleTable → TableEntry → Option TableEntry × HandleTable
unfolding lookup put_in resize
insert t h =
    let elems = (t.elems + 1) % 2 ^ 32 in
    elim (lookup t h.key) [
      | some old ↦ (some old, put_in t h t.elems)
      | none ↦
          (none, if ltb (length t.list) elems then resize (put_in t h elems) else put_in t h elems)
    ]

-- Remove, with the handle that was there.
unfoldable pub remove : HandleTable → CacheKey → Option TableEntry × HandleTable
unfolding lookup unlink_at
remove t k = elim (lookup t k) [
  | none ↦ (none, t)
  | some result ↦ (
    some result,
    record {
      elems = (t.elems + 2 ^ 32 - 1) % 2 ^ 32;
      list = set t.list (slot_of k (length t.list)) (unlink_at k (bucket_of t.list k));
    },
  )
]
