-- ===== src/Cache/Table/Chains.antt =====
-- One bucket: what FindPointer finds after a write, by the number of entries with a key.
use tleveldb.Base.{
  ℕ, ◌+◌, ◌≤◌, ◌≡◌, refl, Bool, true, false, none, some, List, [], ◌∷◌, ◌++◌, if◌then◌else◌, length,
  arith,
}
use Prim.Native.Nat.{max}
use mathlib.Core.Option.{or_else}
use tleveldb.Cache.Table.{
  same_bytes, CacheKey, same_key, TableEntry, Chain, find_pointer, replace_at, unlink_at,
}

same_bytes_self : (a : List ℕ) → same_bytes a a ≡ true
same_bytes_self [] = refl
same_bytes_self (x ∷ a) = ground (arith, same_bytes_self a)

same_bytes-eq : (a b : List ℕ) → same_bytes a b ≡ true → a ≡ b
same_bytes-eq [] [] h = refl
same_bytes-eq [] (y ∷ b) h = cc
same_bytes-eq (x ∷ a) [] h = cc
same_bytes-eq (x ∷ a) (y ∷ b) h = ground (arith, same_bytes-eq a b)

pub same_key_self : (k : CacheKey) → same_key k k ≡ true
unfolding same_key
same_key_self k = ground (arith, same_bytes_self k.bytes)

pub same_key-eq : (a b : CacheKey) → same_key a b ≡ true → a ≡ b
unfolding same_key
same_key-eq a b h = ground (arith, same_bytes-eq a.bytes b.bytes)

pub same_key_swap : (a b : CacheKey) → same_key a b ≡ false → same_key b a ≡ false
same_key_swap a b h = ground (arith, same_key-eq b a, same_key_self a)

abbrev pub one_if : Bool → ℕ
one_if true = 1
one_if false = 0

-- How many entries of a chain have the key.
unfoldable pub count : CacheKey → Chain → ℕ
unfolding same_key
count q [] = 0
count q (e ∷ c) = one_if (same_key q e.key) + count q c

pub find_pointer-none : (q : CacheKey) (c : Chain) → count q c ≡ 0 → find_pointer q c ≡ none
unfolding count find_pointer
find_pointer-none q [] h = refl
find_pointer-none q (e ∷ c) h = ground (arith, find_pointer-none q c)

pub count-none : (q : CacheKey) (c : Chain) → find_pointer q c ≡ none → count q c ≡ 0
unfolding count find_pointer
count-none q [] h = refl
count-none q (e ∷ c) h = ground (arith, count-none q c)

pub find_pointer-key :
    (q : CacheKey) (c : Chain) (e : TableEntry) → find_pointer q c ≡ some e → q ≡ e.key
unfolding find_pointer
find_pointer-key q [] e h = cc
find_pointer-key q (x ∷ c) e h = ground (arith, find_pointer-key q c e, same_key-eq q x.key)

pub find_pointer-append :
    (q : CacheKey) (a b : Chain)
    → find_pointer q (a ++ b) ≡ or_else (find_pointer q a) (find_pointer q b)
unfolding find_pointer or_else
find_pointer-append q [] b = refl
find_pointer-append q (e ∷ a) b = rw (find_pointer-append q a b) (ground arith)

pub count-append : (q : CacheKey) (a b : Chain) → count q (a ++ b) ≡ count q a + count q b
unfolding count
count-append q [] b = omega arith
count-append q (e ∷ a) b = omega (arith, count-append q a b)

pub find_pointer-replace_at :
    (q : CacheKey) (h : TableEntry) (c : Chain)
    → find_pointer q (replace_at h c) ≡ (if same_key q h.key then some h else find_pointer q c)
unfolding find_pointer replace_at
find_pointer-replace_at q h [] = refl
find_pointer-replace_at q h (e ∷ c) = ground (
  arith,
  find_pointer-replace_at q h c,
  same_key-eq h.key e.key,
  same_key-eq q h.key,
  same_key-eq q e.key,
  same_key_self q,
  same_key_self h.key,
)

pub count-replace_at :
    (q : CacheKey) (h : TableEntry) (c : Chain)
    → count q (replace_at h c) ≤ max (one_if (same_key q h.key)) (count q c)
unfolding count replace_at
count-replace_at q h [] = omega arith
count-replace_at q h (e ∷ c) = ground (
  arith,
  count-replace_at q h c,
  same_key-eq h.key e.key,
  same_key-eq q h.key,
  same_key-eq q e.key,
  same_key_self q,
  same_key_self h.key,
)

pub find_pointer-unlink_at :
    (q k : CacheKey) (c : Chain)
    → count q c ≤ 1
    → find_pointer q (unlink_at k c) ≡ (if same_key q k then none else find_pointer q c)
unfolding find_pointer unlink_at count
find_pointer-unlink_at q k [] h = ground arith
find_pointer-unlink_at q k (e ∷ c) h = ground (
  arith,
  find_pointer-unlink_at q k c,
  find_pointer-none q c,
  same_key-eq k e.key,
  same_key-eq q k,
  same_key_self k,
  same_key-eq q e.key,
  same_key_self q,
)

pub count-unlink_at : (q k : CacheKey) (c : Chain) → count q (unlink_at k c) ≤ count q c
unfolding count unlink_at
count-unlink_at q k [] = omega arith
count-unlink_at q k (e ∷ c) = ground (arith, count-unlink_at q k c)

pub length-replace_at :
    (h : TableEntry) (c : Chain)
    → length (replace_at h c)
      ≡ (elim (find_pointer h.key c) as (λ _. ℕ) [ none ↦ length c + 1 | some old ↦ length c ])
unfolding find_pointer replace_at
length-replace_at h [] = refl
length-replace_at h (e ∷ c) = ground (arith, length-replace_at h c)

pub length-unlink_at :
    (k : CacheKey) (c : Chain) (old : TableEntry)
    → find_pointer k c ≡ some old
    → length (unlink_at k c) + 1 ≡ length c
unfolding find_pointer unlink_at
length-unlink_at k [] old h = cc
length-unlink_at k (e ∷ c) old h = ground (arith, length-unlink_at k c old)
