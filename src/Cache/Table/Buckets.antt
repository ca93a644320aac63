-- ===== src/Cache/Table/Buckets.antt =====
-- Where the entries of the table stand, and what a write to one bucket changes.
use Prim.Native.Nat.{max}
use mathlib.Core.List.{flatten}
use mathlib.Core.Option.{or_else}
use tleveldb.Base.{
  ℕ, zero, suc, ◌+◌, ◌-◌, ◌/◌, ◌≤◌, ◌<◌, ◌≡◌, ◌≢◌, refl, sym, ap, ◌∙◌, bit_and, Option, List, [],
  ◌∷◌, ◌==◌, if◌then◌else◌, length, get_or, set, length-append, length-set, arith,
}
use tleveldb.Base.Bits.{bit_and_lowest, bit_and-zero}
use tleveldb.Cache.Table.{CacheKey, same_key, TableEntry, Chain, find_pointer, slot_of, bucket_of}
use tleveldb.Cache.Table.Chains.{
  same_key-eq, one_if, count, find_pointer-none, find_pointer-append, count-append,
}

bit_and-le : (fuel a b : ℕ) → b ≤ fuel → bit_and a b ≤ b
bit_and-le zero a b h =
    omega (arith, bit_and_lowest a b, bit_and-zero a, ap (bit_and a) (is_zero b h))
  where
    is_zero : (n : ℕ) → n ≤ 0 → n ≡ 0
    is_zero n h = omega arith
bit_and-le (suc fuel) a b h =
    omega (arith, bit_and_lowest a b, bit_and-le fuel (a / 2) (b / 2) (omega arith))

pub slot_of-lt : (k : CacheKey) (n : ℕ) → 0 < n → slot_of k n < n
slot_of-lt k n h = omega (arith, bit_and-le (n - 1) k.hash (n - 1) (omega arith))

pub get_or-set :
    (bs : List Chain) (i j : ℕ) (c : Chain)
    → i < length bs
    → get_or (set bs i c) j [] ≡ (if i == j then c else get_or bs j [])
get_or-set [] i j c h = absurd (omega arith)
get_or-set (x ∷ bs) zero zero c h = ground arith
get_or-set (x ∷ bs) zero (suc j) c h = ground arith
get_or-set (x ∷ bs) (suc i) zero c h = ground arith
get_or-set (x ∷ bs) (suc i) (suc j) c h = ground (arith, get_or-set bs i j c)

pub length-flatten-set :
    (bs : List Chain) (i : ℕ) (c : Chain)
    → i < length bs
    → length (flatten (set bs i c)) + length (get_or bs i []) ≡ length (flatten bs) + length c
unfolding flatten
length-flatten-set [] i c h = absurd (omega arith)
length-flatten-set (x ∷ bs) zero c h =
    omega (arith, length-append c (flatten bs), length-append x (flatten bs))
length-flatten-set (x ∷ bs) (suc i) c h = omega (
  arith,
  length-append x (flatten (set bs i c)),
  length-append x (flatten bs),
  length-flatten-set bs i c (omega arith),
)

-- What a reader of the buckets finds under a key.
unfoldable pub view : List Chain → CacheKey → Option TableEntry
unfolding find_pointer
view bs q = find_pointer q (bucket_of bs q)

-- A key occurs at most once, and only in its own bucket.
pub record IsPlaced (bs : List Chain) : Type 0 where
  pub once : (q : CacheKey) (i : ℕ) → count q (get_or bs i []) ≤ 1
  pub home : (q : CacheKey) (i : ℕ) → slot_of q (length bs) ≢ i → count q (get_or bs i []) ≡ 0

nowhere :
    (q : CacheKey) (bs : List Chain)
    → ((i : ℕ) → count q (get_or bs i []) ≡ 0)
    → count q (flatten bs) ≡ 0
unfolding flatten count
nowhere q [] h = refl
nowhere q (c ∷ bs) h =
    omega (arith, count-append q c (flatten bs), h 0, nowhere q bs (λ i. h (suc i)))

-- If a key is in no bucket but `j`, all entries of the table have what that bucket has.
only_in :
    (q : CacheKey) (bs : List Chain) (j : ℕ)
    → ((i : ℕ) → i ≢ j → count q (get_or bs i []) ≡ 0)
    → (find_pointer q (flatten bs) ≡ find_pointer q (get_or bs j []))
      × (count q (flatten bs) ≡ count q (get_or bs j []))
unfolding flatten or_else find_pointer count
only_in q [] j h = (refl, refl)
only_in q (c ∷ bs) zero h =
    let rest = nowhere q bs (λ i. h (suc i) (omega arith)) in
    (
      rw (find_pointer-append q c (flatten bs), find_pointer-none q (flatten bs) rest)
          (ground arith),
      omega (arith, count-append q c (flatten bs), rest),
    )
only_in q (c ∷ bs) (suc j) h =
    let here = h 0 (omega arith) in
    let (found, counted) = only_in q bs j (λ i other. h (suc i) (omega arith)) in
    (
      rw (find_pointer-append q c (flatten bs), find_pointer-none q c here) found,
      omega (arith, count-append q c (flatten bs), here, counted),
    )

-- All entries of the table, one after another, say the same of a key as its bucket.
pub flatten-view :
    (bs : List Chain) (q : CacheKey)
    → IsPlaced bs
    → (find_pointer q (flatten bs) ≡ view bs q) × (count q (flatten bs) ≤ 1)
unfolding view
flatten-view bs q placed =
    let (found, counted) =
      only_in q bs (slot_of q (length bs)) (λ i other. placed.home q i (λ e. other (sym e))) in
    (found, omega (arith, counted, placed.once q (slot_of q (length bs))))

-- A write of a chain to the bucket of `k`, which may change what is under `k` only.
module _ (bs : List Chain) (wide : 0 < length bs) (placed : IsPlaced bs) (k : CacheKey) (c : Chain)
    (few : (q : CacheKey)
      → count q c ≤ max (one_if (same_key q k)) (count q (bucket_of bs k))) where
  pub set-IsPlaced : IsPlaced (set bs (slot_of k (length bs)) c)
  set-IsPlaced = record {
    once = λ q i.
        rw (get_or-set bs (slot_of k (length bs)) i c (slot_of-lt k (length bs) wide))
          (ground (arith, few q, placed.once q i, placed.once q (slot_of k (length bs))));
    home = λ q i other.
        let moved : slot_of q (length bs) ≢ i =
          λ e. other (ap (slot_of q) (length-set bs (slot_of k (length bs)) c) ∙ e) in
        rw (get_or-set bs (slot_of k (length bs)) i c (slot_of-lt k (length bs) wide))
          (ground (arith, moved, few q, placed.home q i moved, same_key-eq q k));
  }

  pub view-set :
      (v : Option TableEntry)
      → ((q : CacheKey)
          → find_pointer q c ≡ (if same_key q k then v else find_pointer q (bucket_of bs k)))
      → (q : CacheKey)
      → view (set bs (slot_of k (length bs)) c) q ≡ (if same_key q k then v else view bs q)
  unfolding view
  view-set v reads q =
      rw
        (
          length-set bs (slot_of k (length bs)) c,
          get_or-set bs (slot_of k (length bs)) (slot_of q (length bs)) c
              (slot_of-lt k (length bs) wide),
        )
        (ground (arith, reads q, same_key-eq q k))
