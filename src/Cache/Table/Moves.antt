-- ===== src/Cache/Table/Moves.antt =====
-- Resize moves all entries to new buckets, and a reader finds the same.
use Prim.Native.Nat.{max}
use mathlib.Core.List.{flatten}
use mathlib.Core.Option.{or_else}
use tleveldb.Base.{
  ℕ, zero, suc, ◌+◌, ◌≤◌, ◌<◌, ◌≡◌, refl, ◌∙◌, some, List, [], ◌∷◌, ◌++◌, if◌then◌else◌, length,
  get_or, set, replicate, length-append, length-set, length-replicate, append_assoc, append-nil,
  arith,
}
use tleveldb.Cache.Table.{
  CacheKey, same_key, TableEntry, Chain, find_pointer, slot_of, bucket_of, move_chain, move_all,
}
use tleveldb.Cache.Table.Chains.{
  same_key-eq, one_if, count, find_pointer-none, find_pointer-append, count-append,
}
use tleveldb.Cache.Table.Buckets.{
  slot_of-lt, get_or-set, length-flatten-set, view, IsPlaced, set-IsPlaced, view-set,
}

-- The buckets, `n` of them, have these entries.
pub record Holds (n : ℕ) (entries : Chain) (bs : List Chain) : Type 0 where
  pub width : length bs ≡ n
  pub placed : IsPlaced bs
  pub reads : (q : CacheKey) → view bs q ≡ find_pointer q entries
  pub counted : (q : CacheKey) → count q (bucket_of bs q) ≡ count q entries
  pub size : length (flatten bs) ≡ length entries

get_or-replicate : (n i : ℕ) → get_or (replicate {A = Chain} n []) i [] ≡ []
get_or-replicate zero i = refl
get_or-replicate (suc n) zero = refl
get_or-replicate (suc n) (suc i) = get_or-replicate n i

flatten-replicate : (n : ℕ) → flatten (replicate {A = Chain} n []) ≡ []
unfolding flatten
flatten-replicate zero = refl
flatten-replicate (suc n) = flatten-replicate n

pub replicate-Holds : (n : ℕ) → Holds n [] (replicate n [])
unfolding view count find_pointer
replicate-Holds n = record {
  width = length-replicate n [];
  placed = record {
    once = λ q i. rw (get_or-replicate n i) (omega arith);
    home = λ q i other. rw (get_or-replicate n i) refl;
  };
  reads = λ q. rw (get_or-replicate n (slot_of q (length (replicate {A = Chain} n []))));
  counted = λ q. rw (get_or-replicate n (slot_of q (length (replicate {A = Chain} n []))));
  size = rw (flatten-replicate n);
}

abbrev front_write : TableEntry → List Chain → List Chain
front_write e bs = set bs (slot_of e.key (length bs)) (e ∷ bucket_of bs e.key)

-- One more entry, in front of its bucket.
module _ (n : ℕ) (done : Chain) (e : TableEntry) (bs : List Chain) (holds : Holds n done bs)
    (wide : 0 < n) (once : (q : CacheKey) → count q (done ++ (e ∷ [])) ≤ 1) where
  alone : (q : CacheKey) → count q done + one_if (same_key q e.key) ≤ 1
  unfolding count
  alone q = omega (arith, once q, count-append q done (e ∷ []))

  few_after :
      (q : CacheKey)
      → count q (e ∷ bucket_of bs e.key)
        ≤ max (one_if (same_key q e.key)) (count q (bucket_of bs e.key))
  unfolding count
  few_after q = ground (arith, alone q, holds.counted q, holds.counted e.key, same_key-eq q e.key)

  found_after :
      (q : CacheKey)
      → find_pointer q (e ∷ bucket_of bs e.key)
        ≡ (if same_key q e.key then some e else find_pointer q (bucket_of bs e.key))
  unfolding find_pointer
  found_after q = refl

  reads_both :
      (q : CacheKey)
      → (if same_key q e.key then some e else view bs q) ≡ find_pointer q (done ++ (e ∷ []))
  unfolding find_pointer or_else
  reads_both q =
      rw (find_pointer-append q done (e ∷ []), holds.reads q)
        (ground (arith, alone q, find_pointer-none q done))

  counted_after :
      (q : CacheKey) → count q (bucket_of (front_write e bs) q) ≡ count q (done ++ (e ∷ []))
  unfolding count
  counted_after q =
      rw
        (
          length-set bs (slot_of e.key (length bs)) (e ∷ bucket_of bs e.key),
          get_or-set bs (slot_of e.key (length bs)) (slot_of q (length bs)) (e ∷ bucket_of bs e.key)
              (slot_of-lt e.key (length bs) (omega (arith, holds.width))),
          count-append q done (e ∷ []),
        )
        (ground (arith, holds.counted q, same_key-eq q e.key))

  front_write-Holds : Holds n (done ++ (e ∷ [])) (front_write e bs)
  front_write-Holds =
      let wide' : 0 < length bs = omega (arith, holds.width) in
      record {
        width = length-set bs (slot_of e.key (length bs)) (e ∷ bucket_of bs e.key) ∙ holds.width;
        placed = set-IsPlaced bs wide' holds.placed e.key (e ∷ bucket_of bs e.key) few_after;
        reads = λ q.
            view-set bs wide' holds.placed e.key (e ∷ bucket_of bs e.key) few_after (some e)
              found_after q
            ∙ reads_both q;
        counted = counted_after;
        size = omega (
          arith,
          length-flatten-set bs (slot_of e.key (length bs)) (e ∷ bucket_of bs e.key)
              (slot_of-lt e.key (length bs) wide'),
          length-append done (e ∷ []),
          holds.size,
        );
      }

few-front :
    (q : CacheKey) (a b c : Chain)
    → ((k : CacheKey) → count k (a ++ (b ++ c)) ≤ 1)
    → count q (a ++ b) ≤ 1
few-front q a b c few =
    omega (arith, few q, count-append q a (b ++ c), count-append q b c, count-append q a b)

pub move_chain-Holds :
    (n : ℕ) (moved done : Chain) (bs : List Chain)
    → Holds n done bs
    → 0 < n
    → ((q : CacheKey) → count q (done ++ moved) ≤ 1)
    → Holds n (done ++ moved) (move_chain moved bs)
unfolding move_chain
move_chain-Holds n [] done bs holds wide once = rw (append-nil done) holds
move_chain-Holds n (e ∷ moved) done bs holds wide once = rw (← append_assoc done (e ∷ []) moved) (
    move_chain-Holds n moved (done ++ (e ∷ [])) (front_write e bs)
      (front_write-Holds n done e bs holds wide (λ q. few-front q done (e ∷ []) moved once)) wide
      (λ q. rw (append_assoc done (e ∷ []) moved) (once q)))

pub move_all-Holds :
    (n : ℕ) (list : List Chain) (done : Chain) (bs : List Chain)
    → Holds n done bs
    → 0 < n
    → ((q : CacheKey) → count q (done ++ flatten list) ≤ 1)
    → Holds n (done ++ flatten list) (move_all list bs)
unfolding move_all flatten
move_all-Holds n [] done bs holds wide once = rw (append-nil done) holds
move_all-Holds n (c ∷ list) done bs holds wide once = rw (← append_assoc done c (flatten list)) (
    move_all-Holds n list (done ++ c) (move_chain c bs)
      (move_chain-Holds n c done bs holds wide (λ q. few-front q done c (flatten list) once)) wide
      (λ q. rw (append_assoc done c (flatten list)) (once q)))
