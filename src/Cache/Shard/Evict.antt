-- ===== src/Cache/Shard/Evict.antt =====
-- The loops that take the oldest handles out of the cache.
use mathlib.Core.Path.{subst}
use tleveldb.Base.{
  occ, ℕ, zero, suc, ◌+◌, ◌≤◌, ◌<◌, ◌≡◌, ◌⊎◌, refl, sym, ap, ◌∙◌, true, false, List, [], ◌∷◌, inl,
  inr, Bool-cases, ltb, length, drop, arith,
}
use tleveldb.Cache.Table.{same_key}
use tleveldb.Cache.Table.Chains.{same_key-eq}
use tleveldb.Cache.Shard.{
  LruCache, without, erase, evict_round, evict, prune_round, prune_loop, prune,
}
use tleveldb.Cache.Shard.Lists.{without_absent}
use tleveldb.Cache.Shard.Kept.{listed, IsShard}
use tleveldb.Cache.Shard.Erase.{Erased, erase-Erased}

List-cases {ℓ} :
    {A : Type ℓ} (list : List A) → (list ≡ []) ⊎ ((a : A) × (rest : List A) × (list ≡ a ∷ rest))
List-cases [] = inl refl
List-cases (a ∷ rest) = inr (a, rest, refl)

-- A shard after some of its oldest handles left the cache: those that clients use stay in it.
pub record Shrunk (c c' : LruCache) : Type 0 where
  pub shard : IsShard c'
  pub capacity : c'.capacity ≡ c.capacity
  pub in_use : c'.in_use ≡ c.in_use
  pub rounds : ℕ
  pub lru : c'.lru ≡ drop rounds c.lru
  pub elems : c'.table.elems ≤ c.table.elems
  pub handle : (a : ℕ) → 1 ≤ occ a c.in_use → c'.handles a ≡ c.handles a

module _ (c : LruCache) (s : IsShard c) where
  pub Shrunk-self : Shrunk c c
  Shrunk-self = record {
    shard = s;
    capacity = refl;
    in_use = refl;
    rounds = 0;
    lru = refl;
    elems = omega arith;
    handle = λ a h. refl;
  }

  -- A round removes the first handle of the list.
  module _ (old : ℕ) (rest : List ℕ) (first : c.lru ≡ old ∷ rest) where
    at_front : (occ old rest ≡ 0) × (occ old c.in_use ≡ 0) × (1 ≤ listed c old)
    unfolding occ
    at_front =
        let counted : occ old c.lru ≡ 1 + occ old rest = rw first (ground arith) in
        omega (arith, counted, s.lists.once old)

    without_first : without old c.lru ≡ rest
    unfolding without
    without_first = rw first (ground (arith, without_absent old rest, at_front))

    erased : Erased (c.handles old).key c (erase (c.handles old).key c)
    erased = erase-Erased (c.handles old).key c s

    pub shorter : (erase (c.handles old).key c).lru ≡ rest
    shorter =
        erased.lru (record { key = (c.handles old).key; handle = old })
          (s.index.entered old at_front.2)
        ∙ without_first

    same_in_use : (erase (c.handles old).key c).in_use ≡ c.in_use
    same_in_use =
        erased.in_use (record { key = (c.handles old).key; handle = old })
          (s.index.entered old at_front.2)
        ∙ without_absent old c.in_use at_front.1

    other_key :
        (a : ℕ) → 1 ≤ occ a c.in_use → same_key (c.handles a).key (c.handles old).key ≡ false
    other_key a used = ground (
      arith,
      at_front,
      s.index.entered a,
      s.index.entered old,
      same_key-eq (c.handles a).key (c.handles old).key,
    )

    pub round-Shrunk : (c' : LruCache) → Shrunk (erase (c.handles old).key c) c' → Shrunk c c'
    round-Shrunk c' h = record {
      shard = h.shard;
      capacity = h.capacity ∙ erased.capacity;
      in_use = h.in_use ∙ same_in_use;
      rounds = suc h.rounds;
      lru = h.lru ∙ ap (drop h.rounds) shorter ∙ sym (ap (drop (suc h.rounds)) first);
      elems = omega (arith, h.elems, erased.elems);
      handle = λ a used. h.handle a (rw same_in_use used) ∙ erased.kept a (other_key a used);
    }

module _ (fuel : ℕ) (c : LruCache) where
  evict-empty : c.lru ≡ [] → evict (suc fuel) c ≡ c
  unfolding evict
  evict-empty e = ap (evict_round c (λ old. evict fuel (erase (c.handles old).key c))) e

  evict-within :
      (old : ℕ) (rest : List ℕ)
      → c.lru ≡ old ∷ rest
      → ltb c.capacity c.usage ≡ false
      → evict (suc fuel) c ≡ c
  unfolding evict
  evict-within old rest e within =
      ap (evict_round c (λ old. evict fuel (erase (c.handles old).key c))) e ∙ rw within refl

  evict-over :
      (old : ℕ) (rest : List ℕ)
      → c.lru ≡ old ∷ rest
      → ltb c.capacity c.usage ≡ true
      → evict (suc fuel) c ≡ evict fuel (erase (c.handles old).key c)
  unfolding evict
  evict-over old rest e over =
      ap (evict_round c (λ old. evict fuel (erase (c.handles old).key c))) e ∙ rw over refl

  prune_loop-empty : c.lru ≡ [] → prune_loop (suc fuel) c ≡ c
  unfolding prune_loop
  prune_loop-empty e = ap (prune_round c (λ old. prune_loop fuel (erase (c.handles old).key c))) e

  prune_loop-first :
      (old : ℕ) (rest : List ℕ)
      → c.lru ≡ old ∷ rest
      → prune_loop (suc fuel) c ≡ prune_loop fuel (erase (c.handles old).key c)
  unfolding prune_loop
  prune_loop-first old rest e =
      ap (prune_round c (λ old. prune_loop fuel (erase (c.handles old).key c))) e

evict-zero : (c : LruCache) → evict zero c ≡ c
unfolding evict
evict-zero c = refl

prune_loop-zero : (c : LruCache) → prune_loop zero c ≡ c
unfolding prune_loop
prune_loop-zero c = refl

is_empty : (l : List ℕ) → length l ≤ 0 → l ≡ []
is_empty [] h = refl
is_empty (x ∷ l) h = absurd (omega arith)

one_shorter :
    (c : LruCache) (s : IsShard c) (old : ℕ) (rest : List ℕ) (fuel : ℕ)
    → c.lru ≡ old ∷ rest
    → length c.lru ≤ suc fuel
    → length (erase (c.handles old).key c).lru ≤ fuel
one_shorter c s old rest fuel first enough = omega (
  arith,
  ap (λ (l : List ℕ). length l) (shorter c s old rest first),
  ap (λ (l : List ℕ). length l) first,
)

-- The cache without its oldest handle that no client uses, and without the n oldest ones.
unfoldable pub oldest_out : LruCache → List ℕ → LruCache
oldest_out c [] = c
oldest_out c (old ∷ rest) = erase (c.handles old).key c

unfoldable pub all_out : ℕ → LruCache → LruCache
unfolding oldest_out
all_out zero c = c
all_out (suc n) c = all_out n (oldest_out c c.lru)

-- What the loop of Insert ends with: it has removed the oldest handles one after another, each while
-- the usage was above the capacity, and then the usage is within it or no handle is left to remove.
pub record Evicted (c c' : LruCache) : Type 0 where
  pub shrunk : Shrunk c c'
  pub end : (c'.usage ≤ c.capacity) ⊎ (c'.lru ≡ [])
  pub removed : ℕ
  pub result : c' ≡ all_out removed c
  pub needed : (n : ℕ) → n < removed → c.capacity < (all_out n c).usage

all_out-first :
    (n : ℕ) (c : LruCache) (old : ℕ) (rest : List ℕ)
    → c.lru ≡ old ∷ rest
    → all_out (suc n) c ≡ all_out n (erase (c.handles old).key c)
unfolding all_out oldest_out
all_out-first n c old rest first = ap (λ l. all_out n (oldest_out c l)) first

Evicted-self : (c : LruCache) → IsShard c → (c.usage ≤ c.capacity) ⊎ (c.lru ≡ []) → Evicted c c
unfolding all_out
Evicted-self c s end = record {
  shrunk = Shrunk-self c s;
  end = end;
  removed = 0;
  result = refl;
  needed = λ n h. absurd (omega (arith, h));
}

module _ (c : LruCache) (s : IsShard c) (old : ℕ) (rest : List ℕ) (first : c.lru ≡ old ∷ rest)
    (over : ltb c.capacity c.usage ≡ true) (c' : LruCache)
    (e : Evicted (erase (c.handles old).key c) c') where
  needed_from : (n : ℕ) → n < suc e.removed → c.capacity < (all_out n c).usage
  unfolding all_out
  needed_from zero h = ground (arith, over)
  needed_from (suc n) h =
      subst (λ d. c.capacity < d.usage) (sym (all_out-first n c old rest first))
        (omega (arith, e.needed n (omega (arith, h)), (erased c s old rest first).capacity))

  one_more-Evicted : Evicted c c'
  one_more-Evicted = record {
    shrunk = round-Shrunk c s old rest first c' e.shrunk;
    end =
        subst (λ (n : ℕ). (c'.usage ≤ n) ⊎ (c'.lru ≡ [])) (erased c s old rest first).capacity
          e.end;
    removed = suc e.removed;
    result = e.result ∙ sym (all_out-first e.removed c old rest first);
    needed = needed_from;
  }

pub evict-Evicted :
    (fuel : ℕ) (c : LruCache) → IsShard c → length c.lru ≤ fuel → Evicted c (evict fuel c)
evict-Evicted zero c s enough =
    subst (Evicted c) (sym (evict-zero c)) (Evicted-self c s (inr (is_empty c.lru enough)))
evict-Evicted (suc fuel) c s enough = elim (List-cases c.lru) [
  | inl empty ↦ subst (Evicted c) (sym (evict-empty fuel c empty)) (Evicted-self c s (inr empty))
  | inr (old, rest, first) ↦ elim (Bool-cases (ltb c.capacity c.usage)) [
    | inr within ↦
        subst (Evicted c) (sym (evict-within fuel c old rest first within))
          (Evicted-self c s (inl (ground (arith, within))))
    | inl over ↦
        let next : LruCache = erase (c.handles old).key c in
        let e = erased c s old rest first in
        subst (Evicted c) (sym (evict-over fuel c old rest first over)) (
          one_more-Evicted c s old rest first over (evict fuel next)
            (evict-Evicted fuel next e.shard (one_shorter c s old rest fuel first enough)))
  ]
]

prune_loop-Shrunk :
    (fuel : ℕ) (c : LruCache)
    → IsShard c
    → length c.lru ≤ fuel
    → Shrunk c (prune_loop fuel c) × ((prune_loop fuel c).lru ≡ [])
prune_loop-Shrunk zero c s enough =
    subst (λ d. Shrunk c d × (d.lru ≡ [])) (sym (prune_loop-zero c))
      (Shrunk-self c s, is_empty c.lru enough)
prune_loop-Shrunk (suc fuel) c s enough = elim (List-cases c.lru) [
  | inl empty ↦
      subst (λ d. Shrunk c d × (d.lru ≡ [])) (sym (prune_loop-empty fuel c empty))
        (Shrunk-self c s, empty)
  | inr (old, rest, first) ↦
      let next : LruCache = erase (c.handles old).key c in
      let (shrunk, end) =
        prune_loop-Shrunk fuel next (erased c s old rest first).shard
          (one_shorter c s old rest fuel first enough) in
      subst (λ d. Shrunk c d × (d.lru ≡ [])) (sym (prune_loop-first fuel c old rest first))
        (round-Shrunk c s old rest first (prune_loop fuel next) shrunk, end)
]

-- Prune keeps the invariant and leaves the handles that clients use, and no other.
pub prune-Shrunk : (c : LruCache) → IsShard c → Shrunk c (prune c) × ((prune c).lru ≡ [])
unfolding prune
prune-Shrunk c s = prune_loop-Shrunk (length c.lru) c s (omega arith)
