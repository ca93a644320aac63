-- ===== src/SkipList/Levels.antt =====
-- lib/leveldb/db/skiplist.h: what holds of a skip list between its operations.
use Prim.Native.Nat.{Ordering}
use tleveldb.Base.{ℕ, zero, suc, ◌+◌, ◌-◌, ◌≤◌, ◌≡◌, refl, Bool, true, List, [], ◌∷◌, occ, arith}
use tleveldb.Random.{one_in}
use tleveldb.SkipList.{
  SkipList, head_node, is_lt, max_height_limit, key_is_after_node, new_skip_list, random_height,
  random_height_loop,
}
use tleveldb.SkipList.Chains.{Chain, Downward}
use tleveldb.SkipList.Search.{IsLevels}

-- An order in which different keys may be equal.
pub record IsWeakOrder {ℓ} {Key : Type ℓ} (cmp : Key → Key → Ordering) : Type ℓ where
  pub swap_back : (a b : Key) → cmp a b ≡ Ordering.gt → cmp b a ≡ Ordering.lt
  pub swap_eq : (a b : Key) → cmp a b ≡ Ordering.eq → cmp b a ≡ Ordering.eq
  pub trans : (a b c : Key) → cmp a b ≡ Ordering.lt → cmp b c ≡ Ordering.lt → cmp a c ≡ Ordering.lt
  pub trans_eq :
      (a b c : Key) → cmp a b ≡ Ordering.lt → cmp b c ≡ Ordering.eq → cmp a c ≡ Ordering.lt

module _ {ℓ} {Key : Type ℓ} (cmp : Key → Key → Ordering) where
  unfoldable pub Sorted : (ℕ → Key) → List ℕ → Type 0
  Sorted key [] = Unit
  Sorted key (a ∷ list) =
      ((b : ℕ) → 1 ≤ occ b list → is_lt (cmp (key a) (key b)) ≡ true) × Sorted key list

  -- `nodes i` is what is linked on level `i`.
  pub record IsSkipList (l : SkipList Key) (nodes : ℕ → List ℕ) : Type 0 where
    pub chain : (i : ℕ) → Chain (λ x. l.next x i) head_node (nodes i)
    pub address : (i a : ℕ) → 1 ≤ occ a (nodes i) → 2 ≤ a
    pub once : (i a : ℕ) → occ a (nodes i) ≤ 1
    pub inside : (i a : ℕ) → occ a (nodes (suc i)) ≤ occ a (nodes i)
    pub sorted : (i : ℕ) → Sorted l.key (nodes i)
    pub high : (i : ℕ) → l.max_height ≤ i → nodes i ≡ []
    pub low : 1 ≤ l.max_height
    pub limit : l.max_height ≤ max_height_limit

  pub new_skip_list-IsSkipList : (any_key : Key) → IsSkipList (new_skip_list cmp any_key) (λ i. [])
  unfolding new_skip_list Chain occ Sorted
  new_skip_list-IsSkipList any_key = record {
    chain = λ i. refl;
    address = λ i a h. absurd (omega (arith, h));
    once = λ i a. omega arith;
    inside = λ i a. omega arith;
    sorted = λ i. tt;
    high = λ i h. refl;
    low = omega arith;
    limit = omega arith;
  }

  module _ (o : IsWeakOrder cmp) (target : Key) (l : SkipList Key) where
    abbrev pub go : ℕ → Bool
    go n = key_is_after_node cmp target n l

    Sorted-Downward :
        (list : List ℕ) → Sorted l.key list → ((a : ℕ) → 1 ≤ occ a list → 2 ≤ a) → Downward go list
    unfolding Sorted Downward occ key_is_after_node
    Sorted-Downward [] s address = tt
    Sorted-Downward (a ∷ list) s address = (
      (λ b h goes. ground (arith, address a, o.trans (l.key a) (l.key b) target, s.0 b h)),
      Sorted-Downward list s.1 (λ b h. address b (omega (arith, h))),
    )

    pub skip_list-IsLevels : (nodes : ℕ → List ℕ) → IsSkipList l nodes → IsLevels go l.next nodes
    unfolding key_is_after_node
    skip_list-IsLevels nodes s = record {
      chain = s.chain;
      downward = λ i. Sorted-Downward (nodes i) (s.sorted i) (s.address i);
      inside = s.inside;
      null = refl;
    }

random_height_loop-bounds :
    (more height seed : ℕ)
    → (height ≤ (random_height_loop more height seed).0)
      × ((random_height_loop more height seed).0 ≤ height + more)
unfolding random_height_loop
random_height_loop-bounds zero height seed = (omega arith, omega arith)
random_height_loop-bounds (suc more) height seed =
    ground (arith, random_height_loop-bounds more (height + 1) (one_in seed 4).1)

-- The height of a node is between 1 and kMaxHeight.
pub random_height-bounds :
    (seed : ℕ) → (1 ≤ (random_height seed).0) × ((random_height seed).0 ≤ max_height_limit)
unfolding random_height
random_height-bounds seed = random_height_loop-bounds (max_height_limit - 1) 1 seed
