-- ===== src/SkipList/Find.antt =====
-- lib/leveldb/db/skiplist.h: what the searches return.
use Prim.Native.Nat.{Ordering}
use tleveldb.Base.{
  ℕ, zero, suc, ◌-◌, ◌≤◌, ◌<◌, ◌≡◌, inl, inr, refl, ap, ◌∙◌, Bool, true, false, List, not, ◌&&◌,
  ◌||◌, Option, none, some, Bool-cases, arith,
}
use tleveldb.SkipList.{
  SkipList, head_node, null, is_lt, key_is_after_node, find_loop, find_greater_or_equal,
  less_than_loop, find_less_than, set_prev,
}
use tleveldb.SkipList.Chains.{lower_bound, last_before}
use tleveldb.SkipList.Search.{search, steps_below, Found, search-Found}
use tleveldb.SkipList.Levels.{IsWeakOrder, IsSkipList, skip_list-IsLevels}

abbrev pub lowest_prev : Option (ℕ × (ℕ → ℕ)) → Option ℕ
lowest_prev none = none
lowest_prev (some (x, prev)) = some (prev 0)

de_morgan : (a b : Bool) → (a || not b) ≡ not (not a && b)
de_morgan true b = refl
de_morgan false b = refl

module _ {ℓ} {Key : Type ℓ} (cmp : Key → Key → Ordering) (target : Key) (l : SkipList Key) where
  abbrev goes_on : ℕ → Bool
  goes_on n = key_is_after_node cmp target n l

  find_loop-search :
      (fuel x level : ℕ) (prev : ℕ → ℕ)
      → find_loop cmp fuel target l x level prev ≡ search goes_on l.next fuel x level prev
  unfolding find_loop search
  find_loop-search zero x level prev = refl
  find_loop-search (suc fuel) x zero prev = elim (Bool-cases (goes_on (l.next x zero))) [
    | inl goes ↦ rw (find_loop, search, goes) (find_loop-search fuel (l.next x zero) zero prev)
    | inr stops ↦ rw (find_loop, search, stops) refl
  ]
  find_loop-search (suc fuel) x (suc level) prev =
      elim (Bool-cases (goes_on (l.next x (suc level)))) [
        | inl goes ↦
            rw (find_loop, search, goes)
              (find_loop-search fuel (l.next x (suc level)) (suc level) prev)
        | inr stops ↦
            rw (find_loop, search, stops)
              (find_loop-search fuel x level (set_prev (suc level) x prev))
      ]

  -- FindLessThan is the same search, and returns the node before the place.
  less_than_loop-find_loop :
      (fuel x level : ℕ) (prev : ℕ → ℕ)
      → less_than_loop cmp fuel target l x level
        ≡ lowest_prev (find_loop cmp fuel target l x level prev)
  unfolding find_loop less_than_loop key_is_after_node set_prev
  less_than_loop-find_loop zero x level prev = refl
  less_than_loop-find_loop (suc fuel) x zero prev =
      elim (Bool-cases (key_is_after_node cmp target (l.next x zero) l)) [
        | inl goes ↦
            rw (less_than_loop, find_loop, de_morgan, goes)
              (less_than_loop-find_loop fuel (l.next x zero) zero prev)
        | inr stops ↦ rw (less_than_loop, find_loop, de_morgan, stops) refl
      ]
  less_than_loop-find_loop (suc fuel) x (suc level) prev =
      elim (Bool-cases (key_is_after_node cmp target (l.next x (suc level)) l)) [
        | inl goes ↦
            rw (less_than_loop, find_loop, de_morgan, goes)
              (less_than_loop-find_loop fuel (l.next x (suc level)) (suc level) prev)
        | inr stops ↦
            rw (less_than_loop, find_loop, de_morgan, stops)
              (less_than_loop-find_loop fuel x level (set_prev (suc level) x prev))
      ]

pub is_lt-lt : (r : Ordering) → is_lt r ≡ true → r ≡ Ordering.lt
is_lt-lt Ordering.lt h = refl
is_lt-lt Ordering.eq h = cc
is_lt-lt Ordering.gt h = cc

-- What FindGreaterOrEqual returns, and the nodes that it leaves in `prev`.
pub record Located {ℓ} {Key : Type ℓ} (cmp : Key → Key → Ordering) (target : Key) (l : SkipList Key)
    (nodes : ℕ → List ℕ) (result : Option (ℕ × (ℕ → ℕ))) : Type 0 where
  pub prev : ℕ → ℕ
  pub result_is :
      result ≡ some (lower_bound (λ n. key_is_after_node cmp target n l) (nodes 0), prev)
  pub before :
      (i : ℕ)
      → i < l.max_height
      → prev i ≡ last_before (λ n. key_is_after_node cmp target n l) head_node (nodes i)

module _ {ℓ} {Key : Type ℓ} (cmp : Key → Key → Ordering) (o : IsWeakOrder cmp) (target : Key)
    (l : SkipList Key) (nodes : ℕ → List ℕ) (s : IsSkipList cmp l nodes) (fuel : ℕ)
    (enough : steps_below nodes l.max_height ≤ fuel) where
  abbrev after : ℕ → Bool
  after n = key_is_after_node cmp target n l

  whole_search : (prev : ℕ → ℕ) → Found after l.next nodes fuel head_node (l.max_height - 1) prev
  unfolding steps_below
  whole_search prev =
      search-Found after l.next nodes (skip_list-IsLevels cmp o target l nodes s) (l.max_height - 1)
        fuel prev (omega (arith, enough, top))
    where
      top : steps_below nodes (suc (l.max_height - 1)) ≡ steps_below nodes l.max_height
      top = ap (λ t. steps_below nodes t) {x = suc (l.max_height - 1)} (omega (arith, s.low))

  pub find_greater_or_equal-Located :
      (prev : ℕ → ℕ) → Located cmp target l nodes (find_greater_or_equal cmp fuel target l prev)
  unfolding find_greater_or_equal
  find_greater_or_equal-Located prev =
      let f = whole_search prev in
      record {
        prev = f.found;
        result_is = find_loop-search cmp target l fuel head_node (l.max_height - 1) prev ∙ f.result;
        before = λ i h. f.before i (omega (arith, s.low, h));
      }

  -- FindLessThan returns the last node with a smaller key, or the head.
  pub find_less_than_lem :
      find_less_than cmp fuel target l ≡ some (last_before after head_node (nodes 0))
  unfolding find_less_than
  find_less_than_lem =
      let f = whole_search (λ i. null) in
      less_than_loop-find_loop cmp target l fuel head_node (l.max_height - 1) (λ i. null)
      ∙ ap lowest_prev
          (find_loop-search cmp target l fuel head_node (l.max_height - 1) (λ i. null) ∙ f.result)
      ∙ ap some (f.before 0 (omega arith))
