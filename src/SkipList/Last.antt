-- ===== src/SkipList/Last.antt =====
-- lib/leveldb/db/skiplist.h: FindLast.
use Prim.Native.Nat.{Ordering}
use tleveldb.Base.{
  ℕ, zero, suc, ◌-◌, ◌≤◌, ◌≡◌, inl, inr, refl, ap, ◌∙◌, Bool, true, List, [], ◌∷◌, ◌==◌, not, some,
  Bool-cases, if◌then◌else◌, occ, arith,
}
use tleveldb.SkipList.{SkipList, head_node, null, set_prev, last_loop, find_last}
use tleveldb.SkipList.Chains.{Downward, last_before}
use tleveldb.SkipList.Search.{IsLevels, search, steps_below, Found, search-Found}
use tleveldb.SkipList.Levels.{IsSkipList}
use tleveldb.SkipList.Find.{lowest_prev}

abbrev pub last_of : ℕ → List ℕ → ℕ
last_of x [] = x
last_of x (a ∷ list) = last_of a list

module _ {ℓ} {Key : Type ℓ} (cmp : Key → Key → Ordering) (l : SkipList Key) where
  abbrev is_node : ℕ → Bool
  is_node n = not (n == null)

  last_loop-search :
      (fuel x level : ℕ) (prev : ℕ → ℕ)
      → last_loop cmp fuel l x level ≡ lowest_prev (search is_node l.next fuel x level prev)
  unfolding last_loop search set_prev
  last_loop-search zero x level prev = refl
  last_loop-search (suc fuel) x zero prev = elim (Bool-cases (l.next x zero == null)) [
    | inl stops ↦ rw (last_loop, search, stops) refl
    | inr goes ↦ rw (last_loop, search, goes) (last_loop-search fuel (l.next x zero) zero prev)
  ]
  last_loop-search (suc fuel) x (suc level) prev =
      elim (Bool-cases (l.next x (suc level) == null)) [
        | inl stops ↦
            rw (last_loop, search, stops)
              (last_loop-search fuel x level (set_prev (suc level) x prev))
        | inr goes ↦
            rw (last_loop, search, goes)
              (last_loop-search fuel (l.next x (suc level)) (suc level) prev)
      ]

  all-Downward : (list : List ℕ) → ((a : ℕ) → 1 ≤ occ a list → 2 ≤ a) → Downward is_node list
  unfolding Downward occ
  all-Downward [] address = tt
  all-Downward (a ∷ list) address = (
    (λ b h goes. ground (arith, address a)),
    all-Downward list (λ b h. address b (ground (arith, h))),
  )

  last_before-last_of :
      (x : ℕ) (list : List ℕ)
      → ((a : ℕ) → 1 ≤ occ a list → 2 ≤ a)
      → last_before is_node x list ≡ last_of x list
  unfolding last_before occ
  last_before-last_of x [] address = refl
  last_before-last_of x (a ∷ list) address =
      ap (λ (t : Bool). if t then last_before is_node a list else x) {y = true}
        (ground (arith, address a))
      ∙ last_before-last_of a list (λ b h. address b (ground (arith, h)))

  -- FindLast returns the last node, or the head of an empty list.
  pub find_last_lem :
      (nodes : ℕ → List ℕ)
      → IsSkipList cmp l nodes
      → (fuel : ℕ) → steps_below nodes l.max_height ≤ fuel
      → find_last cmp fuel l ≡ some (last_of head_node (nodes 0))
  unfolding find_last steps_below
  find_last_lem nodes s fuel enough =
      last_loop-search fuel head_node (l.max_height - 1) (λ i. null)
      ∙ ap lowest_prev f.result
      ∙ ap some (f.before 0 (omega arith) ∙ last_before-last_of head_node (nodes 0) (s.address 0))
    where
      levels : IsLevels is_node l.next nodes
      levels = record {
        chain = s.chain;
        downward = λ i. all-Downward (nodes i) (s.address i);
        inside = s.inside;
        null = refl;
      }

      top : steps_below nodes (suc (l.max_height - 1)) ≡ steps_below nodes l.max_height
      top = ap (λ t. steps_below nodes t) {x = suc (l.max_height - 1)} (omega (arith, s.low))

      f : Found is_node l.next nodes fuel head_node (l.max_height - 1) (λ i. null)
      f =
          search-Found is_node l.next nodes levels (l.max_height - 1) fuel (λ i. null)
            (omega (arith, enough, top))
