-- ===== src/SkipList/Search.antt =====
-- lib/leveldb/db/skiplist.h: what the searches of the list have in common. They go along a level while
-- a test on the next node holds, and then down a level.
use mathlib.Core.Path.{subst}
use tleveldb.Base.{
  ℕ, ==_iff, zero, suc, ◌+◌, ◌≤◌, ◌<◌, ◌≡◌, inl, inr, refl, sym, ap, ◌∙◌, Bool, true, false, List,
  [], ◌∷◌, ◌==◌, Option, none, some, Bool-cases, if◌then◌else◌, occ, length, arith,
}
use tleveldb.SkipList.{head_node, set_prev}
use tleveldb.SkipList.Chains.{
  Chain, Downward, lower_bound, last_before, IsAt, last_before-occ, node-IsAt,
}

-- How many steps are enough on the levels below one.
unfoldable pub steps_below : (ℕ → List ℕ) → ℕ → ℕ
steps_below lists zero = 0
steps_below lists (suc i) = length (lists i) + 1 + steps_below lists i

module _ (go : ℕ → Bool) (next : ℕ → ℕ → ℕ) where
  unfoldable pub search : ℕ → (x level : ℕ) → (ℕ → ℕ) → Option (ℕ × (ℕ → ℕ))
  unfolding set_prev
  search zero x level prev = none
  search (suc fuel) x level prev = elim (go (next x level)) [
    | true ↦ search fuel (next x level) level prev
    | false ↦ elim level [
      | zero ↦ some (next x zero, set_prev zero x prev)
      | suc lower ↦ search fuel x lower (set_prev (suc lower) x prev)
    ]
  ]

  module _ (lists : ℕ → List ℕ) where
    -- The nodes of each level, of which those of the next level are some.
    pub record IsLevels : Type 0 where
      pub chain : (i : ℕ) → Chain (λ x. next x i) head_node (lists i)
      pub downward : (i : ℕ) → Downward go (lists i)
      pub inside : (i a : ℕ) → occ a (lists (suc i)) ≤ occ a (lists i)
      pub null : go 0 ≡ false

    -- A search that ends at the first node of the lowest level that it does not go on to, with the
    -- node before that place on each level.
    pub record Found (fuel x level : ℕ) (prev : ℕ → ℕ) : Type 0 where
      pub found : ℕ → ℕ
      pub result : search fuel x level prev ≡ some (lower_bound go (lists 0), found)
      pub before : (i : ℕ) → i ≤ level → found i ≡ last_before go head_node (lists i)
      pub above : (i : ℕ) → level < i → found i ≡ prev i

    module _ (s : IsLevels) where
      -- What is needed of the search where it leaves a level.
      abbrev Leaves : ℕ → Type 0
      Leaves level =
          (fuel x : ℕ) (prev : ℕ → ℕ)
          → steps_below lists level ≤ fuel
          → x ≡ last_before go head_node (lists level)
          → next x level ≡ lower_bound go (lists level)
          → go (next x level) ≡ false
          → Found (suc fuel) x level prev

      step_along :
          (fuel x level : ℕ) (prev : ℕ → ℕ)
          → go (next x level) ≡ true
          → Found fuel (next x level) level prev
          → Found (suc fuel) x level prev
      unfolding search
      step_along fuel x level prev goes f = record {
        found = f.found;
        result = rw (search, goes) f.result;
        before = f.before;
        above = f.above;
      }

      walk :
          (level : ℕ)
          → Leaves level
          → (rest : List ℕ) (fuel x : ℕ) (prev : ℕ → ℕ) → Chain (λ x. next x level) x rest
          → last_before go head_node (lists level) ≡ last_before go x rest
          → lower_bound go (lists level) ≡ lower_bound go rest
          → length rest + steps_below lists level ≤ fuel
          → Found (suc fuel) x level prev
      unfolding Chain last_before lower_bound
      walk level leaves [] fuel x prev c last lower enough =
          leaves fuel x prev (omega (arith, enough)) (sym last) (c ∙ sym lower) (ap go c ∙ s.null)
      walk level leaves (y ∷ rest) zero x prev c last lower enough = absurd (omega (arith, enough))
      walk level leaves (y ∷ rest) (suc fuel) x prev c last lower enough =
          elim (Bool-cases (go y)) [
            | inl goes ↦ step_along (suc fuel) x level prev (ap go c.0 ∙ goes) (
                subst (λ t. Found (suc fuel) t level prev) (sym c.0)
                  (walk level leaves rest fuel y prev c.2
                    (last ∙ ap (λ (t : Bool). if t then last_before go y rest else x) goes)
                    (lower ∙ ap (λ (t : Bool). if t then lower_bound go rest else y) goes)
                    (omega (arith, enough))))
            | inr stops ↦
                leaves (suc fuel) x prev (omega (arith, enough))
                  (sym (last ∙ ap (λ (t : Bool). if t then last_before go y rest else x) stops))
                  (c.0
                    ∙ sym (lower ∙ ap (λ (t : Bool). if t then lower_bound go rest else y) stops))
                  (ap go c.0 ∙ stops)
          ]

      lowest-Leaves : Leaves 0
      unfolding search set_prev
      lowest-Leaves fuel x prev enough last lower stops = record {
        found = set_prev 0 x prev;
        result = rw (search, stops) (ap (λ t. some (t, set_prev 0 x prev)) lower);
        before = λ i h. ground (arith, last);
        above = λ i h. ground arith;
      }

      -- The node at which a search leaves a level is one to search from on the level below.
      place-IsAt :
          (level : ℕ)
          → IsAt go
              (λ x. next x level)
              head_node
              (last_before go head_node (lists (suc level)))
              (lists level)
      place-IsAt level = elim (last_before-occ go head_node (lists (suc level))) [
        | inl start ↦
            subst (λ t. IsAt go (λ x. next x level) head_node t (lists level)) (sym start)
              (record {
                rest = lists level;
                chain = s.chain level;
                downward = s.downward level;
                last = refl;
                lower = refl;
                shorter = omega arith;
              })
        | inr (inside, goes) ↦
            node-IsAt go (λ x. next x level) head_node
              (last_before go head_node (lists (suc level))) (lists level) (s.chain level)
              (s.downward level)
              (omega (arith, inside, s.inside level (last_before go head_node (lists (suc level)))))
              goes
      ]

      lower_place :
          (level x : ℕ)
          → x ≡ last_before go head_node (lists (suc level))
          → IsAt go (λ z. next z level) head_node x (lists level)
      lower_place level x last =
          subst (λ t. IsAt go (λ z. next z level) head_node t (lists level)) (sym last)
            (place-IsAt level)

      down_step :
          (level fuel x : ℕ) (prev : ℕ → ℕ)
          → x ≡ last_before go head_node (lists (suc level))
          → go (next x (suc level)) ≡ false
          → Found fuel x level (set_prev (suc level) x prev)
          → Found (suc fuel) x (suc level) prev
      unfolding search set_prev
      down_step level fuel x prev last stops f = record {
        found = f.found;
        result = rw (search, stops) f.result;
        before = λ i h. elim (Bool-cases (i == suc level)) [
          | inl top ↦
              subst (λ t. f.found t ≡ last_before go head_node (lists t))
                (sym ((==_iff i (suc level)).0 top))
                (f.above (suc level) (omega arith) ∙ ground (arith, last))
          | inr lower ↦ f.before i (ground arith)
        ];
        above = λ i h. f.above i (omega arith) ∙ ground arith;
      }

      lower-Leaves : (level : ℕ) → Leaves level → Leaves (suc level)
      unfolding steps_below
      lower-Leaves level leaves zero x prev enough last lower stops = absurd (omega (arith, enough))
      lower-Leaves level leaves (suc fuel) x prev enough last lower stops =
          let p = lower_place level x last in
          down_step level (suc fuel) x prev last stops (
            walk level leaves p.rest fuel x (set_prev (suc level) x prev) p.chain p.last p.lower
              (omega (arith, enough, p.shorter)))

      all-Leaves : (level : ℕ) → Leaves level
      all-Leaves zero = lowest-Leaves
      all-Leaves (suc level) = lower-Leaves level (all-Leaves level)

      -- With enough fuel the search from the head ends.
      pub search-Found :
          (level fuel : ℕ) (prev : ℕ → ℕ)
          → length (lists level) + steps_below lists level < fuel
          → Found fuel head_node level prev
      search-Found level zero prev enough = absurd (omega (arith, enough))
      search-Found level (suc fuel) prev enough =
          walk level (all-Leaves level) (lists level) fuel head_node prev (s.chain level) refl refl
            (omega (arith, enough))
