-- ===== src/SkipList/Chains.antt =====
-- lib/leveldb/db/skiplist.h: the nodes of one level, which one pointer of each links in order.
use mathlib.Core.Path.{subst}
use tleveldb.Base.{
  ==_iff, length, ℕ, ◌+◌, ◌≤◌, ◌≡◌, ◌≢◌, ◌⊎◌, inl, inr, refl, ap, ◌∙◌, Bool, true, false, List, [],
  ◌∷◌, ◌==◌, Bool-cases, if◌then◌else◌, occ, arith,
}

-- `list` is what follows the node `x` up to the null pointer.
unfoldable pub Chain : (ℕ → ℕ) → ℕ → List ℕ → Type 0
Chain next x [] = next x ≡ 0
Chain next x (y ∷ list) = (next x ≡ y) × (y ≢ 0) × Chain next y list

module _ (go : ℕ → Bool) where
  -- The search goes on to a node only if it goes on to each node before it.
  unfoldable pub Downward : List ℕ → Type 0
  unfolding occ
  Downward [] = Unit
  Downward (a ∷ list) = ((b : ℕ) → 1 ≤ occ b list → go b ≡ true → go a ≡ true) × Downward list

  -- The first node that the search does not go on to, or null.
  unfoldable pub lower_bound : List ℕ → ℕ
  lower_bound [] = 0
  lower_bound (a ∷ list) = if go a then lower_bound list else a

  -- The last node that it goes on to, or `x`.
  unfoldable pub last_before : ℕ → List ℕ → ℕ
  last_before x [] = x
  last_before x (a ∷ list) = if go a then last_before a list else x

  -- The list with `e` before the first node that the search does not go on to.
  unfoldable pub place : ℕ → List ℕ → List ℕ
  place e [] = e ∷ []
  place e (a ∷ list) = if go a then a ∷ place e list else e ∷ a ∷ list

  -- What a search knows at the node `x`: the rest of the level decides.
  pub record IsAt (next : ℕ → ℕ) (h x : ℕ) (list : List ℕ) : Type 0 where
    pub rest : List ℕ
    pub chain : Chain next x rest
    pub downward : Downward rest
    pub last : last_before h list ≡ last_before x rest
    pub lower : lower_bound list ≡ lower_bound rest
    pub shorter : length rest ≤ length list

  pub lower_bound_here : (b : ℕ) (list : List ℕ) → go b ≡ false → lower_bound (b ∷ list) ≡ b
  unfolding lower_bound
  lower_bound_here b list stops = rw stops refl

  pub lower_bound_later :
      (b : ℕ) (list : List ℕ) → go b ≡ true → lower_bound (b ∷ list) ≡ lower_bound list
  unfolding lower_bound
  lower_bound_later b list goes = rw goes refl

  pub lower_bound-occ : (list : List ℕ) → (lower_bound list ≡ 0) ⊎ (1 ≤ occ (lower_bound list) list)
  unfolding lower_bound occ
  lower_bound-occ [] = inl refl
  lower_bound-occ (a ∷ list) = ground (arith, lower_bound-occ list)

  pub last_before-occ :
      (x : ℕ) (list : List ℕ)
      → (last_before x list ≡ x)
        ⊎ ((1 ≤ occ (last_before x list) list) × (go (last_before x list) ≡ true))
  unfolding last_before occ
  last_before-occ x [] = inl refl
  last_before-occ x (a ∷ list) = ground (arith, last_before-occ a list)

  module _ (next : ℕ → ℕ) where
    first_node :
        (h a : ℕ) (list : List ℕ)
        → Chain next a list
        → Downward list
        → go a ≡ true
        → IsAt next h a (a ∷ list)
    unfolding last_before lower_bound
    first_node h a list c d goes = record {
      rest = list;
      chain = c;
      downward = d;
      last = rw goes refl;
      lower = rw goes refl;
      shorter = omega arith;
    }

    later_node :
        (h a x : ℕ) (list : List ℕ) → go a ≡ true → IsAt next a x list → IsAt next h x (a ∷ list)
    unfolding last_before lower_bound
    later_node h a x list goes i = record {
      rest = i.rest;
      chain = i.chain;
      downward = i.downward;
      last = rw goes i.last;
      lower = rw goes i.lower;
      shorter = omega (arith, i.shorter);
    }

    -- A node of the level to which the search goes on is a place to search from.
    pub node-IsAt :
        (h x : ℕ) (list : List ℕ)
        → Chain next h list
        → Downward list
        → 1 ≤ occ x list
        → go x ≡ true
        → IsAt next h x list
    unfolding Chain Downward occ
    node-IsAt h x [] c d inside goes = absurd (omega (arith, inside))
    node-IsAt h x (a ∷ list) c d inside goes = elim (Bool-cases (a == x)) [
      | inl same ↦
          subst (λ t. IsAt next h t (a ∷ list)) ((==_iff a x).0 same)
            (first_node h a list c.2 d.1 (ap go ((==_iff a x).0 same) ∙ goes))
      | inr other ↦
          let inside' : 1 ≤ occ x list = ground (arith, inside, other) in
          later_node h a x list (d.0 x inside' goes) (node-IsAt a x list c.2 d.1 inside' goes)
    ]

  pub occ-place :
      (a e : ℕ) (list : List ℕ) → occ a (place e list) ≡ occ a list + (if e == a then 1 else 0)
  unfolding place occ
  occ-place a e [] = omega arith
  occ-place a e (b ∷ list) = ground (arith, occ-place a e list)

-- The pointers of a level when `e` has been linked in after `x`.
unfoldable pub linked : ℕ → ℕ → (ℕ → ℕ) → ℕ → ℕ
linked x e next z = if z == x then e else if z == e then next x else next z

linked_away :
    (next : ℕ → ℕ) (h e a : ℕ) (list : List ℕ)
    → Chain next a list
    → occ h (a ∷ list) ≡ 0
    → occ e (a ∷ list) ≡ 0
    → Chain (linked h e next) a list
unfolding Chain linked occ
linked_away next h e a [] c out new = ground (arith, c)
linked_away next h e a (b ∷ list) c out new = (
  ground (arith, c.0),
  c.1,
  linked_away next h e b list c.2 (omega (arith, out)) (omega (arith, new)),
)

pub linked-Chain :
    (go : ℕ → Bool) (next : ℕ → ℕ) (e h : ℕ) (list : List ℕ)
    → 1 ≤ e
    → Chain next h list
    → ((b : ℕ) → occ b (h ∷ list) ≤ 1)
    → occ e (h ∷ list) ≡ 0
    → Chain (linked (last_before go h list) e next) h (place go e list)
unfolding Chain linked last_before place occ
linked-Chain go next e h [] pos c once new =
    (ground arith, (λ z. absurd (omega (arith, z))), ground (arith, c))
linked-Chain go next e h (a ∷ list) pos c once new = elim (Bool-cases (go a)) [
  | inl goes ↦ rw goes (
    ground (arith, once h, last_before-occ go a list, c.0),
    c.1,
    linked-Chain go next e a list pos c.2 (λ b. omega (arith, once b)) (omega (arith, new)),
  )
  | inr stops ↦ rw stops (
    ground arith,
    (λ z. absurd (omega (arith, z))),
    (
      ground (arith, c.0, new),
      c.1,
      linked_away next h e a list c.2 (ground (arith, once h)) (omega (arith, new)),
    ),
  )
]
