-- ===== src/Group/Chain.antt =====
-- The list of a group as the oids of its nodes, over any map from an offset to a `next` pointer.
use tleveldb.Base.{
  ℕ, suc, ◌≡◌, ◌≢◌, refl, Bool, true, false, ◌||◌, Option, none, some, List, [], ◌∷◌, ◌++◌, arith,
  ◌==◌, length,
}
use tleveldb.Base.Int.{pos}
use tleveldb.Pool.{Oid, oid_null, Listnode, Pool, nexts, load}
use tleveldb.Group.{Group, Run, ok, throw, fault}

-- Total correctness of a call: it ends normally, with a postcondition.
abbrev pub Returns : {A : Type 0} → (A → Group → Type 0) → Run A → Type 0
Returns P (ok a g) = P a g
Returns P (throw g) = ⊥
Returns P fault = ⊥

-- A call that may throw: with a postcondition for each way it ends, and never at no object.
abbrev pub Ensures : {A : Type 0} → (A → Group → Type 0) → (Group → Type 0) → Run A → Type 0
Ensures P Q (ok a g) = P a g
Ensures P Q (throw g) = Q g
Ensures P Q fault = ⊥

pub Returns-Ensures :
    {A : Type 0} (P P' : A → Group → Type 0) (Q : Group → Type 0) (r : Run A)
    → ((a : A) (g : Group) → P a g → P' a g)
    → Returns P r
    → Ensures P' Q r
Returns-Ensures P P' Q (ok a g) weaker h = weaker a g h
Returns-Ensures P P' Q (throw g) weaker h = absurd h
Returns-Ensures P P' Q fault weaker h = h

-- Whether an offset is that of one of the oids.
abbrev pub has : ℕ → List Oid → Bool
has a [] = false
has a (o ∷ os) = (a == o.off) || has a os

abbrev pub last : Oid → List Oid → Oid
last x [] = x
last x (y ∷ ys) = last y ys

-- From `x` the `next` pointers lead through `ys`, all at distinct offsets other than 0, to null.
abbrev pub Chain : (ℕ → Option Oid) → Oid → List Oid → Type 0
Chain next x [] = (next x.off ≡ some oid_null) × (x.off ≢ 0)
Chain next x (y ∷ ys) =
    (next x.off ≡ some y) × (x.off ≢ 0) × (has x.off (y ∷ ys) ≡ false) × Chain next y ys

-- The root object describes the list that begins at `x` and goes on with `xs`.
pub record IsList (p : Pool) (x : Oid) (xs : List Oid) : Type 0 where
  pub head : p.root.head ≡ x
  pub tail : p.root.tail ≡ last x xs
  pub count : p.root.node_count ≡ pos (suc (length xs))
  pub chain : Chain (nexts p.nodes) x xs

-- All that the program has written to the root and to the pointers is on the medium.
pub record IsDurable (p : Pool) : Type 0 where
  pub root : p.durable.root ≡ p.root
  pub next : (a : ℕ) → p.durable.next a ≡ nexts p.nodes a
  pub none_pending : p.pending ≡ []

pub has-append : (a : ℕ) (xs ys : List Oid) → has a (xs ++ ys) ≡ (has a xs || has a ys)
has-append a [] ys = refl
has-append a (x ∷ xs) ys = ground (arith, has-append a xs ys)

pub has-last : (x : Oid) (xs : List Oid) → has (last x xs).off (x ∷ xs) ≡ true
has-last x [] = ground arith
has-last x (y ∷ ys) = ground (arith, has-last y ys)

pub last-snoc : (x : Oid) (xs : List Oid) (o : Oid) → last x (xs ++ (o ∷ [])) ≡ o
last-snoc x [] o = refl
last-snoc x (y ∷ ys) o = last-snoc y ys o

module _ (next : ℕ → Option Oid) where
  pub Chain-last :
      (x : Oid) (xs : List Oid)
      → Chain next x xs
      → (next (last x xs).off ≡ some oid_null) × ((last x xs).off ≢ 0)
  Chain-last x [] c = c
  Chain-last x (y ∷ ys) (to_y, filled, out, c) = Chain-last y ys c

  -- A chain survives a change that spares its own offsets.
  pub Chain-frame :
      (next' : ℕ → Option Oid) (x : Oid) (xs : List Oid)
      → ((a : ℕ) → has a (x ∷ xs) ≡ true → next' a ≡ next a)
      → Chain next x xs
      → Chain next' x xs
  Chain-frame next' x [] same c = ground (arith, same x.off)
  Chain-frame next' x (y ∷ ys) same (to_y, filled, out, c) = (
    ground (arith, same x.off),
    filled,
    out,
    Chain-frame next' y ys (λ a h. same a (ground arith)) c,
  )

-- A pointer that is there belongs to an object that is there.
pub node_of_next :
    (n : Option Listnode) {o : Oid}
    → nexts (λ a. n) 0 ≡ some o
    → (node : Listnode) × (n ≡ some node) × (node.next ≡ o)
node_of_next none e = cc
node_of_next (some node) e = (node, refl, cc)

pub load-some :
    (p : Pool) (x : Oid) {o : Oid}
    → nexts p.nodes x.off ≡ some o
    → x.off ≢ 0
    → (node : Listnode) × (load p x ≡ some node) × (node.next ≡ o)
unfolding load
load-some p x e filled =
    let (node, found, next) = node_of_next (p.nodes x.off) e in (node, ground arith, next)
