-- ===== src/SkipList/Contains.antt =====
-- lib/leveldb/db/skiplist.h: Contains.
use Prim.Native.Nat.{Ordering}
use mathlib.Core.Path.{subst}
use tleveldb.Base.{
  ℕ, ◌≤◌, ◌≡◌, ◌≢◌, ◌↔◌, inl, inr, refl, sym, ap, ◌∙◌, Bool, true, false, List, [], ◌∷◌, ◌==◌,
  ==_iff, not, ◌&&◌, some, Bool-cases, occ, arith,
}
use tleveldb.SkipList.{SkipList, null, is_eq, key_is_after_node, contains}
use tleveldb.SkipList.Chains.{lower_bound, lower_bound_here, lower_bound_later, lower_bound-occ}
use tleveldb.SkipList.Search.{steps_below}
use tleveldb.SkipList.Levels.{IsWeakOrder, IsSkipList, Sorted}
use tleveldb.SkipList.Find.{is_lt-lt, find_greater_or_equal-Located}

true_ne_false : true ≢ false
true_ne_false h = cc

and_true : (a b : Bool) → (a && b) ≡ true → b ≡ true
and_true true b h = h
and_true false b h = absurd (true_ne_false (sym h))

pub is_eq-eq : (r : Ordering) → is_eq r ≡ true → r ≡ Ordering.eq
is_eq-eq Ordering.lt h = cc
is_eq-eq Ordering.eq h = refl
is_eq-eq Ordering.gt h = cc

module _ {ℓ} {Key : Type ℓ} (cmp : Key → Key → Ordering) (o : IsWeakOrder cmp) (target : Key)
    (l : SkipList Key) (nodes : ℕ → List ℕ) (s : IsSkipList cmp l nodes) (fuel : ℕ)
    (enough : steps_below nodes l.max_height ≤ fuel) where
  abbrev after : ℕ → Bool
  after n = key_is_after_node cmp target n l

  after_of_lt : (b : ℕ) → 1 ≤ b → cmp (l.key b) target ≡ Ordering.lt → after b ≡ true
  unfolding key_is_after_node
  after_of_lt b pos less = rw less (ground arith)

  not_after : (b : ℕ) → cmp (l.key b) target ≡ Ordering.eq → after b ≡ false
  unfolding key_is_after_node
  not_after b same = rw same (ground arith)

  abbrev IsEqualNode : ℕ → Type 0
  IsEqualNode x = (1 ≤ x) × (cmp target (l.key x) ≡ Ordering.eq)

  -- The key of the place is the target if any key of the list is.
  lower_bound-IsEqualNode :
      (list : List ℕ) (a : ℕ)
      → Sorted cmp l.key list
      → ((b : ℕ) → 1 ≤ occ b list → 2 ≤ b)
      → 1 ≤ occ a list
      → cmp target (l.key a) ≡ Ordering.eq
      → IsEqualNode (lower_bound after list)
  unfolding Sorted occ
  lower_bound-IsEqualNode [] a sorted address inside same = absurd (omega (arith, inside))
  lower_bound-IsEqualNode (b ∷ list) a sorted address inside same = elim (Bool-cases (b == a)) [
    | inl here ↦
        let b_same : cmp target (l.key b) ≡ Ordering.eq =
          ap (λ t. cmp target (l.key t)) ((==_iff b a).0 here) ∙ same in
        subst IsEqualNode
          (sym (lower_bound_here after b list (not_after b (o.swap_eq target (l.key b) b_same))))
          (ground (arith, address b), b_same)
    | inr later ↦
        let inside' : 1 ≤ occ a list = ground (arith, inside, later) in
        let less : cmp (l.key b) target ≡ Ordering.lt =
          o.trans_eq (l.key b) (l.key a) target
            (is_lt-lt (cmp (l.key b) (l.key a)) (sorted.0 a inside'))
            (o.swap_eq target (l.key a) same) in
        subst IsEqualNode
          (sym (lower_bound_later after b list (after_of_lt b (ground (arith, address b)) less)))
          (lower_bound-IsEqualNode list a sorted.1 (λ c h. address c (ground (arith, h))) inside'
            same)
  ]

  abbrev answer_at : ℕ → Bool
  answer_at x = not (x == null) && is_eq (cmp target (l.key x))

  equal_node_of :
      answer_at (lower_bound after (nodes 0)) ≡ true
      → (a : ℕ) × (1 ≤ occ a (nodes 0)) × (cmp target (l.key a) ≡ Ordering.eq)
  equal_node_of positive = elim (lower_bound-occ after (nodes 0)) [
    | inl none_left ↦ absurd (true_ne_false (sym positive ∙ ap answer_at none_left))
    | inr inside ↦ (
      lower_bound after (nodes 0),
      inside,
      is_eq-eq (cmp target (l.key (lower_bound after (nodes 0)))) (
          and_true (not (lower_bound after (nodes 0) == null))
            (is_eq (cmp target (l.key (lower_bound after (nodes 0))))) positive),
    )
  ]

  answer_of :
      (a : ℕ)
      → 1 ≤ occ a (nodes 0)
      → cmp target (l.key a) ≡ Ordering.eq
      → answer_at (lower_bound after (nodes 0)) ≡ true
  answer_of a inside same =
      let e = lower_bound-IsEqualNode (nodes 0) a (s.sorted 0) (s.address 0) inside same in
      rw e.1 (ground (arith, e.0))

  -- Contains, on a skip list with its invariant, with a weak order for the comparator and enough
  -- steps, ends, and answers true exactly if a node of the list has a key that is equal to the one
  -- sought.
  pub contains_lem :
      (answer : Bool) × (contains cmp fuel target l ≡ some answer)
      × ((answer ≡ true) ↔ ((a : ℕ) × (1 ≤ occ a (nodes 0)) × (cmp target (l.key a) ≡ Ordering.eq)))
  unfolding contains
  contains_lem = (
    answer_at (lower_bound after (nodes 0)),
    rw
        (
          contains,
          (find_greater_or_equal-Located cmp o target l nodes s fuel enough (λ i. null)).result_is,
        )
        refl,
    (equal_node_of, (λ (a, inside, same). answer_of a inside same)),
  )
