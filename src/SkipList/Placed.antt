-- ===== src/SkipList/Placed.antt =====
-- lib/leveldb/db/skiplist.h: one level of the list when a node has been linked in.
use Prim.Native.Nat.{Ordering}
use mathlib.Core.Path.{subst}
use tleveldb.Base.{
  ℕ, zero, suc, ◌≤◌, ◌≡◌, inl, inr, refl, sym, ap, ◌∙◌, Bool, true, false, List, [], ◌∷◌, ◌==◌,
  ==_iff, ltb, Bool-cases, if◌then◌else◌, occ, arith,
}
use tleveldb.SkipList.{is_lt, is_eq, set_next, link_levels}
use tleveldb.SkipList.Chains.{Chain, place, occ-place, linked}
use tleveldb.SkipList.Levels.{IsWeakOrder, Sorted}
use tleveldb.SkipList.Find.{is_lt-lt}

-- The pointers of one level after the loop.
pub link_levels-linked :
    (n e : ℕ) (prev : ℕ → ℕ) (next : ℕ → ℕ → ℕ) (i y : ℕ)
    → link_levels n e prev next y i
      ≡ (if ltb i n then linked (prev i) e (λ x. next x i) y else next y i)
unfolding link_levels set_next linked
link_levels-linked zero e prev next i y = ground arith
link_levels-linked (suc n) e prev next i y =
    ground
      (arith, link_levels-linked n e prev next i y, link_levels-linked n e prev next n (prev n))

pub Chain_same :
    (f g : ℕ → ℕ)
    → ((z : ℕ) → f z ≡ g z)
    → (x : ℕ) (list : List ℕ) → Chain g x list
    → Chain f x list
unfolding Chain
Chain_same f g same x [] c = same x ∙ c
Chain_same f g same x (y ∷ list) c = (same x ∙ c.0, c.1, Chain_same f g same y list c.2)

gt_of_rest : (r : Ordering) → is_lt r ≡ false → is_eq r ≡ false → r ≡ Ordering.gt
gt_of_rest Ordering.lt h k = cc
gt_of_rest Ordering.eq h k = cc
gt_of_rest Ordering.gt h k = refl

module _ {ℓ} {Key : Type ℓ} (cmp : Key → Key → Ordering) (o : IsWeakOrder cmp) (key : ℕ → Key) where
  after_first :
      (go : ℕ → Bool) (e a : ℕ) (list : List ℕ)
      → Sorted cmp key (a ∷ list)
      → ((b : ℕ) → 1 ≤ occ b (a ∷ list) → go b ≡ is_lt (cmp (key b) (key e)))
      → go a ≡ true
      → (b : ℕ) → 1 ≤ occ b (place go e list)
      → is_lt (cmp (key a) (key b)) ≡ true
  unfolding Sorted occ
  after_first go e a list sorted goes before b h = elim (Bool-cases (e == b)) [
    | inl new ↦
        subst (λ t. is_lt (cmp (key a) (key t)) ≡ true) ((==_iff e b).0 new)
          (sym (goes a (ground arith)) ∙ before)
    | inr old ↦ sorted.0 b (ground (arith, h, old, occ-place go b e list))
  ]

  after_new :
      (e a : ℕ) (list : List ℕ)
      → Sorted cmp key (a ∷ list)
      → is_lt (cmp (key a) (key e)) ≡ false
      → is_eq (cmp (key a) (key e)) ≡ false
      → (b : ℕ) → 1 ≤ occ b (a ∷ list)
      → is_lt (cmp (key e) (key b)) ≡ true
  unfolding Sorted occ
  after_new e a list sorted not_lt not_eq b h = elim (Bool-cases (a == b)) [
    | inl same ↦
        subst (λ t. is_lt (cmp (key e) (key t)) ≡ true) ((==_iff a b).0 same) (ap is_lt less)
    | inr other ↦ ap is_lt (
        o.trans (key e) (key a) (key b) less
          (is_lt-lt (cmp (key a) (key b)) (sorted.0 b (ground (arith, h, other)))))
  ]
    where
      less : cmp (key e) (key a) ≡ Ordering.lt
      less = o.swap_back (key a) (key e) (gt_of_rest (cmp (key a) (key e)) not_lt not_eq)

  -- A node goes before the first one whose key is not smaller.
  pub place-Sorted :
      (go : ℕ → Bool) (e : ℕ) (list : List ℕ)
      → Sorted cmp key list
      → ((a : ℕ) → 1 ≤ occ a list → go a ≡ is_lt (cmp (key a) (key e)))
      → ((a : ℕ) → 1 ≤ occ a list → is_eq (cmp (key a) (key e)) ≡ false)
      → Sorted cmp key (place go e list)
  unfolding Sorted occ place
  place-Sorted go e [] sorted goes apart = ((λ b h. absurd (omega (arith, h))), tt)
  place-Sorted go e (a ∷ list) sorted goes apart = elim (Bool-cases (go a)) [
    | inl before ↦ rw before (
      (λ b h. after_first go e a list sorted goes before b h),
      place-Sorted go e list sorted.1 (λ b h. goes b (ground (arith, h)))
          (λ b h. apart b (ground (arith, h))),
    )
    | inr not_before ↦ rw not_before (
      (λ b h.
          after_new e a list sorted (sym (goes a (ground arith)) ∙ not_before)
            (apart a (ground arith)) b h),
      sorted,
    )
  ]

pub Sorted-same {ℓ} :
    {Key : Type ℓ} (cmp : Key → Key → Ordering) (key key' : ℕ → Key) (list : List ℕ)
    → ((a : ℕ) → 1 ≤ occ a list → key' a ≡ key a)
    → Sorted cmp key list
    → Sorted cmp key' list
unfolding Sorted occ
Sorted-same cmp key key' [] same s = tt
Sorted-same cmp key key' (a ∷ list) same s = (
  (λ b h. rw (same a (ground arith), same b (ground (arith, h))) (s.0 b h)),
  Sorted-same cmp key key' list (λ b h. same b (ground (arith, h))) s.1,
)
