-- ===== src/MemTable/Newest.antt =====
-- lib/leveldb/db/memtable.cc: the items of a memtable, and what a lookup is to answer.
use Prim.Native.Nat.{Ordering}
use mathlib.Core.Path.{subst}
use tleveldb.Base.{
  ℕ, ◌≤◌, ◌<◌, ◌≡◌, ◌≢◌, ◌⊎◌, inl, inr, refl, sym, ap, ◌∙◌, Bool, true, false, List, [], ◌∷◌, ◌==◌,
  ==_iff, Bool-cases, occ, arith,
}
use tleveldb.DbFormat.{UserComparator}
use tleveldb.SkipList.{SkipList, is_lt}
use tleveldb.SkipList.Chains.{lower_bound, lower_bound_here, lower_bound_later}
use tleveldb.SkipList.Levels.{IsSkipList, Sorted}
use tleveldb.MemTable.{Answer, absent, key_comparator}
use tleveldb.MemTable.Entries.{Item, IsItem, entry_of, answer_of}

-- The memtable with its items: what is in the skip list is the bytes of an entry.
pub record IsMemTable (user : UserComparator) (table : SkipList (List ℕ)) (nodes : ℕ → List ℕ)
    (items : ℕ → Item) : Type 0 where
  pub list : IsSkipList (key_comparator user) table nodes
  pub item : (a : ℕ) → 1 ≤ occ a (nodes 0) → IsItem (items a)
  pub bytes : (a : ℕ) → 1 ≤ occ a (nodes 0) → table.key a ≡ entry_of (items a)

-- The newest item of a key, of those that are not newer than a sequence number.
pub record IsNewest (user_key : List ℕ) (s : ℕ) (nodes : List ℕ) (items : ℕ → Item) (a : ℕ)
    : Type 0 where
  pub inside : 1 ≤ occ a nodes
  pub same_key : (items a).key.user_key ≡ user_key
  pub visible : (items a).key.sequence ≤ s
  pub newest :
      (b : ℕ)
      → 1 ≤ occ b nodes
      → (items b).key.user_key ≡ user_key
      → (items b).key.sequence ≤ s
      → (items b).key.sequence ≤ (items a).key.sequence

-- That a lookup answers: what the newest item says, or nothing if there is none.
unfoldable pub IsAnswer : List ℕ → ℕ → List ℕ → (ℕ → Item) → Answer → Type 0
IsAnswer user_key s nodes items answer =
    ((a : ℕ) × IsNewest user_key s nodes items a × (answer ≡ answer_of (items a)))
    ⊎ (((b : ℕ) → 1 ≤ occ b nodes → (items b).key.user_key ≡ user_key → s < (items b).key.sequence)
        × (answer ≡ absent))

pub true_ne_false : true ≢ false
true_ne_false h = cc

module _ {ℓ} {Key : Type ℓ} (cmp : Key → Key → Ordering) (key : ℕ → Key) (go : ℕ → Bool) where
  apart : (b a : ℕ) → go b ≡ true → go a ≡ false → (b == a) ≡ false
  apart b a goes stops = elim (Bool-cases (b == a)) [
    | inl same ↦ absurd (true_ne_false (sym goes ∙ ap go ((==_iff b a).0 same) ∙ stops))
    | inr other ↦ other
  ]

  abbrev pub IsStop : List ℕ → ℕ → ℕ → Type 0
  IsStop list a x =
      (1 ≤ occ x list) × (go x ≡ false) × ((x ≡ a) ⊎ (is_lt (cmp (key x) (key a)) ≡ true))

  -- A node at which the search stops is its place or behind it.
  pub first-IsStop :
      (list : List ℕ) (a : ℕ)
      → Sorted cmp key list
      → 1 ≤ occ a list
      → go a ≡ false
      → IsStop list a (lower_bound go list)
  unfolding Sorted occ
  first-IsStop [] a sorted inside stops = absurd (omega (arith, inside))
  first-IsStop (b ∷ list) a sorted inside stops = elim (Bool-cases (go b)) [
    | inl goes ↦
        let f = first-IsStop list a sorted.1 (ground (arith, inside, apart b a goes stops)) stops in
        subst (IsStop (b ∷ list) a) (sym (lower_bound_later go b list goes))
          (ground (arith, f.0), f.1, f.2)
    | inr here ↦ subst (IsStop (b ∷ list) a) (sym (lower_bound_here go b list here)) (
      ground arith,
      here,
      elim (Bool-cases (b == a)) [
        | inl same ↦ inl ((==_iff b a).0 same)
        | inr other ↦ inr (sorted.0 a (ground (arith, inside, other)))
      ],
    )
  ]

  pub lower_bound-stops :
      (list : List ℕ) → (lower_bound go list ≡ 0) ⊎ (go (lower_bound go list) ≡ false)
  unfolding lower_bound
  lower_bound-stops [] = inl refl
  lower_bound-stops (a ∷ list) = ground (arith, lower_bound-stops list)
