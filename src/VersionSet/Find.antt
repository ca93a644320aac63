-- ===== src/VersionSet/Find.antt =====
-- FindFile gives the first file whose largest key is not below the key sought.
use native.Mathlib.Nat.{mod-eq_of_lt}
use Prim.Native.Nat.{Ordering, compare}
use tleveldb.Base.{
  ℕ, zero, suc, ◌+◌, ◌-◌, ◌/◌, ◌^◌, ◌<◌, ◌≤◌, ◌≡◌, refl, ap, ◌∙◌, ◌⊎◌, Bool, true, false, none,
  some, List, [], ◌∷◌, if◌then◌else◌, length, get_elem?, inl, inr, Bool-cases, ltb-false, lt→ltb,
  arith,
}
use tleveldb.Comparator.Order.{IsOrder}
use tleveldb.Comparator.{or_else}
use tleveldb.DbFormat.{UserComparator, internal_compare, extract_user_key, extract_tag}
use tleveldb.VersionEdit.{FileMetaData}
use tleveldb.VersionSet.{is_below, find_loop, find_file}

trans_parts :
    (cmp : List ℕ → List ℕ → Ordering) (a b c : List ℕ) (s t u : ℕ)
    → IsOrder cmp
    → or_else (cmp a b) (compare t s) ≡ Ordering.lt
    → or_else (cmp b c) (compare u t) ≡ Ordering.lt
    → or_else (cmp a c) (compare u s) ≡ Ordering.lt
trans_parts cmp a b c s t u order e e' =
    ground (arith, order.trans a b c, order.eq_of_same a b, order.eq_of_same b c, order.same a)

internal_compare_trans :
    (user : UserComparator) (a b c : List ℕ)
    → IsOrder user.cmp
    → internal_compare user a b ≡ Ordering.lt
    → internal_compare user b c ≡ Ordering.lt
    → internal_compare user a c ≡ Ordering.lt
unfolding internal_compare
internal_compare_trans user a b c order e e' =
    trans_parts user.cmp (extract_user_key a) (extract_user_key b) (extract_user_key c)
      (extract_tag a) (extract_tag b) (extract_tag c) order e e'

-- The largest keys of the files increase.
abbrev pub IsSorted : UserComparator → List FileMetaData → Type 0
IsSorted user files =
    (i j : ℕ) (f g : FileMetaData)
    → i < j
    → get_elem? files i ≡ some f
    → get_elem? files j ≡ some g
    → internal_compare user f.largest g.largest ≡ Ordering.lt

-- The test holds for the indices below `m`, and for no other.
pub record IsFirst (below : ℕ → Bool) (m : ℕ) : Type 0 where
  pub before : (i : ℕ) → i < m → below i ≡ true
  pub after : (i : ℕ) → m ≤ i → below i ≡ false

get_elem?-some :
    (files : List FileMetaData) (i : ℕ)
    → i < length files
    → (f : FileMetaData) × (get_elem? files i ≡ some f)
get_elem?-some [] i h = absurd (omega arith)
get_elem?-some (f ∷ files) zero h = (f, refl)
get_elem?-some (f ∷ files) (suc i) h = get_elem?-some files i (omega arith)

get_elem?-none : (files : List FileMetaData) (i : ℕ) → length files ≤ i → get_elem? files i ≡ none
get_elem?-none [] i h = refl
get_elem?-none (f ∷ files) zero h = absurd (omega arith)
get_elem?-none (f ∷ files) (suc i) h = get_elem?-none files i (omega arith)

split_order : (a b : ℕ) → (a < b) ⊎ (b ≤ a)
split_order a b = ground arith

antisym : (a b : ℕ) → a ≤ b → b ≤ a → a ≡ b
antisym a b h h' = omega arith

module _ (user : UserComparator) (files : List FileMetaData) (key : List ℕ) where
  is_below-end : (i : ℕ) → length files ≤ i → is_below user files key i ≡ false
  unfolding is_below
  is_below-end i h = rw (is_below, get_elem?-none files i h) refl

  is_below-some :
      (i : ℕ) (f : FileMetaData)
      → get_elem? files i ≡ some f
      → is_below user files key i ≡ true
      → internal_compare user f.largest key ≡ Ordering.lt
  unfolding is_below
  is_below-some i f e below = ground (arith, e, below)

  some-is_below :
      (i : ℕ) (f : FileMetaData)
      → get_elem? files i ≡ some f
      → internal_compare user f.largest key ≡ Ordering.lt
      → is_below user files key i ≡ true
  unfolding is_below
  some-is_below i f e below = rw (is_below, e, below) refl

  is_below-inside : (i : ℕ) → is_below user files key i ≡ true → i < length files
  is_below-inside i below = grind (arith, is_below-end i)

  -- In sorted files, what is before a file below the key is below the key.
  is_below-earlier :
      (i j : ℕ)
      → IsOrder user.cmp
      → IsSorted user files
      → i < j
      → is_below user files key j ≡ true
      → is_below user files key i ≡ true
  is_below-earlier i j order sorted h below =
      let inside = is_below-inside j below in
      let (f, at_i) = get_elem?-some files i (omega arith) in
      let (g, at_j) = get_elem?-some files j inside in
      some-is_below i f at_i (
        internal_compare_trans user f.largest g.largest key order (sorted i j f g h at_i at_j)
          (is_below-some j g at_j below))

  up_to :
      (mid i : ℕ)
      → IsOrder user.cmp
      → IsSorted user files
      → is_below user files key mid ≡ true
      → i ≤ mid
      → is_below user files key i ≡ true
  up_to mid i order sorted below h = elim (split_order i mid) [
    | inl earlier ↦ is_below-earlier i mid order sorted earlier below
    | inr later ↦ ap (is_below user files key) (antisym i mid h later) ∙ below
  ]

  from :
      (mid i : ℕ)
      → IsOrder user.cmp
      → IsSorted user files
      → is_below user files key mid ≡ false
      → mid ≤ i
      → is_below user files key i ≡ false
  from mid i order sorted above h = elim (Bool-cases (is_below user files key i)) [
    | inr later ↦ later
    | inl below ↦ ground (arith, above, up_to i mid order sorted below h)
  ]

  find_loop-step :
      (fuel left right mid : ℕ)
      → left < right
      → right < 2 ^ 31
      → mid ≡ (left + right) / 2
      → find_loop user files key (suc fuel) left right
        ≡ find_loop user files key fuel
            (if is_below user files key mid then mid + 1 else left)
            (if is_below user files key mid then right else mid)
  unfolding find_loop
  find_loop-step fuel left right mid order bound e =
      rw (e, lt→ltb left right order, mod-eq_of_lt sum) refl
    where
      sum : left + right < 2 ^ 32
      sum = omega arith

  find_loop-done :
      (fuel left right : ℕ) → right ≤ left → find_loop user files key fuel left right ≡ right
  unfolding find_loop
  find_loop-done zero left right h = refl
  find_loop-done (suc fuel) left right h = rw (ltb-false left right h) refl

  -- What a search from the indices `left` and `right` has to give.
  abbrev Found : (fuel left right : ℕ) → Type 0
  Found fuel left right =
      IsFirst (is_below user files key) (find_loop user files key fuel left right)
      × (find_loop user files key fuel left right ≤ right)

  -- From any state of the search with the files before `left` below the key and those from `right`
  -- on not, as many rounds as there are files between the two find the place.
  find_loop-IsFirst :
      (fuel left right : ℕ)
      → IsOrder user.cmp
      → IsSorted user files
      → right - left ≤ fuel
      → left ≤ right
      → right < 2 ^ 31
      → ((i : ℕ) → i < left → is_below user files key i ≡ true)
      → ((i : ℕ) → right ≤ i → is_below user files key i ≡ false)
      → Found fuel left right
  find_loop-IsFirst zero left right order sorted enough le bound before after =
      rw (find_loop-done zero left right (omega arith))
        (record { before = λ i h. before i (omega arith); after = after }, omega arith)
  find_loop-IsFirst (suc fuel) left right order sorted enough le bound before after =
      elim (split_order left right) [
        | inr done ↦
            rw (find_loop-done (suc fuel) left right done)
              (record { before = λ i h. before i (omega arith); after = after }, omega arith)
        | inl ahead ↦ elim (Bool-cases (is_below user files key ((left + right) / 2))) [
          | inl below ↦
              rw (find_loop-step fuel left right ((left + right) / 2) ahead bound refl, below)
                (find_loop-IsFirst fuel ((left + right) / 2 + 1) right order sorted (omega arith)
                  (omega arith) bound
                  (λ i h. up_to ((left + right) / 2) i order sorted below (omega arith)) after)
          | inr above ↦
              let (first, small) =
                find_loop-IsFirst fuel left ((left + right) / 2) order sorted (omega arith)
                  (omega arith) (omega arith) before
                  (λ i h. from ((left + right) / 2) i order sorted above h) in
              rw (find_loop-step fuel left right ((left + right) / 2) ahead bound refl, above)
                (first, omega arith)
        ]
      ]

  -- FindFile, on fewer than 2^31 files whose largest keys increase and with a total order for the
  -- user's comparator, gives an index up to their number such that the largest key of each file
  -- before it is below the key sought and that of no later file is.
  pub find_file-IsFirst :
      IsOrder user.cmp
      → IsSorted user files
      → length files < 2 ^ 31
      → IsFirst (is_below user files key) (find_file user files key)
        × (find_file user files key ≤ length files)
  unfolding find_file
  find_file-IsFirst order sorted bound = rw (mod-eq_of_lt small) (
      find_loop-IsFirst (length files) 0 (length files) order sorted (omega arith) (omega arith)
        bound (λ i h. absurd (omega arith)) is_below-end)
    where
      small : length files < 2 ^ 32
      small = omega arith
