-- ===== src/Cache/Shard/Lists.antt =====
-- How often an address is in a list, and the charges of the handles in it.
use tleveldb.Base.{
  occ, ℕ, ◌+◌, ◌≤◌, ◌≡◌, refl, List, [], ◌∷◌, ◌++◌, ◌==◌, if◌then◌else◌, length, arith,
}
use tleveldb.Cache.Shard.{LruHandle, without}

pub occ-append :
    (a e : ℕ) (list : List ℕ) → occ a (list ++ (e ∷ [])) ≡ occ a list + (if e == a then 1 else 0)
unfolding occ
occ-append a e [] = omega arith
occ-append a e (b ∷ list) = omega (arith, occ-append a e list)

pub occ-without :
    (a e : ℕ) (list : List ℕ) → occ a (without e list) ≡ (if a == e then 0 else occ a list)
unfolding occ without
occ-without a e [] = ground arith
occ-without a e (b ∷ list) = ground (arith, occ-without a e list)

pub without_absent : (e : ℕ) (list : List ℕ) → occ e list ≡ 0 → without e list ≡ list
unfolding occ without
without_absent e [] h = refl
without_absent e (b ∷ list) h = ground (arith, without_absent e list)

pub length-without : (e : ℕ) (list : List ℕ) → length (without e list) ≤ length list
unfolding without
length-without e [] = omega arith
length-without e (b ∷ list) = ground (arith, length-without e list)

-- The charges of the handles in a list.
unfoldable pub total : (ℕ → LruHandle) → List ℕ → ℕ
total handles [] = 0
total handles (a ∷ list) = (handles a).charge + total handles list

pub total-append :
    (handles : ℕ → LruHandle) (e : ℕ) (list : List ℕ)
    → total handles (list ++ (e ∷ [])) ≡ total handles list + (handles e).charge
unfolding total
total-append handles e [] = omega arith
total-append handles e (b ∷ list) = omega (arith, total-append handles e list)

-- A handle that is in a list at one place takes its charge along.
pub total-without :
    (handles : ℕ → LruHandle) (e : ℕ) (list : List ℕ)
    → occ e list ≡ 1
    → total handles (without e list) + (handles e).charge ≡ total handles list
unfolding occ total without
total-without handles e [] h = absurd (omega arith)
total-without handles e (b ∷ list) h =
    ground (arith, total-without handles e list, without_absent e list)

-- The total depends only on the charges of the handles in the list.
pub total_frame :
    (handles handles' : ℕ → LruHandle) (list : List ℕ)
    → ((a : ℕ) → 1 ≤ occ a list → (handles' a).charge ≡ (handles a).charge)
    → total handles' list ≡ total handles list
unfolding occ total
total_frame handles handles' [] same = refl
total_frame handles handles' (b ∷ list) same = omega (
  arith,
  same b (ground arith),
  total_frame handles handles' list (λ a h. same a (omega (arith, h))),
)
