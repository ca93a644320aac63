-- ===== src/Comparator/Shorten.antt =====
-- FindShortestSeparator and FindShortSuccessor of the bytewise comparator.
use Prim.Native.Nat.{Ordering}
use tleveldb.Base.{
  ℕ, ◌+◌, ◌<◌, ◌≤◌, ◌&&◌, List, [], ◌∷◌, ◌≡◌, ◌≢◌, refl, ap, ◌∙◌, ltb, ◌==◌, if◌then◌else◌, length,
  arith, inl, inr, All, false, Bool-cases,
}
use tleveldb.Comparator.{bytes_compare, find_shortest_separator, find_short_successor}
use tleveldb.Comparator.Order.{bytes_compare-IsOrder}

-- On a common first byte it works on the rest.
pub separator-cons :
    (x : ℕ) (xs ys : List ℕ)
    → find_shortest_separator (x ∷ xs) (x ∷ ys) ≡ x ∷ find_shortest_separator xs ys
unfolding find_shortest_separator
separator-cons x xs ys = ground arith

separator-apart :
    (x y : ℕ) (xs ys : List ℕ)
    → (x == y) ≡ false
    → find_shortest_separator (x ∷ xs) (y ∷ ys)
      ≡ (if ltb x 255 && ltb (x + 1) y then (x + 1) ∷ [] else x ∷ xs)
unfolding find_shortest_separator
separator-apart x y xs ys h = ground arith

pub separator_self : (a : List ℕ) → find_shortest_separator a a ≡ a
separator_self [] = unfold find_shortest_separator in refl
separator_self (x ∷ xs) = separator-cons x xs xs ∙ ap (λ t. x ∷ t) (separator_self xs)

-- FindShortestSeparator of the bytewise comparator, for start below limit, gives a string that is
-- not below start, is below limit, and is no longer than start.
pub separator_between :
    (start limit : List ℕ)
    → bytes_compare start limit ≡ Ordering.lt
    → (bytes_compare start (find_shortest_separator start limit) ≢ Ordering.gt)
      × (bytes_compare (find_shortest_separator start limit) limit ≡ Ordering.lt)
      × (length (find_shortest_separator start limit) ≤ length start)
unfolding bytes_compare
separator_between [] [] e = absurd (ground arith)
separator_between [] (y ∷ ys) e = unfold find_shortest_separator in ground arith
separator_between (x ∷ xs) [] e = absurd (ground arith)
separator_between (x ∷ xs) (y ∷ ys) e = elim (Bool-cases (x == y)) [
  | inl same ↦
      let same_byte : y ≡ x = ground arith in
      rw same_byte (rw (separator-cons x xs ys) (ground (arith, separator_between xs ys, same)))
  | inr apart ↦ rw (separator-apart x y xs ys apart) (ground (arith, bytes_compare-IsOrder.same xs))
]

-- FindShortSuccessor gives a string from `key` on that is no longer than `key`.
pub successor_above :
    (key : List ℕ)
    → All (λ b. b < 256) key
    → (bytes_compare key (find_short_successor key) ≢ Ordering.gt)
      × (length (find_short_successor key) ≤ length key)
unfolding bytes_compare find_short_successor
successor_above [] small = ground arith
successor_above (b ∷ key) small = ground (arith, successor_above key small.1)
