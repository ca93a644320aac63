-- ===== src/Comparator/Examples.antt =====
-- Keys that the comparator shortens.
use Prim.Native.Nat.{Ordering}
use tleveldb.Base.{ℕ, ◌≤◌, ◌≡◌, ◌≢◌, refl, List, [], ◌∷◌, arith, length}
use tleveldb.Comparator.{bytes_compare, find_shortest_separator, find_short_successor}
use tleveldb.Comparator.Shorten.{separator_between, successor_above}

abbrev hello : List ℕ
hello = 104 ∷ 101 ∷ 108 ∷ 108 ∷ 111 ∷ []

abbrev hi : List ℕ
hi = 104 ∷ 105 ∷ []

separator_between_example :
    (bytes_compare hello (find_shortest_separator hello hi) ≢ Ordering.gt)
    × (bytes_compare (find_shortest_separator hello hi) hi ≡ Ordering.lt)
    × (length (find_shortest_separator hello hi) ≤ length hello)
separator_between_example = separator_between hello hi (unfold bytes_compare in refl)

-- "hf" stands between the two.
separator_run : find_shortest_separator hello hi ≡ 104 ∷ 102 ∷ []
unfolding find_shortest_separator
separator_run = refl

successor_above_example :
    (bytes_compare (255 ∷ 7 ∷ 9 ∷ []) (find_short_successor (255 ∷ 7 ∷ 9 ∷ [])) ≢ Ordering.gt)
    × (length (find_short_successor (255 ∷ 7 ∷ 9 ∷ [])) ≤ length {A = ℕ} (255 ∷ 7 ∷ 9 ∷ []))
successor_above_example = successor_above (255 ∷ 7 ∷ 9 ∷ []) (omega arith)
