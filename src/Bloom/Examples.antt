-- ===== src/Bloom/Examples.antt =====
-- A Bloom filter of two keys with ten bits for each.
use tleveldb.Base.{ℕ, ◌≡◌, refl, true, List, [], ◌∷◌, inl, inr}
use tleveldb.Bloom.{create_filter, key_may_match}
use tleveldb.Bloom.Match.{key_may_match-create_filter}

abbrev hello_world : List (List ℕ)
hello_world = (104 ∷ 101 ∷ 108 ∷ 108 ∷ 111 ∷ []) ∷ (119 ∷ 111 ∷ 114 ∷ 108 ∷ 100 ∷ []) ∷ []

key_may_match-create_filter_example :
    key_may_match (119 ∷ 111 ∷ 114 ∷ 108 ∷ 100 ∷ []) (create_filter 10 hello_world []) ≡ true
key_may_match-create_filter_example =
    key_may_match-create_filter 10 hello_world (119 ∷ 111 ∷ 114 ∷ 108 ∷ 100 ∷ []) (inr (inl refl))
