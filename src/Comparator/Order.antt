-- ===== src/Comparator/Order.antt =====
-- Slice::compare is a total order.
use Prim.Native.Nat.{Ordering}
use tleveldb.Base.{ℕ, List, [], ◌∷◌, ◌≡◌, refl, arith}
use tleveldb.Comparator.{bytes_compare}

-- What the code relies on of a Comparator: Compare is a total order.
pub record IsOrder {ℓ} {A : Type ℓ} (cmp : A → A → Ordering) : Type ℓ where
  pub same : (a : A) → cmp a a ≡ Ordering.eq
  pub eq_of_same : (a b : A) → cmp a b ≡ Ordering.eq → a ≡ b
  pub swap : (a b : A) → cmp a b ≡ Ordering.lt → cmp b a ≡ Ordering.gt
  pub swap_back : (a b : A) → cmp a b ≡ Ordering.gt → cmp b a ≡ Ordering.lt
  pub trans : (a b c : A) → cmp a b ≡ Ordering.lt → cmp b c ≡ Ordering.lt → cmp a c ≡ Ordering.lt

same_lem : (a : List ℕ) → bytes_compare a a ≡ Ordering.eq
unfolding bytes_compare
same_lem [] = refl
same_lem (x ∷ xs) = ground (arith, same_lem xs)

eq_of_same_lem : (a b : List ℕ) → bytes_compare a b ≡ Ordering.eq → a ≡ b
unfolding bytes_compare
eq_of_same_lem [] [] e = refl
eq_of_same_lem [] (y ∷ ys) e = ground arith
eq_of_same_lem (x ∷ xs) [] e = ground arith
eq_of_same_lem (x ∷ xs) (y ∷ ys) e = ground (arith, eq_of_same_lem xs ys)

swap_lem : (a b : List ℕ) → bytes_compare a b ≡ Ordering.lt → bytes_compare b a ≡ Ordering.gt
unfolding bytes_compare
swap_lem [] [] e = ground arith
swap_lem [] (y ∷ ys) e = refl
swap_lem (x ∷ xs) [] e = ground arith
swap_lem (x ∷ xs) (y ∷ ys) e = ground (arith, swap_lem xs ys)

swap_back_lem : (a b : List ℕ) → bytes_compare a b ≡ Ordering.gt → bytes_compare b a ≡ Ordering.lt
unfolding bytes_compare
swap_back_lem [] [] e = ground arith
swap_back_lem [] (y ∷ ys) e = ground arith
swap_back_lem (x ∷ xs) [] e = refl
swap_back_lem (x ∷ xs) (y ∷ ys) e = ground (arith, swap_back_lem xs ys)

trans_lem :
    (a b c : List ℕ)
    → bytes_compare a b ≡ Ordering.lt
    → bytes_compare b c ≡ Ordering.lt
    → bytes_compare a c ≡ Ordering.lt
unfolding bytes_compare
trans_lem [] b [] e e' = ground (arith, swap_lem [] b)
trans_lem [] b (z ∷ zs) e e' = refl
trans_lem (x ∷ xs) [] c e e' = ground arith
trans_lem (x ∷ xs) (y ∷ ys) [] e e' = ground arith
trans_lem (x ∷ xs) (y ∷ ys) (z ∷ zs) e e' = ground (arith, trans_lem xs ys zs)

-- Compare of the bytewise comparator is a total order on strings.
pub bytes_compare-IsOrder : IsOrder bytes_compare
bytes_compare-IsOrder = record {
  same = same_lem;
  eq_of_same = eq_of_same_lem;
  swap = swap_lem;
  swap_back = swap_back_lem;
  trans = trans_lem;
}
