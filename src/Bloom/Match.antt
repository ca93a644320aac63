-- ===== src/Bloom/Match.antt =====
-- A Bloom filter has no false negatives.
use native.Mathlib.Nat.{mod-lt}
use tleveldb.Base.{
  ℕ, zero, suc, ◌+◌, ◌-◌, ◌*◌, ◌%◌, ◌^◌, ◌<◌, ◌≤◌, ◌≡◌, refl, ◌∙◌, true, List, [], ◌∷◌, ◌++◌,
  length, replicate, get_or, arith, inl, inr, ◌⊎◌, length-append, length-replicate, take-append,
}
use tleveldb.Bloom.{
  bloom_hash, num_probes, rotate, set_bit, has_bit, add_probes, probes_match, add_keys,
  filter_bytes, create_filter, key_may_match,
}
use tleveldb.Bloom.Bits.{has_bit-set_bit, has_bit-keeps, length-set_bit}

-- One of the keys of a list.
abbrev pub Has : List ℕ → List (List ℕ) → Type 0
Has key [] = ⊥
Has key (k ∷ ks) = (key ≡ k) ⊎ Has key ks

-- Every bit of the first array is in the second.
abbrev Within : List ℕ → List ℕ → Type 0
Within array array' = (q : ℕ) → has_bit array q ≡ true → has_bit array' q ≡ true

add_probes-Within :
    (k h delta bits : ℕ) (array : List ℕ) → Within array (add_probes k h delta bits array)
unfolding add_probes
add_probes-Within zero h delta bits array q e = e
add_probes-Within (suc k) h delta bits array q e =
    add_probes-Within k ((h + delta) % 2 ^ 32) delta bits (set_bit array (h % bits)) q
      (has_bit-keeps array (h % bits) q e)

length-add_probes :
    (k h delta bits : ℕ) (array : List ℕ) → length (add_probes k h delta bits array) ≡ length array
unfolding add_probes
length-add_probes zero h delta bits array = refl
length-add_probes (suc k) h delta bits array =
    length-add_probes k ((h + delta) % 2 ^ 32) delta bits (set_bit array (h % bits))
    ∙ length-set_bit array (h % bits)

probes_match-Within :
    (k h delta bits : ℕ) (array array' : List ℕ)
    → Within array array'
    → probes_match k h delta bits array ≡ true
    → probes_match k h delta bits array' ≡ true
unfolding probes_match
probes_match-Within zero h delta bits array array' within e = refl
probes_match-Within (suc k) h delta bits array array' within e = ground (
  arith,
  within (h % bits),
  probes_match-Within k ((h + delta) % 2 ^ 32) delta bits array array' within,
)

-- The probes of a key match once they are added.
probes_match-add_probes :
    (k h delta bits : ℕ) (array : List ℕ)
    → 0 < bits
    → bits ≡ length array * 8
    → probes_match k h delta bits (add_probes k h delta bits array) ≡ true
unfolding probes_match add_probes
probes_match-add_probes zero h delta bits array some_bits size = refl
probes_match-add_probes (suc k) h delta bits array some_bits size =
    let h' = (h + delta) % 2 ^ 32 in
    let array' = set_bit array (h % bits) in
    let first : has_bit array' (h % bits) ≡ true =
      has_bit-set_bit array (h % bits) (omega (arith, mod-lt h some_bits)) in
    ground (
      arith,
      add_probes-Within k h' delta bits array' (h % bits) first,
      probes_match-add_probes k h' delta bits array' some_bits
          (omega (arith, length-set_bit array (h % bits))),
    )

add_keys-Within :
    (k bits : ℕ) (keys : List (List ℕ)) (array : List ℕ) → Within array (add_keys k bits keys array)
unfolding add_keys
add_keys-Within k bits [] array q e = e
add_keys-Within k bits (key ∷ keys) array q e =
    add_keys-Within k bits keys (add_probes k (bloom_hash key) (rotate (bloom_hash key)) bits array)
      q (add_probes-Within k (bloom_hash key) (rotate (bloom_hash key)) bits array q e)

length-add_keys :
    (k bits : ℕ) (keys : List (List ℕ)) (array : List ℕ)
    → length (add_keys k bits keys array) ≡ length array
unfolding add_keys
length-add_keys k bits [] array = refl
length-add_keys k bits (key ∷ keys) array =
    length-add_keys k bits keys (add_probes k (bloom_hash key) (rotate (bloom_hash key)) bits array)
    ∙ length-add_probes k (bloom_hash key) (rotate (bloom_hash key)) bits array

probes_match-add_keys :
    (k bits : ℕ) (keys : List (List ℕ)) (array key : List ℕ)
    → 0 < bits
    → bits ≡ length array * 8
    → Has key keys
    → probes_match k (bloom_hash key) (rotate (bloom_hash key)) bits (add_keys k bits keys array)
      ≡ true
unfolding add_keys
probes_match-add_keys k bits [] array key some_bits size there = absurd there
probes_match-add_keys k bits (other ∷ keys) array key some_bits size (inl same) =
    let h = bloom_hash other in
    let array' = add_probes k h (rotate h) bits array in
    rw same (
      probes_match-Within k h (rotate h) bits array' (add_keys k bits keys array')
        (add_keys-Within k bits keys array')
        (probes_match-add_probes k h (rotate h) bits array some_bits size))
probes_match-add_keys k bits (other ∷ keys) array key some_bits size (inr later) =
    let h = bloom_hash other in
    probes_match-add_keys k bits keys (add_probes k h (rotate h) bits array) key some_bits
      (omega (arith, size, length-add_probes k h (rotate h) bits array)) later

num_probes-le : (bits_per_key : ℕ) → num_probes bits_per_key ≤ 30
unfolding num_probes
num_probes-le bits_per_key = ground arith

filter_bytes-le : (bits_per_key n : ℕ) → 8 ≤ filter_bytes bits_per_key n
unfolding filter_bytes
filter_bytes-le bits_per_key n = ground arith

get_or-snoc : (xs : List ℕ) (x : ℕ) → get_or (xs ++ (x ∷ [])) (length xs) 0 ≡ x
get_or-snoc [] x = refl
get_or-snoc (y ∷ xs) x = get_or-snoc xs x

-- On an array with its number of probes behind it, KeyMayMatch looks at the probes.
key_may_match-snoc :
    (key array : List ℕ) (k : ℕ)
    → 1 ≤ length array
    → k ≤ 30
    → key_may_match key (array ++ (k ∷ []))
      ≡ probes_match k (bloom_hash key) (rotate (bloom_hash key)) (length array * 8) array
unfolding key_may_match
key_may_match-snoc key array k filled few =
    rw (size, get_or-snoc array k, take-append array (k ∷ []) (length array) refl)
      (ground (arith, length-append {0} array (k ∷ [])))
  where
    size : length (array ++ (k ∷ [])) - 1 ≡ length array
    size = omega (arith, length-append {0} array (k ∷ []))

-- A Bloom filter has no false negatives: KeyMayMatch says true of each of the keys that
-- CreateFilter was given, for any keys and any number of bits for each.
pub key_may_match-create_filter :
    (bits_per_key : ℕ) (keys : List (List ℕ)) (key : List ℕ)
    → Has key keys
    → key_may_match key (create_filter bits_per_key keys []) ≡ true
unfolding create_filter
key_may_match-create_filter bits_per_key keys key there =
    let bytes = filter_bytes bits_per_key (length keys) in
    let k = num_probes bits_per_key in
    let zeros = replicate {A = ℕ} bytes 0 in
    let array = add_keys k (bytes * 8) keys zeros in
    let size : length array ≡ bytes =
      length-add_keys k (bytes * 8) keys zeros ∙ length-replicate bytes 0 in
    let some_bytes = filter_bytes-le bits_per_key (length keys) in
    key_may_match-snoc key array k (omega (arith, size, some_bytes)) (num_probes-le bits_per_key)
    ∙ rw size (
        probes_match-add_keys k (bytes * 8) keys zeros key (omega (arith, some_bytes))
          (omega (arith, length-replicate {0} {A = ℕ} bytes 0)) there)
