-- ===== src/FilterBlock/Build.antt =====
-- The builder of a filter block, as the lists of keys of its filters and the keys that wait.
use tleveldb.Base.{
  ℕ, zero, suc, ◌+◌, ◌-◌, ◌/◌, ◌%◌, ◌^◌, ◌≤◌, ◌≡◌, refl, sym, ap, ◌∙◌, false, List, [], ◌∷◌, ◌++◌,
  ◌==◌, length, length-append, append_assoc, append-nil, take-append, drop-append, arith,
}
use tleveldb.FilterPolicy.{FilterPolicy}
use tleveldb.FilterPolicy.Sound.{IsFilterPolicy}
use tleveldb.FilterBlock.{
  FilterBlockBuilder, new_builder, slices, generate_filter, generate_filters, start_block, add_key,
}

abbrev pub concat : List (List ℕ) → List ℕ
concat [] = []
concat (k ∷ ks) = k ++ concat ks

-- Where each key begins in the flattened keys.
abbrev pub starts_from : ℕ → List (List ℕ) → List ℕ
starts_from base [] = []
starts_from base (k ∷ ks) = base ∷ starts_from (base + length k) ks

concat-snoc : (ks : List (List ℕ)) (k : List ℕ) → concat (ks ++ (k ∷ [])) ≡ concat ks ++ k
concat-snoc [] k = append-nil k
concat-snoc (x ∷ ks) k = ap (λ t. x ++ t) (concat-snoc ks k) ∙ sym (append_assoc x (concat ks) k)

starts_from-snoc :
    (base : ℕ) (ks : List (List ℕ)) (k : List ℕ)
    → starts_from base (ks ++ (k ∷ [])) ≡ starts_from base ks ++ ((base + length (concat ks)) ∷ [])
starts_from-snoc base [] k = ap (λ (t : ℕ). t ∷ []) (omega arith)
starts_from-snoc base (x ∷ ks) k =
    ap (λ t. base ∷ t)
      (starts_from-snoc (base + length x) ks k
        ∙ ap (λ (t : ℕ). starts_from (base + length x) ks ++ (t ∷ []))
            (omega (arith, length-append {0} x (concat ks))))

-- The first of the positions, and those behind it.
starts_head :
    (base : ℕ) (ks : List (List ℕ)) (end : ℕ)
    → end ≡ base + length (concat ks)
    → (rest : List ℕ) × (starts_from base ks ++ (end ∷ []) ≡ base ∷ rest)
starts_head base [] end e = ([], ap (λ (t : ℕ). t ∷ []) (omega arith))
starts_head base (k ∷ ks) end e = (starts_from (base + length k) ks ++ (end ∷ []), refl)

-- The pieces between the positions are the keys.
slices-starts :
    (front : List ℕ) (ks : List (List ℕ)) (end : ℕ)
    → end ≡ length front + length (concat ks)
    → slices (front ++ concat ks) (starts_from (length front) ks ++ (end ∷ [])) ≡ ks
unfolding slices
slices-starts front [] end e = refl
slices-starts front (k ∷ ks) end e =
    let size : end ≡ length front + length k + length (concat ks) =
      omega (arith, length-append {0} k (concat ks)) in
    let (rest, shape) = starts_head (length front + length k) ks end size in
    let others =
      rw (append_assoc front k (concat ks), length-append front k, shape) at
        (slices-starts (front ++ k) ks end (omega (arith, length-append {0} front k))) in
    rw
      (
        shape,
        drop-append front (k ++ concat ks) (length front) refl,
        take-append k (concat ks) (length front + length k - length front) (omega arith),
      )
      (ap (λ t. k ∷ t) others)

positive_test : (n : ℕ) → (suc n == 0) ≡ false
positive_test n = ground arith

pub starts_test :
    (starts : List ℕ) (base : ℕ) (k : List ℕ) (ks : List (List ℕ))
    → starts ≡ starts_from base (k ∷ ks)
    → (length starts == 0) ≡ false
starts_test starts base k ks e = rw e (positive_test (length (starts_from (base + length k) ks)))

-- StartBlock makes a filter for each 2 KiB up to the block's offset: the first of the keys that
-- wait, the others of none.
abbrev pub advance : ℕ → List (List (List ℕ)) → List (List ℕ) → List (List (List ℕ)) × List (List ℕ)
advance zero groups waiting = (groups, waiting)
advance (suc rounds) groups waiting = advance rounds (groups ++ (waiting ∷ [])) []

module _ (policy : FilterPolicy) where
  -- The filter of a list of keys: none at all if there are no keys.
  abbrev pub filter_of : List (List ℕ) → List ℕ
  filter_of [] = []
  filter_of (k ∷ ks) = policy.create (k ∷ ks) []

  abbrev pub filters_of : List (List (List ℕ)) → List ℕ
  filters_of [] = []
  filters_of (g ∷ gs) = filter_of g ++ filters_of gs

  abbrev pub offsets_from : ℕ → List (List (List ℕ)) → List ℕ
  offsets_from base [] = []
  offsets_from base (g ∷ gs) = base % 2 ^ 32 ∷ offsets_from (base + length (filter_of g)) gs

  -- The builder has made the filters of `groups`, and the keys `waiting` were added since.
  pub record Holds (b : FilterBlockBuilder) (groups : List (List (List ℕ)))
      (waiting : List (List ℕ)) : Type 0 where
    pub keys : b.keys ≡ concat waiting
    pub start : b.start ≡ starts_from 0 waiting
    pub result : b.result ≡ filters_of groups
    pub offsets : b.filter_offsets ≡ offsets_from 0 groups

  filters_of-snoc :
      (gs : List (List (List ℕ))) (g : List (List ℕ))
      → filters_of (gs ++ (g ∷ [])) ≡ filters_of gs ++ filter_of g
  filters_of-snoc [] g = append-nil (filter_of g)
  filters_of-snoc (x ∷ gs) g =
      ap (λ t. filter_of x ++ t) (filters_of-snoc gs g)
      ∙ sym (append_assoc (filter_of x) (filters_of gs) (filter_of g))

  offsets_from-snoc :
      (base : ℕ) (gs : List (List (List ℕ))) (g : List (List ℕ))
      → offsets_from base (gs ++ (g ∷ []))
        ≡ offsets_from base gs ++ ((base + length (filters_of gs)) % 2 ^ 32 ∷ [])
  offsets_from-snoc base [] g = ap (λ (t : ℕ). t % 2 ^ 32 ∷ []) (omega arith)
  offsets_from-snoc base (x ∷ gs) g =
      ap (λ t. base % 2 ^ 32 ∷ t)
        (offsets_from-snoc (base + length (filter_of x)) gs g
          ∙ ap (λ (t : ℕ). offsets_from (base + length (filter_of x)) gs ++ (t % 2 ^ 32 ∷ []))
              (omega (arith, length-append {0} (filter_of x) (filters_of gs))))

  pub new_builder-Holds : Holds new_builder [] []
  new_builder-Holds = record { keys = refl; start = refl; result = refl; offsets = refl }

  -- AddKey lets one more key wait.
  pub add_key-Holds :
      (b : FilterBlockBuilder) (groups : List (List (List ℕ))) (waiting : List (List ℕ))
      (key : List ℕ)
      → Holds b groups waiting
      → Holds (add_key key b) groups (waiting ++ (key ∷ []))
  unfolding add_key
  add_key-Holds b groups waiting key h = record {
    keys = rw h.keys (sym (concat-snoc waiting key));
    start =
        rw (h.keys, h.start, starts_from-snoc 0 waiting key)
          (ap (λ (t : ℕ). starts_from 0 waiting ++ (t ∷ [])) (omega arith));
    result = h.result;
    offsets = h.offsets;
  }

  generate_filter-offsets :
      (b : FilterBlockBuilder) (groups : List (List (List ℕ))) (waiting : List (List ℕ))
      → Holds b groups waiting
      → b.filter_offsets ++ (length b.result % 2 ^ 32 ∷ [])
        ≡ offsets_from 0 (groups ++ (waiting ∷ []))
  generate_filter-offsets b groups waiting h =
      rw (h.offsets, h.result, offsets_from-snoc 0 groups waiting)
        (ap (λ (t : ℕ). offsets_from 0 groups ++ (t % 2 ^ 32 ∷ [])) (omega arith))

  -- GenerateFilter makes one filter, of the keys that wait.
  pub generate_filter-Holds :
      (b : FilterBlockBuilder) (groups : List (List (List ℕ))) (waiting : List (List ℕ))
      → IsFilterPolicy policy
      → Holds b groups waiting
      → Holds (generate_filter policy b) (groups ++ (waiting ∷ [])) []
  unfolding generate_filter
  generate_filter-Holds b groups [] is h = rw h.start (record {
    keys = h.keys;
    start = refl;
    result = h.result ∙ sym (filters_of-snoc groups [] ∙ append-nil (filters_of groups));
    offsets = generate_filter-offsets b groups [] h;
  })
  generate_filter-Holds b groups (k ∷ ks) is h = rw (starts_test b.start 0 k ks h.start) (record {
    keys = refl;
    start = refl;
    result =
        rw
          (
            h.keys,
            h.start,
            h.result,
            slices-starts [] (k ∷ ks) (length (k ++ concat ks)) (omega arith),
            is.appends (k ∷ ks) (filters_of groups),
            filters_of-snoc groups (k ∷ ks),
          )
          refl;
    offsets = generate_filter-offsets b groups (k ∷ ks) h;
  })

  pub generate_filters-Holds :
      (rounds : ℕ) (b : FilterBlockBuilder) (groups : List (List (List ℕ)))
      (waiting : List (List ℕ))
      → IsFilterPolicy policy
      → Holds b groups waiting
      → Holds
          (generate_filters policy rounds b)
          (advance rounds groups waiting).0
          (advance rounds groups waiting).1
  unfolding generate_filters
  generate_filters-Holds zero b groups waiting is h = h
  generate_filters-Holds (suc rounds) b groups waiting is h =
      generate_filters-Holds rounds (generate_filter policy b) (groups ++ (waiting ∷ [])) [] is
        (generate_filter-Holds b groups waiting is h)

  length-advance :
      (rounds : ℕ) (groups : List (List (List ℕ))) (waiting : List (List ℕ))
      → length (advance rounds groups waiting).0 ≡ length groups + rounds
  length-advance zero groups waiting = omega arith
  length-advance (suc rounds) groups waiting = omega (
    arith,
    length-advance rounds (groups ++ (waiting ∷ [])) [],
    length-append groups (waiting ∷ []),
  )

  length-offsets_from :
      (base : ℕ) (groups : List (List (List ℕ))) → length (offsets_from base groups) ≡ length groups
  length-offsets_from base [] = refl
  length-offsets_from base (g ∷ groups) =
      ap suc (length-offsets_from (base + length (filter_of g)) groups)

  -- StartBlock, at an offset whose 2 KiB range is not below the number of filters, makes filters up
  -- to that range, the first of the keys that wait and the others of none, so the next keys are of
  -- the filter with the range's index.
  pub start_block-Holds :
      (b : FilterBlockBuilder) (groups : List (List (List ℕ))) (waiting : List (List ℕ))
      (block_offset : ℕ)
      → IsFilterPolicy policy
      → Holds b groups waiting
      → length groups ≤ block_offset / 2 ^ 11
      → Holds
          (start_block policy block_offset b)
          (advance (block_offset / 2 ^ 11 - length groups) groups waiting).0
          (advance (block_offset / 2 ^ 11 - length groups) groups waiting).1
        × (length (advance (block_offset / 2 ^ 11 - length groups) groups waiting).0
            ≡ block_offset / 2 ^ 11)
  unfolding start_block
  start_block-Holds b groups waiting block_offset is h above = (
    rw made (generate_filters-Holds (block_offset / 2 ^ 11 - length groups) b groups waiting is h),
    omega (arith, length-advance (block_offset / 2 ^ 11 - length groups) groups waiting),
  )
    where
      made : length b.filter_offsets ≡ length groups
      made = ap (λ (t : List ℕ). length t) h.offsets ∙ length-offsets_from 0 groups
