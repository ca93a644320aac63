-- ===== src/FilterBlock/Layout.antt =====
-- The bytes of a finished filter block, and the offsets read from them.
use tleveldb.Base.{
  ℕ, ◌%◌, ◌^◌, ◌≡◌, refl, sym, ap, ◌∙◌, List, [], ◌∷◌, ◌++◌, ◌==◌, length, append_assoc, append-nil,
}
use tleveldb.Coding.{encode_fixed32, put_fixed32}
use tleveldb.Coding.Arrays.{encode_all, encode_all-append}
use tleveldb.FilterPolicy.{FilterPolicy}
use tleveldb.FilterPolicy.Sound.{IsFilterPolicy}
use tleveldb.FilterBlock.{FilterBlockBuilder, generate_filter, put_offsets, finish}
use tleveldb.FilterBlock.Build.{filters_of, offsets_from, Holds, starts_test, generate_filter-Holds}

put_offsets-encode_all : (os result : List ℕ) → put_offsets result os ≡ result ++ encode_all os
unfolding put_offsets put_fixed32
put_offsets-encode_all [] result = sym (append-nil result)
put_offsets-encode_all (o ∷ os) result =
    put_offsets-encode_all os (result ++ encode_fixed32 o)
    ∙ append_assoc result (encode_fixed32 o) (encode_all os)

-- Keys that still wait make a last filter.
abbrev pub finished : List (List (List ℕ)) → List (List ℕ) → List (List (List ℕ))
finished groups [] = groups
finished groups (k ∷ ks) = groups ++ ((k ∷ ks) ∷ [])

module _ (policy : FilterPolicy) where
  -- The filters, their offsets and the place of these, and the byte that says how long a range is.
  abbrev pub contents_of : List (List (List ℕ)) → List ℕ
  contents_of groups =
      filters_of policy groups
      ++ (encode_all
            (offsets_from policy 0 groups ++ (length (filters_of policy groups) % 2 ^ 32 ∷ []))
          ++ (11 ∷ []))

  written :
      (b : FilterBlockBuilder) (groups : List (List (List ℕ))) (waiting : List (List ℕ))
      → Holds policy b groups waiting
      → put_fixed32 (put_offsets b.result b.filter_offsets) (length b.result % 2 ^ 32) ++ (11 ∷ [])
        ≡ contents_of groups
  unfolding put_fixed32
  written b groups waiting h =
      rw
        (
          put_offsets-encode_all b.filter_offsets b.result,
          h.result,
          h.offsets,
          encode_all-append (offsets_from policy 0 groups)
              (length (filters_of policy groups) % 2 ^ 32 ∷ []),
          append-nil (encode_fixed32 (length (filters_of policy groups) % 2 ^ 32)),
          append_assoc (filters_of policy groups) (encode_all (offsets_from policy 0 groups))
              (encode_fixed32 (length (filters_of policy groups) % 2 ^ 32)),
          append_assoc (filters_of policy groups)
              (encode_all (offsets_from policy 0 groups)
                ++ encode_fixed32 (length (filters_of policy groups) % 2 ^ 32))
              (11 ∷ []),
        )
        refl

  -- What Finish leaves behind is the block of all groups, the keys that wait among them.
  pub finish-contents_of :
      (b : FilterBlockBuilder) (groups : List (List (List ℕ))) (waiting : List (List ℕ))
      → IsFilterPolicy policy
      → Holds policy b groups waiting
      → finish policy b ≡ contents_of (finished groups waiting)
  unfolding finish
  finish-contents_of b groups [] is h =
      rw (ap (λ (t : List ℕ). length t == 0) h.start) (written b groups [] h)
  finish-contents_of b groups (k ∷ ks) is h = rw (starts_test b.start 0 k ks h.start) (
      written (generate_filter policy b) (groups ++ ((k ∷ ks) ∷ [])) []
        (generate_filter-Holds policy b groups (k ∷ ks) is h))
