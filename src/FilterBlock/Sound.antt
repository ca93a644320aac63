-- ===== src/FilterBlock/Sound.antt =====
-- KeyMayMatch on a finished filter block.
use tleveldb.Base.{
  ℕ, suc, ◌+◌, ◌-◌, ◌*◌, ◌/◌, ◌%◌, ◌^◌, ◌<◌, ◌≤◌, ◌≡◌, refl, sym, ap, ◌∙◌, true, List, [], ◌∷◌,
  ◌++◌, leb, length, take, drop, length-append, append_assoc, take-append, drop-append, lt→ltb,
  arith,
}
use tleveldb.Coding.{decode_fixed32}
use tleveldb.Bloom.Match.{Has}
use tleveldb.FilterPolicy.{FilterPolicy}
use tleveldb.FilterPolicy.Sound.{IsFilterPolicy}
use tleveldb.FilterBlock.{
  FilterBlockBuilder, FilterBlockReader, finish, new_reader, block_may_match,
}
use tleveldb.FilterBlock.Build.{filter_of, filters_of, offsets_from, Holds}
use tleveldb.Coding.Arrays.{encode_all, offset_at}
use tleveldb.FilterBlock.Layout.{contents_of, finished, finish-contents_of}
use tleveldb.FilterBlock.Reader.{block_of, reader_of, new_reader-block_of}

leb-true : (a b : ℕ) → a ≤ b → leb a b ≡ true
leb-true a b h = ground arith

-- The piece of `before ++ (mine ++ after)` between its two ends.
middle :
    (before mine after tail : List ℕ)
    → take
        (length before + length mine - length before)
        (drop (length before) ((before ++ (mine ++ after)) ++ tail))
      ≡ mine
middle before mine after tail =
    rw
      (
        append_assoc before (mine ++ after) tail,
        append_assoc mine after tail,
        drop-append before (mine ++ (after ++ tail)) (length before) refl,
      )
      (take-append mine (after ++ tail) (length before + length mine - length before) (omega arith))

module _ (policy : FilterPolicy) where
  -- The filter between the offsets at the block's index is asked.
  asks :
      (r : FilterBlockReader) (block_offset index start limit : ℕ) (key : List ℕ)
      → block_offset / 2 ^ r.base_lg ≡ index
      → index < r.num
      → decode_fixed32 (drop (r.offset + index * 4) r.contents) ≡ start
      → decode_fixed32 (drop (r.offset + index * 4 + 4) r.contents) ≡ limit
      → start ≤ limit
      → limit ≤ r.offset
      → block_may_match policy r block_offset key
        ≡ policy.may_match key (take (limit - start) (drop start r.contents))
  unfolding block_may_match
  asks r block_offset index start limit key at inside first second order bound =
      rw
        (
          at,
          lt→ltb index r.num inside,
          first,
          second,
          leb-true start limit order,
          leb-true limit r.offset bound,
        )
        refl

  filters_of-append :
      (pre rest : List (List (List ℕ)))
      → filters_of policy (pre ++ rest) ≡ filters_of policy pre ++ filters_of policy rest
  filters_of-append [] rest = refl
  filters_of-append (g ∷ pre) rest =
      ap (λ t. filter_of policy g ++ t) (filters_of-append pre rest)
      ∙ sym (append_assoc (filter_of policy g) (filters_of policy pre) (filters_of policy rest))

  offsets_from-append :
      (base : ℕ) (pre rest : List (List (List ℕ)))
      → offsets_from policy base (pre ++ rest)
        ≡ offsets_from policy base pre
          ++ offsets_from policy (base + length (filters_of policy pre)) rest
  offsets_from-append base [] rest = ap (λ (t : ℕ). offsets_from policy t rest) (omega arith)
  offsets_from-append base (g ∷ pre) rest =
      ap (λ t. base % 2 ^ 32 ∷ t)
        (offsets_from-append (base + length (filter_of policy g)) pre rest
          ∙ ap
              (λ (t : ℕ).
                offsets_from policy (base + length (filter_of policy g)) pre
                ++ offsets_from policy t rest)
              (omega (arith, length-append (filter_of policy g) (filters_of policy pre))))

  length-offsets_from :
      (base : ℕ) (groups : List (List (List ℕ)))
      → length (offsets_from policy base groups) ≡ length groups
  length-offsets_from base [] = refl
  length-offsets_from base (g ∷ groups) =
      ap suc (length-offsets_from (base + length (filter_of policy g)) groups)

  -- Behind the offset of a filter stands the offset of its end.
  offsets_next :
      (base end : ℕ) (g : List (List ℕ)) (post : List (List (List ℕ)))
      → end ≡ base + length (filters_of policy (g ∷ post))
      → (rest : List ℕ) × (offsets_from policy base (g ∷ post) ++ (end % 2 ^ 32 ∷ [])
          ≡ base % 2 ^ 32 ∷ (base + length (filter_of policy g)) % 2 ^ 32 ∷ rest)
  offsets_next base end g [] e = (
    [],
    ap (λ (t : ℕ). base % 2 ^ 32 ∷ t % 2 ^ 32 ∷ [])
        (omega (arith, length-append (filter_of policy g) [])),
  )
  offsets_next base end g (h ∷ post) e = (
    offsets_from policy (base + length (filter_of policy g) + length (filter_of policy h)) post
        ++ (end % 2 ^ 32 ∷ []),
    refl,
  )

  -- The two offsets at the index of a group.
  offsets_around :
      (pre post : List (List (List ℕ))) (g : List (List ℕ))
      → (rest : List ℕ) × (offsets_from policy 0 (pre ++ (g ∷ post))
            ++ (length (filters_of policy (pre ++ (g ∷ post))) % 2 ^ 32 ∷ [])
          ≡ offsets_from policy 0 pre
            ++ ((0 + length (filters_of policy pre)) % 2 ^ 32
                ∷ (0 + length (filters_of policy pre) + length (filter_of policy g)) % 2 ^ 32
                ∷ rest))
  offsets_around pre post g =
      let all = filters_of policy (pre ++ (g ∷ post)) in
      let (rest, next) = offsets_next (0 + length (filters_of policy pre)) (length all) g post (
        omega (
          arith,
          length-append (filters_of policy pre) (filters_of policy (g ∷ post)),
          ap (λ (t : List ℕ). length t) (filters_of-append pre (g ∷ post)),
        )) in
      (
        rest,
        ap (λ t. t ++ (length all % 2 ^ 32 ∷ [])) (offsets_from-append 0 pre (g ∷ post))
            ∙ (append_assoc (offsets_from policy 0 pre)
                  (offsets_from policy (0 + length (filters_of policy pre)) (g ∷ post))
                  (length all % 2 ^ 32 ∷ [])
                ∙ ap (λ t. offsets_from policy 0 pre ++ t) next),
      )

  filter_of-create :
      (g : List (List ℕ)) (key : List ℕ) → Has key g → filter_of policy g ≡ policy.create g []
  filter_of-create [] key there = elim there [ ]
  filter_of-create (k ∷ ks) key there = refl

  -- The reader of a block finds each key of a group at the block offsets of that group.
  may_match-contents_of :
      (pre post : List (List (List ℕ))) (g : List (List ℕ)) (block_offset : ℕ) (key : List ℕ)
      → IsFilterPolicy policy
      → length (filters_of policy (pre ++ (g ∷ post))) < 2 ^ 32
      → block_offset / 2 ^ 11 ≡ length pre
      → Has key g
      → block_may_match policy
          (new_reader (contents_of policy (pre ++ (g ∷ post))))
          block_offset
          key
        ≡ true
  may_match-contents_of pre post g block_offset key is small at there =
      ap (λ t. block_may_match policy t block_offset key) (new_reader-block_of all os small)
      ∙ (asks (reader_of all os) block_offset (length pre) (length before)
            (length before + length mine) key at inside first second (omega arith)
            (omega (arith, size))
          ∙ (ap (policy.may_match key) piece ∙ is.matches g key there))
    where
      before : List ℕ
      before = filters_of policy pre

      mine : List ℕ
      mine = filter_of policy g

      after : List ℕ
      after = filters_of policy post

      all : List ℕ
      all = filters_of policy (pre ++ (g ∷ post))

      os : List ℕ
      os = offsets_from policy 0 (pre ++ (g ∷ post))

      parts : all ≡ before ++ (mine ++ after)
      parts = filters_of-append pre (g ∷ post)

      size : length all ≡ length before + length mine + length after
      size =
          ap (λ (t : List ℕ). length t) parts
          ∙ omega (arith, length-append before (mine ++ after), length-append mine after)

      inside : length pre < length os
      inside =
          omega (arith, length-offsets_from 0 (pre ++ (g ∷ post)), length-append pre (g ∷ post))

      around :
          (rest : List ℕ) × (os ++ (length all % 2 ^ 32 ∷ [])
            ≡ offsets_from policy 0 pre
              ++ ((0 + length before) % 2 ^ 32 ∷ (0 + length before + length mine) % 2 ^ 32 ∷ rest))
      around = offsets_around pre post g

      first : decode_fixed32 (drop (length all + length pre * 4) (block_of all os)) ≡ length before
      first =
          ap
            (λ t.
              decode_fixed32
                (drop (length all + length pre * 4) (all ++ (encode_all t ++ (11 ∷ [])))))
            around.1
          ∙ (offset_at all (offsets_from policy 0 pre) ((0 + length before) % 2 ^ 32)
                ((0 + length before + length mine) % 2 ^ 32 ∷ around.0) (11 ∷ [])
                (length all + length pre * 4) (omega (arith, length-offsets_from 0 pre))
                (omega arith)
              ∙ omega (arith, size))

      second :
          decode_fixed32 (drop (length all + length pre * 4 + 4) (block_of all os))
          ≡ length before + length mine
      second =
          ap
            (λ t.
              decode_fixed32
                (drop (length all + length pre * 4 + 4) (all ++ (encode_all t ++ (11 ∷ [])))))
            (around.1
              ∙ sym (
                  append_assoc (offsets_from policy 0 pre) ((0 + length before) % 2 ^ 32 ∷ [])
                    ((0 + length before + length mine) % 2 ^ 32 ∷ around.0)))
          ∙ (offset_at all (offsets_from policy 0 pre ++ ((0 + length before) % 2 ^ 32 ∷ []))
                ((0 + length before + length mine) % 2 ^ 32) around.0 (11 ∷ [])
                (length all + length pre * 4 + 4)
                (omega (
                  arith,
                  length-offsets_from 0 pre,
                  length-append (offsets_from policy 0 pre) ((0 + length before) % 2 ^ 32 ∷ []),
                ))
                (omega arith)
              ∙ omega (arith, size))

      piece :
          take
            (length before + length mine - length before)
            (drop (length before) (block_of all os))
          ≡ policy.create g []
      piece =
          ap
            (λ t. take (length before + length mine - length before) (
              drop (length before)
                (t ++ (encode_all (os ++ (length all % 2 ^ 32 ∷ [])) ++ (11 ∷ [])))))
            parts
          ∙ (middle before mine after (encode_all (os ++ (length all % 2 ^ 32 ∷ [])) ++ (11 ∷ []))
              ∙ filter_of-create g key there)

  -- With a sound policy, a reader of the filter block that Finish wrote says of each key in the
  -- group of a block's 2 KiB range, made before or among the keys that waited, that it may match,
  -- where all filters together have fewer than 2^32 bytes.
  pub may_match-finish :
      (b : FilterBlockBuilder) (groups : List (List (List ℕ))) (waiting : List (List ℕ))
      (pre post : List (List (List ℕ))) (g : List (List ℕ)) (block_offset : ℕ) (key : List ℕ)
      → IsFilterPolicy policy
      → Holds policy b groups waiting
      → finished groups waiting ≡ pre ++ (g ∷ post)
      → length (filters_of policy (pre ++ (g ∷ post))) < 2 ^ 32
      → block_offset / 2 ^ 11 ≡ length pre
      → Has key g
      → block_may_match policy (new_reader (finish policy b)) block_offset key ≡ true
  may_match-finish b groups waiting pre post g block_offset key is h shape small at there =
      ap (λ t. block_may_match policy (new_reader t) block_offset key)
        (finish-contents_of policy b groups waiting is h ∙ ap (contents_of policy) shape)
      ∙ may_match-contents_of pre post g block_offset key is small at there
