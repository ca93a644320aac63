-- ===== src/Block/Built.antt =====
-- The bytes of a finished block.
use native.Mathlib.Nat.{mod-eq_of_lt}
use mathlib.Core.Path.{subst}
use tleveldb.Base.{
  ℕ, ◌+◌, ◌-◌, ◌%◌, ◌^◌, ◌<◌, ◌≤◌, ◌≡◌, refl, sym, ap, ◌∙◌, List, [], ◌∷◌, ◌++◌, All, ltb, ◌==◌,
  length, take, drop, inl, inr, Bool-cases, ==_iff, append_assoc, append-nil, take-append-drop,
  arith,
}
use tleveldb.Coding.{put_fixed32, put_varint32, encode_fixed32}
use tleveldb.Coding.Arrays.{encode_all, encode_all-append}
use tleveldb.Block.{BlockBuilder, shared_length, put_entry, add, put_restarts, finish}
use tleveldb.Block.Entry.{entry_bytes}

-- `Run last entries bytes`: behind an entry with the key `last`, `bytes` are these entries, each
-- with a part of the key before it left out.
pub data Run : List ℕ → List (List ℕ × List ℕ) → List ℕ → Type 0 where
  no_more : (last : List ℕ) → Run last [] []
  entry :
      (last key value : List ℕ) (shared : ℕ) (entries : List (List ℕ × List ℕ)) (bytes : List ℕ)
      → shared ≤ length last
      → shared ≤ length key
      → take shared last ≡ take shared key
      → Run key entries bytes
      → Run last ((key, value) ∷ entries) (entry_bytes shared key value bytes)

shared_length-le :
    (last key : List ℕ)
    → (shared_length last key ≤ length last) × (shared_length last key ≤ length key)
unfolding shared_length
shared_length-le [] key = omega arith
shared_length-le (x ∷ last) [] = omega arith
shared_length-le (x ∷ last) (y ∷ key) = ground (arith, shared_length-le last key)

-- The bytes that the loop of Add counts are the same in both keys.
take-shared_length :
    (last key : List ℕ) → take (shared_length last key) last ≡ take (shared_length last key) key
unfolding shared_length
take-shared_length [] key = sym (take_none key)
  where
    take_none : (key : List ℕ) → take 0 key ≡ []
    take_none key = refl
take-shared_length (x ∷ last) [] = refl
take-shared_length (x ∷ last) (y ∷ key) = elim (Bool-cases (x == y)) [
  | inl same ↦ rw (same, (==_iff x y).0 same) (ap (λ t. y ∷ t) (take-shared_length last key))
  | inr other ↦ rw other refl
]

abbrev pub Sizes : List ℕ × List ℕ → Type 0
Sizes (key, value) = length key + length value < 2 ^ 32

put_entry-entry_bytes :
    (shared : ℕ) (key value buffer rest : List ℕ)
    → shared ≤ length key
    → length key + length value < 2 ^ 32
    → put_entry shared key value buffer ++ rest ≡ buffer ++ entry_bytes shared key value rest
unfolding put_entry put_varint32
put_entry-entry_bytes shared key value buffer rest inside small =
    rw
      (
        mod-eq_of_lt {n = shared} {m = 2 ^ 32} (omega arith),
        mod-eq_of_lt {n = length key - shared} {m = 2 ^ 32} (omega arith),
        mod-eq_of_lt {n = length value} {m = 2 ^ 32} (omega arith),
      )
      (simp (append_assoc))

whole_key :
    (shared : ℕ) (last key : List ℕ)
    → take shared last ≡ take shared key
    → take shared last ++ drop shared key ≡ key
whole_key shared last key same = rw same (take-append-drop shared key)

module _ (interval : ℕ) where
  -- A client that adds entries in their order.
  unfoldable pub add_all : List (List ℕ × List ℕ) → BlockBuilder → BlockBuilder
  add_all [] b = b
  add_all ((key, value) ∷ entries) b = add_all entries (add interval key value b)

  -- What Add does: it appends an entry, remembers the key, and may note a restart point.
  add_lem :
      (key value : List ℕ) (b : BlockBuilder)
      → length key + length value < 2 ^ 32
      → (shared : ℕ) × (shared ≤ length b.last_key)
        × (shared ≤ length key)
        × (take shared b.last_key ≡ take shared key)
        × ((rest : List ℕ)
            → (add interval key value b).buffer ++ rest
              ≡ b.buffer ++ entry_bytes shared key value rest)
        × ((add interval key value b).last_key ≡ key)
        × ((more : List ℕ) × ((add interval key value b).restarts ≡ b.restarts ++ more))
  unfolding add
  add_lem key value b small = elim (Bool-cases (ltb b.counter interval)) [
    | inl in_run ↦ rw in_run (
      shared_length b.last_key key,
      (shared_length-le b.last_key key).0,
      (shared_length-le b.last_key key).1,
      take-shared_length b.last_key key,
      λ rest.
          put_entry-entry_bytes (shared_length b.last_key key) key value b.buffer rest
            (shared_length-le b.last_key key).1 small,
      whole_key (shared_length b.last_key key) b.last_key key (take-shared_length b.last_key key),
      ([], sym (append-nil b.restarts)),
    )
    | inr restart ↦ rw restart (
      0,
      omega arith,
      omega arith,
      refl,
      λ rest. put_entry-entry_bytes 0 key value b.buffer rest (omega arith) small,
      refl,
      (length b.buffer % 2 ^ 32 ∷ [], refl),
    )
  ]

  -- All that is added lies in the buffer one behind another.
  pub add_all-Run :
      (entries : List (List ℕ × List ℕ)) (b : BlockBuilder)
      → All Sizes entries
      → (bytes : List ℕ) × Run b.last_key entries bytes
        × ((add_all entries b).buffer ≡ b.buffer ++ bytes)
        × ((more : List ℕ) × ((add_all entries b).restarts ≡ b.restarts ++ more))
  unfolding add_all
  add_all-Run [] b small =
      ([], no_more b.last_key, sym (append-nil b.buffer), ([], sym (append-nil b.restarts)))
  add_all-Run ((key, value) ∷ entries) b (small, others) =
      let (shared, low, inside, same, added, last, (more, restarts)) = add_lem key value b small in
      let (bytes, run, buffer, (more', restarts')) =
        add_all-Run entries (add interval key value b) others in
      (
        entry_bytes shared key value bytes,
        entry b.last_key key value shared entries bytes low inside same
            (subst (λ t. Run t entries bytes) last run),
        buffer ∙ added bytes,
        (
          more ++ more',
          restarts' ∙ ap (λ t. t ++ more') restarts ∙ append_assoc b.restarts more more',
        ),
      )

put_restarts-encode_all : (rs buffer : List ℕ) → put_restarts rs buffer ≡ buffer ++ encode_all rs
unfolding put_restarts put_fixed32
put_restarts-encode_all [] buffer = sym (append-nil buffer)
put_restarts-encode_all (r ∷ rs) buffer =
    put_restarts-encode_all rs (buffer ++ encode_fixed32 r)
    ∙ append_assoc buffer (encode_fixed32 r) (encode_all rs)

-- Finish puts the restart points behind the entries, and their number.
pub finish-encode_all :
    (b : BlockBuilder)
    → (finish b).buffer ≡ b.buffer ++ encode_all (b.restarts ++ (length b.restarts % 2 ^ 32 ∷ []))
unfolding finish put_fixed32
finish-encode_all b =
    rw
      (
        put_restarts-encode_all b.restarts b.buffer,
        encode_all-append b.restarts (length b.restarts % 2 ^ 32 ∷ []),
        append-nil (encode_fixed32 (length b.restarts % 2 ^ 32)),
      )
      (append_assoc b.buffer (encode_all b.restarts) (encode_fixed32 (length b.restarts % 2 ^ 32)))
