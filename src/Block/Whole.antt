-- ===== src/Block/Whole.antt =====
-- A block that was built, read from its first entry on.
use tleveldb.Base.{
  ℕ, ◌+◌, ◌-◌, ◌*◌, ◌/◌, ◌%◌, ◌^◌, ◌<◌, ◌≡◌, refl, sym, ap, ◌∙◌, false, List, [], ◌∷◌, ◌++◌, All,
  ◌==◌, length, drop, ltb-false, append-nil, length-append, arith,
}
use tleveldb.Coding.{decode_fixed32}
use tleveldb.Coding.Arrays.{encode_all, length-encode_all, offset_at}
use tleveldb.Block.{new_builder, finish}
use tleveldb.Block.Iter.{
  new_block, num_restarts_of, Iter, new_iter, get_restart_point, seek_to_restart_point,
  seek_to_first,
}
use tleveldb.Block.Seek.{new_iterator, iterator}
use tleveldb.Block.Built.{Sizes, add_all, add_all-Run, finish-encode_all}
use tleveldb.Block.Scan.{Yields, Before, yields}

-- The entries of a block and its restart points.
abbrev block_of : List ℕ → List ℕ → List ℕ
block_of bytes restarts = bytes ++ encode_all (restarts ++ (length restarts % 2 ^ 32 ∷ []))

length-block_of :
    (bytes restarts : List ℕ)
    → length (block_of bytes restarts) ≡ length bytes + 4 * length restarts + 4
length-block_of bytes restarts = omega (
  arith,
  length-append bytes (encode_all (restarts ++ (length restarts % 2 ^ 32 ∷ []))),
  length-encode_all (restarts ++ (length restarts % 2 ^ 32 ∷ [])),
  length-append restarts (length restarts % 2 ^ 32 ∷ []),
)

num_restarts_read :
    (bytes restarts : List ℕ)
    → length (block_of bytes restarts) < 2 ^ 32
    → num_restarts_of (block_of bytes restarts) (length (block_of bytes restarts)) ≡ length restarts
unfolding num_restarts_of
num_restarts_read bytes restarts small =
    ap (λ t. decode_fixed32 (drop (length (block_of bytes restarts) - 4) (bytes ++ t)))
      (sym (append-nil (encode_all (restarts ++ (length restarts % 2 ^ 32 ∷ [])))))
    ∙ offset_at bytes restarts (length restarts % 2 ^ 32) [] []
        (length (block_of bytes restarts) - 4) (omega (arith, length-block_of bytes restarts))
        (omega arith)
    ∙ omega (arith, length-block_of bytes restarts)

first_restart_read :
    (bytes more tail : List ℕ)
    → decode_fixed32 (drop (length bytes + 0 * 4) (bytes ++ encode_all (0 ∷ (more ++ tail)))) ≡ 0
first_restart_read bytes more tail =
    ap (λ t. decode_fixed32 (drop (length bytes + 0 * 4) (bytes ++ t)))
      (sym (append-nil (encode_all (0 ∷ (more ++ tail)))))
    ∙ offset_at bytes [] 0 (more ++ tail) [] (length bytes + 0 * 4) (omega arith) (omega arith)

new_block-block_of :
    (bytes restarts : List ℕ)
    → length (block_of bytes restarts) < 2 ^ 32
    → new_block (block_of bytes restarts) ≡ record {
      contents = block_of bytes restarts;
      size = length (block_of bytes restarts);
      restart_offset = length bytes;
    }
unfolding new_block
new_block-block_of bytes restarts small =
    rw
      (
        num_restarts_read bytes restarts small,
        ltb-false (length (block_of bytes restarts)) 4 (omega (arith, size)),
        ltb-false ((length (block_of bytes restarts) - 4) / 4) (length restarts)
            (omega (arith, size)),
        offset,
      )
      refl
  where
    size : length (block_of bytes restarts) ≡ length bytes + 4 * length restarts + 4
    size = length-block_of bytes restarts

    offset :
        (length (block_of bytes restarts) - (1 + length restarts) % 2 ^ 32 * 4) % 2 ^ 32
        ≡ length bytes
    offset = omega (arith, size)

-- The iterator of a built block.
built_iter : (bytes restarts : List ℕ) → Iter
built_iter bytes restarts = new_iter (block_of bytes restarts) (length bytes) (length restarts)

new_iterator-built :
    (bytes restarts : List ℕ)
    → length (block_of bytes restarts) < 2 ^ 32
    → 0 < length restarts
    → new_iterator (new_block (block_of bytes restarts)) ≡ iterator (built_iter bytes restarts)
unfolding new_iterator built_iter
new_iterator-built bytes restarts small some_restart =
    rw
      (
        new_block-block_of bytes restarts small,
        num_restarts_read bytes restarts small,
        ltb-false (length (block_of bytes restarts)) 4
            (omega (arith, length-block_of bytes restarts)),
        not_zero (length restarts) some_restart,
      )
      refl
  where
    not_zero : (n : ℕ) → 0 < n → (n == 0) ≡ false
    not_zero n h = ground arith

-- At the first restart point the iterator stands before the first entry.
Before-seek_to_restart_point :
    (bytes more : List ℕ)
    → length (block_of bytes (0 ∷ more)) < 2 ^ 32
    → Before
        (seek_to_restart_point 0 (built_iter bytes (0 ∷ more)))
        []
        []
        bytes
        (encode_all ((0 ∷ more) ++ (length (0 ∷ more) % 2 ^ 32 ∷ [])))
unfolding seek_to_restart_point get_restart_point built_iter new_iter
Before-seek_to_restart_point bytes more small = record {
  contents = refl;
  restarts = omega arith;
  offset =
      ap (λ (t : ℕ). (t + 0) % 2 ^ 32)
        (first_restart_read bytes more (length (0 ∷ more) % 2 ^ 32 ∷ []));
  last_key = refl;
  status = refl;
  small = omega (arith, length-block_of bytes (0 ∷ more));
}

-- A block that Add filled with entries and Finish closed, below 4 GiB and each key and value
-- together below 2^32 bytes, opens to an iterator that gives these entries in their order from
-- SeekToFirst on by Next, and then is not valid, with OK.
pub Yields-add_all :
    (interval : ℕ) (entries : List (List ℕ × List ℕ))
    → All Sizes entries
    → length (finish (add_all interval entries new_builder)).buffer < 2 ^ 32
    → (i : Iter) × (new_iterator (new_block (finish (add_all interval entries new_builder)).buffer)
        ≡ iterator i)
      × Yields (seek_to_first i) entries
unfolding seek_to_first
Yields-add_all interval entries sizes small =
    let (bytes, run, buffer, (more, restarts)) = add_all-Run interval entries new_builder sizes in
    let whole : (finish (add_all interval entries new_builder)).buffer ≡ block_of bytes (0 ∷ more) =
      rw (finish-encode_all (add_all interval entries new_builder), buffer, restarts) refl in
    let small' : length (block_of bytes (0 ∷ more)) < 2 ^ 32 = rw (← whole) small in
    (
      built_iter bytes (0 ∷ more),
      ap (λ t. new_iterator (new_block t)) whole
          ∙ new_iterator-built bytes (0 ∷ more) small' (omega arith),
      yields entries (seek_to_restart_point 0 (built_iter bytes (0 ∷ more))) [] _ run
          (Before-seek_to_restart_point bytes more small') sizes,
    )
