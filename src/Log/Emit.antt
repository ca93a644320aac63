-- ===== src/Log/Emit.antt =====
-- A physical record of EmitPhysicalRecord, and the switch to a new block.
use tleveldb.Base.{
  ℕ, zero, suc, ◌+◌, ◌-◌, ◌/◌, ◌%◌, ◌^◌, ◌<◌, ◌≤◌, ◌≡◌, refl, sym, ap, ◌∙◌, inl, inr, Bool, false,
  List, [], ◌∷◌, ◌++◌, ltb, ◌==◌, if◌then◌else◌, length, take, drop, replicate, append_assoc,
  append-nil, ltb-false, lt→ltb, arith, Bool-cases,
}
use tleveldb.Status.{Status, ok}
use tleveldb.Coding.{encode_fixed32}
use tleveldb.Crc32c.{mask}
use tleveldb.Log.{Checksum, WritableFile, Accepts, block_size, header_size, physical}
use tleveldb.Log.Writer.{
  Writer, type_crc, and_then, emit_physical_record, switch_block, while_left, add_loop,
}
use tleveldb.Log.Layout.{Written}

pub min_length :
    (slice : List ℕ) (avail : ℕ)
    → length slice ≤ avail
    → (if ltb (length slice) avail then length slice else avail) ≡ length slice
min_length slice avail h = ground arith

pub min_avail :
    (slice : List ℕ) (avail : ℕ)
    → avail < length slice
    → (if ltb (length slice) avail then length slice else avail) ≡ avail
min_avail slice avail h = ground arith

pub differs : (a b : ℕ) → b < a → (a == b) ≡ false
differs a b h = ground arith

pub take_whole : (s : List ℕ) → take (length s) s ≡ s
take_whole [] = refl
take_whole (x ∷ s) = ap (λ t. x ∷ t) (take_whole s)

pub drop_whole : (s : List ℕ) → drop (length s) s ≡ []
drop_whole [] = refl
drop_whole (x ∷ s) = drop_whole s

pub no_zeros : (n : ℕ) → ltb 0 n ≡ false → replicate {A = ℕ} n 0 ≡ []
no_zeros zero h = refl
no_zeros (suc n) h = absurd (ground arith)

module _ (crc : Checksum) (files : WritableFile) (contents : files.File → List ℕ) where
  -- The writer `w'` has written `bytes` behind what `w` had, and stands at `b'`.
  pub record Wrote (w : Writer crc files) (bytes : List ℕ) (b' : ℕ)
      (result : Status × Writer crc files) : Type 0 where
    pub status : result.0 ≡ ok
    pub bytes_added : contents result.1.dest ≡ contents w.dest ++ bytes
    pub offset : result.1.block_offset ≡ b'

  pub and_then-ok :
      (p : Status × files.File) (next : files.File → Status × files.File)
      → p.0 ≡ ok
      → and_then crc files p next ≡ next p.1
  and_then-ok (ok, f) next h = refl
  and_then-ok (bad, f) next h = cc

  pub emit-Wrote :
      (type : ℕ) (fragment : List ℕ) (w : Writer crc files)
      → Accepts files contents
      → Wrote w
          (physical crc type fragment)
          (w.block_offset + (header_size + length fragment))
          (emit_physical_record crc files type fragment w)
  unfolding emit_physical_record type_crc
  emit-Wrote type fragment w is =
      let stored = encode_fixed32 (mask (crc.extend (crc.extend 0 (type ∷ [])) fragment)) in
      let size : List ℕ = length fragment % 256 ∷ length fragment / 2 ^ 8 % 256 ∷ type ∷ [] in
      let header = stored ++ size in
      let first = files.append header w.dest in
      let second = files.append fragment first.1 in
      rw
        (
          and_then-ok first (λ f. and_then crc files (files.append fragment f) files.flush)
              (is.appended header w.dest),
          and_then-ok second files.flush (is.appended fragment first.1),
        )
        (record {
          status = is.flushed second.1;
          bytes_added =
              is.contents-flush second.1
              ∙ is.contents-append fragment first.1
              ∙ ap (λ t. t ++ fragment) (is.contents-append header w.dest)
              ∙ append_assoc (contents w.dest) header fragment
              ∙ ap (λ t. contents w.dest ++ t) (append_assoc stored size fragment);
          offset = refl;
        })

  -- The zeros that fill a block are written, and the writer stands at the begin of the next.
  pub switch_block-dest :
      (w : Writer crc files)
      → Accepts files contents
      → block_size < w.block_offset + header_size
      → w.block_offset ≤ block_size
      → contents (switch_block crc files w).dest
        ≡ contents w.dest ++ replicate (block_size - w.block_offset) 0
  unfolding switch_block
  switch_block-dest w is h h' = elim (Bool-cases (ltb 0 (block_size - w.block_offset))) [
    | inl some_left ↦
        rw (some_left, lt→ltb (block_size - w.block_offset) 7 (omega arith))
          (is.contents-append (replicate (block_size - w.block_offset) 0) w.dest)
    | inr none_left ↦
        rw
          (
            none_left,
            lt→ltb (block_size - w.block_offset) 7 (omega arith),
            no_zeros (block_size - w.block_offset) none_left,
          )
          (sym (append-nil (contents w.dest)))
  ]

  pub switch_block-offset :
      (w : Writer crc files)
      → block_size < w.block_offset + header_size
      → (switch_block crc files w).block_offset ≡ 0
  unfolding switch_block
  switch_block-offset w h = rw (lt→ltb (block_size - w.block_offset) 7 (omega arith)) refl

  pub switch_block_room :
      (w : Writer crc files)
      → w.block_offset + header_size ≤ block_size
      → switch_block crc files w ≡ w
  unfolding switch_block
  switch_block_room w h = rw (ltb-false (block_size - w.block_offset) 7 (omega arith)) refl

  -- The loop begins with this switch, and a second one changes nothing.
  pub add_loop-switch :
      (fuel : ℕ) (begin : Bool) (slice : List ℕ) (w : Writer crc files)
      → block_size < w.block_offset + header_size
      → add_loop crc files (suc fuel) begin slice (switch_block crc files w)
        ≡ add_loop crc files (suc fuel) begin slice w
  unfolding add_loop
  add_loop-switch fuel begin slice w none_left =
      rw
        (switch_block_room (switch_block crc files w)
          (rw (switch_block-offset w none_left) (omega arith)))
        refl

  -- What a run of the loop from `w` achieves.
  abbrev pub Adds : Bool → List ℕ → Writer crc files → Status × Writer crc files → Type 0
  Adds begin slice w result =
      (bytes : List ℕ) × (b' : ℕ) × Written crc begin w.block_offset slice bytes b'
      × Wrote w bytes b' result
      × (b' ≤ block_size)

  pub while_left-nil :
      (result : Status × Writer crc files) (left : List ℕ)
      (again : Writer crc files → Status × Writer crc files)
      → left ≡ []
      → while_left crc files result left again ≡ result
  while_left-nil (ok, w) left again e = rw e refl
  while_left-nil (bad, w) left again e = refl

  pub while_left-cons :
      (result : Status × Writer crc files) (left : List ℕ)
      (again : Writer crc files → Status × Writer crc files)
      → 0 < length left
      → result.0 ≡ ok
      → while_left crc files result left again ≡ again result.1
  while_left-cons (ok, w) [] again h e = absurd (omega arith)
  while_left-cons (ok, w) (x ∷ left) again h e = refl
  while_left-cons (bad, w) left again h e = cc
