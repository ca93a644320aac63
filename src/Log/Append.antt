-- ===== src/Log/Append.antt =====
-- AddRecord writes a record to a file that accepts all, in the layout of a log.
use mathlib.Core.Path.{subst}
use tleveldb.Base.{
  ◌≢◌, ℕ, zero, suc, ◌+◌, ◌-◌, ◌<◌, ◌≤◌, ◌≡◌, refl, sym, ap, ◌∙◌, ◌⊎◌, inl, inr, Bool, true, false,
  List, [], ◌++◌, length, take, drop, replicate, append_assoc, take-append-drop, length-take,
  length-drop, ==_self, arith,
}
use tleveldb.Status.{Status}
use tleveldb.Log.{Checksum, WritableFile, Accepts, block_size, header_size, physical}
use tleveldb.Log.Writer.{
  Writer, emit_physical_record, switch_block, fragment_type, add_loop, add_record,
}
use tleveldb.Log.Layout.{Written, skip, last, more, final_type, open_type}
use tleveldb.Log.Emit.{
  min_length, min_avail, differs, take_whole, drop_whole, Wrote, emit-Wrote, switch_block-dest,
  switch_block-offset, switch_block_room, add_loop-switch, Adds, while_left-nil, while_left-cons,
}

module _ (crc : Checksum) (files : WritableFile) (contents : files.File → List ℕ) where
  -- The last fragment of a record.
  add_last :
      (fuel : ℕ) (begin : Bool) (slice : List ℕ) (w : Writer crc files)
      → Accepts files contents
      → w.block_offset + header_size + length slice ≤ block_size
      → Adds crc files contents begin slice w (add_loop crc files (suc fuel) begin slice w)
  unfolding add_loop
  add_last fuel begin slice w is h =
      rw
        (
          switch_block_room crc files contents w (omega arith),
          min_length slice (block_size - w.block_offset - header_size) (omega arith),
          ==_self (length slice),
          whole_type begin,
          take_whole slice,
          drop_whole slice,
          while_left-nil crc files contents
              (emit_physical_record crc files (final_type begin) slice w) []
              (add_loop crc files fuel false []) refl,
        )
        (
          physical crc (final_type begin) slice,
          w.block_offset + (header_size + length slice),
          last begin w.block_offset slice h,
          emit-Wrote crc files contents (final_type begin) slice w is,
          omega arith,
        )
    where
      whole_type : (begin : Bool) → fragment_type crc files begin true ≡ final_type begin
      whole_type true = unfold fragment_type in refl
      whole_type false = unfold fragment_type in refl

  -- A fragment that fills the block, and the fragments behind it.
  add_more :
      (fuel : ℕ) (begin : Bool) (slice : List ℕ) (w : Writer crc files)
      → Accepts files contents
      → w.block_offset + header_size ≤ block_size
      → block_size < w.block_offset + header_size + length slice
      → ((w' : Writer crc files)
          → w'.block_offset ≡ block_size
          → Adds crc files contents false
              (drop (block_size - w.block_offset - header_size) slice)
              w'
              (add_loop crc files fuel false
                (drop (block_size - w.block_offset - header_size) slice)
                w'))
      → Adds crc files contents begin slice w (add_loop crc files (suc fuel) begin slice w)
  unfolding add_loop
  add_more fuel begin slice w is h h' again =
      let (bytes, b', others, wrote', bound) = again w' (emitted.offset ∙ filled) in
      rw
        (
          switch_block_room crc files contents w h,
          min_avail slice avail (omega arith),
          differs (length slice) avail (omega arith),
          part_type begin,
          while_left-cons crc files contents result left (add_loop crc files fuel false left)
              (omega (arith, length-drop avail slice)) emitted.status,
        )
        (
          physical crc (open_type begin) chunk ++ bytes,
          b',
          subst
              (λ (t : List ℕ).
                Written crc begin w.block_offset t (physical crc (open_type begin) chunk ++ bytes)
                  b')
              (take-append-drop avail slice)
              (more begin w.block_offset chunk left bytes b' (omega (arith, size))
                (omega (arith, length-drop avail slice))
                (subst (λ (t : ℕ). Written crc false t left bytes b') emitted.offset others)),
          record {
            status = wrote'.status;
            bytes_added =
                wrote'.bytes_added
                ∙ ap (λ t. t ++ bytes) emitted.bytes_added
                ∙ append_assoc (contents w.dest) (physical crc (open_type begin) chunk) bytes;
            offset = wrote'.offset;
          },
          bound,
        )
    where
      avail : ℕ
      avail = block_size - w.block_offset - header_size

      chunk : List ℕ
      chunk = take avail slice

      left : List ℕ
      left = drop avail slice

      result : Status × Writer crc files
      result = emit_physical_record crc files (open_type begin) chunk w

      w' : Writer crc files
      w' = result.1

      size : length chunk ≡ avail
      size = omega (arith, length-take avail slice)

      emitted :
          Wrote crc files contents w
            (physical crc (open_type begin) chunk)
            (w.block_offset + (header_size + length chunk))
            result
      emitted = emit-Wrote crc files contents (open_type begin) chunk w is

      filled : w.block_offset + (header_size + length chunk) ≡ block_size
      filled = omega (arith, size)

      part_type : (begin : Bool) → fragment_type crc files begin false ≡ open_type begin
      part_type true = unfold fragment_type in refl
      part_type false = unfold fragment_type in refl

  -- Where no header fits, the zeros come first.
  behind_zeros :
      (fuel : ℕ) (begin : Bool) (slice : List ℕ) (w : Writer crc files)
      → Accepts files contents
      → block_size < w.block_offset + header_size
      → w.block_offset ≤ block_size
      → Adds crc files contents begin slice
          (switch_block crc files w)
          (add_loop crc files (suc fuel) begin slice (switch_block crc files w))
      → Adds crc files contents begin slice w (add_loop crc files (suc fuel) begin slice w)
  behind_zeros fuel begin slice w is none_left bound (bytes, b', others, wrote, bound') = (
    replicate (block_size - w.block_offset) 0 ++ bytes,
    b',
    skip begin w.block_offset slice bytes b' none_left bound (
        subst (λ (t : ℕ). Written crc begin t slice bytes b')
          (switch_block-offset crc files contents w none_left) others),
    rw (sym (add_loop-switch crc files contents fuel begin slice w none_left)) (record {
      status = wrote.status;
      bytes_added =
          wrote.bytes_added
          ∙ ap (λ t. t ++ bytes) (switch_block-dest crc files contents w is none_left bound)
          ∙ append_assoc (contents w.dest) (replicate (block_size - w.block_offset) 0) bytes;
      offset = wrote.offset;
    }),
    bound',
  )

  -- Rounds enough: only the first may take nothing, where a block has room for a header alone.
  abbrev Enough : ℕ → ℕ → ℕ → Type 0
  Enough fuel n b = (n + 2 ≤ fuel) ⊎ ((n + 1 ≤ fuel) × (b + header_size ≢ block_size))

  room_or_not : (b : ℕ) → (block_size < b + header_size) ⊎ (b + header_size ≤ block_size)
  room_or_not b = ground arith

  fits_or_not : (b n : ℕ) → (b + header_size + n ≤ block_size) ⊎ (block_size < b + header_size + n)
  fits_or_not b n = ground arith

  -- The loop with a header's room in the block, if it is right with one round less.
  add_with_room :
      (fuel : ℕ) (begin : Bool) (slice : List ℕ) (w : Writer crc files)
      → Accepts files contents
      → w.block_offset + header_size ≤ block_size
      → Enough (suc fuel) (length slice) w.block_offset
      → ((slice' : List ℕ) (w' : Writer crc files)
          → w'.block_offset ≡ block_size
          → length slice' + 1 ≤ fuel
          → Adds crc files contents false slice' w' (add_loop crc files fuel false slice' w'))
      → Adds crc files contents begin slice w (add_loop crc files (suc fuel) begin slice w)
  add_with_room fuel begin slice w is room enough again =
      elim (fits_or_not w.block_offset (length slice)) [
        | inl fits ↦ add_last fuel begin slice w is fits
        | inr longer ↦ add_more fuel begin slice w is room longer (λ w' full.
            again (drop (block_size - w.block_offset - header_size) slice) w' full
              (less_left enough longer))
      ]
    where
      less_left :
          Enough (suc fuel) (length slice) w.block_offset
          → block_size < w.block_offset + header_size + length slice
          → length (drop (block_size - w.block_offset - header_size) slice) + 1 ≤ fuel
      less_left (inl much) longer =
          omega (arith, length-drop (block_size - w.block_offset - header_size) slice)
      less_left (inr (some_fuel, progress)) longer =
          grind (arith, length-drop (block_size - w.block_offset - header_size) slice)

  -- With rounds enough, the loop writes the rest of a record in the layout of a log.
  add_loop-Adds :
      (fuel : ℕ) (begin : Bool) (slice : List ℕ) (w : Writer crc files)
      → Accepts files contents
      → w.block_offset ≤ block_size
      → Enough fuel (length slice) w.block_offset
      → Adds crc files contents begin slice w (add_loop crc files fuel begin slice w)
  add_loop-Adds zero begin slice w is bound enough = absurd (never enough)
    where
      never : Enough zero (length slice) w.block_offset → ⊥
      never (inl much) = omega arith
      never (inr (some_fuel, progress)) = omega arith
  add_loop-Adds (suc fuel) begin slice w is bound enough =
      let again =
        λ (slice' : List ℕ) (w' : Writer crc files) (full : w'.block_offset ≡ block_size)
            (left_fuel : length slice' + 1 ≤ fuel).
          add_loop-Adds fuel false slice' w' is (omega arith) (inr (left_fuel, omega arith)) in
      elim (room_or_not w.block_offset) [
        | inr room ↦ add_with_room fuel begin slice w is room enough again
        | inl none_left ↦ behind_zeros fuel begin slice w is none_left bound (
            add_with_room fuel begin slice (switch_block crc files w) is
              (rw (switch_block-offset crc files contents w none_left) (omega arith))
              (rw (switch_block-offset crc files contents w none_left) (begin_enough enough)) again)
      ]
    where
      begin_enough :
          Enough (suc fuel) (length slice) w.block_offset → Enough (suc fuel) (length slice) 0
      begin_enough (inl much) = inl much
      begin_enough (inr (some_fuel, progress)) = inr (some_fuel, omega arith)

  -- AddRecord ends, with OK, and appends the record in the layout of a log.
  pub add_record-Adds :
      (slice : List ℕ) (w : Writer crc files)
      → Accepts files contents
      → w.block_offset ≤ block_size
      → Adds crc files contents true slice w (add_record crc files slice w)
  unfolding add_record
  add_record-Adds slice w is bound =
      add_loop-Adds (length slice + 2) true slice w is bound (inl (omega arith))
