-- ===== src/Log/Writer.antt =====
-- lib/leveldb/db/log_writer.cc: AddRecord cuts a record into fragments that fit the blocks.
use tleveldb.Base.{
  ℕ, zero, suc, ◌+◌, ◌-◌, ◌/◌, ◌%◌, ◌^◌, Bool, true, false, List, [], ◌∷◌, ◌++◌, ltb, ◌==◌,
  if◌then◌else◌, length, take, drop, replicate,
}
use tleveldb.Status.{Status, ok}
use tleveldb.Coding.{encode_fixed32}
use tleveldb.Crc32c.{mask}
use tleveldb.Log.{
  Checksum, WritableFile, full_type, first_type, middle_type, last_type, block_size, header_size,
}

module _ (crc : Checksum) (files : WritableFile) where
  pub record Writer : Type 0 where
    pub dest : files.File
    pub block_offset : ℕ

  unfoldable pub new_writer : files.File → Writer
  new_writer dest = record { dest = dest; block_offset = 0 }

  -- The constructor for a file of `dest_length` bytes.
  unfoldable pub new_writer_at : files.File → ℕ → Writer
  new_writer_at dest dest_length = record { dest = dest; block_offset = dest_length % block_size }

  -- An entry of `type_crc_`, which InitTypeCrc fills.
  unfoldable pub type_crc : ℕ → ℕ
  type_crc type = crc.extend 0 (type ∷ [])

  -- `if (s.ok())`: what follows is done only then.
  abbrev pub and_then :
      Status × files.File → (files.File → Status × files.File) → Status × files.File
  and_then (ok, f) next = next f
  and_then (bad, f) next = (bad, f)

  unfoldable pub emit_physical_record : ℕ → List ℕ → Writer → Status × Writer
  unfolding type_crc
  emit_physical_record type fragment w =
      let masked = mask (crc.extend (type_crc type) fragment) in
      let header =
        encode_fixed32 masked
        ++ (length fragment % 256 ∷ length fragment / 2 ^ 8 % 256 ∷ type ∷ []) in
      let (s, dest) =
        and_then (files.append header w.dest)
          (λ f. and_then (files.append fragment f) files.flush) in
      (s, record { dest = dest; block_offset = w.block_offset + (header_size + length fragment) })

  -- Switches to a new block where no header fits; the status of this Append is not looked at.
  unfoldable pub switch_block : Writer → Writer
  switch_block w =
      let leftover = block_size - w.block_offset in
      let dest =
        if ltb 0 leftover then (files.append (replicate leftover 0) w.dest).1 else w.dest in
      if ltb leftover header_size then record { dest = dest; block_offset = 0 } else w

  unfoldable pub fragment_type : (begin last : Bool) → ℕ
  fragment_type true true = full_type
  fragment_type true false = first_type
  fragment_type false true = last_type
  fragment_type false false = middle_type

  -- The condition of the loop, and its next round.
  abbrev pub while_left : Status × Writer → List ℕ → (Writer → Status × Writer) → Status × Writer
  while_left (ok, w) [] again = (ok, w)
  while_left (ok, w) (x ∷ left) again = again w
  while_left (bad, w) left again = (bad, w)

  unfoldable pub add_loop : ℕ → Bool → List ℕ → Writer → Status × Writer
  unfolding emit_physical_record switch_block fragment_type
  add_loop zero begin left w = (ok, w)
  add_loop (suc fuel) begin left w =
      let w' = switch_block w in
      let avail = block_size - w'.block_offset - header_size in
      let fragment_length = if ltb (length left) avail then length left else avail in
      let type = fragment_type begin (length left == fragment_length) in
      while_left (emit_physical_record type (take fragment_length left) w')
        (drop fragment_length left) (add_loop fuel false (drop fragment_length left))

  -- All rounds but the first take a byte at least.
  unfoldable pub add_record : List ℕ → Writer → Status × Writer
  unfolding add_loop
  add_record slice w = add_loop (length slice + 2) true slice w
