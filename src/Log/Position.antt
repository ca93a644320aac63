-- ===== src/Log/Position.antt =====
-- Where a reader stands in a log, and how ReadPhysicalRecord moves it on.
use Prim.Native.Nat.{min}
use tleveldb.Base.{
  ℕ, zero, suc, ◌+◌, ◌-◌, ◌%◌, ◌^◌, ◌<◌, ◌≤◌, ◌≡◌, refl, sym, ap, ◌∙◌, true, false, List, [], ◌++◌,
  ltb, length, take, drop, replicate, drop-append, length-take, length-append, length-replicate,
  ltb-false, lt→ltb, arith, Bool-cases, inl, inr,
}
use tleveldb.Status.{Status, ok}
use tleveldb.Log.{Checksum, IsChecksum, SequentialFile, Delivers, block_size, header_size, physical}
use tleveldb.Log.Reader.{Reader, eof_type, refilled, read_physical_loop, read_physical_record}
use tleveldb.Log.Physical.{
  record_bytes, physical-record_bytes, parse_physical-record_bytes, take-append_more,
  drop-append_more, length-physical,
}

take_nil : (n : ℕ) → take {A = ℕ} n [] ≡ []
take_nil zero = refl
take_nil (suc n) = refl

drop_nil : (n : ℕ) → drop {A = ℕ} n [] ≡ []
drop_nil zero = refl
drop_nil (suc n) = refl

less_than_min : (n m : ℕ) → ltb (min n m) n ≡ ltb m n
less_than_min n m = ground arith

whole_block : (s : List ℕ) (n : ℕ) → ltb (length (take n s)) n ≡ ltb (length s) n
whole_block s n = rw (length-take n s) (less_than_min n (length s))

module _ (crc : Checksum) (files : SequentialFile) (rest : files.File → List ℕ)
    (reports : List (ℕ × Status)) where
  -- The reader stands at the offset `b` of a block, in front of `bytes`: the buffer has what the
  -- block has of them, and the file the others. It reads the whole log, and has made `reports`.
  pub record At (r : Reader crc files) (b : ℕ) (bytes : List ℕ) : Type 0 where
    pub inside : b ≤ block_size
    pub buffered : r.buffer ≡ take (block_size - b) bytes
    pub unread : rest r.file ≡ drop (block_size - b) bytes
    pub ended : r.eof ≡ ltb (length bytes) (block_size - b)
    pub from_start : r.initial_offset ≡ 0
    pub in_sync : r.resyncing ≡ false
    pub reported : r.reports ≡ reports

  -- A physical record in the block is read from the buffer.
  pub read_physical-At :
      (r : Reader crc files) (b type : ℕ) (fragment bytes old : List ℕ)
      → IsChecksum crc
      → At r b (physical crc type fragment ++ bytes)
      → 0 < type
      → type < 128
      → b + header_size + length fragment ≤ block_size
      → (r' : Reader crc files) × (read_physical_record crc files old r ≡ (type, fragment, r'))
        × At r' (b + (header_size + length fragment)) bytes
  unfolding read_physical_record read_physical_loop
  read_physical-At r b type fragment bytes old is at low high fits = (
    record r { buffer = take (block_size - (b + (header_size + length fragment))) bytes },
    rw (ltb-false (length r.buffer) header_size (omega (arith, enough))) (
        parse_physical-record_bytes crc files type fragment
          (take (block_size - (b + (header_size + length fragment))) bytes) old r is whole
          at.from_start low high (omega arith)),
    record {
      inside = omega arith;
      buffered = refl;
      unread = at.unread ∙ behind;
      ended = at.ended ∙ end;
      from_start = at.from_start;
      in_sync = at.in_sync;
      reported = at.reported;
    },
  )
    where
      size : length (physical crc type fragment) ≡ header_size + length fragment
      size = length-physical crc type fragment

      room :
          block_size - b - length (physical crc type fragment)
          ≡ block_size - (b + (header_size + length fragment))
      room = omega (arith, size)

      whole :
          r.buffer
          ≡ record_bytes crc type fragment
              (take (block_size - (b + (header_size + length fragment))) bytes)
      whole =
          at.buffered
          ∙ take-append_more (physical crc type fragment) bytes (block_size - b)
              (omega (arith, size))
          ∙ ap (λ (t : ℕ). physical crc type fragment ++ take t bytes) room
          ∙ physical-record_bytes crc type fragment
              (take (block_size - (b + (header_size + length fragment))) bytes)

      enough : header_size ≤ length r.buffer
      enough = omega (
        arith,
        ap (λ (t : List ℕ). length t) at.buffered,
        length-take (block_size - b) (physical crc type fragment ++ bytes),
        length-append (physical crc type fragment) bytes,
        size,
      )

      behind :
          drop (block_size - b) (physical crc type fragment ++ bytes)
          ≡ drop (block_size - (b + (header_size + length fragment))) bytes
      behind =
          drop-append_more (physical crc type fragment) bytes (block_size - b) (omega (arith, size))
          ∙ ap (λ (t : ℕ). drop t bytes) room

      end :
          ltb (length (physical crc type fragment ++ bytes)) (block_size - b)
          ≡ ltb (length bytes) (block_size - (b + (header_size + length fragment)))
      end = ground (arith, size, length-append (physical crc type fragment) bytes)

  -- The reader after a Read of its file.
  refill : Reader crc files → Reader crc files
  refill r = record r {
    file = (files.read block_size r.file).2;
    buffer = (files.read block_size r.file).1;
    end_of_buffer_offset =
        (r.end_of_buffer_offset + length (files.read block_size r.file).1) % 2 ^ 64;
    eof = ltb (length (files.read block_size r.file).1) block_size;
  }

  refilled-ok :
      (old : List ℕ) (r : Reader crc files)
      (again : Reader crc files → ℕ × List ℕ × Reader crc files)
      (result : Status × List ℕ × files.File)
      → result.0 ≡ ok
      → refilled crc files old r again result
        ≡ again (record r {
          file = result.2;
          buffer = result.1;
          end_of_buffer_offset = (r.end_of_buffer_offset + length result.1) % 2 ^ 64;
          eof = ltb (length result.1) block_size;
        })
  refilled-ok old r again (ok, bytes, f) h = refl
  refilled-ok old r again (bad, bytes, f) h = cc

  -- With less than a header in the buffer, and more in the file, the file is read.
  refills :
      (fuel : ℕ) (r : Reader crc files) (old : List ℕ)
      → Delivers files rest
      → length r.buffer < header_size
      → r.eof ≡ false
      → read_physical_loop crc files (suc fuel) old r
        ≡ read_physical_loop crc files fuel old (refill r)
  unfolding read_physical_loop refill
  refills fuel r old del short more =
      simp (lt→ltb (length r.buffer) header_size short, more)
        (refilled-ok old r (read_physical_loop crc files fuel old) (files.read block_size r.file)
          (del.delivered block_size r.file))

  -- With a header in the buffer, one round is as good as two.
  one_round :
      (r : Reader crc files) (old : List ℕ)
      → header_size ≤ length r.buffer
      → read_physical_loop crc files 1 old r ≡ read_physical_loop crc files 2 old r
  unfolding read_physical_loop
  one_round r old long = rw (ltb-false (length r.buffer) header_size long) refl

  stops :
      (fuel : ℕ) (r : Reader crc files) (old : List ℕ)
      → length r.buffer < header_size
      → r.eof ≡ true
      → read_physical_loop crc files (suc fuel) old r ≡ (eof_type, old, record r { buffer = [] })
  unfolding read_physical_loop
  stops fuel r old short end = rw (lt→ltb (length r.buffer) header_size short, end) refl

  -- At the trailer of a block the next block is read.
  pub read_physical_trailer :
      (r : Reader crc files) (b : ℕ) (bytes old : List ℕ)
      → Delivers files rest
      → At r b (replicate (block_size - b) 0 ++ bytes)
      → block_size < b + header_size
      → header_size ≤ length bytes
      → (r' : Reader crc files) × (read_physical_record crc files old r
          ≡ read_physical_record crc files old r')
        × At r' 0 bytes
  unfolding read_physical_record refill
  read_physical_trailer r b bytes old del at none_left some_left = (
    refill r,
    refills 1 r old del short not_ended ∙ one_round (refill r) old header_read,
    record {
      inside = omega arith;
      buffered = filled;
      unread = del.rest-read block_size r.file ∙ ap (drop block_size) unread;
      ended = rw filled (whole_block bytes block_size);
      from_start = at.from_start;
      in_sync = at.in_sync;
      reported = at.reported;
    },
  )
    where
      zeros : List ℕ
      zeros = replicate (block_size - b) 0

      short : length r.buffer < header_size
      short = omega (
        arith,
        ap (λ (t : List ℕ). length t) at.buffered,
        length-take (block_size - b) (zeros ++ bytes),
      )

      not_ended : r.eof ≡ false
      not_ended =
          at.ended
          ∙ ltb-false (length (zeros ++ bytes)) (block_size - b)
              (omega (arith, length-append zeros bytes, length-replicate (block_size - b) zero))

      unread : rest r.file ≡ bytes
      unread =
          at.unread
          ∙ drop-append zeros bytes (block_size - b) (sym (length-replicate (block_size - b) zero))

      filled : (files.read block_size r.file).1 ≡ take block_size bytes
      filled = del.bytes_read block_size r.file ∙ ap (take block_size) unread

      header_read : header_size ≤ length (files.read block_size r.file).1
      header_read =
          omega (arith, ap (λ (t : List ℕ). length t) filled, length-take block_size bytes)

  -- At the end of the log there is no more physical record.
  pub read_physical_end :
      (r : Reader crc files) (b : ℕ) (old : List ℕ)
      → Delivers files rest
      → At r b []
      → (r' : Reader crc files) × (read_physical_record crc files old r ≡ (eof_type, old, r'))
        × (r'.reports ≡ reports)
        × (r'.resyncing ≡ false)
  unfolding read_physical_record refill
  read_physical_end r b old del at = elim (Bool-cases r.eof) [
    | inl ended ↦ (
      record r { buffer = [] },
      stops 1 r old (omega (arith, empty)) ended,
      at.reported,
      at.in_sync,
    )
    | inr open_file ↦ (
      record (refill r) { buffer = [] },
      refills 1 r old del (omega (arith, empty)) open_file
          ∙ stops 0 (refill r) old (omega (arith, nothing)) (
              lt→ltb (length (files.read block_size r.file).1) block_size (omega (arith, nothing))),
      at.reported,
      at.in_sync,
    )
  ]
    where
      empty : length r.buffer ≡ 0
      empty = ap (λ (t : List ℕ). length t) (at.buffered ∙ take_nil (block_size - b))

      nothing : length (files.read block_size r.file).1 ≡ 0
      nothing =
          ap (λ (t : List ℕ). length t)
            (del.bytes_read block_size r.file
              ∙ ap (take block_size) (at.unread ∙ drop_nil (block_size - b))
              ∙ take_nil block_size)
