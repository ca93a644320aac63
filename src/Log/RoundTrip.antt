-- ===== src/Log/RoundTrip.antt =====
-- ReadRecord gives back the records that AddRecord wrote.
use tleveldb.Base.{
  some, ℕ, zero, suc, ◌+◌, ◌-◌, ◌<◌, ◌≤◌, ◌≡◌, refl, sym, ap, ◌∙◌, Bool, true, false, not, List, [],
  ◌++◌, length, replicate, append_assoc, length-append, arith,
}
use tleveldb.Status.{Status}
use tleveldb.Log.{Checksum, IsChecksum, SequentialFile, Delivers, block_size, header_size, physical}
use tleveldb.Log.Reader.{Reader, less, read_physical_record}
use tleveldb.Log.ReadRecord.{
  Progress, go_on, done, report_partial, dispatch, round, proceed, read_loop,
}
use tleveldb.Log.Layout.{Written, skip, last, more, final_type, open_type}
use tleveldb.Log.Physical.{length-physical}
use tleveldb.Log.Position.{At, read_physical-At, read_physical_trailer}

length-Written :
    (crc : Checksum) {begin : Bool} {b b' : ℕ} {slice bytes : List ℕ}
    → Written crc begin b slice bytes b'
    → header_size ≤ length bytes
length-Written crc (skip begin b slice bytes b' h h' w) =
    omega (arith, length-Written crc w, length-append (replicate (block_size - b) zero) bytes)
length-Written crc (last begin b slice h) =
    omega (arith, length-physical crc (final_type begin) slice)
length-Written crc (more begin b chunk left bytes b' h h' w) = omega (
  arith,
  length-physical crc (open_type begin) chunk,
  length-append (physical crc (open_type begin) chunk) bytes,
)

-- The fragments in front of the rest of a record.
abbrev so_far : Bool → List ℕ → List ℕ
so_far true scratch = []
so_far false scratch = scratch

module _ (crc : Checksum) (files : SequentialFile) (rest : files.File → List ℕ)
    (reports : List (ℕ × Status)) where
  pub round-in_sync :
      (p : Progress) (type : ℕ) (fragment : List ℕ) (r : Reader crc files)
      → r.resyncing ≡ false
      → round crc files p (type, fragment, r)
        ≡ dispatch crc files type
            (less
              (less (less r.end_of_buffer_offset (length r.buffer)) header_size)
              (length fragment))
            (record p { fragment = fragment })
            (record r { resyncing = false })
  unfolding round
  round-in_sync p type fragment r sync = simp (sync)

  -- The last fragment of a record ends the search with the record.
  dispatch-final :
      (begin : Bool) (offset : ℕ) (p : Progress) (r : Reader crc files)
      → p.in_fragmented_record ≡ not begin
      → (o : ℕ) × (dispatch crc files (final_type begin) offset p r
          ≡ done true (so_far begin p.scratch ++ p.fragment) (record r { last_record_offset = o }))
  unfolding dispatch report_partial
  dispatch-final true offset p r e = (offset, rw e refl)
  dispatch-final false offset p r e = (p.prospective_record_offset, rw e refl)

  -- Any other fragment is kept.
  dispatch-open :
      (begin : Bool) (offset : ℕ) (p : Progress) (r : Reader crc files)
      → p.in_fragmented_record ≡ not begin
      → (p' : Progress) × (dispatch crc files (open_type begin) offset p r ≡ go_on p' r)
        × (p'.in_fragmented_record ≡ true)
        × (p'.scratch ≡ so_far begin p.scratch ++ p.fragment)
  unfolding dispatch report_partial
  dispatch-open true offset p r e = (
    record p {
      in_fragmented_record = true;
      scratch = p.fragment;
      prospective_record_offset = offset;
    },
    rw e refl,
    refl,
    refl,
  )
  dispatch-open false offset p r e =
      (record p { scratch = p.scratch ++ p.fragment }, rw e refl, e, refl)

  low_type :
      (begin : Bool)
      → (0 < final_type begin)
        × (final_type begin < 128)
        × (0 < open_type begin)
        × (open_type begin < 128)
  low_type true = omega arith
  low_type false = omega arith

  -- A round on a physical record that is in the block.
  abbrev RoundAt : Progress → Reader crc files → ℕ → List ℕ → ℕ → List ℕ → Type 0
  RoundAt p r type fragment b' behind =
      (offset : ℕ) × (r' : Reader crc files) × (round crc files p
          (read_physical_record crc files p.fragment r)
        ≡ dispatch crc files type offset (record p { fragment = fragment }) r')
      × At crc files rest reports r' b' behind

  round-At :
      (p : Progress) (r : Reader crc files) (b type : ℕ) (fragment behind : List ℕ)
      → IsChecksum crc
      → At crc files rest reports r b (physical crc type fragment ++ behind)
      → 0 < type
      → type < 128
      → b + header_size + length fragment ≤ block_size
      → RoundAt p r type fragment (b + (header_size + length fragment)) behind
  round-At p r b type fragment behind is at low high fits =
      let (r1, read, at1) =
        read_physical-At crc files rest reports r b type fragment behind p.fragment is at low high
          fits in
      (
        less (less (less r1.end_of_buffer_offset (length r1.buffer)) header_size) (length fragment),
        record r1 { resyncing = false },
        ap (round crc files p) read ∙ round-in_sync p type fragment r1 at1.in_sync,
        record {
          inside = at1.inside;
          buffered = at1.buffered;
          unread = at1.unread;
          ended = at1.ended;
          from_start = at1.from_start;
          in_sync = refl;
          reported = at1.reported;
        },
      )

  -- A result of the loop from `r`: the record, and a reader behind it.
  abbrev pub Reads : ℕ → Progress → Reader crc files → List ℕ → ℕ → List ℕ → Type 0
  Reads fuel p r bytes b' behind =
      (r' : Reader crc files) × (read_loop crc files fuel p r ≡ some (true, bytes, r'))
      × At crc files rest reports r' b' behind

  read_final :
      (fuel : ℕ) (begin : Bool) (b : ℕ) (slice behind : List ℕ) (p : Progress)
      (r : Reader crc files)
      → IsChecksum crc
      → At crc files rest reports r b (physical crc (final_type begin) slice ++ behind)
      → b + header_size + length slice ≤ block_size
      → p.in_fragmented_record ≡ not begin
      → Reads
          (suc fuel)
          p
          r
          (so_far begin p.scratch ++ slice)
          (b + (header_size + length slice))
          behind
  unfolding read_loop
  read_final fuel begin b slice behind p r is at fits e =
      let (offset, r1, one, at1) =
        round-At p r b (final_type begin) slice behind is at (low_type begin).0 (low_type begin).1
          fits in
      let (o, two) = dispatch-final begin offset (record p { fragment = slice }) r1 e in
      (
        record r1 { last_record_offset = o },
        ap (λ t. proceed crc files t (read_loop crc files fuel)) (one ∙ two),
        record {
          inside = at1.inside;
          buffered = at1.buffered;
          unread = at1.unread;
          ended = at1.ended;
          from_start = at1.from_start;
          in_sync = at1.in_sync;
          reported = at1.reported;
        },
      )

  read_open :
      (fuel : ℕ) (begin : Bool) (b b' : ℕ) (chunk left bytes behind : List ℕ) (p : Progress)
      (r : Reader crc files)
      → IsChecksum crc
      → At crc files rest reports r b ((physical crc (open_type begin) chunk ++ bytes) ++ behind)
      → b + header_size + length chunk ≤ block_size
      → p.in_fragmented_record ≡ not begin
      → ((p' : Progress) (r' : Reader crc files)
          → At crc files rest reports r' (b + (header_size + length chunk)) (bytes ++ behind)
          → p'.in_fragmented_record ≡ true
          → Reads fuel p' r' (p'.scratch ++ left) b' behind)
      → Reads (suc fuel) p r (so_far begin p.scratch ++ (chunk ++ left)) b' behind
  unfolding read_loop
  read_open fuel begin b b' chunk left bytes behind p r is at fits e again =
      let (offset, r1, one, at1) =
        round-At p r b (open_type begin) chunk (bytes ++ behind) is
          (rw (sym (append_assoc (physical crc (open_type begin) chunk) bytes behind)) at)
          (low_type begin).2 (low_type begin).3 fits in
      let (p', two, inside, kept) =
        dispatch-open begin offset (record p { fragment = chunk }) r1 e in
      let (r2, read, at2) = again p' r1 at1 inside in
      (
        r2,
        ap (λ t. proceed crc files t (read_loop crc files fuel)) (one ∙ two)
            ∙ read
            ∙ ap (λ (t : List ℕ). some (true, t, r2))
                (ap (λ t. t ++ left) kept ∙ append_assoc (so_far begin p.scratch) chunk left),
        at2,
      )

  -- Behind a trailer the loop goes on in the next block.
  read_trailer :
      (fuel b b' : ℕ) (slice bytes behind : List ℕ) (p : Progress) (r : Reader crc files)
      → Delivers files rest
      → block_size < b + header_size
      → header_size ≤ length bytes
      → At crc files rest reports r b ((replicate (block_size - b) 0 ++ bytes) ++ behind)
      → ((r' : Reader crc files)
          → At crc files rest reports r' 0 (bytes ++ behind)
          → Reads (suc fuel) p r' slice b' behind)
      → Reads (suc fuel) p r slice b' behind
  unfolding read_loop
  read_trailer fuel b b' slice bytes behind p r del none_left some_left at again =
      let (r1, same, at1) =
        read_physical_trailer crc files rest reports r b (bytes ++ behind) p.fragment del
          (rw (sym (append_assoc (replicate (block_size - b) 0) bytes behind)) at) none_left
          (omega (arith, length-append bytes behind)) in
      let (r2, read, at2) = again r1 at1 in
      (
        r2,
        ap (λ t. proceed crc files (round crc files p t) (read_loop crc files fuel)) same ∙ read,
        at2,
      )

  -- The fragments of a record are read and put together.
  pub read_loop-Written :
      (fuel : ℕ) {begin : Bool} {b : ℕ} {slice bytes : List ℕ} {b' : ℕ} (behind : List ℕ)
      (p : Progress) (r : Reader crc files)
      → IsChecksum crc
      → Delivers files rest
      → Written crc begin b slice bytes b'
      → length bytes < fuel
      → At crc files rest reports r b (bytes ++ behind)
      → p.in_fragmented_record ≡ not begin
      → Reads fuel p r (so_far begin p.scratch ++ slice) b' behind
  read_loop-Written zero behind p r is del w enough at e = absurd (omega arith)
  read_loop-Written (suc fuel) behind p r is del (skip begin b slice bytes b' h h' w) enough at e =
      read_trailer fuel b b' (so_far begin p.scratch ++ slice) bytes behind p r del h
        (length-Written crc w) at
        (λ r' at'.
          read_loop-Written (suc fuel) behind p r' is del w
            (omega (arith, length-append (replicate (block_size - b) zero) bytes)) at' e)
  read_loop-Written (suc fuel) behind p r is del (last begin b slice h) enough at e =
      read_final fuel begin b slice behind p r is at h e
  read_loop-Written (suc fuel) behind p r is del (more begin b chunk left bytes b' h h' w) enough at
        e =
      read_open fuel begin b b' chunk left bytes behind p r is at h e (λ p' r' at' e'.
        read_loop-Written fuel behind p' r' is del w
          (omega (
            arith,
            length-append (physical crc (open_type begin) chunk) bytes,
            length-physical crc (open_type begin) chunk,
          ))
          at' e')
