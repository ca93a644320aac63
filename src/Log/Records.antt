-- ===== src/Log/Records.antt =====
-- A log of several records, written and read.
use mathlib.Core.Path.{subst}
use tleveldb.Base.{
  ℕ, zero, suc, ◌<◌, ◌≤◌, ◌≡◌, refl, sym, ap, ◌∙◌, Bool, true, false, some, List, [], ◌∷◌, ◌++◌,
  length, append_assoc, append-nil, length-append, ltb-false, arith,
}
use tleveldb.Status.{Status, ok}
use tleveldb.Crc32c.Extend.{can_accelerate_crc32c, extend}
use tleveldb.Log.{
  crc32c, Checksum, IsChecksum, SequentialFile, Delivers, WritableFile, Accepts, block_size,
}
use tleveldb.Log.Writer.{Writer, new_writer, add_record}
use tleveldb.Log.Reader.{Reader, new_reader, eof_type}
use tleveldb.Log.ReadRecord.{dispatch, round, proceed, read_loop, new_progress, read_record}
use tleveldb.Log.Layout.{Written, skip}
use tleveldb.Log.Append.{add_record-Adds}
use tleveldb.Log.Position.{At, read_physical_end}
use tleveldb.Log.RoundTrip.{read_loop-Written, round-in_sync}

-- One record after another lies in a log.
pub data WrittenAll (crc : Checksum) : ℕ → List (List ℕ) → List ℕ → ℕ → Type 0 where
  nothing : (b : ℕ) → WrittenAll crc b [] [] b
  one_more :
      (b : ℕ) (slice bytes : List ℕ) (b' : ℕ) (slices : List (List ℕ)) (more : List ℕ) (end : ℕ)
      → Written crc true b slice bytes b'
      → WrittenAll crc b' slices more end
      → WrittenAll crc b (slice ∷ slices) (bytes ++ more) end

module _ (crc : Checksum) (files : WritableFile) where
  -- A client that adds records while the writer returns OK.
  go_on_if_ok :
      Status × Writer crc files
      → (Writer crc files → Status × Writer crc files)
      → Status × Writer crc files
  go_on_if_ok (ok, w) next = next w
  go_on_if_ok (bad, w) next = (bad, w)

  unfoldable pub add_all : List (List ℕ) → Writer crc files → Status × Writer crc files
  unfolding go_on_if_ok
  add_all [] w = (ok, w)
  add_all (slice ∷ slices) w = go_on_if_ok (add_record crc files slice w) (add_all slices)

  go_on_if_ok_lem :
      (result : Status × Writer crc files) (next : Writer crc files → Status × Writer crc files)
      → result.0 ≡ ok
      → go_on_if_ok result next ≡ next result.1
  unfolding go_on_if_ok
  go_on_if_ok_lem (ok, w) next h = refl
  go_on_if_ok_lem (bad, w) next h = cc

  module _ (contents : files.File → List ℕ) where
    -- All are added, in the layout of a log.
    add_all-WrittenAll :
        (slices : List (List ℕ)) (w : Writer crc files)
        → Accepts files contents
        → w.block_offset ≤ block_size
        → (bytes : List ℕ) × (end : ℕ) × WrittenAll crc w.block_offset slices bytes end
          × ((add_all slices w).0 ≡ ok)
          × (contents (add_all slices w).1.dest ≡ contents w.dest ++ bytes)
    unfolding add_all
    add_all-WrittenAll [] w is bound =
        ([], w.block_offset, nothing w.block_offset, refl, sym (append-nil (contents w.dest)))
    add_all-WrittenAll (slice ∷ slices) w is bound =
        let (bytes, b', one, wrote, bound') = add_record-Adds crc files contents slice w is bound in
        let w' = (add_record crc files slice w).1 in
        let (more, end, others, status, added) =
          add_all-WrittenAll slices w' is (omega (arith, wrote.offset)) in
        rw (go_on_if_ok_lem (add_record crc files slice w) (add_all slices) wrote.status) (
          bytes ++ more,
          end,
          one_more w.block_offset slice bytes b' slices more end one
              (subst (λ (t : ℕ). WrittenAll crc t slices more end) wrote.offset others),
          status,
          added ∙ ap (λ t. t ++ more) wrote.bytes_added ∙ append_assoc (contents w.dest) bytes more,
        )

module _ (crc : Checksum) (files : SequentialFile) where
  -- ReadRecord gives these records one after another, and then false, with no report made.
  abbrev pub Gives : ℕ → List (List ℕ) → Reader crc files → Type 0
  Gives fuel [] r =
      (r' : Reader crc files) × (read_record crc files fuel r ≡ some (false, [], r'))
      × (r'.reports ≡ [])
  Gives fuel (slice ∷ slices) r =
      (r' : Reader crc files) × (read_record crc files fuel r ≡ some (true, slice, r'))
      × Gives fuel slices r'

  module _ (rest : files.File → List ℕ) where
    from_start_lem :
        (fuel : ℕ) (r : Reader crc files) (b : ℕ) (bytes : List ℕ)
        → At crc files rest [] r b bytes
        → read_record crc files fuel r ≡ read_loop crc files fuel new_progress r
    unfolding read_record
    from_start_lem fuel r b bytes at =
        rw (ltb-false r.last_record_offset r.initial_offset (omega (arith, at.from_start))) refl

    Gives-end :
        (fuel : ℕ) (r : Reader crc files) (b : ℕ)
        → Delivers files rest
        → At crc files rest [] r b []
        → 0 < fuel
        → Gives fuel [] r
    unfolding read_loop dispatch
    Gives-end zero r b del at h = absurd (omega arith)
    Gives-end (suc fuel) r b del at h =
        let (r', read, silent, sync) = read_physical_end crc files rest [] r b [] del at in
        (
          record r' { resyncing = false },
          from_start_lem (suc fuel) r b [] at
              ∙ ap
                  (λ t.
                    proceed crc files (round crc files new_progress t) (read_loop crc files fuel))
                  read
              ∙ ap (λ t. proceed crc files t (read_loop crc files fuel))
                  (round-in_sync crc files rest [] new_progress eof_type [] r' sync),
          silent,
        )

    Gives-WrittenAll :
        (fuel : ℕ) {b : ℕ} {slices : List (List ℕ)} {bytes : List ℕ} {end : ℕ}
        (r : Reader crc files)
        → IsChecksum crc
        → Delivers files rest
        → WrittenAll crc b slices bytes end
        → length bytes < fuel
        → At crc files rest [] r b bytes
        → Gives fuel slices r
    Gives-WrittenAll fuel r is del (nothing b) enough at = Gives-end fuel r b del at (omega arith)
    Gives-WrittenAll fuel r is del (one_more b slice bytes b' slices more end w ws) enough at =
        let (r', read, at') =
          read_loop-Written crc files rest [] fuel more new_progress r is del w
            (omega (arith, length-append bytes more)) at refl in
        (
          r',
          from_start_lem fuel r b (bytes ++ more) at ∙ read,
          Gives-WrittenAll fuel r' is del ws (omega (arith, length-append bytes more)) at',
        )

-- The begin of a block is the end of the one before it.
from_block_end :
    (crc : Checksum) {slices : List (List ℕ)} {bytes : List ℕ} {end : ℕ}
    → WrittenAll crc 0 slices bytes end
    → (end' : ℕ) × WrittenAll crc block_size slices bytes end'
from_block_end crc (nothing b) = (block_size, nothing block_size)
from_block_end crc (one_more b slice bytes b' slices more end w ws) = (
  end,
  one_more block_size slice bytes b' slices more end
      (skip true block_size slice bytes b' (omega arith) (omega arith) w) ws,
)

-- For a checksum that is extended by one string after another.
add_all-Gives :
    (crc : Checksum) (out : WritableFile) (contents : out.File → List ℕ) (input : SequentialFile)
    (rest : input.File → List ℕ) (slices : List (List ℕ)) (dest : out.File) (file : input.File)
    (has_reporter checksum : Bool) (fuel : ℕ)
    → IsChecksum crc
    → Accepts out contents
    → Delivers input rest
    → contents dest ≡ []
    → rest file ≡ contents (add_all crc out slices (new_writer crc out dest)).1.dest
    → length (rest file) < fuel
    → ((add_all crc out slices (new_writer crc out dest)).0 ≡ ok)
      × Gives crc input fuel slices (new_reader crc input file has_reporter checksum 0)
unfolding new_writer new_reader
add_all-Gives crc out contents input rest slices dest file has_reporter checksum fuel is accepts
      delivers empty same enough =
    let (bytes, end, all, status, added) =
      add_all-WrittenAll crc out contents slices (new_writer crc out dest) accepts (omega arith) in
    let whole : rest file ≡ bytes = same ∙ added ∙ ap (λ t. t ++ bytes) empty in
    let (end', all') = from_block_end crc all in
    (
      status,
      Gives-WrittenAll crc input rest fuel (new_reader crc input file has_reporter checksum 0) is
          delivers all' (omega (arith, ap (λ (t : List ℕ). length t) whole))
          (record {
            inside = omega arith;
            buffered = refl;
            unread = whole;
            ended = sym (ltb-false (length bytes) 0 (omega arith));
            from_start = refl;
            in_sync = refl;
            reported = refl;
          }),
    )

crc32c-accelerated :
    (accelerated : ℕ → List ℕ → ℕ) (address : List ℕ → ℕ)
    → can_accelerate_crc32c accelerated ≡ true
    → (c : ℕ) (s : List ℕ) → (crc32c accelerated address).extend c s ≡ accelerated c s
unfolding crc32c extend
crc32c-accelerated accelerated address can c s = rw can refl

crc32c-IsChecksum :
    (accelerated : ℕ → List ℕ → ℕ) (address : List ℕ → ℕ)
    → can_accelerate_crc32c accelerated ≡ true
    → IsChecksum (record { extend = accelerated })
    → IsChecksum (crc32c accelerated address)
crc32c-IsChecksum accelerated address can is = record {
  small = λ c s. rw (crc32c-accelerated accelerated address can c s) (is.small c s);
  extends = λ c s t.
      rw
        (
          crc32c-accelerated accelerated address can c s,
          crc32c-accelerated accelerated address can (accelerated c s) t,
          crc32c-accelerated accelerated address can c (s ++ t),
        )
        (is.extends c s t);
}

-- Where the library crc32c is built in and its Extend gives the checksum that is tested, and
-- extends a checksum as it documents: a new Writer on an empty file that accepts all adds all
-- records with OK, and a Reader from the start of a file that delivers what was written gives back
-- these records in their order, then ends with false, and reports no corruption, if as many
-- physical records may be read as the file has bytes.
pub Gives-add_all :
    (accelerated : ℕ → List ℕ → ℕ) (address : List ℕ → ℕ) (out : WritableFile)
    (contents : out.File → List ℕ) (input : SequentialFile) (rest : input.File → List ℕ)
    (slices : List (List ℕ)) (dest : out.File) (file : input.File) (has_reporter checksum : Bool)
    (fuel : ℕ)
    → can_accelerate_crc32c accelerated ≡ true
    → IsChecksum (record { extend = accelerated })
    → Accepts out contents
    → Delivers input rest
    → contents dest ≡ []
    → let crc = crc32c accelerated address in
      rest file ≡ contents (add_all crc out slices (new_writer crc out dest)).1.dest
      → length (rest file) < fuel
      → let crc = crc32c accelerated address in
        ((add_all crc out slices (new_writer crc out dest)).0 ≡ ok)
        × Gives crc input fuel slices (new_reader crc input file has_reporter checksum 0)
Gives-add_all accelerated address out contents input rest slices dest file has_reporter checksum
      fuel can is =
    add_all-Gives (crc32c accelerated address) out contents input rest slices dest file has_reporter
      checksum fuel (crc32c-IsChecksum accelerated address can is)
