-- ===== src/Log/Reader.antt =====
-- lib/leveldb/db/log_reader.h and log_reader.cc: ReadRecord puts the fragments of a log together.
-- The reporter is the list of the reports that it got. ReadPhysicalRecord and ReadRecord hand over
-- the Slice that they fill, `fragment` and `record`, as one more part of their result.
use tleveldb.Base.{
  ℕ, zero, suc, ◌+◌, ◌-◌, ◌*◌, ◌%◌, ◌^◌, Bool, true, false, ◌&&◌, List, [], ◌∷◌, ◌++◌, ltb, leb,
  ◌==◌, not, if◌then◌else◌, length, take, drop, get_or,
}
use tleveldb.Status.{Status, ok, corruption}
use tleveldb.Coding.{decode_fixed32}
use tleveldb.Crc32c.{unmask}
use tleveldb.Log.{Checksum, SequentialFile, zero_type, last_type, block_size, header_size}

-- kEof and kBadRecord are numbers behind the record types.
abbrev pub eof_type : ℕ
eof_type = last_type + 1

abbrev pub bad_record : ℕ
bad_record = last_type + 2

-- No value of an unsigned int: what the loop below gives where it has not ended.
abbrev not_ended : ℕ
not_ended = 2 ^ 32

-- A difference of uint64_t.
abbrev pub less : ℕ → ℕ → ℕ
less a b = (a + 2 ^ 64 - b % 2 ^ 64) % 2 ^ 64

-- A signed char as an unsigned int.
abbrev pub char_value : ℕ → ℕ
char_value c = if ltb c 128 then c else c + (2 ^ 32 - 256)

module _ (crc : Checksum) (files : SequentialFile) where
  pub record Reader : Type 0 where
    pub file : files.File
    pub has_reporter : Bool
    pub reports : List (ℕ × Status)
    pub checksum : Bool
    pub buffer : List ℕ
    pub eof : Bool
    pub last_record_offset : ℕ
    pub end_of_buffer_offset : ℕ
    pub initial_offset : ℕ
    pub resyncing : Bool

  unfoldable pub new_reader : files.File → Bool → Bool → ℕ → Reader
  new_reader file has_reporter checksum initial_offset = record {
    file = file;
    has_reporter = has_reporter;
    reports = [];
    checksum = checksum;
    buffer = [];
    eof = false;
    last_record_offset = 0;
    end_of_buffer_offset = 0;
    initial_offset = initial_offset;
    resyncing = ltb 0 initial_offset;
  }

  unfoldable pub report_drop : ℕ → Status → Reader → Reader
  report_drop bytes reason r =
      if r.has_reporter
        && leb r.initial_offset (less (less r.end_of_buffer_offset (length r.buffer)) bytes)
      then record r { reports = r.reports ++ ((bytes, reason) ∷ []) }
      else r

  -- Whether the reader may go on, and what it is then.
  abbrev pub skipped : ℕ → Reader → Status × files.File → Bool × Reader
  skipped location r (ok, f) = (true, record r { file = f })
  skipped location r (bad, f) = (false, report_drop location bad (record r { file = f }))

  unfoldable pub skip_to_initial_block : Reader → Bool × Reader
  unfolding report_drop
  skip_to_initial_block r =
      let offset_in_block = r.initial_offset % block_size in
      let start = r.initial_offset - offset_in_block in
      let location =
        if ltb (block_size - 6) offset_in_block then (start + block_size) % 2 ^ 64 else start in
      let r' = record r { end_of_buffer_offset = location } in
      if ltb 0 location then skipped location r' (files.skip location r.file) else (true, r')

  -- The part of ReadPhysicalRecord behind the loop: a header is in the buffer.
  unfoldable pub parse_physical : List ℕ → Reader → ℕ × List ℕ × Reader
  unfolding report_drop
  parse_physical fragment r =
      let header = r.buffer in
      let type = char_value (get_or header 6 0) in
      let n = get_or header 4 0 + get_or header 5 0 * 2 ^ 8 in
      let size = length r.buffer in
      let cleared = record r { buffer = [] } in
      let after = record r { buffer = drop (header_size + n) r.buffer } in
      let expected_crc = unmask (decode_fixed32 header) in
      let actual_crc = crc.extend 0 (take (1 + n) (drop 6 header)) in
      let start = less (less (less r.end_of_buffer_offset (length after.buffer)) header_size) n in
      if ltb size (header_size + n)
      then (if r.eof
          then (eof_type, fragment, cleared)
          else (bad_record, fragment, report_drop size (corruption "bad record length") cleared))
      else if type == zero_type && n == 0
      then (bad_record, fragment, cleared)
      else if r.checksum && not (actual_crc == expected_crc)
      then (bad_record, fragment, report_drop size (corruption "checksum mismatch") cleared)
      else if ltb start r.initial_offset
      then (bad_record, [], after)
      else (type, take n (drop header_size header), after)

  -- What follows a Read of the file.
  abbrev pub refilled :
      List ℕ
      → Reader
      → (Reader → ℕ × List ℕ × Reader)
      → Status × List ℕ × files.File
      → ℕ × List ℕ × Reader
  refilled fragment r again (ok, bytes, f) = again (record r {
    file = f;
    buffer = bytes;
    end_of_buffer_offset = (r.end_of_buffer_offset + length bytes) % 2 ^ 64;
    eof = ltb (length bytes) block_size;
  })
  refilled fragment r again (bad, bytes, f) =
      let r' = record r {
        file = f;
        buffer = [];
        end_of_buffer_offset = (r.end_of_buffer_offset + length bytes) % 2 ^ 64;
      } in
      (eof_type, fragment, record (report_drop block_size bad r') { eof = true })

  -- The loop of ReadPhysicalRecord: it reads the file once at most, since after a Read either a
  -- header is in the buffer or the end of the file is reached.
  unfoldable pub read_physical_loop : ℕ → List ℕ → Reader → ℕ × List ℕ × Reader
  unfolding parse_physical report_drop
  read_physical_loop zero fragment r = (not_ended, fragment, r)
  read_physical_loop (suc fuel) fragment r =
      if ltb (length r.buffer) header_size
      then (if r.eof
          then (eof_type, fragment, record r { buffer = [] })
          else refilled fragment r (read_physical_loop fuel fragment)
              (files.read block_size r.file))
      else parse_physical fragment r

  unfoldable pub read_physical_record : List ℕ → Reader → ℕ × List ℕ × Reader
  unfolding read_physical_loop
  read_physical_record fragment r = read_physical_loop 2 fragment r
