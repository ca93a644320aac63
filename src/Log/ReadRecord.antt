-- ===== src/Log/ReadRecord.antt =====
-- Reader::ReadRecord of lib/leveldb/db/log_reader.cc.
use tleveldb.Base.{
  ℕ, zero, suc, ◌+◌, Bool, true, false, Option, none, some, ◌&&◌, List, [], ◌++◌, ltb, ◌==◌,
  if◌then◌else◌, length,
}
use tleveldb.Status.{Status, corruption}
use tleveldb.Log.{
  Checksum, SequentialFile, full_type, first_type, middle_type, last_type, header_size,
}
use tleveldb.Log.Reader.{
  Reader, less, eof_type, bad_record, report_drop, skip_to_initial_block, read_physical_record,
}

-- The local variables of ReadRecord, with what `scratch` points to.
pub record Progress : Type 0 where
  pub in_fragmented_record : Bool
  pub scratch : List ℕ
  pub prospective_record_offset : ℕ
  pub fragment : List ℕ

abbrev pub new_progress : Progress
new_progress = record {
  in_fragmented_record = false;
  scratch = [];
  prospective_record_offset = 0;
  fragment = [];
}

module _ (crc : Checksum) (files : SequentialFile) where
  -- A round of the loop goes on, or returns with a record.
  pub data Round : Type 0 where
    go_on : Progress → Reader crc files → Round
    done : Bool → List ℕ → Reader crc files → Round

  -- The report on fragments that no last one followed.
  unfoldable pub report_partial : Progress → Status → Reader crc files → Reader crc files
  report_partial p reason r =
      if p.in_fragmented_record && ltb 0 (length p.scratch)
      then report_drop crc files (length p.scratch) reason r
      else r

  -- The switch on the type of a physical record. The message on an unknown type leaves its number
  -- out.
  unfoldable pub dispatch : ℕ → ℕ → Progress → Reader crc files → Round
  unfolding report_partial
  dispatch type offset p r =
      let fragment = p.fragment in
      let missing = report_drop crc files (length fragment) in
      let unknown = length fragment + (if p.in_fragmented_record then length p.scratch else 0) in
      let dropped = record p { in_fragmented_record = false; scratch = [] } in
      if type == full_type
      then done true fragment
          (record (report_partial p (corruption "partial record without end(1)") r) {
            last_record_offset = offset;
          })
      else if type == first_type
      then go_on
          (record p {
            in_fragmented_record = true;
            scratch = fragment;
            prospective_record_offset = offset;
          })
          (report_partial p (corruption "partial record without end(2)") r)
      else if type == middle_type
      then (if p.in_fragmented_record
          then go_on (record p { scratch = p.scratch ++ fragment }) r
          else go_on p (missing (corruption "missing start of fragmented record(1)") r))
      else if type == last_type
      then (if p.in_fragmented_record
          then done true (p.scratch ++ fragment)
              (record r { last_record_offset = p.prospective_record_offset })
          else go_on p (missing (corruption "missing start of fragmented record(2)") r))
      else if type == eof_type
      then done false [] r
      else if type == bad_record
      then (if p.in_fragmented_record
          then go_on dropped
              (report_drop crc files (length p.scratch) (corruption "error in middle of record") r)
          else go_on p r)
      else go_on dropped (report_drop crc files unknown (corruption "unknown record type") r)

  -- A round, behind ReadPhysicalRecord.
  unfoldable pub round : Progress → ℕ × List ℕ × Reader crc files → Round
  unfolding dispatch
  round p (type, fragment, r) =
      let p' = record p { fragment = fragment } in
      let synced = record r { resyncing = false } in
      let offset =
        less (less (less r.end_of_buffer_offset (length r.buffer)) header_size) (length fragment) in
      if r.resyncing && type == middle_type
      then go_on p' r
      else if r.resyncing && type == last_type
      then go_on p' synced
      else dispatch type offset p' synced

  abbrev pub proceed :
      Round
      → (Progress → Reader crc files → Option (Bool × List ℕ × Reader crc files))
      → Option (Bool × List ℕ × Reader crc files)
  proceed (go_on p r) again = again p r
  proceed (done found bytes r) again = some (found, bytes, r)

  -- The loop, with the number of physical records that may be read. The result is what ReadRecord
  -- returns, the record, and the reader; `none` says that the loop has not ended by then.
  unfoldable pub read_loop :
      ℕ → Progress → Reader crc files → Option (Bool × List ℕ × Reader crc files)
  unfolding round
  read_loop zero p r = none
  read_loop (suc fuel) p r =
      proceed (round p (read_physical_record crc files p.fragment r)) (read_loop fuel)

  unfoldable pub read_record : ℕ → Reader crc files → Option (Bool × List ℕ × Reader crc files)
  unfolding read_loop skip_to_initial_block
  read_record fuel r =
      let (may_go_on, r') =
        if ltb r.last_record_offset r.initial_offset
        then skip_to_initial_block crc files r
        else (true, r) in
      let result = read_loop fuel new_progress r' in
      if may_go_on then result else some (false, [], r')
