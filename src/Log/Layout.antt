-- ===== src/Log/Layout.antt =====
-- How a record lies in the blocks of a log.
use tleveldb.Base.{ℕ, ◌+◌, ◌-◌, ◌<◌, ◌≤◌, Bool, true, false, List, ◌++◌, length, replicate}
use tleveldb.Log.{Checksum, block_size, header_size, physical}

abbrev pub final_type : Bool → ℕ
final_type true = 1
final_type false = 4

abbrev pub open_type : Bool → ℕ
open_type true = 2
open_type false = 3

-- `Written crc begin b slice bytes b'`: from the offset `b` in a block on, `bytes` are the rest
-- `slice` of a record, and the next one begins at the offset `b'`.
pub data Written (crc : Checksum) : Bool → ℕ → List ℕ → List ℕ → ℕ → Type 0 where
  skip :
      (begin : Bool) (b : ℕ) (slice bytes : List ℕ) (b' : ℕ)
      → block_size < b + header_size
      → b ≤ block_size
      → Written crc begin 0 slice bytes b'
      → Written crc begin b slice (replicate (block_size - b) 0 ++ bytes) b'
  last :
      (begin : Bool) (b : ℕ) (slice : List ℕ)
      → b + header_size + length slice ≤ block_size
      → Written crc begin b slice
          (physical crc (final_type begin) slice)
          (b + (header_size + length slice))
  more :
      (begin : Bool) (b : ℕ) (chunk left bytes : List ℕ) (b' : ℕ)
      → b + header_size + length chunk ≤ block_size
      → 0 < length left
      → Written crc false (b + (header_size + length chunk)) left bytes b'
      → Written crc begin b (chunk ++ left) (physical crc (open_type begin) chunk ++ bytes) b'
