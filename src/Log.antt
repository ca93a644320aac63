-- ===== src/Log.antt =====
-- The write-ahead log: lib/leveldb/db/log_format.h, and what the writer and the reader of a log are
-- given, a checksum and a file.
pub mod Writer
pub mod Reader
pub mod ReadRecord
pub mod Layout
pub mod Emit
pub mod Append
pub mod Physical
pub mod Position
pub mod RoundTrip
pub mod Records
mod Examples
use tleveldb.Base.{ℕ, ◌+◌, ◌/◌, ◌%◌, ◌^◌, ◌<◌, ◌≡◌, List, [], ◌∷◌, ◌++◌, length, take, drop}
use tleveldb.Status.{Status, ok}
use tleveldb.Coding.{encode_fixed32}
use tleveldb.Crc32c.{mask}
use tleveldb.Crc32c.Extend

-- The values of RecordType; zero_type is reserved for preallocated files.
abbrev pub zero_type : ℕ
zero_type = 0

abbrev pub full_type : ℕ
full_type = 1

abbrev pub first_type : ℕ
first_type = 2

abbrev pub middle_type : ℕ
middle_type = 3

abbrev pub last_type : ℕ
last_type = 4

abbrev pub block_size : ℕ
block_size = 32768

abbrev pub header_size : ℕ
header_size = 4 + 2 + 1

-- An Extend of a checksum; Value is that of nothing.
pub record Checksum : Type 0 where
  pub extend : ℕ → List ℕ → ℕ

-- A checksum is a uint32_t, and is extended by one string after another as by both at once.
pub record IsChecksum (crc : Checksum) : Type 0 where
  pub small : (c : ℕ) (s : List ℕ) → crc.extend c s < 2 ^ 32
  pub extends : (c : ℕ) (s t : List ℕ) → crc.extend (crc.extend c s) t ≡ crc.extend c (s ++ t)

-- crc32c::Extend of lib/leveldb/util/crc32c.cc, where `address` says where the bytes stand.
unfoldable pub crc32c : (ℕ → List ℕ → ℕ) → (List ℕ → ℕ) → Checksum
crc32c accelerated address = record { extend = λ c s. Extend.extend accelerated (address s) c s }

-- The interfaces of lib/leveldb/include/leveldb/env.h that the log calls.
pub record WritableFile : Type 1 where
  pub File : Type 0
  pub append : List ℕ → File → Status × File
  pub flush : File → Status × File

pub record SequentialFile : Type 1 where
  pub File : Type 0
  pub read : ℕ → File → Status × List ℕ × File
  pub skip : ℕ → File → Status × File

-- A file that accepts all that is written, where `contents` is what it holds.
pub record Accepts (files : WritableFile) (contents : files.File → List ℕ) : Type 0 where
  pub appended : (s : List ℕ) (f : files.File) → (files.append s f).0 ≡ ok
  pub contents-append :
      (s : List ℕ) (f : files.File) → contents (files.append s f).1 ≡ contents f ++ s
  pub flushed : (f : files.File) → (files.flush f).0 ≡ ok
  pub contents-flush : (f : files.File) → contents (files.flush f).1 ≡ contents f

-- A file that delivers all its bytes, where `rest` is what is still to be read.
pub record Delivers (files : SequentialFile) (rest : files.File → List ℕ) : Type 0 where
  pub delivered : (n : ℕ) (f : files.File) → (files.read n f).0 ≡ ok
  pub bytes_read : (n : ℕ) (f : files.File) → (files.read n f).1 ≡ take n (rest f)
  pub rest-read : (n : ℕ) (f : files.File) → rest (files.read n f).2 ≡ drop n (rest f)

-- A physical record: seven bytes of header, and a fragment.
abbrev pub physical : Checksum → ℕ → List ℕ → List ℕ
physical crc type fragment =
    encode_fixed32 (mask (crc.extend (crc.extend 0 (type ∷ [])) fragment))
    ++ (length fragment % 256 ∷ length fragment / 2 ^ 8 % 256 ∷ type ∷ fragment)
