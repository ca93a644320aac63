-- ===== src/Status.antt =====
-- lib/leveldb/include/leveldb/status.h: the outcome of an operation. The message of a status is
-- what its constructor was given first.
use Prim.Native.String.{String}

pub data Status : Type 0 where
  ok : Status
  not_found corruption not_supported invalid_argument io_error : String → Status
