-- ===== src/Block.antt =====
-- The blocks of a table: lib/leveldb/table/block_builder.cc, and in Block/Iter.antt the reader of
-- lib/leveldb/table/block.cc.
pub mod Iter
pub mod Seek
pub mod Entry
pub mod Built
pub mod Scan
pub mod Whole
mod Examples
use tleveldb.Base.{
  ℕ, ◌+◌, ◌-◌, ◌*◌, ◌%◌, ◌^◌, zero, suc, Bool, true, false, ◌&&◌, List, [], ◌∷◌, ◌++◌, ltb, ◌==◌,
  if◌then◌else◌, length, take, drop,
}
use tleveldb.Coding.{put_fixed32, put_varint32}

pub record BlockBuilder : Type 0 where
  pub buffer : List ℕ
  pub restarts : List ℕ
  pub counter : ℕ
  pub finished : Bool
  pub last_key : List ℕ

-- The constructor and Reset leave the same; the first restart point is at offset 0.
abbrev pub new_builder : BlockBuilder
new_builder = record {
  buffer = [];
  restarts = 0 ∷ [];
  counter = 0;
  finished = false;
  last_key = [];
}

unfoldable pub current_size_estimate : BlockBuilder → ℕ
current_size_estimate b = length b.buffer + length b.restarts * 4 + 4

-- The loop of Finish.
unfoldable pub put_restarts : List ℕ → List ℕ → List ℕ
put_restarts [] buffer = buffer
put_restarts (r ∷ rs) buffer = put_restarts rs (put_fixed32 buffer r)

unfoldable pub finish : BlockBuilder → BlockBuilder
unfolding put_restarts
finish b = record b {
  buffer = put_fixed32 (put_restarts b.restarts b.buffer) (length b.restarts % 2 ^ 32);
  finished = true;
}

-- The loop of Add that counts the bytes that two keys share.
unfoldable pub shared_length : List ℕ → List ℕ → ℕ
shared_length [] key = 0
shared_length (x ∷ last_key) [] = 0
shared_length (x ∷ last_key) (y ∷ key) =
    let more = shared_length last_key key in if x == y then suc more else 0

-- The sizes are passed to PutVarint32 as uint32_t.
unfoldable pub put_entry : ℕ → List ℕ → List ℕ → List ℕ → List ℕ
put_entry shared key value buffer =
    let sizes =
      put_varint32
        (put_varint32 (put_varint32 buffer (shared % 2 ^ 32)) ((length key - shared) % 2 ^ 32))
        (length value % 2 ^ 32) in
    (sizes ++ drop shared key) ++ value

module _ (block_restart_interval : ℕ) where
  unfoldable pub add : List ℕ → List ℕ → BlockBuilder → BlockBuilder
  unfolding shared_length put_entry
  add key value b =
      let in_run = ltb b.counter block_restart_interval in
      let shared = if in_run then shared_length b.last_key key else 0 in
      record b {
        buffer = put_entry shared key value b.buffer;
        restarts = if in_run then b.restarts else b.restarts ++ (length b.buffer % 2 ^ 32 ∷ []);
        counter = (if in_run then b.counter else 0) + 1;
        last_key = take shared b.last_key ++ drop shared key;
      }
