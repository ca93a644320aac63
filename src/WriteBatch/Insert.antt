-- ===== src/WriteBatch/Insert.antt =====
-- WriteBatchInternal::InsertInto of lib/leveldb/db/write_batch.cc.
use native.Mathlib.Nat.{mod-eq_of_lt}
use mathlib.Core.List.{foldl}
use tleveldb.Base.{ℕ, ◌+◌, ◌^◌, ◌<◌, ◌≡◌, ap, ◌∙◌, List, [], ◌∷◌, length, All, arith}
use tleveldb.Status.{ok}
use tleveldb.WriteBatch.{
  Update, put, delete, type_value, type_deletion, memtable_insert, insert_into,
}
use tleveldb.WriteBatch.Records.{Holds, IsShort, sequence-Holds}
use tleveldb.WriteBatch.Iterate.{iterate-Holds}

module _ {M : Type 0} (add : ℕ → ℕ → List ℕ → List ℕ → M → M) where
  -- The updates of a batch, added to a memtable under consecutive sequence numbers.
  abbrev pub insert_all : ℕ → List Update → M → M
  insert_all seq [] mem = mem
  insert_all seq (put key value ∷ us) mem =
      insert_all (seq + 1) us (add seq type_value key value mem)
  insert_all seq (delete key ∷ us) mem = insert_all (seq + 1) us (add seq type_deletion key [] mem)

  memtable_insert-insert_all :
      (us : List Update) (seq : ℕ) (mem : M)
      → seq + length us < 2 ^ 64
      → foldl (memtable_insert add) (seq, mem) us ≡ (seq + length us, insert_all seq us mem)
  unfolding memtable_insert
  memtable_insert-insert_all [] seq mem room = ap (λ (t : ℕ). (t, mem)) (omega arith)
  memtable_insert-insert_all (put key value ∷ us) seq mem room =
      rw (mod-eq_of_lt {n = seq + 1} {m = 2 ^ 64} (omega arith)) (
        memtable_insert-insert_all us (seq + 1) (add seq type_value key value mem) (omega arith)
        ∙ ap (λ (t : ℕ). (t, insert_all (seq + 1) us (add seq type_value key value mem)))
            (omega arith))
  memtable_insert-insert_all (delete key ∷ us) seq mem room =
      rw (mod-eq_of_lt {n = seq + 1} {m = 2 ^ 64} (omega arith)) (
        memtable_insert-insert_all us (seq + 1) (add seq type_deletion key [] mem) (omega arith)
        ∙ ap (λ (t : ℕ). (t, insert_all (seq + 1) us (add seq type_deletion key [] mem)))
            (omega arith))

  -- InsertInto adds the updates of a batch to the memtable in their order, under consecutive
  -- sequence numbers from that of the batch on, and returns OK, for fewer than 2^31 updates whose
  -- keys and values have lengths below 2^32, while no sequence number reaches 2^64.
  pub insert_into-Holds :
      (rep : List ℕ) (seq : ℕ) (us : List Update) (mem : M)
      → Holds rep seq us
      → All IsShort us
      → length us < 2 ^ 31
      → seq + length us < 2 ^ 64
      → insert_into add rep mem ≡ (insert_all seq us mem, ok)
  unfolding insert_into
  insert_into-Holds rep seq us mem holds short room seq_room = rw (
    sequence-Holds rep seq us holds (omega arith),
    iterate-Holds (memtable_insert add) rep seq us (seq, mem) holds short room,
    memtable_insert-insert_all us seq mem seq_room,
  )
