-- ===== src/WriteBatch/Examples.antt =====
-- Batches of write_batch.cc at concrete updates.
use tleveldb.Base.{ℕ, ◌≡◌, refl, List, [], ◌∷◌, ◌++◌, arith}
use mathlib.Core.List.{foldl}
use tleveldb.Status.{ok, corruption}
use tleveldb.Coding.{
  encode_fixed32, decode_fixed32, encode_varint32, put_varint32, put_length_prefixed_slice,
}
use tleveldb.WriteBatch.{
  Update, put, delete, clear, count, delete_record, append, set_count, set_sequence, iterate,
  insert_into, iterate_loop,
}
use tleveldb.WriteBatch.Records.{Holds, append-Holds, set_sequence-Holds}
use tleveldb.WriteBatch.Iterate.{
  written, written-Holds, iterate-written, iterate-set_count, iterate_loop-fuel,
}
use tleveldb.WriteBatch.Insert.{insert_all, insert_into-Holds}

abbrev two_updates : List Update
two_updates = put (1 ∷ 2 ∷ []) (7 ∷ []) ∷ delete (3 ∷ []) ∷ []

abbrev one_update : List Update
one_update = put [] (9 ∷ 9 ∷ []) ∷ []

-- A handler that writes the calls down, the last one first.
abbrev log : List Update → Update → List Update
log us u = u ∷ us

iterate-written_example : iterate log (written two_updates) [] ≡ (foldl log [] two_updates, ok)
iterate-written_example = iterate-written log two_updates [] (omega arith) (omega arith)

iterate-set_count_example :
    iterate log (set_count (written two_updates) 1) []
    ≡ (foldl log [] two_updates, corruption "WriteBatch has wrong count")
iterate-set_count_example =
    iterate-set_count log (written two_updates) 0 two_updates 1 []
      (written-Holds two_updates (omega arith)) (omega arith) (omega arith) (omega arith)

append-Holds_example :
    Holds (append (written two_updates) (written one_update)) 0 (two_updates ++ one_update)
append-Holds_example =
    append-Holds (written two_updates) (written one_update) 0 0 two_updates one_update
      (written-Holds two_updates (omega arith)) (written-Holds one_update (omega arith))
      (omega arith)

-- A memtable as the list of its additions.
abbrev note :
    ℕ → ℕ → List ℕ → List ℕ → List (ℕ × ℕ × List ℕ × List ℕ) → List (ℕ × ℕ × List ℕ × List ℕ)
note seq type key value mem = (seq, type, key, value) ∷ mem

insert_into-Holds_example :
    insert_into note (set_sequence (written two_updates) 100) []
    ≡ (insert_all note 100 two_updates [], ok)
insert_into-Holds_example =
    insert_into-Holds note (set_sequence (written two_updates) 100) 100 two_updates []
      (set_sequence-Holds (written two_updates) 0 two_updates 100
        (written-Holds two_updates (omega arith)))
      (omega arith) (omega arith) (omega arith)

iterate_loop-fuel_example :
    iterate_loop log 3 (0 ∷ 1 ∷ 5 ∷ []) 0 1 [] ≡ iterate_loop log 30 (0 ∷ 1 ∷ 5 ∷ []) 0 1 []
iterate_loop-fuel_example =
    iterate_loop-fuel log 3 30 (0 ∷ 1 ∷ 5 ∷ []) 0 1 [] (omega arith) (omega arith)

-- The bytes of a batch of one deletion.
delete_bytes :
    delete_record clear (65 ∷ []) ≡ 0 ∷ 0 ∷ 0 ∷ 0 ∷ 0 ∷ 0 ∷ 0 ∷ 0 ∷ 1 ∷ 0 ∷ 0 ∷ 0 ∷ 0 ∷ 1 ∷ 65 ∷ []
unfolding delete_record clear set_count count put_length_prefixed_slice put_varint32 encode_varint32
    decode_fixed32 encode_fixed32
delete_bytes = refl
