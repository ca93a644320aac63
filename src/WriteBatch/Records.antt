-- ===== src/WriteBatch/Records.antt =====
-- A batch as its sequence number and the list of its updates: what the methods of
-- lib/leveldb/db/write_batch.cc do to these.
use native.Mathlib.Nat.{mod-eq_of_lt}
use tleveldb.Base.{
  ℕ, ◌+◌, ◌^◌, ◌%◌, ◌<◌, ◌≡◌, refl, sym, ap, ◌∙◌, List, [], ◌∷◌, ◌++◌, length, length-append, drop,
  arith, append_assoc, append-nil,
}
use tleveldb.Coding.{encode_fixed32, encode_fixed64, put_varint32, put_length_prefixed_slice}
use tleveldb.Coding.Fixed.{decode-encode_fixed32, decode-encode_fixed64}
use tleveldb.WriteBatch.{
  Update, put, delete, type_value, type_deletion, clear, count, set_count, sequence, set_sequence,
  put_record, delete_record, append,
}

-- The bytes of a record.
abbrev pub record_of : Update → List ℕ
record_of (put key value) =
    type_value ∷ (put_length_prefixed_slice [] key ++ put_length_prefixed_slice [] value)
record_of (delete key) = type_deletion ∷ put_length_prefixed_slice [] key

abbrev pub records_of : List Update → List ℕ
records_of [] = []
records_of (u ∷ us) = record_of u ++ records_of us

-- `rep` is the batch of the updates `us` with the sequence number `seq`.
abbrev pub Holds : List ℕ → ℕ → List Update → Type 0
Holds rep seq us = rep ≡ encode_fixed64 seq ++ (encode_fixed32 (length us) ++ records_of us)

-- Keys and values whose length a uint32_t holds.
abbrev pub IsShort : Update → Type 0
IsShort (put key value) = (length key < 2 ^ 32) × (length value < 2 ^ 32)
IsShort (delete key) = length key < 2 ^ 32

abbrev pub apply : List ℕ → Update → List ℕ
apply rep (put key value) = put_record rep key value
apply rep (delete key) = delete_record rep key

records_of-append : (us vs : List Update) → records_of (us ++ vs) ≡ records_of us ++ records_of vs
records_of-append [] vs = refl
records_of-append (u ∷ us) vs =
    ap (λ t. record_of u ++ t) (records_of-append us vs)
    ∙ sym (append_assoc (record_of u) (records_of us) (records_of vs))

module _ (seq n : ℕ) (body : List ℕ) where
  pub count-header : n < 2 ^ 32 → count (encode_fixed64 seq ++ (encode_fixed32 n ++ body)) ≡ n
  unfolding count encode_fixed64
  count-header h = decode-encode_fixed32 n body h

  pub set_count-header :
      (m : ℕ)
      → set_count (encode_fixed64 seq ++ (encode_fixed32 n ++ body)) m
        ≡ encode_fixed64 seq ++ (encode_fixed32 (m % 2 ^ 32) ++ body)
  unfolding set_count encode_fixed64 encode_fixed32
  set_count-header m = refl

  pub drop-header : drop 12 (encode_fixed64 seq ++ (encode_fixed32 n ++ body)) ≡ body
  unfolding encode_fixed64 encode_fixed32
  drop-header = refl

put_slice-append :
    (dst value : List ℕ)
    → put_length_prefixed_slice dst value ≡ dst ++ put_length_prefixed_slice [] value
unfolding put_length_prefixed_slice put_varint32
put_slice-append dst value = append_assoc dst _ value

pub clear-Holds : Holds clear 0 []
unfolding clear encode_fixed64 encode_fixed32
clear-Holds = refl

module _ (rep : List ℕ) (seq : ℕ) (us : List Update) (holds : Holds rep seq us) where
  pub count-Holds : length us < 2 ^ 32 → count rep ≡ length us
  count-Holds room = rw holds (count-header seq (length us) (records_of us) room)

  -- A batch whose count is set, with more bytes behind, holds the updates of those bytes too.
  pub extend-Holds :
      (vs : List Update) (n : ℕ) (bytes : List ℕ)
      → length us + length vs < 2 ^ 32
      → n ≡ length us + length vs
      → bytes ≡ records_of vs
      → Holds (set_count rep n ++ bytes) seq (us ++ vs)
  extend-Holds vs n bytes room same_count same_bytes =
      rw
        (
          same_count,
          same_bytes,
          holds,
          set_count-header seq (length us) (records_of us) (length us + length vs),
          mod-eq_of_lt room,
          length-append us vs,
          records_of-append us vs,
        )
        (append_assoc (encode_fixed64 seq) _ _
          ∙ ap (λ t. encode_fixed64 seq ++ t)
              (append_assoc (encode_fixed32 (length us + length vs)) (records_of us)
                (records_of vs)))

  -- Put and Delete add their update behind the others.
  pub apply-Holds : (u : Update) → length us + 1 < 2 ^ 32 → Holds (apply rep u) seq (us ++ (u ∷ []))
  unfolding put_record delete_record
  apply-Holds (put key value) room =
      rw
        (
          count-Holds (omega arith),
          mod-eq_of_lt {n = length us + 1} {m = 2 ^ 32} room,
          put_slice-append (put_length_prefixed_slice _ key) value,
          put_slice-append (set_count rep (length us + 1) ++ (type_value ∷ [])) key,
          append_assoc,
          append_assoc,
        )
        (extend-Holds (put key value ∷ []) _ _ room refl (sym (append-nil _)))
  apply-Holds (delete key) room =
      rw
        (
          count-Holds (omega arith),
          mod-eq_of_lt {n = length us + 1} {m = 2 ^ 32} room,
          put_slice-append (set_count rep (length us + 1) ++ (type_deletion ∷ [])) key,
          append_assoc,
        )
        (extend-Holds (delete key ∷ []) _ _ room refl (sym (append-nil _)))

-- Append leaves a batch that holds the updates of the first batch and then those of the second,
-- under the sequence number of the first, where there are fewer than 2^31 in all.
pub append-Holds :
    (dst src : List ℕ) (seq seq' : ℕ) (us vs : List Update)
    → Holds dst seq us
    → Holds src seq' vs
    → length us + length vs < 2 ^ 31
    → Holds (append dst src) seq (us ++ vs)
unfolding append
append-Holds dst src seq seq' us vs holds holds' room =
    rw
      (
        count-Holds dst seq us holds (omega arith),
        count-Holds src seq' vs holds' (omega arith),
        mod-eq_of_lt {n = length us + length vs} {m = 2 ^ 32} (omega (arith, room)),
      )
      (extend-Holds dst seq us holds vs _ _ (omega (arith, room)) refl
        (rw holds' (drop-header seq' (length vs) (records_of vs))))

-- SetSequence changes the sequence number alone.
pub set_sequence-Holds :
    (rep : List ℕ) (seq : ℕ) (us : List Update) (seq' : ℕ)
    → Holds rep seq us
    → Holds (set_sequence rep seq') seq' us
unfolding set_sequence encode_fixed64
set_sequence-Holds rep seq us seq' holds = rw holds refl

-- Sequence reads the sequence number back.
pub sequence-Holds :
    (rep : List ℕ) (seq : ℕ) (us : List Update)
    → Holds rep seq us
    → seq < 2 ^ 64
    → sequence rep ≡ seq
unfolding sequence
sequence-Holds rep seq us holds h = rw holds (decode-encode_fixed64 seq _ h)
