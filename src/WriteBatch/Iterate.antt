-- ===== src/WriteBatch/Iterate.antt =====
-- WriteBatch::Iterate and WriteBatchInternal::InsertInto of lib/leveldb/db/write_batch.cc.
use native.Mathlib.Nat.{mod-eq_of_lt}
use mathlib.Core.List.{foldl}
use tleveldb.Base.{
  ℕ, zero, suc, ◌+◌, ◌^◌, ◌<◌, ◌≤◌, ◌≡◌, refl, sym, ap, ◌%◌, ◌∙◌, List, [], ◌∷◌, ◌++◌, ◌==◌,
  if◌then◌else◌, length, length-append, All, arith, append_assoc, append-nil, inl, inr, ◌⊎◌,
  Option-cases, ltb-false,
}
use tleveldb.Status.{Status, ok, corruption}
use tleveldb.Coding.{
  encode_fixed32, encode_fixed64, put_length_prefixed_slice, get_length_prefixed_slice,
}
use tleveldb.Coding.Fixed.{length-encode_fixed32, length-encode_fixed64}
use tleveldb.Coding.Strings.{get-put_length_prefixed_slice, get_length_prefixed_slice-length}
use tleveldb.WriteBatch.{
  Update, put, delete, type_value, type_deletion, clear, set_count, header, Scanned, update, failed,
  scan_put, scan_delete, scan_record, iterate_loop, iterate,
}
use tleveldb.WriteBatch.Records.{
  record_of, records_of, Holds, IsShort, apply, apply-Holds, clear-Holds, count-header,
  set_count-header, drop-header,
}

record_of-filled : (u : Update) (rest : List ℕ) → length rest < length (record_of u ++ rest)
record_of-filled (put key value) rest = omega (
  arith,
  length-append {0} (put_length_prefixed_slice [] key ++ put_length_prefixed_slice [] value) rest,
)
record_of-filled (delete key) rest =
    omega (arith, length-append {0} (put_length_prefixed_slice [] key) rest)

scan_put-record :
    (key value rest : List ℕ)
    → length key < 2 ^ 32
    → length value < 2 ^ 32
    → scan_put ((put_length_prefixed_slice [] key ++ put_length_prefixed_slice [] value) ++ rest)
      ≡ update (put key value) rest
unfolding scan_put
scan_put-record key value rest short_key short_value =
    rw (append_assoc (put_length_prefixed_slice [] key) (put_length_prefixed_slice [] value) rest) (
      ground (
        arith,
        get-put_length_prefixed_slice key (put_length_prefixed_slice [] value ++ rest) short_key,
        get-put_length_prefixed_slice value rest short_value,
      ))

scan_delete-record :
    (key rest : List ℕ)
    → length key < 2 ^ 32
    → scan_delete (put_length_prefixed_slice [] key ++ rest) ≡ update (delete key) rest
unfolding scan_delete
scan_delete-record key rest short = ground (arith, get-put_length_prefixed_slice key rest short)

Scanned-cases :
    (r : Scanned)
    → ((status : Status) × (r ≡ failed status))
      ⊎ ((u : Update) × (rest : List ℕ) × (r ≡ update u rest))
Scanned-cases (update u rest) = inr (u, rest, refl)
Scanned-cases (failed status) = inl (status, refl)

-- A record that is read leaves less than there was.
scan_put-length :
    (input : List ℕ) (u : Update) (rest : List ℕ)
    → scan_put input ≡ update u rest
    → length rest ≤ length input
unfolding scan_put
scan_put-length input u rest e = elim (Option-cases (get_length_prefixed_slice input)) [
  | inl bad ↦ absurd (ground (arith, bad))
  | inr ((key, left), got) ↦ elim (Option-cases (get_length_prefixed_slice left)) [
    | inl bad ↦ absurd (ground (arith, got, bad))
    | inr ((value, left'), got') ↦ ground (
      arith,
      got,
      got',
      get_length_prefixed_slice-length input key left got,
      get_length_prefixed_slice-length left value left' got',
    )
  ]
]

scan_delete-length :
    (input : List ℕ) (u : Update) (rest : List ℕ)
    → scan_delete input ≡ update u rest
    → length rest ≤ length input
unfolding scan_delete
scan_delete-length input u rest e = elim (Option-cases (get_length_prefixed_slice input)) [
  | inl bad ↦ absurd (ground (arith, bad))
  | inr ((key, left), got) ↦
      ground (arith, got, get_length_prefixed_slice-length input key left got)
]

scan_record-length :
    (tag : ℕ) (input : List ℕ) (u : Update) (rest : List ℕ)
    → scan_record tag input ≡ update u rest
    → length rest ≤ length input
scan_record-length tag input u rest e = ground (
  arith,
  scan_record_lem tag input,
  scan_put-length input u rest,
  scan_delete-length input u rest,
)
  where
    scan_record_lem :
        (t : ℕ) (bytes : List ℕ)
        → scan_record t bytes ≡ (
            if t == type_value
            then scan_put bytes
            else if t == type_deletion
            then scan_delete bytes
            else failed (corruption "unknown WriteBatch tag"))
    scan_record_lem t bytes = unfold scan_record in refl

module _ {S : Type 0} (handle : S → Update → S) where
  -- One record is handled, and the loop goes on behind it.
  iterate_loop-record_of :
      (u : Update) (rest : List ℕ) (fuel found expected : ℕ) (s : S)
      → IsShort u
      → iterate_loop handle (suc fuel) (record_of u ++ rest) found expected s
        ≡ iterate_loop handle fuel rest ((found + 1) % 2 ^ 32) expected (handle s u)
  unfolding iterate_loop scan_record
  iterate_loop-record_of (put key value) rest fuel found expected s short =
      rw (scan_put-record key value rest short.0 short.1, iterate_loop) refl
  iterate_loop-record_of (delete key) rest fuel found expected s short =
      rw (scan_delete-record key rest short, iterate_loop) refl

  -- A list of records is handled from its first to its last.
  iterate_loop-records_of :
      (us : List Update) (fuel found expected : ℕ) (s : S)
      → length (records_of us) ≤ fuel
      → All IsShort us
      → found + length us < 2 ^ 32
      → iterate_loop handle fuel (records_of us) found expected s ≡ (
        foldl handle s us,
        if found + length us == expected then ok else corruption "WriteBatch has wrong count",
      )
  iterate_loop-records_of [] fuel found expected s enough short room =
      unfold iterate_loop in ground arith
  iterate_loop-records_of (u ∷ us) zero found expected s enough short room =
      absurd (ground (arith, record_of-filled u (records_of us)))
  iterate_loop-records_of (u ∷ us) (suc fuel) found expected s enough short room =
      rw (iterate_loop-record_of u (records_of us) fuel found expected s short.0) (
        ap (λ n. iterate_loop handle fuel (records_of us) n expected (handle s u)) in_range
        ∙ iterate_loop-records_of us fuel (found + 1) expected (handle s u)
            (omega (arith, record_of-filled u (records_of us))) short.1 (omega (arith, room))
        ∙ ground arith)
    where
      in_range : (found + 1) % 2 ^ 32 ≡ found + 1
      in_range = mod-eq_of_lt (omega (arith, room))

  -- If SetCount wrote a number that is not negative to a batch of fewer than 2^31 updates whose
  -- keys and values have lengths below 2^32, Iterate still calls the handler with all its updates
  -- in order, and then returns OK if the number is that of the updates and the status of a wrong
  -- count if not.
  pub iterate-set_count :
      (rep : List ℕ) (seq : ℕ) (us : List Update) (n : ℕ) (s : S)
      → Holds rep seq us
      → All IsShort us
      → length us < 2 ^ 31
      → n < 2 ^ 31
      → iterate handle (set_count rep n) s ≡ (
        foldl handle s us,
        if length us == n then ok else corruption "WriteBatch has wrong count",
      )
  unfolding iterate
  iterate-set_count rep seq us n s holds short few room =
      rw (holds, set_count-header seq (length us) (records_of us) n, mod-eq_of_lt n_fits)
        (rw
          (
            ltb-false (length (encode_fixed64 seq ++ (encode_fixed32 n ++ records_of us))) header
                long,
            drop-header seq n (records_of us),
            count-header seq n (records_of us) n_fits,
            iterate_loop-records_of us
                (length (encode_fixed64 seq ++ (encode_fixed32 n ++ records_of us))) 0 n s
                (omega (arith, size)) short (omega (arith, few)),
          )
          (ground arith))
    where
      n_fits : n < 2 ^ 32
      n_fits = omega (arith, room)

      size :
          length (encode_fixed64 seq ++ (encode_fixed32 n ++ records_of us))
          ≡ 12 + length (records_of us)
      size = omega (
        arith,
        length-append {0} (encode_fixed64 seq) (encode_fixed32 n ++ records_of us),
        length-append {0} (encode_fixed32 n) (records_of us),
        length-encode_fixed64 seq,
        length-encode_fixed32 n,
      )

      long : 12 ≤ length (encode_fixed64 seq ++ (encode_fixed32 n ++ records_of us))
      long = omega (arith, size)

  -- Iterate on a batch calls the handler with its updates in their order and returns OK.
  pub iterate-Holds :
      (rep : List ℕ) (seq : ℕ) (us : List Update) (s : S)
      → Holds rep seq us
      → All IsShort us
      → length us < 2 ^ 31
      → iterate handle rep s ≡ (foldl handle s us, ok)
  iterate-Holds rep seq us s holds short room =
      rw (sym same)
        (iterate-set_count rep seq us (length us) s holds short room room ∙ ground arith)
    where
      same : set_count rep (length us) ≡ rep
      same = rw (
        holds,
        set_count-header seq (length us) (records_of us),
        mod-eq_of_lt {n = length us} {m = 2 ^ 32} (omega (arith, room)),
      )

  -- The loop of Iterate ends within as many rounds as its input has bytes: any two fuels that are
  -- at least that number give the same result.
  pub iterate_loop-fuel :
      (fuel more : ℕ) (input : List ℕ) (found expected : ℕ) (s : S)
      → length input ≤ fuel
      → length input ≤ more
      → iterate_loop handle fuel input found expected s
        ≡ iterate_loop handle more input found expected s
  unfolding iterate_loop
  iterate_loop-fuel fuel more [] found expected s h k = refl
  iterate_loop-fuel zero more (tag ∷ input) found expected s h k = absurd (omega arith)
  iterate_loop-fuel (suc fuel) zero (tag ∷ input) found expected s h k = absurd (omega arith)
  iterate_loop-fuel (suc fuel) (suc more) (tag ∷ input) found expected s h k =
      elim (Scanned-cases (scan_record tag input)) [
        | inl (status, e) ↦ ground (arith, e)
        | inr (u, rest, e) ↦ ground (
          arith,
          e,
          scan_record-length tag input u rest e,
          iterate_loop-fuel fuel more rest ((found + 1) % 2 ^ 32) expected (handle s u),
        )
      ]

-- A batch that is cleared, then filled by Put and Delete.
pub written : List Update → List ℕ
written us = foldl apply clear us

written-Holds_from :
    (rep : List ℕ) (seq : ℕ) (us vs : List Update)
    → Holds rep seq us
    → length us + length vs < 2 ^ 32
    → Holds (foldl apply rep vs) seq (us ++ vs)
written-Holds_from rep seq us [] holds room = rw (append-nil us) holds
written-Holds_from rep seq us (v ∷ vs) holds room = rw (← append_assoc us (v ∷ []) vs) (
    written-Holds_from (apply rep v) seq (us ++ (v ∷ [])) vs
      (apply-Holds rep seq us holds v (omega arith)) (omega (arith, length-append {0} us (v ∷ []))))

pub written-Holds : (us : List Update) → length us < 2 ^ 32 → Holds (written us) 0 us
unfolding written
written-Holds us room = written-Holds_from clear 0 [] us clear-Holds (omega arith)

-- Iterate on a batch that Put and Delete filled after Clear calls the handler with the same updates
-- in the same order and returns OK, for fewer than 2^31 updates whose keys and values have lengths
-- below 2^32.
pub iterate-written :
    {S : Type 0} (handle : S → Update → S) (us : List Update) (s : S)
    → All IsShort us
    → length us < 2 ^ 31
    → iterate handle (written us) s ≡ (foldl handle s us, ok)
iterate-written handle us s short room =
    iterate-Holds handle (written us) 0 us s (written-Holds us (omega (arith, room))) short room
