-- ===== src/Block/Scan.antt =====
-- The iterator of a finished block, from the first entry on.
use native.Mathlib.Nat.{mod-eq_of_lt}
use tleveldb.Base.{
  ℕ, zero, suc, ◌+◌, ◌-◌, ◌^◌, ◌<◌, ◌≤◌, ◌≡◌, refl, sym, ap, ◌∙◌, true, false, ◌&&◌, some, List, [],
  ◌∷◌, ◌++◌, All, ltb, leb, length, take, drop, inl, inr, Bool-cases, ltb-false, lt→ltb,
  append_assoc, take-append, drop-append, take-append-drop, length-append, length-drop, arith,
}
use tleveldb.Status.{ok}
use tleveldb.Coding.{encode_varint32}
use tleveldb.Block.Iter.{
  decode_entry, Iter, valid, value, next_entry_offset, get_restart_point, advance_restart, parsed,
  parse_next_key, next,
}
use tleveldb.Block.Entry.{entry_bytes, length-entry_bytes, decode_entry-entry_bytes}
use tleveldb.Block.Built.{Run, no_more, entry, Sizes}

-- The iterator gives these entries one after another, and then is not valid, with the status OK.
abbrev pub Yields : Iter → List (List ℕ × List ℕ) → Type 0
Yields i [] = (valid i ≡ false) × (i.status ≡ ok)
Yields i ((key, entry_value) ∷ entries) =
    (valid i ≡ true) × (i.key ≡ key) × (value i ≡ entry_value) × Yields (next i) entries

-- The iterator will read `bytes` next, which stand behind `front`, and knows the key before them.
pub record Before (i : Iter) (front last bytes tail : List ℕ) : Type 0 where
  pub contents : i.contents ≡ front ++ (bytes ++ tail)
  pub restarts : i.restarts ≡ length front + length bytes
  pub offset : next_entry_offset i ≡ length front
  pub last_key : i.key ≡ last
  pub status : i.status ≡ ok
  pub small : i.restarts < 2 ^ 32

leb-true : (a b : ℕ) → a ≤ b → leb a b ≡ true
leb-true a b h = ground arith

leb-false : (a b : ℕ) → b < a → leb a b ≡ false
leb-false a b h = ground arith

-- The loop over the restart points sets the restart index alone.
advance_restart_lem :
    (left : ℕ) (i : Iter)
    → (index : ℕ) × (advance_restart left i ≡ record i { restart_index = index })
unfolding advance_restart
advance_restart_lem zero i = (i.restart_index, refl)
advance_restart_lem (suc left) i =
    elim (Bool-cases (
      ltb (i.restart_index + 1) i.num_restarts
      && ltb (get_restart_point i (i.restart_index + 1)) i.current)) [
        | inl on ↦
            let (index, e) =
              advance_restart_lem left (record i { restart_index = i.restart_index + 1 }) in
            (index, rw on e)
        | inr stop ↦ (i.restart_index, rw stop refl)
      ]

-- The bytes of an entry up to its value.
abbrev head_bytes : ℕ → List ℕ → List ℕ → List ℕ
head_bytes shared key entry_value =
    encode_varint32 shared
    ++ (encode_varint32 (length key - shared)
        ++ (encode_varint32 (length entry_value) ++ drop shared key))

entry_bytes-head :
    (shared : ℕ) (key entry_value rest : List ℕ)
    → entry_bytes shared key entry_value rest
      ≡ head_bytes shared key entry_value ++ (entry_value ++ rest)
entry_bytes-head shared key entry_value rest = simp (append_assoc)

-- What is read of the next entry.
reads_entry :
    (i : Iter) (front last key entry_value bytes tail : List ℕ) (shared : ℕ)
    → Before i front last (entry_bytes shared key entry_value bytes) tail
    → shared ≤ length key
    → length key + length entry_value < 2 ^ 32
    → decode_entry (take (i.restarts - next_entry_offset i) (drop (next_entry_offset i) i.contents))
      ≡ some (record {
        shared = shared;
        non_shared = length key - shared;
        value_length = length entry_value;
        delta = drop shared key ++ (entry_value ++ bytes);
      })
reads_entry i front last key entry_value bytes tail shared at inside small =
    ap decode_entry piece
    ∙ decode_entry-entry_bytes shared key entry_value bytes inside small
        (omega (arith, at.small, at.restarts))
  where
    these : List ℕ
    these = entry_bytes shared key entry_value bytes

    piece : take (i.restarts - next_entry_offset i) (drop (next_entry_offset i) i.contents) ≡ these
    piece =
        rw (at.contents, at.offset, drop-append front (these ++ tail) (length front) refl)
          (take-append these tail (i.restarts - length front) (omega (arith, at.restarts)))

-- The iterator behind an entry that it has read, up to its restart index.
after : Iter → ℕ → List ℕ → List ℕ → List ℕ → ℕ → Iter
after i shared key entry_value bytes index = record i {
  current = next_entry_offset i;
  key = take shared i.key ++ take (length key - shared) (drop shared key ++ (entry_value ++ bytes));
  value_start =
      i.restarts - length (drop shared key ++ (entry_value ++ bytes)) + (length key - shared);
  value_size = length entry_value;
  restart_index = index;
}

parses :
    (i : Iter) (front last key entry_value bytes tail : List ℕ) (shared : ℕ)
    → Before i front last (entry_bytes shared key entry_value bytes) tail
    → shared ≤ length last
    → shared ≤ length key
    → length key + length entry_value < 2 ^ 32
    → (index : ℕ) × (parse_next_key i ≡ (true, after i shared key entry_value bytes index))
unfolding parse_next_key parsed after
parses i front last key entry_value bytes tail shared at low inside small =
    let (index, moved) =
      advance_restart_lem (i.num_restarts - i.restart_index)
        (after i shared key entry_value bytes i.restart_index) in
    (
      index,
      rw
          (
            more,
            reads_entry i front last key entry_value bytes tail shared at inside small,
            ltb-false (length i.key) shared
                (omega (arith, ap (λ (t : List ℕ). length t) at.last_key)),
          )
          (ap (λ (t : Iter). (true, t)) moved),
    )
  where
    more : leb i.restarts (next_entry_offset i) ≡ false
    more =
        leb-false i.restarts (next_entry_offset i)
          (omega (arith, at.offset, at.restarts, length-entry_bytes shared key entry_value bytes))

-- The next entry is read as it was written.
step :
    (i : Iter) (front last key entry_value bytes tail : List ℕ) (shared : ℕ)
    → Before i front last (entry_bytes shared key entry_value bytes) tail
    → shared ≤ length last
    → shared ≤ length key
    → take shared last ≡ take shared key
    → length key + length entry_value < 2 ^ 32
    → (i' : Iter) × (parse_next_key i ≡ (true, i'))
      × (valid i' ≡ true)
      × (i'.key ≡ key)
      × (value i' ≡ entry_value)
      × Before i' (front ++ (head_bytes shared key entry_value ++ entry_value)) key bytes tail
unfolding after value valid
step i front last key entry_value bytes tail shared at low inside same small =
    let (index, read) = parses i front last key entry_value bytes tail shared at low inside small in
    (
      after i shared key entry_value bytes index,
      read,
      lt→ltb (next_entry_offset i) i.restarts
          (omega (arith, at.offset, at.restarts, length-entry_bytes shared key entry_value bytes)),
      key_read,
      rw start value_read,
      record {
        contents = at.contents ∙ contents_split;
        restarts = omega (arith, at.restarts, sizes, whole_size);
        offset = rw start (
            mod-eq_of_lt {n = length front + length head + length entry_value} {m = 2 ^ 32}
              (omega (arith, at.small, at.restarts, sizes))
            ∙ omega (arith, whole_size));
        last_key = key_read;
        status = at.status;
        small = at.small;
      },
    )
  where
    head : List ℕ
    head = head_bytes shared key entry_value

    these : List ℕ
    these = entry_bytes shared key entry_value bytes

    delta : List ℕ
    delta = drop shared key ++ (entry_value ++ bytes)

    sizes : length these ≡ length head + length entry_value + length bytes
    sizes =
        ap (λ (t : List ℕ). length t) (entry_bytes-head shared key entry_value bytes)
        ∙ omega (arith, length-append head (entry_value ++ bytes), length-append entry_value bytes)

    whole_size :
        length (front ++ (head ++ entry_value)) ≡ length front + length head + length entry_value
    whole_size =
        omega (arith, length-append front (head ++ entry_value), length-append head entry_value)

    delta_size : length delta ≡ length key - shared + length entry_value + length bytes
    delta_size = omega (
      arith,
      length-append (drop shared key) (entry_value ++ bytes),
      length-append entry_value bytes,
      length-drop shared key,
    )

    head_size : length key - shared ≤ length head
    head_size = omega (arith, length-drop shared key, length-append {0})

    start : i.restarts - length delta + (length key - shared) ≡ length front + length head
    start = omega (arith, at.restarts, sizes, delta_size, head_size)

    key_read : take shared i.key ++ take (length key - shared) delta ≡ key
    key_read =
        rw
          (
            at.last_key,
            same,
            take-append (drop shared key) (entry_value ++ bytes) (length key - shared)
                (sym (length-drop shared key)),
          )
          (take-append-drop shared key)

    contents_split : front ++ (these ++ tail) ≡ (front ++ (head ++ entry_value)) ++ (bytes ++ tail)
    contents_split = rw (entry_bytes-head shared key entry_value bytes) (simp (append_assoc))

    regroup :
        front ++ ((head ++ (entry_value ++ bytes)) ++ tail)
        ≡ (front ++ head) ++ (entry_value ++ (bytes ++ tail))
    regroup = simp (append_assoc)

    value_read :
        take (length entry_value) (drop (length front + length head) i.contents) ≡ entry_value
    value_read =
        rw (at.contents, entry_bytes-head shared key entry_value bytes, regroup)
          (rw
            (drop-append (front ++ head) (entry_value ++ (bytes ++ tail))
              (length front + length head) (omega (arith, length-append front head)))
            (take-append entry_value (bytes ++ tail) (length entry_value) refl))

-- Behind the last entry the iterator is not valid.
ended :
    (i : Iter) (front tail last : List ℕ)
    → Before i front last [] tail
    → Yields (parse_next_key i).1 []
unfolding parse_next_key valid
ended i front tail last at =
    rw (leb-true i.restarts (next_entry_offset i) (omega (arith, at.offset, at.restarts)))
      (ltb-false i.restarts i.restarts (omega arith), at.status)

-- From an entry on, the iterator gives all that follow.
pub yields :
    (entries : List (List ℕ × List ℕ)) (i : Iter) (front tail : List ℕ) {last bytes : List ℕ}
    → Run last entries bytes
    → Before i front last bytes tail
    → All Sizes entries
    → Yields (parse_next_key i).1 entries
unfolding next
yields [] i front tail (no_more last) at small = ended i front tail last at
yields ((key, entry_value) ∷ entries) i front tail
      (entry last _ _ shared _ bytes low inside same run) at (fit, others) =
    let (i', read, is_valid, key_read, value_read, at') =
      step i front last key entry_value bytes tail shared at low inside same fit in
    rw read (
      is_valid,
      key_read,
      value_read,
      yields entries i' (front ++ (head_bytes shared key entry_value ++ entry_value)) tail run at'
          others,
    )
