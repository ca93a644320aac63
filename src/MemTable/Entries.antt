-- ===== src/MemTable/Entries.antt =====
-- lib/leveldb/db/memtable.cc: what is read from the bytes of an entry.
use native.Mathlib.Nat.{mod-eq_of_lt}
use tleveldb.Base.{
  ℕ, zero, suc, ◌+◌, ◌-◌, ◌*◌, ◌%◌, ◌^◌, ◌≤◌, ◌<◌, ◌≡◌, refl, sym, ap, ◌∙◌, List, [], ◌++◌, length,
  take, append_assoc, append-nil, if◌then◌else◌, ◌==◌, arith, take-append, drop-append,
}
use tleveldb.Coding.{encode_varint32, encode_fixed64}
use tleveldb.Coding.Fixed.{decode-encode_fixed64}
use tleveldb.SkipList.{is_eq}
use tleveldb.DbFormat.{
  value_type_for_seek, max_sequence_number, UserComparator, ParsedInternalKey, internal_compare,
  lookup_key, memtable_key, extract_user_key,
}
use tleveldb.DbFormat.Keys.{
  IsKey, encoded, pack_sum, length-encoded, append_internal_key-encoded, tag_fits,
}
use tleveldb.DbFormat.Order.{key_compare, internal_compare-append}
use tleveldb.Comparator.Order.{IsOrder}
use tleveldb.SkipList.Levels.{IsWeakOrder}
use tleveldb.MemTable.{
  prefixed, entry, key_comparator, read_value, read_entry, Answer, by_type, found, deleted, absent,
}
use tleveldb.MemTable.Lengths.{read_length-encode, prefixed-encode}

-- What was added: the parts of an internal key, and a value.
pub record Item : Type 0 where
  pub key : ParsedInternalKey
  pub value : List ℕ

pub record IsItem (i : Item) : Type 0 where
  pub key : IsKey (i.key)
  pub short_key : length (i.key).user_key + 8 < 2 ^ 32
  pub short_value : length i.value < 2 ^ 32

abbrev pub entry_of : Item → List ℕ
entry_of i = entry (i.key).sequence (i.key).type (i.key).user_key i.value

abbrev tag_of : ParsedInternalKey → ℕ
tag_of k = k.sequence * 2 ^ 8 + k.type

-- The length that stands before an internal key.
key_length-mod :
    (user_key : List ℕ) (tag : ℕ)
    → length user_key + 8 < 2 ^ 32
    → (length user_key + 8) % 2 ^ 32 ≡ length (encoded user_key tag)
key_length-mod user_key tag h = mod-eq_of_lt h ∙ sym (length-encoded user_key tag)

entry_parts :
    (i : Item)
    → IsItem i
    → entry_of i
      ≡ encode_varint32 (length (encoded (i.key).user_key (tag_of (i.key))))
        ++ (encoded (i.key).user_key (tag_of (i.key))
            ++ (encode_varint32 (length i.value) ++ (i.value ++ [])))
unfolding entry
entry_parts i is =
    rw
      (
        pack_sum (i.key).sequence (i.key).type (is.key).sequence_fits (is.key).type_known,
        key_length-mod (i.key).user_key (tag_of (i.key)) is.short_key,
        mod-eq_of_lt is.short_value,
        append-nil i.value,
      )
      refl

prefixed-entry :
    (i : Item) → IsItem i → prefixed (entry_of i) ≡ encoded (i.key).user_key (tag_of (i.key))
prefixed-entry i is =
    ap prefixed (entry_parts i is)
    ∙ prefixed-encode (encoded (i.key).user_key (tag_of (i.key))) _
        (omega (arith, is.short_key, length-encoded (i.key).user_key (tag_of (i.key))))

-- The key that a search begins from.
abbrev pub sought : List ℕ → ℕ → ParsedInternalKey
sought user_key s = record { user_key = user_key; sequence = s; type = value_type_for_seek }

prefixed-memtable_key :
    (user_key : List ℕ) (s : ℕ)
    → length user_key + 8 < 2 ^ 32
    → s ≤ max_sequence_number
    → prefixed (memtable_key (lookup_key user_key s))
      ≡ encoded user_key (tag_of (sought user_key s))
unfolding memtable_key lookup_key
prefixed-memtable_key user_key s short fits =
    rw
      (
        pack_sum s value_type_for_seek fits (omega arith),
        key_length-mod user_key (tag_of (sought user_key s)) short,
      )
      (ap
          (λ t.
            prefixed
              (encode_varint32 (length (encoded user_key (tag_of (sought user_key s)))) ++ t))
          (sym (append-nil (encoded user_key (tag_of (sought user_key s)))))
        ∙ prefixed-encode (encoded user_key (tag_of (sought user_key s))) []
            (omega (arith, short, length-encoded user_key (tag_of (sought user_key s)))))

-- What an entry says of its key.
abbrev pub answer_of : Item → Answer
answer_of i = if (i.key).type == 1 then found i.value else deleted

user_key_part :
    (user_key : List ℕ) (tag : ℕ) (rest : List ℕ)
    → take (length (encoded user_key tag) - 8) (encoded user_key tag ++ rest) ≡ user_key
user_key_part user_key tag rest = rw (append_assoc user_key (encode_fixed64 tag) rest) (
    take-append user_key (encode_fixed64 tag ++ rest) _
      (omega (arith, length-encoded user_key tag)))

by_type-known :
    (type : ℕ) (value deletion rest : Answer)
    → type ≤ 1
    → by_type type value deletion rest ≡ (if type == 1 then value else deletion)
by_type-known zero value deletion rest h = refl
by_type-known (suc zero) value deletion rest h = refl
by_type-known (suc (suc type)) value deletion rest h = absurd (omega (arith, h))

read_value-parts :
    (user_key : List ℕ) (tag type : ℕ) (value : List ℕ)
    → tag < 2 ^ 64
    → tag % 256 ≡ type
    → type ≤ 1
    → length value < 2 ^ 32
    → read_value
        (length (encoded user_key tag))
        (encoded user_key tag ++ (encode_varint32 (length value) ++ (value ++ [])))
      ≡ (if type == 1 then found value else deleted)
unfolding read_value
read_value-parts user_key tag type value fits is_type known short =
    rw
      (
        append_assoc user_key (encode_fixed64 tag) rest,
        drop-append user_key (encode_fixed64 tag ++ rest) (length (encoded user_key tag) - 8)
            shorter,
        decode-encode_fixed64 tag rest fits,
        ← append_assoc user_key (encode_fixed64 tag) rest,
        drop-append (encoded user_key tag) rest (length (encoded user_key tag)) refl,
        prefixed-encode value [] short,
        is_type,
      )
      (by_type-known type (found value) deleted absent known)
  where
    rest : List ℕ
    rest = encode_varint32 (length value) ++ (value ++ [])

    shorter : length (encoded user_key tag) - 8 ≡ length user_key
    shorter = omega (arith, length-encoded user_key tag)

module _ (user : UserComparator) (o : IsOrder user.cmp) where
  -- The order of entries is weak: their values do not count.
  pub key_comparator-IsWeakOrder : IsWeakOrder (key_comparator user)
  unfolding key_comparator internal_compare
  key_comparator-IsWeakOrder = record {
    swap_back = λ a b h. ground (
      arith,
      o.swap_back (key_in a) (key_in b),
      o.same (key_in b),
      o.eq_of_same (key_in a) (key_in b),
    );
    swap_eq = λ a b h. ground (arith, o.same (key_in b), o.eq_of_same (key_in a) (key_in b));
    trans = λ a b c h k. ground (
      arith,
      o.trans (key_in a) (key_in b) (key_in c),
      o.eq_of_same (key_in a) (key_in b),
      o.eq_of_same (key_in b) (key_in c),
      o.same (key_in b),
    );
    trans_eq = λ a b c h k. ground (arith, o.eq_of_same (key_in b) (key_in c));
  }
    where
      key_in : List ℕ → List ℕ
      key_in a = extract_user_key (prefixed a)

  -- The order of entries is that of their keys.
  pub key_comparator-entries :
      (i j : Item)
      → IsItem i
      → IsItem j
      → key_comparator user (entry_of i) (entry_of j) ≡ key_compare user (i.key) (j.key)
  unfolding key_comparator
  key_comparator-entries i j is_i is_j =
      rw
        (
          prefixed-entry i is_i,
          prefixed-entry j is_j,
          ← append_internal_key-encoded (i.key) (is_i.key),
          ← append_internal_key-encoded (j.key) (is_j.key),
        )
        (internal_compare-append user (i.key) (j.key) (is_i.key) (is_j.key))

  pub key_comparator-sought :
      (i : Item) (user_key : List ℕ) (s : ℕ)
      → IsItem i
      → length user_key + 8 < 2 ^ 32
      → s ≤ max_sequence_number
      → key_comparator user (entry_of i) (memtable_key (lookup_key user_key s))
        ≡ key_compare user (i.key) (sought user_key s)
  unfolding key_comparator
  key_comparator-sought i user_key s is_i short fits =
      rw
        (
          prefixed-entry i is_i,
          prefixed-memtable_key user_key s short fits,
          ← append_internal_key-encoded (i.key) (is_i.key),
          ← append_internal_key-encoded (sought user_key s) is_sought,
        )
        (internal_compare-append user (i.key) (sought user_key s) (is_i.key) is_sought)
    where
      is_sought : IsKey (sought user_key s)
      is_sought = record { sequence_fits = fits; type_known = omega arith }

  pub read_entry-item :
      (i : Item) (user_key : List ℕ)
      → IsItem i
      → read_entry user user_key (entry_of i)
        ≡ (if is_eq (user.cmp (i.key).user_key user_key) then answer_of i else absent)
  unfolding read_entry
  read_entry-item i user_key is =
      rw
        (
          entry_parts i is,
          read_entry,
          read_length-encode (length (encoded (i.key).user_key (tag_of (i.key))))
              (encoded (i.key).user_key (tag_of (i.key)) ++ rest)
              (omega (arith, is.short_key, length-encoded (i.key).user_key (tag_of (i.key)))),
          user_key_part (i.key).user_key (tag_of (i.key)) rest,
          read_value-parts (i.key).user_key (tag_of (i.key)) (i.key).type i.value
              (tag_fits (i.key) is.key) (omega (arith, (is.key).type_known)) (is.key).type_known
              is.short_value,
        )
        refl
    where
      rest : List ℕ
      rest = encode_varint32 (length i.value) ++ (i.value ++ [])
