-- ===== src/MemTable/Answered.antt =====
-- lib/leveldb/db/memtable.cc: Get finds the newest entry of a key that is old enough.
use tleveldb.Base.{
  ℕ, ◌+◌, ◌^◌, ◌≤◌, ◌<◌, ◌≡◌, ◌⊎◌, inl, inr, refl, sym, ap, ◌∙◌, Bool, true, false, some, List,
  length, if◌then◌else◌, ◌==◌, Bool-cases, occ, arith, ltb, ltb→lt,
}
use tleveldb.DbFormat.{
  UserComparator, ParsedInternalKey, lookup_key, memtable_key, user_key_of, max_sequence_number,
}
use tleveldb.DbFormat.Keys.{user_key_of-lookup_key}
use tleveldb.DbFormat.Order.{key_compare}
use tleveldb.Comparator.Order.{IsOrder}
use tleveldb.SkipList.{SkipList, null, is_lt, is_eq, key_is_after_node, iter_seek}
use tleveldb.SkipList.Chains.{lower_bound, lower_bound-occ}
use tleveldb.SkipList.Search.{steps_below}
use tleveldb.SkipList.Find.{find_greater_or_equal-Located}
use tleveldb.SkipList.Contains.{is_eq-eq}
use tleveldb.MemTable.{Answer, absent, key_comparator, read_entry, get}
use tleveldb.MemTable.Entries.{
  Item, entry_of, sought, answer_of, key_comparator-IsWeakOrder, key_comparator-entries,
  key_comparator-sought, read_entry-item,
}
use tleveldb.MemTable.Newest.{
  IsMemTable, IsNewest, IsAnswer, first-IsStop, lower_bound-stops, true_ne_false,
}

module _ (user : UserComparator) (o : IsOrder user.cmp) (user_key : List ℕ) (s : ℕ) where
  not_before :
      (k : ParsedInternalKey)
      → k.type ≤ 1
      → k.user_key ≡ user_key
      → k.sequence ≤ s
      → is_lt (key_compare user k (sought user_key s)) ≡ false
  not_before k known same old = rw (same, o.same user_key) (ground (arith, known, old))

  seen :
      (k : ParsedInternalKey)
      → k.user_key ≡ user_key
      → is_lt (key_compare user k (sought user_key s)) ≡ false
      → k.sequence ≤ s
  seen k same stops = ground (arith, same, stops, o.same user_key)

  newer :
      (k j : ParsedInternalKey)
      → k.user_key ≡ user_key
      → j.user_key ≡ user_key
      → is_lt (key_compare user k j) ≡ true
      → j.sequence ≤ k.sequence
  newer k j same_k same_j less = ground (arith, same_k, same_j, less, o.same user_key)

  not_between :
      (k j : ParsedInternalKey)
      → is_eq (user.cmp k.user_key user_key) ≡ false
      → j.user_key ≡ user_key
      → is_lt (key_compare user k j) ≡ true
      → is_lt (key_compare user k (sought user_key s)) ≡ true
  not_between k j other same_j less = ground (arith, other, same_j, less)

  module _ (table : SkipList (List ℕ)) (nodes : ℕ → List ℕ) (items : ℕ → Item)
      (m : IsMemTable user table nodes items) (short : length user_key + 8 < 2 ^ 32)
      (fits : s ≤ max_sequence_number) where
    abbrev go : ℕ → Bool
    go a = key_is_after_node (key_comparator user) (memtable_key (lookup_key user_key s)) a table

    abbrev place : ℕ
    place = lower_bound go (nodes 0)

    goes_is :
        (a : ℕ)
        → 1 ≤ occ a (nodes 0)
        → go a ≡ is_lt (key_compare user (items a).key (sought user_key s))
    unfolding key_is_after_node
    goes_is a inside =
        rw
          (
            m.bytes a inside,
            key_comparator-sought user o (items a) user_key s (m.item a inside) short fits,
          )
          (ground (arith, (m.list).address 0 a inside))

    first_at :
        (b : ℕ)
        → 1 ≤ occ b (nodes 0)
        → (items b).key.user_key ≡ user_key
        → (items b).key.sequence ≤ s
        → (1 ≤ occ place (nodes 0))
          × (go place ≡ false)
          × ((place ≡ b) ⊎ (is_lt (key_compare user (items place).key (items b).key) ≡ true))
    first_at b inside same old =
        let f =
          first-IsStop (key_comparator user) table.key go (nodes 0) b ((m.list).sorted 0) inside (
            goes_is b inside
            ∙ not_before (items b).key ((m.item b inside).key.type_known) same old) in
        (
          f.0,
          f.1,
          elim f.2 [
            | inl here ↦ inl here
            | inr later ↦ inr (
                sym (
                  ap is_lt (
                    ap (λ t. key_comparator user t (table.key b)) (m.bytes place f.0)
                    ∙ ap (key_comparator user (entry_of (items place))) (m.bytes b inside)
                    ∙ key_comparator-entries user o (items place) (items b) (m.item place f.0)
                        (m.item b inside)))
                ∙ later)
          ],
        )

    abbrev answer_at : ℕ → Answer
    answer_at x =
        if x == null
        then absent
        else read_entry user (user_key_of (lookup_key user_key s)) (table.key x)

    answer_inside :
        1 ≤ occ place (nodes 0)
        → answer_at place ≡ (
            if is_eq (user.cmp (items place).key.user_key user_key)
            then answer_of (items place)
            else absent)
    answer_inside inside =
        rw
          (
            user_key_of-lookup_key user_key s,
            m.bytes place inside,
            read_entry-item user o (items place) user_key (m.item place inside),
          )
          (ground (arith, (m.list).address 0 place inside))

    place_stops :
        1 ≤ occ place (nodes 0)
        → is_lt (key_compare user (items place).key (sought user_key s)) ≡ false
    place_stops inside = elim (lower_bound-stops (key_comparator user) table.key go (nodes 0)) [
      | inl none_left ↦ absurd (omega (arith, none_left, (m.list).address 0 place inside))
      | inr stops ↦ sym (goes_is place inside) ∙ stops
    ]

    -- If an item answers the lookup, there is a place.
    newer_than : (b : ℕ) → ((items b).key.sequence ≤ s → ⊥) → s < (items b).key.sequence
    newer_than b not_old = elim (Bool-cases (ltb s (items b).key.sequence)) [
      | inl newer ↦ ltb→lt s (items b).key.sequence newer
      | inr old ↦ absurd (not_old (ground (arith, old)))
    ]

    nothing_left :
        place ≡ 0
        → (b : ℕ) → 1 ≤ occ b (nodes 0)
        → (items b).key.user_key ≡ user_key
        → s < (items b).key.sequence
    nothing_left none_left b inside same =
        newer_than b
          (λ old. omega (arith, none_left, (m.list).address 0 place (first_at b inside same old).0))

    place-IsNewest :
        1 ≤ occ place (nodes 0)
        → (items place).key.user_key ≡ user_key
        → IsNewest user_key s (nodes 0) items place
    place-IsNewest inside same = record {
      inside = inside;
      same_key = same;
      visible = seen (items place).key same (place_stops inside);
      newest = λ b b_inside b_same old. elim ((first_at b b_inside b_same old).2) [
        | inl here ↦ omega (arith, ap (λ t. (items t).key.sequence) here)
        | inr later ↦ newer (items place).key (items b).key same b_same later
      ];
    }

    other_key :
        1 ≤ occ place (nodes 0)
        → is_eq (user.cmp (items place).key.user_key user_key) ≡ false
        → (b : ℕ) → 1 ≤ occ b (nodes 0)
        → (items b).key.user_key ≡ user_key
        → s < (items b).key.sequence
    other_key inside other b b_inside b_same = newer_than b (λ old.
        elim ((first_at b b_inside b_same old).2) [
          | inl here ↦ absurd (
              true_ne_false (
                ap is_eq (
                  sym (o.same user_key)
                  ∙ ap (λ t. user.cmp t user_key)
                      (sym (ap (λ t. (items t).key.user_key) here ∙ b_same)))
                ∙ other))
          | inr later ↦ absurd (
              true_ne_false (
                sym (not_between (items place).key (items b).key other b_same later)
                ∙ place_stops inside))
        ])

    answer_at-IsAnswer : IsAnswer user_key s (nodes 0) items (answer_at place)
    unfolding IsAnswer
    answer_at-IsAnswer = elim (lower_bound-occ go (nodes 0)) [
      | inl none_left ↦ inr (nothing_left none_left, ap answer_at none_left)
      | inr inside ↦ elim (Bool-cases (is_eq (user.cmp (items place).key.user_key user_key))) [
        | inl same ↦ inl (
          place,
          place-IsNewest inside
              (o.eq_of_same _ _ (is_eq-eq (user.cmp (items place).key.user_key user_key) same)),
          answer_inside inside
              ∙ ap (λ (t : Bool). if t then answer_of (items place) else absent) same,
        )
        | inr other ↦ inr (
          other_key inside other,
          answer_inside inside
              ∙ ap (λ (t : Bool). if t then answer_of (items place) else absent) other,
        )
      ]
    ]

    -- Get of a user key and a sequence number, on a memtable whose nodes hold the bytes of items,
    -- with a total order for the user's comparator, a key shorter than 2^32 - 8, a sequence number
    -- of 56 bits and enough steps, ends: it gives what the newest item of the key says that is not
    -- newer than the number, its value or that it is deleted, and false if there is no such item.
    pub get-IsAnswer :
        (fuel : ℕ)
        → steps_below nodes table.max_height ≤ fuel
        → (answer : Answer) × (get user fuel (lookup_key user_key s) table ≡ some answer)
          × IsAnswer user_key s (nodes 0) items answer
    unfolding get iter_seek
    get-IsAnswer fuel enough =
        let f =
          find_greater_or_equal-Located (key_comparator user) (key_comparator-IsWeakOrder user o)
            (memtable_key (lookup_key user_key s)) table nodes m.list fuel enough (λ i. null) in
        (answer_at place, rw (get, iter_seek, f.result_is) refl, answer_at-IsAnswer)
