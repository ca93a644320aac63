-- ===== src/DbFormat/Examples.antt =====
-- Internal keys at concrete user keys.
use Prim.Native.Nat.{Ordering}
use tleveldb.Base.{◌≤◌, ◌≡◌, ◌≢◌, refl, some, [], ◌∷◌, arith, length}
use tleveldb.Coding.{get_length_prefixed_slice}
use tleveldb.Comparator.{bytes_compare}
use tleveldb.DbFormat.{
  ParsedInternalKey, append_internal_key, parse_internal_key, internal_compare, value_type_for_seek,
  internal_shortest_separator, lookup_key, memtable_key, internal_key, user_key_of,
}
use tleveldb.DbFormat.Keys.{IsKey, get-lookup_key}
use tleveldb.DbFormat.Order.{
  bytewise, key_compare, internal_compare-append, internal_separator_between,
}

abbrev hello : ParsedInternalKey
hello = record { user_key = 104 ∷ 101 ∷ 108 ∷ 108 ∷ 111 ∷ []; sequence = 7; type = 1 }

abbrev hi : ParsedInternalKey
hi = record { user_key = 104 ∷ 105 ∷ []; sequence = 9; type = 0 }

hello-IsKey : IsKey hello
hello-IsKey = omega arith

hi-IsKey : IsKey hi
hi-IsKey = omega arith

get-lookup_key_example :
    (get_length_prefixed_slice (memtable_key (lookup_key (104 ∷ 105 ∷ []) 5))
      ≡ some (internal_key (lookup_key (104 ∷ 105 ∷ []) 5), []))
    × (parse_internal_key (internal_key (lookup_key (104 ∷ 105 ∷ []) 5))
        ≡ some (record { user_key = 104 ∷ 105 ∷ []; sequence = 5; type = value_type_for_seek }))
    × (user_key_of (lookup_key (104 ∷ 105 ∷ []) 5) ≡ 104 ∷ 105 ∷ [])
get-lookup_key_example = get-lookup_key (104 ∷ 105 ∷ []) 5 (omega arith) (omega arith)

internal_compare-append_example :
    internal_compare bytewise (append_internal_key [] hello) (append_internal_key [] hi)
    ≡ key_compare bytewise hello hi
internal_compare-append_example = internal_compare-append bytewise hello hi hello-IsKey hi-IsKey

internal_separator_between_example :
    let start = append_internal_key [] hello in
    let limit = append_internal_key [] hi in
    let separator = internal_shortest_separator bytewise start limit in
    (internal_compare bytewise start separator ≢ Ordering.gt)
    × (internal_compare bytewise separator limit ≡ Ordering.lt)
    × (length separator ≤ length start)
    × ((key : ParsedInternalKey) × IsKey key × (separator ≡ append_internal_key [] key))
internal_separator_between_example =
    internal_separator_between hello hi hello-IsKey hi-IsKey (unfold bytes_compare in refl)
