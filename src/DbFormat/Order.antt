-- ===== src/DbFormat/Order.antt =====
-- InternalKeyComparator: the order of internal keys, and the shortening of them.
use Prim.Native.Nat.{Ordering, compare}
use tleveldb.Base.{
  refl, ℕ, ◌+◌, ◌*◌, ◌^◌, ◌<◌, ◌≤◌, ◌≡◌, ◌≢◌, sym, ap, ◌∙◌, List, [], length, arith, ◌⊎◌, inl, inr,
}
use tleveldb.Comparator.{or_else, bytes_compare, find_shortest_separator, find_short_successor}
use tleveldb.Comparator.Order.{IsOrder, bytes_compare-IsOrder}
use tleveldb.Comparator.Shorten.{separator_between, separator_self}
use tleveldb.DbFormat.{
  ParsedInternalKey, max_sequence_number, value_type_for_seek, UserComparator, append_internal_key,
  internal_compare, tack_on, internal_shortest_separator, internal_short_successor,
}
use tleveldb.DbFormat.Keys.{
  IsKey, encoded, append_internal_key-encoded, extract_user_key-encoded, extract_tag-encoded,
  length-encoded, tag_fits,
}

-- BytewiseComparator() as the user comparator.
abbrev pub bytewise : UserComparator
bytewise = record {
  cmp = bytes_compare;
  shortest_separator = find_shortest_separator;
  short_successor = find_short_successor;
}

-- The order that dbformat.cc describes: increasing user key, then decreasing sequence number, then
-- decreasing type.
abbrev pub key_compare : UserComparator → ParsedInternalKey → ParsedInternalKey → Ordering
key_compare user a b =
    or_else (user.cmp a.user_key b.user_key)
      (or_else (compare b.sequence a.sequence) (compare b.type a.type))

compare_tags :
    (s t s' t' : ℕ)
    → t ≤ 1
    → t' ≤ 1
    → compare (s * 2 ^ 8 + t) (s' * 2 ^ 8 + t') ≡ or_else (compare s s') (compare t t')
compare_tags s t s' t' h h' = ground arith

module _ (user : UserComparator) where
  internal_compare-encoded :
      (a b : List ℕ) (s t : ℕ)
      → s < 2 ^ 64
      → t < 2 ^ 64
      → internal_compare user (encoded a s) (encoded b t) ≡ or_else (user.cmp a b) (compare t s)
  unfolding internal_compare
  internal_compare-encoded a b s t h k = rw (
    extract_user_key-encoded a s,
    extract_user_key-encoded b t,
    extract_tag-encoded a s h,
    extract_tag-encoded b t k,
  )

  -- InternalKeyComparator::Compare on the bytes of two keys is the order by increasing user key,
  -- then decreasing sequence number, then decreasing type.
  pub internal_compare-append :
      (a b : ParsedInternalKey)
      → IsKey a
      → IsKey b
      → internal_compare user (append_internal_key [] a) (append_internal_key [] b)
        ≡ key_compare user a b
  internal_compare-append a b is_a is_b =
      rw (append_internal_key-encoded a is_a, append_internal_key-encoded b is_b)
        (internal_compare-encoded a.user_key b.user_key _ _ (tag_fits a is_a) (tag_fits b is_b)
          ∙ ap (or_else (user.cmp a.user_key b.user_key))
              (compare_tags b.sequence b.type a.sequence a.type is_b.type_known is_a.type_known))

  -- The order on the parts of keys is total if that of the user's comparator is.
  pub key_compare-IsOrder : IsOrder user.cmp → IsOrder (key_compare user)
  key_compare-IsOrder order = record {
    same = λ a. ground (arith, order.same a.user_key);
    eq_of_same = λ a b e. ground (arith, order.eq_of_same a.user_key b.user_key);
    swap = λ a b e. ground (
      arith,
      order.swap a.user_key b.user_key,
      order.same a.user_key,
      order.eq_of_same a.user_key b.user_key,
    );
    swap_back = λ a b e. ground (
      arith,
      order.swap_back a.user_key b.user_key,
      order.same a.user_key,
      order.eq_of_same a.user_key b.user_key,
    );
    trans = λ a b c e e'. ground (
      arith,
      order.trans a.user_key b.user_key c.user_key,
      order.same a.user_key,
      order.eq_of_same a.user_key b.user_key,
      order.eq_of_same b.user_key c.user_key,
    );
  }

-- What `tack_on` leaves: the key, or the shorter and larger user key with the greatest tag.
tack_on-cases :
    (user : UserComparator) (a tmp : List ℕ) (tag : ℕ)
    → (tack_on user (encoded a tag) tmp ≡ encoded a tag)
      ⊎ ((tack_on user (encoded a tag) tmp
            ≡ encoded tmp (max_sequence_number * 2 ^ 8 + value_type_for_seek))
          × (user.cmp a tmp ≡ Ordering.lt)
          × (length tmp < length a))
unfolding tack_on
tack_on-cases user a tmp tag = rw (extract_user_key-encoded a tag) (ground arith)

abbrev greatest_tag : ℕ
greatest_tag = max_sequence_number * 2 ^ 8 + value_type_for_seek

-- The key that a new user key is made: the first one of it in the order.
abbrev greatest_key : List ℕ → ParsedInternalKey
greatest_key sep = record {
  user_key = sep;
  sequence = max_sequence_number;
  type = value_type_for_seek;
}

greatest_key-IsKey : (sep : List ℕ) → IsKey (greatest_key sep)
greatest_key-IsKey sep = record { sequence_fits = omega arith; type_known = omega arith }

separator_of_same :
    (a b : List ℕ) → bytes_compare a b ≡ Ordering.eq → find_shortest_separator a b ≡ a
separator_of_same a b e = rw (sym (bytes_compare-IsOrder.eq_of_same a b e)) (separator_self a)

module _ (a b : List ℕ) (s t : ℕ) (s_fits : s < 2 ^ 64) (t_fits : t < 2 ^ 64)
    (below : internal_compare bytewise (encoded a s) (encoded b t) ≡ Ordering.lt) where
  abbrev separator : List ℕ
  separator = internal_shortest_separator bytewise (encoded a s) (encoded b t)

  separator-tack_on : separator ≡ tack_on bytewise (encoded a s) (find_shortest_separator a b)
  unfolding internal_shortest_separator
  separator-tack_on = rw (extract_user_key-encoded a s, extract_user_key-encoded b t)

  separator-encoded :
      (internal_compare bytewise (encoded a s) separator ≢ Ordering.gt)
      × (internal_compare bytewise separator (encoded b t) ≡ Ordering.lt)
      × (length separator ≤ length (encoded a s))
      × ((separator ≡ encoded a s) ⊎ ((sep : List ℕ) × (separator ≡ encoded sep greatest_tag)))
  separator-encoded = elim (tack_on-cases bytewise a (find_shortest_separator a b) s) [
    | inl same ↦
        rw (separator-tack_on, same)
          (
            ground (
              arith,
              internal_compare-encoded bytewise a a s s s_fits s_fits,
              bytes_compare-IsOrder.same a,
            ),
            below,
            omega arith,
            inl refl,
          )
    | inr (moved, above, shorter) ↦
        let sep = find_shortest_separator a b in
        rw (separator-tack_on, moved)
          (
            ground (
              arith,
              above,
              internal_compare-encoded bytewise a sep s greatest_tag s_fits (omega arith),
            ),
            ground (
              arith,
              above,
              below,
              internal_compare-encoded bytewise a b s t s_fits t_fits,
              internal_compare-encoded bytewise sep b greatest_tag t (omega arith) t_fits,
              separator_of_same a b,
              separator_between a b,
              bytes_compare-IsOrder.same a,
            ),
            omega (arith, length-encoded sep greatest_tag, length-encoded a s),
            inr (sep, refl),
          )
  ]

-- For two internal keys, the first below the second, FindShortestSeparator of the
-- InternalKeyComparator over the bytewise comparator gives an internal key, with a sequence number
-- of 56 bits and a known type, that is not below the first, is below the second, and is no longer
-- than the first.
pub internal_separator_between :
    (a b : ParsedInternalKey)
    → IsKey a
    → IsKey b
    → key_compare bytewise a b ≡ Ordering.lt
    → let start = append_internal_key [] a in
      let limit = append_internal_key [] b in
      let separator = internal_shortest_separator bytewise start limit in
      (internal_compare bytewise start separator ≢ Ordering.gt)
      × (internal_compare bytewise separator limit ≡ Ordering.lt)
      × (length separator ≤ length start)
      × ((key : ParsedInternalKey) × IsKey key × (separator ≡ append_internal_key [] key))
internal_separator_between a b is_a is_b below =
    rw (append_internal_key-encoded a is_a, append_internal_key-encoded b is_b)
      (let (above, under, shorter, made) =
          separator-encoded a.user_key b.user_key _ _ (tag_fits a is_a) (tag_fits b is_b) (
            rw (append_internal_key-encoded a is_a, append_internal_key-encoded b is_b) at
              (internal_compare-append bytewise a b is_a is_b ∙ below)) in
        (
          above,
          under,
          shorter,
          elim made [
            | inl same ↦ (a, is_a, same ∙ sym (append_internal_key-encoded a is_a))
            | inr (sep, moved) ↦ (
              greatest_key sep,
              greatest_key-IsKey sep,
              moved ∙ sym (append_internal_key-encoded (greatest_key sep) (greatest_key-IsKey sep)),
            )
          ],
        ))

-- FindShortSuccessor of an internal key gives one from it on that is no longer, over the bytewise
-- comparator.
pub internal_successor_above :
    (a : ParsedInternalKey)
    → IsKey a
    → let key = append_internal_key [] a in
      (internal_compare bytewise key (internal_short_successor bytewise key) ≢ Ordering.gt)
      × (length (internal_short_successor bytewise key) ≤ length key)
unfolding internal_short_successor
internal_successor_above a is =
    let tag = a.sequence * 2 ^ 8 + a.type in
    let next = find_short_successor a.user_key in
    rw (append_internal_key-encoded a is, extract_user_key-encoded a.user_key tag)
      (elim (tack_on-cases bytewise a.user_key next tag) [
        | inl same ↦ rw same (
          ground (
            arith,
            internal_compare-encoded bytewise a.user_key a.user_key tag tag (tag_fits a is)
                (tag_fits a is),
            bytes_compare-IsOrder.same a.user_key,
          ),
          omega arith,
        )
        | inr (moved, above, shorter) ↦ rw moved (
          ground (
            arith,
            above,
            internal_compare-encoded bytewise a.user_key next tag greatest_tag (tag_fits a is)
                (omega arith),
          ),
          omega (arith, length-encoded next greatest_tag, length-encoded a.user_key tag),
        )
      ])
