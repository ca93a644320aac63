-- ===== src/FilterPolicy/Sound.antt =====
-- What the readers of tables rely on of a filter policy, for the two policies of the code.
use mathlib.Core.List.{map}
use tleveldb.Base.{ℕ, ◌≡◌, refl, sym, ap, ◌∙◌, true, List, [], ◌∷◌, ◌++◌, inl, inr}
use tleveldb.Bloom.{create_filter}
use tleveldb.Bloom.Match.{Has, key_may_match-create_filter}
use tleveldb.DbFormat.{ParsedInternalKey, append_internal_key, extract_user_key}
use tleveldb.DbFormat.Keys.{IsKey, append_internal_key-encoded, extract_user_key-encoded}
use tleveldb.FilterPolicy.{FilterPolicy, bloom_policy, internal_policy}

-- A filter is appended to `dst` without a look at it, and matches each key that it was made of.
pub record IsFilterPolicy (policy : FilterPolicy) : Type 0 where
  pub appends :
      (keys : List (List ℕ)) (dst : List ℕ) → policy.create keys dst ≡ dst ++ policy.create keys []
  pub matches :
      (keys : List (List ℕ)) (key : List ℕ)
      → Has key keys
      → policy.may_match key (policy.create keys []) ≡ true

create_filter-append :
    (bits_per_key : ℕ) (keys : List (List ℕ)) (dst : List ℕ)
    → create_filter bits_per_key keys dst ≡ dst ++ create_filter bits_per_key keys []
unfolding create_filter
create_filter-append bits_per_key keys dst = refl

-- The Bloom filter keeps what a filter policy promises, for any number of bits for each key.
pub bloom_policy-IsFilterPolicy : (bits_per_key : ℕ) → IsFilterPolicy (bloom_policy bits_per_key)
bloom_policy-IsFilterPolicy bits_per_key = record {
  appends = create_filter-append bits_per_key;
  matches = key_may_match-create_filter bits_per_key;
}

Has-map :
    (f : List ℕ → List ℕ) (key : List ℕ) (keys : List (List ℕ))
    → Has key keys
    → Has (f key) (map f keys)
Has-map f key [] there = there
Has-map f key (k ∷ keys) (inl same) = inl (ap f same)
Has-map f key (k ∷ keys) (inr later) = inr (Has-map f key keys later)

-- A filter of internal keys keeps the promise too, if that of the user's policy does.
pub internal_policy-IsFilterPolicy :
    (user : FilterPolicy) → IsFilterPolicy user → IsFilterPolicy (internal_policy user)
unfolding internal_policy
internal_policy-IsFilterPolicy user is = record {
  appends = λ keys dst. is.appends (map extract_user_key keys) dst;
  matches = λ keys key there.
      is.matches (map extract_user_key keys) (extract_user_key key)
        (Has-map extract_user_key key keys there);
}

-- With a sound user policy, the InternalFilterPolicy's filter of a list of keys that has an
-- internal key matches each internal key with the same user key, under any sequence number and
-- type.
pub may_match-same_user_key :
    (user : FilterPolicy) (keys : List (List ℕ)) (a b : ParsedInternalKey)
    → IsFilterPolicy user
    → IsKey a
    → IsKey b
    → a.user_key ≡ b.user_key
    → Has (append_internal_key [] a) keys
    → (internal_policy user).may_match
        (append_internal_key [] b)
        ((internal_policy user).create keys [])
      ≡ true
unfolding internal_policy
may_match-same_user_key user keys a b is is_a is_b same there =
    ap (λ t. user.may_match t (user.create (map extract_user_key keys) [])) user_keys
    ∙ (internal_policy-IsFilterPolicy user is).matches keys (append_internal_key [] a) there
  where
    user_keys :
        extract_user_key (append_internal_key [] b) ≡ extract_user_key (append_internal_key [] a)
    user_keys =
        rw
          (
            append_internal_key-encoded a is_a,
            append_internal_key-encoded b is_b,
            extract_user_key-encoded,
            extract_user_key-encoded,
          )
          (sym same)
