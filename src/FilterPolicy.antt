-- ===== src/FilterPolicy.antt =====
-- lib/leveldb/include/leveldb/filter_policy.h, and the InternalFilterPolicy of db/dbformat.cc, which
-- filters by the user keys of internal keys.
pub mod Sound
mod Examples
use mathlib.Core.List.{map}
use tleveldb.Base.{ℕ, Bool, List}
use tleveldb.Bloom.{create_filter, key_may_match}
use tleveldb.DbFormat.{extract_user_key}

-- The two methods: what CreateFilter leaves in `dst`, and KeyMayMatch.
pub record FilterPolicy : Type 0 where
  pub create : List (List ℕ) → List ℕ → List ℕ
  pub may_match : List ℕ → List ℕ → Bool

-- NewBloomFilterPolicy.
abbrev pub bloom_policy : ℕ → FilterPolicy
bloom_policy bits_per_key = record {
  create = create_filter bits_per_key;
  may_match = key_may_match;
}

-- InternalFilterPolicy.
unfoldable pub internal_policy : FilterPolicy → FilterPolicy
internal_policy user = record {
  create = λ keys dst. user.create (map extract_user_key keys) dst;
  may_match = λ key f. user.may_match (extract_user_key key) f;
}
