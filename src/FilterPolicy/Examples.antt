-- ===== src/FilterPolicy/Examples.antt =====
-- A filter of one internal key, asked for the same user key under another sequence number.
use tleveldb.Base.{◌≡◌, refl, true, [], ◌∷◌, arith, inl}
use tleveldb.DbFormat.{ParsedInternalKey, append_internal_key}
use tleveldb.FilterPolicy.{bloom_policy, internal_policy}
use tleveldb.FilterPolicy.Sound.{bloom_policy-IsFilterPolicy, may_match-same_user_key}

abbrev written_key : ParsedInternalKey
written_key = record { user_key = 104 ∷ 105 ∷ []; sequence = 3; type = 1 }

abbrev sought_key : ParsedInternalKey
sought_key = record { user_key = 104 ∷ 105 ∷ []; sequence = 99; type = 1 }

may_match-same_user_key_example :
    (internal_policy (bloom_policy 10)).may_match
      (append_internal_key [] sought_key)
      ((internal_policy (bloom_policy 10)).create (append_internal_key [] written_key ∷ []) [])
    ≡ true
may_match-same_user_key_example =
    may_match-same_user_key (bloom_policy 10) (append_internal_key [] written_key ∷ []) written_key
      sought_key (bloom_policy-IsFilterPolicy 10) (omega arith) (omega arith) refl (inl refl)
