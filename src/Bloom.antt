-- ===== src/Bloom.antt =====
-- lib/leveldb/util/bloom.cc: the Bloom filter of a set of keys, as the bytes of its bits with the
-- number of probes behind them.
mod Bits
pub mod Match
mod Examples
use tleveldb.Base.{
  ℕ, zero, suc, ◌+◌, ◌-◌, ◌*◌, ◌/◌, ◌%◌, ◌^◌, bit_and, bit_or, Bool, true, false, not, List, [],
  ◌∷◌, ◌++◌, ltb, leb, ◌==◌, if◌then◌else◌, length, take, replicate, set, get_or,
}
use tleveldb.Hash.{hash}

unfoldable pub bloom_hash : List ℕ → ℕ
bloom_hash key = hash key 0xbc9f1d34

-- The constructor: `bits_per_key * 0.69` rounded down, in 1 to 30. The product is no integer for 1 to
-- 99, and is above 30 from 44 on, so that the rounding of the double does not matter.
unfoldable pub num_probes : ℕ → ℕ
num_probes bits_per_key =
    let k = bits_per_key * 69 / 100 in if ltb k 1 then 1 else if ltb 30 k then 30 else k

-- `(h >> 17) | (h << 15)` on uint32_t.
unfoldable pub rotate : ℕ → ℕ
rotate h = bit_or (h / 2 ^ 17) (h * 2 ^ 15 % 2 ^ 32)

-- `array[bitpos / 8] |= (1 << (bitpos % 8))`
unfoldable pub set_bit : List ℕ → ℕ → List ℕ
set_bit array bitpos =
    set array (bitpos / 8) (bit_or (get_or array (bitpos / 8) 0) (2 ^ (bitpos % 8)))

-- `(array[bitpos / 8] & (1 << (bitpos % 8))) != 0`
unfoldable pub has_bit : List ℕ → ℕ → Bool
has_bit array bitpos = not (bit_and (get_or array (bitpos / 8) 0) (2 ^ (bitpos % 8)) == 0)

-- The two loops over the k probes of a key.
unfoldable pub add_probes : ℕ → ℕ → ℕ → ℕ → List ℕ → List ℕ
add_probes zero h delta bits array = array
add_probes (suc k) h delta bits array =
    add_probes k ((h + delta) % 2 ^ 32) delta bits (set_bit array (h % bits))

unfoldable pub probes_match : ℕ → ℕ → ℕ → ℕ → List ℕ → Bool
probes_match zero h delta bits array = true
probes_match (suc k) h delta bits array =
    let rest = probes_match k ((h + delta) % 2 ^ 32) delta bits array in
    if has_bit array (h % bits) then rest else false

-- The loop over the keys.
unfoldable pub add_keys : ℕ → ℕ → List (List ℕ) → List ℕ → List ℕ
unfolding add_probes
add_keys k bits [] array = array
add_keys k bits (key ∷ keys) array =
    let h = bloom_hash key in add_keys k bits keys (add_probes k h (rotate h) bits array)

unfoldable pub filter_bytes : ℕ → ℕ → ℕ
filter_bytes bits_per_key n =
    let bits = n * bits_per_key in ((if ltb bits 64 then 64 else bits) + 7) / 8

-- CreateFilter: what it leaves in `dst`.
unfoldable pub create_filter : ℕ → List (List ℕ) → List ℕ → List ℕ
unfolding add_keys
create_filter bits_per_key keys dst =
    let bytes = filter_bytes bits_per_key (length keys) in
    let k = num_probes bits_per_key in
    dst ++ (add_keys k (bytes * 8) keys (replicate bytes 0) ++ (k ∷ []))

unfoldable pub key_may_match : List ℕ → List ℕ → Bool
key_may_match key bloom_filter =
    let len = length bloom_filter in
    let k = get_or bloom_filter (len - 1) 0 in
    let h = bloom_hash key in
    if ltb len 2
    then false
    else if ltb 30 k
    then true
    else probes_match k h (rotate h) ((len - 1) * 8) (take (len - 1) bloom_filter)
