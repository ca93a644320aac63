-- ===== src/Random.antt =====
-- lib/leveldb/util/random.h: the generator of pseudo-random numbers, on uint32_t and uint64_t.
mod Examples
pub mod Next
use tleveldb.Base.{ℕ, ◌+◌, ◌-◌, ◌*◌, ◌/◌, ◌%◌, ◌^◌, bit_and, Bool, ◌||◌, ltb, ◌==◌, if◌then◌else◌}

-- The constants M and A of Next.
abbrev pub modulus : ℕ
modulus = 2147483647

abbrev pub factor : ℕ
factor = 16807

-- The constructor, which avoids the two seeds that the generator never leaves.
unfoldable pub new_random : ℕ → ℕ
new_random s =
    let seed = bit_and s 0x7fffffff in if (seed == 0) || (seed == 2147483647) then 1 else seed

-- Next: the new seed, which is also what it returns.
unfoldable pub next_random : ℕ → ℕ
next_random seed =
    let product = seed * factor % 2 ^ 64 in
    let seed' = (product / 2 ^ 31 + bit_and product modulus) % 2 ^ 32 in
    if ltb modulus seed' then seed' - modulus else seed'

-- OneIn, with the new seed.
unfoldable pub one_in : ℕ → ℕ → Bool × ℕ
unfolding next_random
one_in seed n = (next_random seed % n == 0, next_random seed)
