-- ===== src/Random/Examples.antt =====
-- The generator at a few seeds.
use tleveldb.Base.{◌*◌, ◌%◌, ◌≡◌, refl, arith}
use tleveldb.Random.{modulus, factor, new_random, next_random}
use tleveldb.Random.Next.{next_random-multiplies}

next_random_test : next_random (next_random (new_random 0xdeadbeef)) ≡ 386994929
unfolding next_random new_random
next_random_test = refl

next_random-multiplies_example : next_random 0x5eadbeef ≡ 0x5eadbeef * factor % modulus
next_random-multiplies_example = next_random-multiplies 0x5eadbeef (omega arith) (omega arith)
