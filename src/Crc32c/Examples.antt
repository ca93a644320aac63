-- ===== src/Crc32c/Examples.antt =====
-- The portable checksum on buffers whose checksums are known, at addresses that differ.
use tleveldb.Base.{◌≡◌, refl, replicate}
use tleveldb.Coding.{decode_fixed32}
use tleveldb.Crc32c.Extend.{extend}

-- 32 zero bytes, as in crc32c_test.cc.
zeros_test : extend (λ c p. 0) 1 0 (replicate 32 0) ≡ 0x8a9136aa
unfolding extend decode_fixed32
zeros_test = refl

aligned_test : extend (λ c p. 0) 0 0 (replicate 32 255) ≡ 0x62a8ab43
unfolding extend decode_fixed32
aligned_test = refl
