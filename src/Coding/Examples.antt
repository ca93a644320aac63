-- ===== src/Coding/Examples.antt =====
-- The codes of util/coding.cc at concrete numbers and strings.
use tleveldb.Base.{◌≡◌, refl, some, [], ◌∷◌, arith}
use tleveldb.Coding.{get_varint32, get_varint_loop, get_varint64, get_varint32_fallback}
use tleveldb.Coding.Varint.{get_varint32-fallback}

get_varint32-fallback_example :
    get_varint32 (200 ∷ 1 ∷ 9 ∷ []) ≡ get_varint32_fallback (200 ∷ 1 ∷ 9 ∷ [])
get_varint32-fallback_example = get_varint32-fallback (200 ∷ 1 ∷ 9 ∷ []) (omega arith)

varint_run : get_varint64 (172 ∷ 2 ∷ 5 ∷ []) ≡ some (300, 5 ∷ [])
unfolding get_varint64 get_varint_loop
varint_run = refl
