-- ===== src/Comparator.antt =====
-- lib/leveldb/util/comparator.cc: the order of byte strings and the two methods that shorten keys
-- for an index. The sign of the int that Compare returns is an Ordering.
pub mod Order
pub mod Shorten
mod Examples
use Prim.Native.Nat.{Ordering, compare}
use tleveldb.Base.{
  ℕ, ◌+◌, ◌%◌, Bool, ◌&&◌, List, [], ◌∷◌, ◌++◌, leb, ltb, ◌==◌, if◌then◌else◌, length, take, get_or,
}

abbrev pub or_else : Ordering → Ordering → Ordering
or_else Ordering.lt r = Ordering.lt
or_else Ordering.eq r = r
or_else Ordering.gt r = Ordering.gt

-- Slice::compare of include/leveldb/slice.h: memcmp on the common length, then the lengths.
unfoldable pub bytes_compare : List ℕ → List ℕ → Ordering
bytes_compare [] [] = Ordering.eq
bytes_compare [] (y ∷ ys) = Ordering.lt
bytes_compare (x ∷ xs) [] = Ordering.gt
bytes_compare (x ∷ xs) (y ∷ ys) = or_else (compare x y) (bytes_compare xs ys)

-- The loop that finds diff_index.
unfoldable pub diff_index : List ℕ → List ℕ → ℕ
diff_index [] limit = 0
diff_index (x ∷ xs) [] = 0
diff_index (x ∷ xs) (y ∷ ys) = if x == y then diff_index xs ys + 1 else 0

abbrev pub min_length : List ℕ → List ℕ → ℕ
min_length a b = if ltb (length b) (length a) then length b else length a

-- FindShortestSeparator: what it leaves in `start`.
unfoldable pub find_shortest_separator : List ℕ → List ℕ → List ℕ
unfolding diff_index
find_shortest_separator start limit =
    let d = diff_index start limit in
    if leb (min_length start limit) d
    then start
    else if ltb (get_or start d 0) 255 && ltb (get_or start d 0 + 1) (get_or limit d 0)
    then take d start ++ ((get_or start d 0 + 1) ∷ [])
    else start

-- FindShortSuccessor: what it leaves in `key`.
unfoldable pub find_short_successor : List ℕ → List ℕ
find_short_successor [] = []
find_short_successor (byte ∷ key) =
    let rest = find_short_successor key in
    if byte == 255 then byte ∷ rest else (byte + 1) % 256 ∷ []
