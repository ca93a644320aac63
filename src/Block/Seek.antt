-- ===== src/Block/Seek.antt =====
-- Prev, Seek, SeekToLast and Block::NewIterator of lib/leveldb/table/block.cc.
use Prim.Native.Nat.{Ordering}
use tleveldb.Base.{
  ℕ, zero, suc, ◌+◌, ◌-◌, ◌/◌, ◌%◌, ◌^◌, Bool, true, false, ◌&&◌, Option, none, some, List, ltb,
  leb, ◌==◌, if◌then◌else◌, take, drop,
}
use tleveldb.Status.{Status, corruption}
use tleveldb.Block.Iter.{
  Block, num_restarts_of, decode_entry, Iter, new_iter, valid, next_entry_offset, get_restart_point,
  seek_to_restart_point, corruption_error, parse_next_key,
}

-- The first loop of Prev, from a restart index down: the last restart point before `original`.
unfoldable pub restart_before : Iter → ℕ → ℕ → Option ℕ
restart_before i original zero = if leb original (get_restart_point i 0) then none else some 0
restart_before i original (suc index) =
    let rest = restart_before i original index in
    if leb original (get_restart_point i (suc index)) then rest else some (suc index)

-- `while (ParseNextKey() && NextEntryOffset() < limit)`. Each entry takes three bytes at least, so
-- one round more than the entries have bytes is enough.
unfoldable pub parse_until : ℕ → ℕ → Iter → Iter
parse_until zero limit i = i
parse_until (suc fuel) limit i =
    let (more, i') = parse_next_key i in
    let rest = parse_until fuel limit i' in
    if more && ltb (next_entry_offset i') limit then rest else i'

unfoldable pub prev : Iter → Iter
unfolding restart_before parse_until
prev i = elim (restart_before i i.current i.restart_index) [
  | none ↦ record i { current = i.restarts; restart_index = i.num_restarts }
  | some index ↦ parse_until (i.restarts + 1) i.current (seek_to_restart_point index i)
]

unfoldable pub seek_to_last : Iter → Iter
unfolding parse_until
seek_to_last i =
    parse_until (i.restarts + 1) i.restarts (seek_to_restart_point (i.num_restarts - 1) i)

abbrev is_less : Ordering → Bool
is_less Ordering.lt = true
is_less Ordering.eq = false
is_less Ordering.gt = false

module _ (cmp : List ℕ → List ℕ → Ordering) where
  -- The test of the binary search: `none` is a corrupted entry.
  unfoldable pub restart_less : Iter → List ℕ → ℕ → Option Bool
  restart_less i target mid =
      let offset = get_restart_point i mid in
      elim (decode_entry (take (i.restarts - offset) (drop offset i.contents))) [
        | none ↦ none
        | some e ↦
            if e.shared == 0 then some (is_less (cmp (take e.non_shared e.delta) target)) else none
      ]

  -- The binary search of Seek; a round leaves at most half of the distance.
  unfoldable pub seek_restart : ℕ → Iter → List ℕ → ℕ → ℕ → Option ℕ
  unfolding restart_less
  seek_restart zero i target left right = some left
  seek_restart (suc fuel) i target left right =
      let mid = (left + right + 1) % 2 ^ 32 / 2 in
      let rest = elim (restart_less i target mid) as (λ _. Option ℕ) [
        | none ↦ none
        | some less ↦
            seek_restart fuel i target (if less then mid else left)
              (if less then right else mid - 1)
      ] in
      if ltb left right then rest else some left

  -- The linear search of Seek.
  unfoldable pub seek_linear : ℕ → List ℕ → Iter → Iter
  seek_linear zero target i = i
  seek_linear (suc fuel) target i =
      let (more, i') = parse_next_key i in
      let rest = seek_linear fuel target i' in
      if more then (if is_less (cmp i'.key target) then rest else i') else i'

  -- Seek behind the comparison with the current key: `less` says that the key is there and below
  -- the target.
  unfoldable pub seek_between : Bool → List ℕ → ℕ → ℕ → Iter → Iter
  unfolding seek_restart seek_linear
  seek_between less target left right i = elim (seek_restart i.num_restarts i target left right) [
    | none ↦ corruption_error i
    | some index ↦
        seek_linear (i.restarts + 1) target
          (if index == i.restart_index && less then i else seek_to_restart_point index i)
  ]

  unfoldable pub seek : List ℕ → Iter → Iter
  unfolding seek_between
  seek target i =
      let last = i.num_restarts - 1 in
      if valid i
      then elim (cmp i.key target) [
        | Ordering.lt ↦ seek_between true target i.restart_index last i
        | Ordering.gt ↦ seek_between false target 0 i.restart_index i
        | Ordering.eq ↦ i
      ]
      else seek_between false target 0 last i

-- Block::NewIterator gives an iterator, or one that is empty and has this status.
pub data NewIterator : Type 0 where
  iterator : Iter → NewIterator
  empty_iterator : NewIterator
  error_iterator : Status → NewIterator

unfoldable pub new_iterator : Block → NewIterator
new_iterator b =
    let num_restarts = num_restarts_of b.contents b.size in
    if ltb b.size 4
    then error_iterator (corruption "bad block contents")
    else if num_restarts == 0
    then empty_iterator
    else iterator (new_iter b.contents b.restart_offset num_restarts)
