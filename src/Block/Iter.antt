-- ===== src/Block/Iter.antt =====
-- lib/leveldb/table/block.cc: the iterator of a block. A Slice into the block is where it begins
-- and its length.
use tleveldb.Base.{
  ℕ, zero, suc, ◌+◌, ◌-◌, ◌*◌, ◌/◌, ◌%◌, ◌^◌, bit_or, Bool, true, false, ◌&&◌, Option, none, some,
  List, [], ◌∷◌, ◌++◌, ltb, leb, if◌then◌else◌, length, take, drop,
}
use tleveldb.Status.{Status, ok, corruption}
use tleveldb.Coding.{decode_fixed32, get_varint32}

-- What the constructor of Block keeps; `size` 0 marks an error.
pub record Block : Type 0 where
  pub contents : List ℕ
  pub size : ℕ
  pub restart_offset : ℕ

unfoldable pub num_restarts_of : List ℕ → ℕ → ℕ
num_restarts_of contents size = decode_fixed32 (drop (size - 4) contents)

unfoldable pub new_block : List ℕ → Block
unfolding num_restarts_of
new_block contents =
    let size = length contents in
    let num_restarts = num_restarts_of contents size in
    if ltb size 4
    then record { contents = contents; size = 0; restart_offset = 0 }
    else if ltb ((size - 4) / 4) num_restarts
    then record { contents = contents; size = 0; restart_offset = 0 }
    else record {
      contents = contents;
      size = size;
      restart_offset = (size - (1 + num_restarts) % 2 ^ 32 * 4) % 2 ^ 32;
    }

pub record Entry : Type 0 where
  pub shared : ℕ
  pub non_shared : ℕ
  pub value_length : ℕ
  pub delta : List ℕ

abbrev pub fits : Entry → Option Entry
fits e =
    if ltb (length e.delta % 2 ^ 32) ((e.non_shared + e.value_length) % 2 ^ 32)
    then none
    else some e

-- The sizes of an entry, each as a varint.
unfoldable pub decode_sizes : List ℕ → Option Entry
decode_sizes p = elim (get_varint32 p) [
  | none ↦ none
  | some (shared, p1) ↦ elim (get_varint32 p1) [
    | none ↦ none
    | some (non_shared, p2) ↦ elim (get_varint32 p2) [
      | none ↦ none
      | some (value_length, p3) ↦ fits (record {
        shared = shared;
        non_shared = non_shared;
        value_length = value_length;
        delta = p3;
      })
    ]
  ]
]

-- DecodeEntry on the bytes from `p` to the limit; `delta` are those from the pointer that it
-- returns on.
unfoldable pub decode_entry : List ℕ → Option Entry
unfolding decode_sizes
decode_entry (a ∷ b ∷ c ∷ p) =
    if ltb (bit_or (bit_or a b) c) 128
    then fits (record { shared = a; non_shared = b; value_length = c; delta = p })
    else decode_sizes (a ∷ b ∷ c ∷ p)
decode_entry p = none

pub record Iter : Type 0 where
  pub contents : List ℕ
  pub restarts : ℕ
  pub num_restarts : ℕ
  pub current : ℕ
  pub restart_index : ℕ
  pub key : List ℕ
  pub value_start : ℕ
  pub value_size : ℕ
  pub status : Status

unfoldable pub new_iter : List ℕ → (restarts num_restarts : ℕ) → Iter
new_iter contents restarts num_restarts = record {
  contents = contents;
  restarts = restarts;
  num_restarts = num_restarts;
  current = restarts;
  restart_index = num_restarts;
  key = [];
  value_start = 0;
  value_size = 0;
  status = ok;
}

unfoldable pub valid : Iter → Bool
valid i = ltb i.current i.restarts

unfoldable pub value : Iter → List ℕ
value i = take i.value_size (drop i.value_start i.contents)

abbrev pub next_entry_offset : Iter → ℕ
next_entry_offset i = (i.value_start + i.value_size) % 2 ^ 32

unfoldable pub get_restart_point : Iter → ℕ → ℕ
get_restart_point i index = decode_fixed32 (drop (i.restarts + index * 4) i.contents)

unfoldable pub seek_to_restart_point : ℕ → Iter → Iter
unfolding get_restart_point
seek_to_restart_point index i = record i {
  key = [];
  restart_index = index;
  value_start = get_restart_point i index;
  value_size = 0;
}

-- The value is an empty Slice, which a restart point replaces before it is read.
unfoldable pub corruption_error : Iter → Iter
corruption_error i = record i {
  current = i.restarts;
  restart_index = i.num_restarts;
  status = corruption "bad entry in block";
  key = [];
  value_start = 0;
  value_size = 0;
}

-- The loop of ParseNextKey over the restart points, with those left.
unfoldable pub advance_restart : ℕ → Iter → Iter
advance_restart zero i = i
advance_restart (suc left) i =
    let rest = advance_restart left (record i { restart_index = i.restart_index + 1 }) in
    if ltb (i.restart_index + 1) i.num_restarts
      && ltb (get_restart_point i (i.restart_index + 1)) i.current
    then rest
    else i

-- ParseNextKey behind DecodeEntry.
unfoldable pub parsed : Iter → Option Entry → Bool × Iter
unfolding corruption_error advance_restart
parsed i none = (false, corruption_error i)
parsed i (some e) = if ltb (length i.key) e.shared then (false, corruption_error i) else (
  true,
  advance_restart (i.num_restarts - i.restart_index) (record i {
    key = take e.shared i.key ++ take e.non_shared e.delta;
    value_start = i.restarts - length e.delta + e.non_shared;
    value_size = e.value_length;
  }),
)

unfoldable pub parse_next_key : Iter → Bool × Iter
unfolding parsed decode_entry
parse_next_key i =
    let current = next_entry_offset i in
    let i' = record i { current = current } in
    if leb i.restarts current
    then (false, record i { current = i.restarts; restart_index = i.num_restarts })
    else parsed i' (decode_entry (take (i.restarts - current) (drop current i.contents)))

unfoldable pub next : Iter → Iter
unfolding parse_next_key
next i = (parse_next_key i).1

unfoldable pub seek_to_first : Iter → Iter
unfolding seek_to_restart_point parse_next_key
seek_to_first i = (parse_next_key (seek_to_restart_point 0 i)).1
