-- ===== src/Format.antt =====
-- lib/leveldb/table/format.h and format.cc: the handles of blocks and the footer of a table. The
-- decoders fill an object in place, so they take it and return what they leave in it, with their
-- status and the rest of the input.
pub mod Footer
mod Examples
use tleveldb.Base.{
  ℕ, ◌+◌, ◌-◌, ◌*◌, ◌^◌, bit_or, none, some, List, ◌++◌, ltb, ◌==◌, if◌then◌else◌, length, take,
  drop, replicate,
}
use tleveldb.Status.{Status, ok, not_found, corruption, not_supported, invalid_argument, io_error}
use tleveldb.Coding.{put_varint64, get_varint64, put_fixed32, decode_fixed32}

pub record BlockHandle : Type 0 where
  pub offset : ℕ
  pub size : ℕ

pub record TableFooter : Type 0 where
  pub metaindex_handle : BlockHandle
  pub index_handle : BlockHandle

abbrev pub max_encoded_length : ℕ
max_encoded_length = 10 + 10

abbrev pub encoded_length : ℕ
encoded_length = 2 * max_encoded_length + 8

-- kTableMagicNumber, and the two halves of it that EncodeTo computes.
abbrev pub table_magic_number : ℕ
table_magic_number = 15800726617472432983

abbrev pub magic_low : ℕ
magic_low = 2340485975

abbrev pub magic_high : ℕ
magic_high = 3678893348

unfoldable pub encode_handle : BlockHandle → List ℕ → List ℕ
encode_handle handle dst = put_varint64 (put_varint64 dst handle.offset) handle.size

unfoldable pub decode_handle : BlockHandle → List ℕ → Status × BlockHandle × List ℕ
decode_handle handle input = elim (get_varint64 input) [
  | none ↦ (corruption "bad block handle", handle, input)
  | some (offset, rest) ↦ elim (get_varint64 rest) [
    | none ↦ (corruption "bad block handle", record handle { offset = offset }, rest)
    | some (size, rest') ↦ (ok, record { offset = offset; size = size }, rest')
  ]
]

-- std::string::resize.
abbrev pub resize : List ℕ → ℕ → List ℕ
resize s n = take n s ++ replicate (n - length s) 0

unfoldable pub encode_footer : TableFooter → List ℕ → List ℕ
unfolding encode_handle put_fixed32
encode_footer footer dst =
    let handles = encode_handle footer.index_handle (encode_handle footer.metaindex_handle dst) in
    let padded = resize handles (2 * max_encoded_length) in
    put_fixed32 (put_fixed32 padded magic_low) magic_high

-- Footer::DecodeFrom behind the decoding of the first handle, and behind that of the second.
-- `left` is what the input holds behind the footer.
unfoldable pub decoded_index :
    List ℕ → BlockHandle → Status × BlockHandle × List ℕ → Status × TableFooter × List ℕ
decoded_index left metaindex (ok, index, rest) =
    (ok, record { metaindex_handle = metaindex; index_handle = index }, left)
decoded_index left metaindex (bad, index, rest) =
    (bad, record { metaindex_handle = metaindex; index_handle = index }, rest)

unfoldable pub decoded_metaindex :
    List ℕ → TableFooter → Status × BlockHandle × List ℕ → Status × TableFooter × List ℕ
unfolding decoded_index
decoded_metaindex left footer (ok, metaindex, rest) =
    decoded_index left metaindex (decode_handle footer.index_handle rest)
decoded_metaindex left footer (bad, metaindex, rest) =
    (bad, record footer { metaindex_handle = metaindex }, rest)

unfoldable pub decode_footer : TableFooter → List ℕ → Status × TableFooter × List ℕ
unfolding decoded_metaindex
decode_footer footer input =
    let magic_at = drop (encoded_length - 8) input in
    let magic = bit_or (decode_fixed32 (drop 4 magic_at) * 2 ^ 32) (decode_fixed32 magic_at) in
    if ltb (length input) encoded_length
    then (corruption "not an sstable (footer too short)", footer, input)
    else if magic == table_magic_number
    then decoded_metaindex (drop encoded_length input) footer
        (decode_handle footer.metaindex_handle input)
    else (corruption "not an sstable (bad magic number)", footer, input)
