-- ===== src/Format/Footer.antt =====
-- Block handles and footers, written and read back.
use tleveldb.Base.{
  ℕ, zero, ◌+◌, ◌-◌, ◌^◌, ◌<◌, ◌≤◌, ◌≡◌, refl, sym, ap, ◌∙◌, List, [], ◌++◌, length, drop,
  replicate, length-append, length-replicate, take_all, drop-append, append_assoc, append-nil,
  ltb-false, arith,
}
use tleveldb.Status.{ok}
use tleveldb.Coding.{encode_fixed32, encode_varint64, put_varint64, put_fixed32, decode_fixed32}
use tleveldb.Coding.Fixed.{decode-encode_fixed32, length-encode_fixed32}
use tleveldb.Coding.Varint.{get-encode_varint64, get_varint64-length}
use tleveldb.Format.{
  BlockHandle, TableFooter, encoded_length, magic_low, magic_high, encode_handle, decode_handle,
  encode_footer, decoded_index, decoded_metaindex, decode_footer,
}

-- Both numbers of a handle are of 64 bits.
abbrev pub IsHandle : BlockHandle → Type 0
IsHandle h = (h.offset < 2 ^ 64) × (h.size < 2 ^ 64)

abbrev pub IsFooter : TableFooter → Type 0
IsFooter f = IsHandle f.metaindex_handle × IsHandle f.index_handle

abbrev pub bytes_of : BlockHandle → List ℕ
bytes_of h = encode_varint64 h.offset ++ encode_varint64 h.size

encode_handle-bytes_of : (h : BlockHandle) (dst : List ℕ) → encode_handle h dst ≡ dst ++ bytes_of h
unfolding encode_handle put_varint64
encode_handle-bytes_of h dst = append_assoc dst (encode_varint64 h.offset) (encode_varint64 h.size)

varint64_short : (v : ℕ) → v < 2 ^ 64 → length (encode_varint64 v) ≤ 10
varint64_short v small =
    rw (append-nil (encode_varint64 v)) at
      (get_varint64-length (encode_varint64 v ++ []) v [] (get-encode_varint64 v [] small)).1

length-bytes_of : (h : BlockHandle) → IsHandle h → length (bytes_of h) ≤ 20
length-bytes_of h is = omega (
  arith,
  length-append (encode_varint64 h.offset) (encode_varint64 h.size),
  varint64_short h.offset is.0,
  varint64_short h.size is.1,
)

-- DecodeFrom reads back a handle that EncodeTo wrote, whatever the object held before, and leaves
-- what follows.
pub decode-encode_handle :
    (h old : BlockHandle) (rest : List ℕ)
    → IsHandle h
    → decode_handle old (encode_handle h [] ++ rest) ≡ (ok, h, rest)
unfolding decode_handle
decode-encode_handle h old rest is =
    rw
      (
        encode_handle-bytes_of h [],
        append_assoc (encode_varint64 h.offset) (encode_varint64 h.size) rest,
        decode_handle,
        get-encode_varint64 h.offset (encode_varint64 h.size ++ rest) is.0,
        get-encode_varint64 h.size rest is.1,
      )
      refl

-- The footer in its parts: the handles, the padding and the two halves of the magic number.
abbrev padding : TableFooter → List ℕ
padding f = replicate (40 - length (bytes_of f.metaindex_handle ++ bytes_of f.index_handle)) 0

abbrev parts : TableFooter → List ℕ → List ℕ
parts f rest =
    ((bytes_of f.metaindex_handle ++ bytes_of f.index_handle) ++ padding f)
    ++ (encode_fixed32 magic_low ++ (encode_fixed32 magic_high ++ rest))

handles_short :
    (f : TableFooter)
    → IsFooter f
    → length (bytes_of f.metaindex_handle ++ bytes_of f.index_handle) ≤ 40
handles_short f is = omega (
  arith,
  length-append (bytes_of f.metaindex_handle) (bytes_of f.index_handle),
  length-bytes_of f.metaindex_handle is.0,
  length-bytes_of f.index_handle is.1,
)

encode_footer-parts :
    (f : TableFooter) (rest : List ℕ) → IsFooter f → encode_footer f [] ++ rest ≡ parts f rest
unfolding encode_footer put_fixed32
encode_footer-parts f rest is =
    rw
      (
        encode_handle-bytes_of f.metaindex_handle [],
        encode_handle-bytes_of f.index_handle (bytes_of f.metaindex_handle),
        take_all (bytes_of f.metaindex_handle ++ bytes_of f.index_handle) 40 (handles_short f is),
      )
      (append_assoc (before ++ encode_fixed32 magic_low) (encode_fixed32 magic_high) rest
        ∙ append_assoc before (encode_fixed32 magic_low) (encode_fixed32 magic_high ++ rest))
  where
    before : List ℕ
    before = (bytes_of f.metaindex_handle ++ bytes_of f.index_handle) ++ padding f

padded_size :
    (f : TableFooter)
    → IsFooter f
    → length ((bytes_of f.metaindex_handle ++ bytes_of f.index_handle) ++ padding f) ≡ 40
padded_size f is = omega (
  arith,
  handles_short f is,
  length-append (bytes_of f.metaindex_handle ++ bytes_of f.index_handle) (padding f),
  length-replicate (40 - length (bytes_of f.metaindex_handle ++ bytes_of f.index_handle)) zero,
)

length-parts :
    (f : TableFooter) (rest : List ℕ) → IsFooter f → length (parts f rest) ≡ 48 + length rest
length-parts f rest is = omega (
  arith,
  padded_size f is,
  length-append ((bytes_of f.metaindex_handle ++ bytes_of f.index_handle) ++ padding f)
      (encode_fixed32 magic_low ++ (encode_fixed32 magic_high ++ rest)),
  length-append (encode_fixed32 magic_low) (encode_fixed32 magic_high ++ rest),
  length-append (encode_fixed32 magic_high) rest,
  length-encode_fixed32 magic_low,
  length-encode_fixed32 magic_high,
)

-- What stands at the end of the two handles with their padding.
drop_padded :
    (f : TableFooter) (rest : List ℕ)
    → IsFooter f
    → drop 40 (parts f rest) ≡ encode_fixed32 magic_low ++ (encode_fixed32 magic_high ++ rest)
drop_padded f rest is =
    drop-append ((bytes_of f.metaindex_handle ++ bytes_of f.index_handle) ++ padding f)
      (encode_fixed32 magic_low ++ (encode_fixed32 magic_high ++ rest)) 40 (sym (padded_size f is))

drop_low :
    (f : TableFooter) (rest : List ℕ)
    → IsFooter f
    → drop 4 (drop 40 (parts f rest)) ≡ encode_fixed32 magic_high ++ rest
drop_low f rest is =
    ap (drop 4) (drop_padded f rest is)
    ∙ drop-append (encode_fixed32 magic_low) (encode_fixed32 magic_high ++ rest) 4
        (sym (length-encode_fixed32 magic_low))

low_read :
    (f : TableFooter) (rest : List ℕ)
    → IsFooter f
    → decode_fixed32 (drop 40 (parts f rest)) ≡ magic_low
low_read f rest is =
    ap decode_fixed32 (drop_padded f rest is)
    ∙ decode-encode_fixed32 magic_low (encode_fixed32 magic_high ++ rest) (omega arith)

high_read :
    (f : TableFooter) (rest : List ℕ)
    → IsFooter f
    → decode_fixed32 (drop 4 (drop 40 (parts f rest))) ≡ magic_high
high_read f rest is =
    ap decode_fixed32 (drop_low f rest is) ∙ decode-encode_fixed32 magic_high rest (omega arith)

-- The two handles are read from the front.
handles_read :
    (f old : TableFooter) (left behind : List ℕ)
    → IsFooter f
    → decoded_metaindex left old (
        decode_handle old.metaindex_handle
          (encode_handle f.metaindex_handle [] ++ (encode_handle f.index_handle [] ++ behind)))
      ≡ (ok, f, left)
unfolding decoded_metaindex
handles_read f old left behind is =
    rw
      (
        decode-encode_handle f.metaindex_handle old.metaindex_handle
            (encode_handle f.index_handle [] ++ behind) is.0,
        decoded_metaindex,
        decode-encode_handle f.index_handle old.index_handle behind is.1,
        decoded_index,
      )
      refl

parts-handles :
    (f : TableFooter) (rest : List ℕ)
    → parts f rest
      ≡ encode_handle f.metaindex_handle []
        ++ (encode_handle f.index_handle []
            ++ (padding f ++ (encode_fixed32 magic_low ++ (encode_fixed32 magic_high ++ rest))))
parts-handles f rest =
    rw (encode_handle-bytes_of f.metaindex_handle [], encode_handle-bytes_of f.index_handle [])
      (append_assoc (bytes_of f.metaindex_handle ++ bytes_of f.index_handle) (padding f)
          (encode_fixed32 magic_low ++ (encode_fixed32 magic_high ++ rest))
        ∙ append_assoc (bytes_of f.metaindex_handle) (bytes_of f.index_handle)
            (padding f ++ (encode_fixed32 magic_low ++ (encode_fixed32 magic_high ++ rest))))

drop_footer : (f : TableFooter) (rest : List ℕ) → IsFooter f → drop 48 (parts f rest) ≡ rest
drop_footer f rest is = ap (drop 48) shape ∙ drop-append whole rest 48 size
  where
    whole : List ℕ
    whole = parts f []

    shape : parts f rest ≡ whole ++ rest
    shape = sym (
        ap (λ t. t ++ rest) (sym (encode_footer-parts f [] is) ∙ append-nil (encode_footer f []))
        ∙ encode_footer-parts f rest is)

    size : 48 ≡ length whole
    size = omega (arith, length-parts f [] is)

-- EncodeTo makes a footer of 48 bytes.
pub length-encode_footer :
    (f : TableFooter) → IsFooter f → length (encode_footer f []) ≡ encoded_length
length-encode_footer f is =
    ap (λ (t : List ℕ). length t)
      (sym (append-nil (encode_footer f [])) ∙ encode_footer-parts f [] is)
    ∙ omega (arith, length-parts f [] is)

-- Footer::DecodeFrom reads back a footer of 64-bit offsets and sizes that EncodeTo wrote to an
-- empty string, whatever the object held before, and leaves what follows.
pub decode-encode_footer :
    (f old : TableFooter) (rest : List ℕ)
    → IsFooter f
    → decode_footer old (encode_footer f [] ++ rest) ≡ (ok, f, rest)
unfolding decode_footer
decode-encode_footer f old rest is =
    ap (decode_footer old) (encode_footer-parts f rest is)
    ∙ rw
        (
          low_read f rest is,
          high_read f rest is,
          ltb-false (length (parts f rest)) 48 (omega (arith, length-parts f rest is)),
          drop_footer f rest is,
          parts-handles f rest,
        )
        (handles_read f old rest
          (padding f ++ (encode_fixed32 magic_low ++ (encode_fixed32 magic_high ++ rest))) is)
