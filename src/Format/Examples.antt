-- ===== src/Format/Examples.antt =====
-- A footer of a small table.
use tleveldb.Base.{◌≡◌, [], ◌∷◌, ◌++◌, arith}
use tleveldb.Status.{ok}
use tleveldb.Format.{BlockHandle, TableFooter, encode_footer, decode_footer}
use tleveldb.Format.Footer.{decode-encode_footer}

abbrev metaindex : BlockHandle
metaindex = record { offset = 70000; size = 33 }

abbrev unset : BlockHandle
unset = record { offset = 0; size = 0 }

abbrev small_table : TableFooter
small_table = record {
  metaindex_handle = metaindex;
  index_handle = record { offset = 70038; size = 200 };
}

abbrev unset_footer : TableFooter
unset_footer = record { metaindex_handle = unset; index_handle = unset }

decode-encode_footer_example :
    decode_footer unset_footer (encode_footer small_table [] ++ (9 ∷ []))
    ≡ (ok, small_table, 9 ∷ [])
decode-encode_footer_example =
    decode-encode_footer small_table unset_footer (9 ∷ [])
      ((omega arith, omega arith), (omega arith, omega arith))
