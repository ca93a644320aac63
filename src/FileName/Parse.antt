-- ===== src/FileName/Parse.antt =====
-- The names of the files of a database are parsed to the numbers and types they were made from.
use tleveldb.Base.{
  ℕ, ◌+◌, ◌^◌, ◌<◌, ◌≤◌, ◌≡◌, refl, sym, ap, ◌∙◌, false, ◌==◌, some, List, [], ◌∷◌, ◌++◌, All,
  length, drop, append_assoc, append-nil, length-append, drop-append, arith,
}
use tleveldb.FileName.{
  codes, consume_decimal_number, six_digits, make_file_name, log_file_name, table_file_name,
  sst_table_file_name, descriptor_file_name, temp_file_name, log_file, table_file, descriptor_file,
  temp_file, as_descriptor, parse_descriptor, as_numbered, parse_numbered, parse_file_name,
}
use tleveldb.FileName.Decimal.{
  IsDigit, NoDigit, consume_digits, six_digits-digits, six_digits-length, value_from-six_digits,
}

letter_differs : (c d : ℕ) → IsDigit c → 57 < d → (c == d) ≡ false
letter_differs c d digit h = ground arith

-- A name that starts with a digit is that of a numbered file.
parse_file_name-digits :
    (digits rest : List ℕ)
    → All IsDigit digits
    → 1 ≤ length digits
    → parse_file_name (digits ++ rest) ≡ parse_numbered (digits ++ rest)
unfolding parse_file_name
parse_file_name-digits [] rest all long = absurd (omega arith)
parse_file_name-digits (c ∷ digits) rest (first, all) long =
    rw
      (
        letter_differs c 67 first (omega arith),
        letter_differs c 76 first (omega arith),
        letter_differs c 77 first (omega arith),
      )
      refl

-- The part of a path behind the name of the database.
base_name : (dbname name : List ℕ) → drop (length dbname + 1) (dbname ++ (codes "/" ++ name)) ≡ name
base_name dbname name =
    ap (drop (length dbname + 1)) (sym (append_assoc dbname (codes "/") name))
    ∙ drop-append (dbname ++ codes "/") name (length dbname + 1)
        (omega (arith, length-append dbname (codes "/")))

consume_six_digits :
    (num : ℕ) (rest : List ℕ)
    → num < 2 ^ 64
    → NoDigit rest
    → consume_decimal_number (six_digits num ++ rest) ≡ some (num, rest)
consume_six_digits num rest small stop =
    consume_digits (six_digits num) rest (six_digits-digits num) (six_digits-length num) stop
      (omega (arith, value_from-six_digits num small))
    ∙ ap (λ n. some (n, rest)) (value_from-six_digits num small)

parse_suffix :
    (dbname : List ℕ) (num : ℕ) (suffix : List ℕ)
    → parse_file_name (drop (length dbname + 1) (make_file_name dbname num suffix))
      ≡ parse_numbered (six_digits num ++ (codes "." ++ suffix))
unfolding make_file_name
parse_suffix dbname num suffix =
    ap parse_file_name (base_name dbname (six_digits num ++ (codes "." ++ suffix)))
    ∙ parse_file_name-digits (six_digits num) (codes "." ++ suffix) (six_digits-digits num)
        (six_digits-length num)

parse-log_file_name :
    (dbname : List ℕ) (num : ℕ)
    → num < 2 ^ 64
    → parse_file_name (drop (length dbname + 1) (log_file_name dbname num)) ≡ some (num, log_file)
unfolding log_file_name parse_numbered
parse-log_file_name dbname num small =
    parse_suffix dbname num (codes "log")
    ∙ ap as_numbered (consume_six_digits num (codes ".log") small refl)

parse-table_file_name :
    (dbname : List ℕ) (num : ℕ)
    → num < 2 ^ 64
    → parse_file_name (drop (length dbname + 1) (table_file_name dbname num))
      ≡ some (num, table_file)
unfolding table_file_name parse_numbered
parse-table_file_name dbname num small =
    parse_suffix dbname num (codes "ldb")
    ∙ ap as_numbered (consume_six_digits num (codes ".ldb") small refl)

parse-sst_table_file_name :
    (dbname : List ℕ) (num : ℕ)
    → num < 2 ^ 64
    → parse_file_name (drop (length dbname + 1) (sst_table_file_name dbname num))
      ≡ some (num, table_file)
unfolding sst_table_file_name parse_numbered
parse-sst_table_file_name dbname num small =
    parse_suffix dbname num (codes "sst")
    ∙ ap as_numbered (consume_six_digits num (codes ".sst") small refl)

parse-temp_file_name :
    (dbname : List ℕ) (num : ℕ)
    → num < 2 ^ 64
    → parse_file_name (drop (length dbname + 1) (temp_file_name dbname num)) ≡ some (num, temp_file)
unfolding temp_file_name parse_numbered
parse-temp_file_name dbname num small =
    parse_suffix dbname num (codes "dbtmp")
    ∙ ap as_numbered (consume_six_digits num (codes ".dbtmp") small refl)

parse-descriptor_file_name :
    (dbname : List ℕ) (num : ℕ)
    → num < 2 ^ 64
    → parse_file_name (drop (length dbname + 1) (descriptor_file_name dbname num))
      ≡ some (num, descriptor_file)
unfolding descriptor_file_name parse_file_name parse_descriptor
parse-descriptor_file_name dbname num small =
    ap parse_file_name (base_name dbname (codes "MANIFEST-" ++ six_digits num))
    ∙ ap as_descriptor without_rest
  where
    without_rest : consume_decimal_number (six_digits num) ≡ some (num, [])
    without_rest =
        ap consume_decimal_number (sym (append-nil (six_digits num)))
        ∙ consume_six_digits num [] small tt

-- ParseFileName, on the part behind the name of the database and a slash, gives the number and the
-- type that the name of a log, of a table under both suffixes, of a temporary file or of a
-- descriptor was made of, for each uint64_t.
pub parse_file_name-make :
    (dbname : List ℕ) (num : ℕ)
    → num < 2 ^ 64
    → (parse_file_name (drop (length dbname + 1) (log_file_name dbname num)) ≡ some (num, log_file))
      × (parse_file_name (drop (length dbname + 1) (table_file_name dbname num))
          ≡ some (num, table_file))
      × (parse_file_name (drop (length dbname + 1) (sst_table_file_name dbname num))
          ≡ some (num, table_file))
      × (parse_file_name (drop (length dbname + 1) (temp_file_name dbname num))
          ≡ some (num, temp_file))
      × (parse_file_name (drop (length dbname + 1) (descriptor_file_name dbname num))
          ≡ some (num, descriptor_file))
parse_file_name-make dbname num small = (
  parse-log_file_name dbname num small,
  parse-table_file_name dbname num small,
  parse-sst_table_file_name dbname num small,
  parse-temp_file_name dbname num small,
  parse-descriptor_file_name dbname num small,
)
