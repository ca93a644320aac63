-- ===== src/FileName/Examples.antt =====
-- File names made and read back, and numbers at the bound.
use tleveldb.Base.{
  ℕ, ◌^◌, ◌≡◌, refl, none, some, List, [], ◌∷◌, ◌++◌, ltb, if◌then◌else◌, length, drop, ◌+◌, arith,
}
use tleveldb.FileName.{
  codes, number_to_string, append_number_to, digits_before, escape_string, append_escaped_string_to,
  consume_decimal_number, consume_loop, parse_file_name, parse_numbered, make_file_name,
  log_file_name, table_file_name, sst_table_file_name, temp_file_name, descriptor_file_name,
  log_file, table_file, temp_file, descriptor_file, current_file,
}
use tleveldb.FileName.Decimal.{value_from, consume_decimal_number-digits}
use tleveldb.FileName.Parse.{parse_file_name-make}

abbrev largest : List ℕ
largest = codes "18446744073709551615"

number_to_string_test : number_to_string 18446744073709551615 ≡ largest
unfolding number_to_string append_number_to digits_before
number_to_string_test = refl

escape_string_test : escape_string (97 ∷ 0 ∷ 255 ∷ []) ≡ codes "a\\x00\\xff"
unfolding escape_string append_escaped_string_to
escape_string_test = refl

table_file_name_test : table_file_name (codes "db") 42 ≡ codes "db/000042.ldb"
unfolding table_file_name make_file_name number_to_string append_number_to digits_before
table_file_name_test = refl

consume_overflow_test : consume_decimal_number (codes "18446744073709551616") ≡ none
unfolding consume_decimal_number consume_loop
consume_overflow_test = refl

parse_current_test : parse_file_name (codes "CURRENT") ≡ some (0, current_file)
unfolding parse_file_name
parse_current_test = refl

parse_wrong_suffix_test : parse_file_name (codes "100.abc") ≡ none
unfolding parse_file_name parse_numbered consume_decimal_number consume_loop
parse_wrong_suffix_test = refl

consume_decimal_number-digits_example :
    consume_decimal_number ((49 ∷ 48 ∷ 55 ∷ []) ++ codes ".log") ≡ (
      if ltb (value_from 0 (49 ∷ 48 ∷ 55 ∷ [])) (2 ^ 64)
      then some (value_from 0 (49 ∷ 48 ∷ 55 ∷ []), codes ".log")
      else none)
consume_decimal_number-digits_example =
    consume_decimal_number-digits 49 (48 ∷ 55 ∷ []) (codes ".log")
      (omega arith, (omega arith, (omega arith, tt))) refl

parse_file_name-make_example :
    (parse_file_name (drop (length (codes "db") + 1) (log_file_name (codes "db") 107))
      ≡ some (107, log_file))
    × (parse_file_name (drop (length (codes "db") + 1) (table_file_name (codes "db") 107))
        ≡ some (107, table_file))
    × (parse_file_name (drop (length (codes "db") + 1) (sst_table_file_name (codes "db") 107))
        ≡ some (107, table_file))
    × (parse_file_name (drop (length (codes "db") + 1) (temp_file_name (codes "db") 107))
        ≡ some (107, temp_file))
    × (parse_file_name (drop (length (codes "db") + 1) (descriptor_file_name (codes "db") 107))
        ≡ some (107, descriptor_file))
parse_file_name-make_example = parse_file_name-make (codes "db") 107 (omega arith)
