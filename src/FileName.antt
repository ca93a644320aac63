-- ===== src/FileName.antt =====
-- lib/leveldb/util/logging.cc, and lib/leveldb/db/filename.h and filename.cc: decimal numbers, and
-- the names of the files of a database. A std::string is its bytes.
pub mod Decimal
pub mod Parse
mod Examples
use Prim.Native.Char.{code}
use Prim.Native.String
use Prim.Native.String.{String}
use tleveldb.Base.{
  ℕ, zero, suc, ◌+◌, ◌-◌, ◌*◌, ◌/◌, ◌%◌, ◌^◌, Bool, true, false, ◌&&◌, ◌||◌, Option, none, some,
  List, [], ◌∷◌, ◌++◌, ltb, leb, ◌==◌, if◌then◌else◌, length, take, drop, replicate,
}

-- The bytes of an ASCII text.
abbrev pub codes : String → List ℕ
codes String.[] = []
codes (String.◌∷◌ c s) = code c ∷ codes s

abbrev pub equals : List ℕ → List ℕ → Bool
equals [] [] = true
equals [] (y ∷ t) = false
equals (x ∷ s) [] = false
equals (x ∷ s) (y ∷ t) = x == y && equals s t

-- The digits of `%llu` in front of `tail`; a uint64_t has at most twenty.
unfoldable pub digits_before : ℕ → ℕ → List ℕ → List ℕ
digits_before zero num tail = tail
digits_before (suc fuel) num tail =
    let digit = 48 + num % 10 in
    let more = digits_before fuel (num / 10) (digit ∷ tail) in
    if num / 10 == 0 then digit ∷ tail else more

unfoldable pub append_number_to : List ℕ → ℕ → List ℕ
unfolding digits_before
append_number_to str num = str ++ digits_before 20 num []

unfoldable pub number_to_string : ℕ → List ℕ
unfolding append_number_to
number_to_string num = append_number_to [] num

-- A digit of `%02x`.
abbrev hex_digit : ℕ → ℕ
hex_digit d = if ltb d 10 then 48 + d else 87 + d

unfoldable pub append_escaped_string_to : List ℕ → List ℕ → List ℕ
append_escaped_string_to str [] = str
append_escaped_string_to str (c ∷ value) =
    append_escaped_string_to
      (str
        ++ (if leb 32 c && leb c 126
            then c ∷ []
            else codes "\\x" ++ (hex_digit (c / 16) ∷ hex_digit (c % 16) ∷ [])))
      value

unfoldable pub escape_string : List ℕ → List ℕ
unfolding append_escaped_string_to
escape_string value = append_escaped_string_to [] value

abbrev pub is_digit : ℕ → Bool
is_digit ch = leb 48 ch && leb ch 57

abbrev pub max_uint64 : ℕ
max_uint64 = 2 ^ 64 - 1

abbrev pub last_digit_of_max_uint64 : ℕ
last_digit_of_max_uint64 = 48 + max_uint64 % 10

-- The loop of ConsumeDecimalNumber: the value and the rest of the input, or an overflow.
unfoldable pub consume_loop : List ℕ → ℕ → Option (ℕ × List ℕ)
consume_loop [] num = some (num, [])
consume_loop (ch ∷ rest) num =
    let more = consume_loop rest (num * 10 + (ch - 48)) in
    if is_digit ch
    then (if ltb (max_uint64 / 10) num
          || (num == max_uint64 / 10 && ltb last_digit_of_max_uint64 ch)
        then none
        else more)
    else some (num, ch ∷ rest)

-- ConsumeDecimalNumber: `none` is false.
unfoldable pub consume_decimal_number : List ℕ → Option (ℕ × List ℕ)
unfolding consume_loop
consume_decimal_number input = elim (consume_loop input 0) [
  | none ↦ none
  | some (num, rest) ↦ if length rest == length input then none else some (num, rest)
]

-- `%06llu`.
abbrev pub six_digits : ℕ → List ℕ
six_digits number = replicate (6 - length (number_to_string number)) 48 ++ number_to_string number

unfoldable pub make_file_name : List ℕ → ℕ → List ℕ → List ℕ
unfolding number_to_string
make_file_name dbname number suffix =
    dbname ++ (codes "/" ++ (six_digits number ++ (codes "." ++ suffix)))

unfoldable pub log_file_name : List ℕ → ℕ → List ℕ
unfolding make_file_name
log_file_name dbname number = make_file_name dbname number (codes "log")

unfoldable pub table_file_name : List ℕ → ℕ → List ℕ
unfolding make_file_name
table_file_name dbname number = make_file_name dbname number (codes "ldb")

unfoldable pub sst_table_file_name : List ℕ → ℕ → List ℕ
unfolding make_file_name
sst_table_file_name dbname number = make_file_name dbname number (codes "sst")

unfoldable pub descriptor_file_name : List ℕ → ℕ → List ℕ
unfolding number_to_string
descriptor_file_name dbname number = dbname ++ (codes "/MANIFEST-" ++ six_digits number)

unfoldable pub current_file_name : List ℕ → List ℕ
current_file_name dbname = dbname ++ codes "/CURRENT"

unfoldable pub lock_file_name : List ℕ → List ℕ
lock_file_name dbname = dbname ++ codes "/LOCK"

unfoldable pub temp_file_name : List ℕ → ℕ → List ℕ
unfolding make_file_name
temp_file_name dbname number = make_file_name dbname number (codes "dbtmp")

unfoldable pub info_log_file_name : List ℕ → List ℕ
info_log_file_name dbname = dbname ++ codes "/LOG"

unfoldable pub old_info_log_file_name : List ℕ → List ℕ
old_info_log_file_name dbname = dbname ++ codes "/LOG.old"

pub data FileType : Type 0 where
  log_file db_lock_file table_file descriptor_file current_file temp_file info_log_file : FileType

-- What is read behind "MANIFEST-": a number and nothing more.
abbrev pub as_descriptor : Option (ℕ × List ℕ) → Option (ℕ × FileType)
as_descriptor none = none
as_descriptor (some (num, rest)) = if length rest == 0 then some (num, descriptor_file) else none

unfoldable pub parse_descriptor : List ℕ → Option (ℕ × FileType)
unfolding consume_decimal_number
parse_descriptor rest = as_descriptor (consume_decimal_number rest)

-- A number and a suffix.
abbrev pub as_numbered : Option (ℕ × List ℕ) → Option (ℕ × FileType)
as_numbered none = none
as_numbered (some (num, suffix)) =
    if equals suffix (codes ".log")
    then some (num, log_file)
    else if equals suffix (codes ".sst") || equals suffix (codes ".ldb")
    then some (num, table_file)
    else if equals suffix (codes ".dbtmp")
    then some (num, temp_file)
    else none

unfoldable pub parse_numbered : List ℕ → Option (ℕ × FileType)
unfolding consume_decimal_number
parse_numbered rest = as_numbered (consume_decimal_number rest)

-- ParseFileName: `none` is false.
unfoldable pub parse_file_name : List ℕ → Option (ℕ × FileType)
unfolding parse_descriptor parse_numbered
parse_file_name rest =
    if equals rest (codes "CURRENT")
    then some (0, current_file)
    else if equals rest (codes "LOCK")
    then some (0, db_lock_file)
    else if equals rest (codes "LOG") || equals rest (codes "LOG.old")
    then some (0, info_log_file)
    else if equals (take 9 rest) (codes "MANIFEST-")
    then parse_descriptor (drop 9 rest)
    else parse_numbered rest
