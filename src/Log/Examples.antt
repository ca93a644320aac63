-- ===== src/Log/Examples.antt =====
-- A log of two records in a file that is a list of bytes.
use tleveldb.Base.{
  ℕ, ◌∙◌, ◌-◌, ◌/◌, bit_xor, ◌==◌, if◌then◌else◌, ◌+◌, ◌%◌, ◌^◌, ◌<◌, ◌≡◌, refl, ap, true, List, [],
  ◌∷◌, ◌++◌, length, take, drop, arith,
}
use tleveldb.Status.{ok}
use native.Mathlib.Nat.{mod-lt}
use tleveldb.Crc32c.Extend.{can_accelerate_crc32c}
use tleveldb.Log.{crc32c, Checksum, IsChecksum, WritableFile, SequentialFile, Accepts, Delivers}
use tleveldb.Log.Writer.{new_writer}
use tleveldb.Log.Reader.{new_reader}
use tleveldb.Log.Records.{add_all, Gives, Gives-add_all}

-- CRC32C bit by bit: a byte is xored in, then eight times the register is divided by the polynomial.
abbrev divide : ℕ → ℕ
divide l = if l % 2 == 1 then bit_xor (l / 2) 0x82f63b78 else l / 2

abbrev shift_byte : ℕ → ℕ → ℕ
shift_byte l byte =
    divide (divide (divide (divide (divide (divide (divide (divide (bit_xor l byte))))))))

register : ℕ → List ℕ → ℕ
register l [] = l
register l (byte ∷ s) = register (shift_byte l byte % 2 ^ 32) s

flip : ℕ → ℕ
flip c = 2 ^ 32 - 1 - c % 2 ^ 32

library_extend : ℕ → List ℕ → ℕ
unfolding register flip
library_extend c s = flip (register (flip c) s)

register-small : (l : ℕ) (s : List ℕ) → l < 2 ^ 32 → register l s < 2 ^ 32
unfolding register
register-small l [] h = h
register-small l (byte ∷ s) h =
    register-small (shift_byte l byte % 2 ^ 32) s (mod-lt _ (omega arith))

register-append : (l : ℕ) (s t : List ℕ) → register (register l s) t ≡ register l (s ++ t)
unfolding register
register-append l [] t = refl
register-append l (byte ∷ s) t = register-append (shift_byte l byte % 2 ^ 32) s t

flip-flip : (l : ℕ) → l < 2 ^ 32 → flip (flip l) ≡ l
unfolding flip
flip-flip l h = omega (arith, h)

flip_small : (c : ℕ) → flip c < 2 ^ 32
unfolding flip
flip_small c = omega arith

library-IsChecksum : IsChecksum (record { extend = library_extend })
unfolding library_extend
library-IsChecksum = record {
  small = λ c s. flip_small (register (flip c) s);
  extends = λ c s t.
      ap (λ l. flip (register l t)) (flip-flip _ (register-small (flip c) s (flip_small c)))
      ∙ ap flip (register-append (flip c) s t);
}

library_test : can_accelerate_crc32c library_extend ≡ true
unfolding can_accelerate_crc32c library_extend
library_test = refl

abbrev crc : Checksum
crc = crc32c library_extend (λ s. 0)

abbrev byte_output : WritableFile
byte_output = record { File = List ℕ; append = λ s f. (ok, f ++ s); flush = λ f. (ok, f) }

abbrev byte_input : SequentialFile
byte_input = record {
  File = List ℕ;
  read = λ n f. (ok, take n f, drop n f);
  skip = λ n f. (ok, drop n f);
}

byte_output-Accepts : Accepts byte_output (λ f. f)
byte_output-Accepts = record {
  appended = λ s f. refl;
  contents-append = λ s f. refl;
  flushed = λ f. refl;
  contents-flush = λ f. refl;
}

byte_input-Delivers : Delivers byte_input (λ f. f)
byte_input-Delivers = record {
  delivered = λ n f. refl;
  bytes_read = λ n f. refl;
  rest-read = λ n f. refl;
}

abbrev two_records : List (List ℕ)
two_records = (1 ∷ 2 ∷ 3 ∷ []) ∷ [] ∷ []

abbrev written_log : List ℕ
written_log = (add_all crc byte_output two_records (new_writer crc byte_output [])).1.dest

Gives-add_all_example :
    ((add_all crc byte_output two_records (new_writer crc byte_output [])).0 ≡ ok)
    × Gives crc byte_input
        (length written_log + 1)
        two_records
        (new_reader crc byte_input written_log true true 0)
Gives-add_all_example =
    Gives-add_all library_extend (λ s. 0) byte_output (λ f. f) byte_input (λ f. f) two_records []
      written_log true true (length written_log + 1) library_test library-IsChecksum
      byte_output-Accepts byte_input-Delivers refl refl (omega arith)
