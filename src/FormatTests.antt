-- ===== src/FormatTests.antt =====
-- Runs of `$formatInteger` and `$parseInteger`, and their theorems at concrete inputs.
use jsonata_go.Prelude.{
  ◌^◌, ℕ, ◌≡◌, ◌↔◌, refl, Bool, true, false, [], ◌∷◌, Option, some, Text, codes, map, arith, ◌=ᵗ◌,
}
use jsonata_go.Prelude.Int.{ℤ, pos, negsuc, ◌+ℤ◌, ◌-ℤ◌}
use jsonata_go.Prelude.Result.{Result, ok, err}
use jsonata_go.Unicode.{ascii}
use jsonata_go.Decimal.{decimal, read_decimal}
use jsonata_go.GoStrings.{upper_text, lower_text, trim_space}
use jsonata_go.FormatInteger.Picture.{FormatError, IntegerPicture, parse_integer_picture}
use jsonata_go.FormatInteger.Separators.{apply_integer_separators, map_integer_digits}
use jsonata_go.FormatInteger.Roman.{
  roman_integer, parse_roman_integer, byte_len, roman_scan, roman_step, symbol_value, roman_loop,
  write_times,
}
use jsonata_go.FormatInteger.Roman.Canonical.{parse-roman_integer, parse-roman_integer_iff}
use jsonata_go.FormatInteger.Alphabetic.{alphabetic_integer, parse_alphabetic_integer}
use jsonata_go.FormatInteger.Alphabetic.RoundTrip.{
  parse-alphabetic_integer, alphabetic-parse_integer,
}
use jsonata_go.FormatInteger.Words.{integer_words}
use jsonata_go.FormatInteger.ParseWords.{parse_integer_words}
use jsonata_go.FormatInteger.Reading.{IsOrdinary}
use jsonata_go.FormatInteger.Digits.{parse-format_decimal}
use jsonata_go.FormatInteger.Builtins.{
  is_separator, parse_with, format_decimal, FormatArg, builtin_format_integer,
  builtin_parse_integer,
}

abbrev free : Result FormatError (Unit {0})
free = ok tt

abbrev format_run : Bool → ℕ → Text → Result FormatError (Option Text)
format_run negative n picture =
    builtin_format_integer ascii free
      (FormatArg.number negative (some n) ∷ FormatArg.string picture ∷ [])

abbrev parse_run : Text → Text → Result FormatError (Option ℤ)
parse_run text picture =
    builtin_parse_integer ascii free (FormatArg.string text ∷ FormatArg.string picture ∷ [])

decimal_runs :
    (format_run false 1234567 (codes "#,##0") ≡ ok (some (codes "1,234,567")))
    × (format_run true 7 (codes "000") ≡ ok (some (codes "-007")))
    × (format_run false 1234 (codes "#0;o") ≡ ok (some (codes "1234th")))
    × (format_run false 1999 (codes "I") ≡ ok (some (codes "MCMXCIX")))
    × (format_run false 28 (codes "a") ≡ ok (some (codes "ab")))
unfolding builtin_format_integer parse_integer_picture apply_integer_separators decimal
    roman_integer alphabetic_integer ◌=ᵗ◌ map_integer_digits roman_loop write_times
decimal_runs = (refl, refl, refl, refl, refl)

words_runs :
    (integer_words ascii (pos 1234567) (codes "w") false
      ≡ codes "one million, two hundred and thirty-four thousand, five hundred and sixty-seven")
    × (integer_words ascii (negsuc 1000004) (codes "Ww") true ≡ codes "Minus One Million and Fifth")
unfolding integer_words
words_runs = (refl, refl)

parse_runs :
    (parse_run (codes "1,234,567") (codes "#,##0") ≡ ok (some (pos 1234567)))
    × (parse_run (codes "-007") (codes "000") ≡ ok (some (negsuc 6)))
    × (parse_run (codes "one million, two hundred and thirty-four thousand and fifth") (codes "w;o")
        ≡ ok (some (pos 1234005)))
    × (parse_run (codes "mcmxcix") (codes "i") ≡ ok (some (pos 1999)))
    × (parse_run (codes "IIII") (codes "I") ≡ err FormatError.d3130)
unfolding builtin_parse_integer parse_integer_picture roman_integer parse_roman_integer ◌=ᵗ◌
    trim_space read_decimal parse_integer_words byte_len roman_scan roman_step symbol_value ◌+ℤ◌
    ◌-ℤ◌ roman_loop write_times
parse_runs = (refl, refl, refl, refl, refl)

parse-roman_integer_example :
    (parse_roman_integer ascii (roman_integer (pos 1994)) ≡ some (pos 1994))
    × (parse_roman_integer ascii (map ascii.to_lower (roman_integer (pos 1994))) ≡ some (pos 1994))
parse-roman_integer_example = parse-roman_integer ascii 1994 (omega arith)

parse-roman_integer_iff_example :
    (parse_roman_integer ascii (codes "xiv") ≡ some (pos 14))
    ↔ (roman_integer (pos 14) ≡ map ascii.to_upper (codes "xiv"))
unfolding byte_len
parse-roman_integer_iff_example =
    parse-roman_integer_iff ascii (codes "xiv") (pos 14) (cc) (omega arith)

parse-alphabetic_integer_example :
    (parse_alphabetic_integer ascii (alphabetic_integer (pos 703)) ≡ some 703)
    × (parse_alphabetic_integer ascii (lower_text ascii (alphabetic_integer (pos 703))) ≡ some 703)
parse-alphabetic_integer_example = parse-alphabetic_integer ascii 703 (omega arith)

alphabetic-parse_integer_example :
    alphabetic_integer (pos 28) ≡ upper_text ascii (trim_space ascii (codes " ab"))
unfolding parse_alphabetic_integer
alphabetic-parse_integer_example = alphabetic-parse_integer ascii (codes " ab") {n = 28} refl

abbrev thousands : IntegerPicture
thousands = record {
  zero_digit = b'0';
  optional = 3;
  mandatory = 1;
  separators = (record { char = b','; from_right = 3 }) ∷ [];
  modifier = [];
  ordinal = false;
  input_pattern = codes "#,##0";
}

thousands-IsOrdinary : IsOrdinary thousands
unfolding is_separator
thousands-IsOrdinary = (refl, (refl, tt), refl)

parse-format_decimal_example :
    parse_with ascii free (format_decimal true 1234567 thousands) thousands ≡ ok (negsuc 1234566)
parse-format_decimal_example =
    parse-format_decimal thousands thousands-IsOrdinary ascii free true 1234567 refl (refl, tt)

-- Three regular separators are not taken as regular, and the words of 10 ^ 36 are those of 10 ^ 48.
irregular_runs :
    (format_run false 1234567890 (codes "#,###,##0") ≡ ok (some (codes "1,234,567,890")))
    × (format_run false 12345678901234 (codes "#,###,###,##0")
        ≡ ok (some (codes "12345,678,901,234")))
    × (integer_words ascii (pos (10 ^ 36)) (codes "w") false
        ≡ codes "one trillion trillion trillion trillion")
unfolding builtin_format_integer parse_integer_picture apply_integer_separators decimal
    integer_words ◌=ᵗ◌ map_integer_digits
irregular_runs = (refl, refl, refl)
