-- ===== src/FormatInteger/Builtins.antt =====
-- internal/evaluator/format_integer.go: `builtinFormatInteger` and `builtinParseInteger`.
-- A float64 enters as what the code asks of it: whether it is below 0, and what
-- `pictureNumberInteger` gives for it. The integers that `$parseInteger` computes are the results
-- here, before their conversion to float64. `check` is the outcome of `checkFormatRuntime`.
use jsonata_go.Prelude.{
  ℕ, zero, suc, ◌+◌, ◌%◌, ◌^◌, Bool, false, not, ◌&&◌, ◌||◌, List, [], ◌∷◌, ◌++◌, Option, none,
  some, Text, codes, ltb, leb, ◌==◌, ◌=ᵗ◌, if◌then◌else◌, length,
}
use mathlib.Core.Option
use jsonata_go.Prelude.Int.{ℤ, pos, neg, abs, leb_ℤ}
use jsonata_go.Prelude.Result.{Result, ok, err, ◌>>=◌}
use jsonata_go.Unicode.{Unicode}
use jsonata_go.Decimal.{decimal, read_decimal}
use jsonata_go.GoStrings.{lower_text, trim_space, has_suffix, drop_last}
use jsonata_go.FormatInteger.Roman.{roman_integer, parse_roman_integer}
use jsonata_go.FormatInteger.Alphabetic.{alphabetic_integer, parse_alphabetic_integer}
use jsonata_go.FormatInteger.Picture.{
  FormatError, t0410, d1001, d3130, arity, IntegerSeparator, IntegerPicture, is_word_modifier,
  is_roman_modifier, is_letter_modifier, parse_integer_picture,
}
use jsonata_go.FormatInteger.Separators.{apply_integer_separators, map_integer_digits}
use jsonata_go.FormatInteger.Words.{integer_words}
use jsonata_go.FormatInteger.ParseWords.{parse_integer_words}

-- A collapsed argument. A number is `number < 0` with the magnitude, which is missing if it is
-- not finite.
pub data FormatArg : Type 0 where
  undefined : FormatArg
  number : Bool → Option ℕ → FormatArg
  string : Text → FormatArg
  other : FormatArg

unfoldable pub ordinal_suffix : ℕ → Text
ordinal_suffix n =
    if leb 11 (n % 100) && leb (n % 100) 13
    then codes "th"
    else if n % 10 == 1
    then codes "st"
    else if n % 10 == 2
    then codes "nd"
    else if n % 10 == 3
    then codes "rd"
    else codes "th"

-- Zeros in front, up to `mandatory` digits: `rounds` of them at most.
unfoldable pub pad_digits : ℕ → ℕ → Text → Text
pad_digits zero mandatory digits = digits
pad_digits (suc rounds) mandatory digits =
    let rest = pad_digits rounds mandatory (b'0' ∷ digits) in
    if ltb (length digits) mandatory then rest else digits

-- The digits with their separators and the sign.
unfoldable pub decimal_text : Bool → ℕ → IntegerPicture → Text
unfolding pad_digits
decimal_text negative magnitude picture =
    let padded = pad_digits picture.mandatory picture.mandatory (decimal magnitude) in
    let digits = if magnitude == 0 && picture.mandatory == 0 then [] else padded in
    let result = apply_integer_separators digits picture in
    if negative && not (result =ᵗ []) then b'-' ∷ result else result

unfoldable pub format_decimal : Bool → ℕ → IntegerPicture → Text
unfolding decimal_text ordinal_suffix
format_decimal negative magnitude picture =
    let result = decimal_text negative magnitude picture in
    map_integer_digits picture.zero_digit
      (if picture.modifier =ᵗ codes "o" then result ++ ordinal_suffix magnitude else result)

-- From the parsed picture and the integer on.
unfoldable pub format_with : Unicode → Bool → ℕ → IntegerPicture → Result FormatError Text
unfolding is_word_modifier is_roman_modifier is_letter_modifier format_decimal
format_with u negative magnitude picture =
    let integer = if negative then neg (pos magnitude) else pos magnitude in
    let m = picture.modifier in
    if is_word_modifier m
    then ok (integer_words u integer m picture.ordinal)
    else if is_roman_modifier m
    then (if leb_ℤ integer (pos 0)
        then ok []
        else if leb (2 ^ 24) (abs integer)
        then err d3130
        else ok (
            if m =ᵗ codes "i" then lower_text u (roman_integer integer) else roman_integer integer))
    else if is_letter_modifier m
    then (if leb_ℤ integer (pos 0)
        then ok []
        else ok (
            if m =ᵗ codes "a"
            then lower_text u (alphabetic_integer integer)
            else alphabetic_integer integer))
    else ok (format_decimal negative magnitude picture)

abbrev with_magnitude {ℓ} :
    {A : Type ℓ} → Option ℕ → (ℕ → Result FormatError A) → Result FormatError A
with_magnitude none f = err d1001
with_magnitude (some n) f = f n

unfoldable pub format_args : Unicode → List FormatArg → Result FormatError (Option Text)
unfolding format_with
format_args u [] = ok none
format_args u (undefined ∷ rest) = ok none
format_args u (a ∷ []) = err arity
format_args u (number negative magnitude ∷ string picture ∷ rest) =
    parse_integer_picture u picture >>= λ parsed.
    with_magnitude magnitude λ n. format_with u negative n parsed >>= λ t. ok (some t)
format_args u (a ∷ b ∷ rest) = err t0410

unfoldable pub builtin_format_integer :
    Unicode → Result FormatError (Unit {0}) → List FormatArg → Result FormatError (Option Text)
unfolding format_args
builtin_format_integer u check args = check >>= λ _. format_args u args

unfoldable pub integer_digit_from : ℕ → ℕ → ℕ → ℕ → Option ℕ
integer_digit_from zero offset char zero_digit = none
integer_digit_from (suc rounds) offset char zero_digit =
    let rest = integer_digit_from rounds (offset + 1) char zero_digit in
    if char == zero_digit + offset then some offset else rest

unfoldable pub unicode_integer_digit : ℕ → ℕ → Option ℕ
unfolding integer_digit_from
unicode_integer_digit char zero_digit =
    if zero_digit == 0 then none else integer_digit_from 10 0 char zero_digit

unfoldable pub is_separator : ℕ → List IntegerSeparator → Bool
is_separator char [] = false
is_separator char (s ∷ ss) = char == s.char || is_separator char ss

unfoldable pub parse_digit : IntegerPicture → ℕ → Text → Result FormatError Text
unfolding unicode_integer_digit is_separator
parse_digit picture char digits =
    if picture.zero_digit == b'0' && (leb b'0' char && leb char b'9')
    then ok (digits ++ char ∷ [])
    else elim (unicode_integer_digit char picture.zero_digit) [
      | some mapped ↦ ok (digits ++ (b'0' + mapped) ∷ [])
      | none ↦ if is_separator char picture.separators then ok digits else err d3130
    ]

unfoldable pub parse_digits : IntegerPicture → Text → Text → Result FormatError Text
unfolding parse_digit
parse_digits picture [] digits = ok digits
parse_digits picture (c ∷ cs) digits = parse_digit picture c digits >>= parse_digits picture cs

-- Without any digit the source returns 0 at once, which is also what no digits read as.
unfoldable pub parse_signed : IntegerPicture → Text → Result FormatError ℤ
unfolding parse_digits
parse_signed picture [] = ok (pos 0)
parse_signed picture (c ∷ cs) =
    if c == b'-'
    then (parse_digits picture cs [] >>= λ d. ok (neg (pos (read_decimal 0 d))))
    else parse_digits picture (c ∷ cs) [] >>= λ d. ok (pos (read_decimal 0 d))

abbrev ends_as_ordinal : Text → Bool
ends_as_ordinal text =
    has_suffix (codes "st") text || has_suffix (codes "nd") text || has_suffix (codes "rd") text

-- The suffix of an ordinal is cut off.
unfoldable pub cut_ordinal : IntegerPicture → Text → Result FormatError Text
unfolding has_suffix
cut_ordinal picture text =
    if not (picture.modifier =ᵗ codes "o")
    then ok text
    else if ends_as_ordinal text || has_suffix (codes "th") text
    then ok (drop_last 2 text)
    else err d3130

abbrev or_d3130 : Option ℤ → Result FormatError ℤ
or_d3130 none = err d3130
or_d3130 (some z) = ok z

unfoldable pub parse_with :
    Unicode → Result FormatError (Unit {0}) → Text → IntegerPicture → Result FormatError ℤ
unfolding is_word_modifier is_roman_modifier is_letter_modifier cut_ordinal parse_signed
parse_with u check text picture =
    let m = picture.modifier in
    if is_word_modifier m
    then parse_integer_words u check text m
    else if is_roman_modifier m
    then or_d3130 (parse_roman_integer u text)
    else if is_letter_modifier m
    then or_d3130 (Option.map pos (parse_alphabetic_integer u text))
    else cut_ordinal picture text >>= λ t. parse_signed picture (trim_space u t)

unfoldable pub parse_args :
    Unicode → Result FormatError (Unit {0}) → List FormatArg → Result FormatError (Option ℤ)
unfolding parse_with
parse_args u check [] = ok none
parse_args u check (undefined ∷ rest) = ok none
parse_args u check (a ∷ []) = err arity
parse_args u check (string text ∷ string picture ∷ rest) =
    parse_integer_picture u picture >>= λ parsed.
    parse_with u check text parsed >>= λ z. ok (some z)
parse_args u check (a ∷ b ∷ rest) = err t0410

unfoldable pub builtin_parse_integer :
    Unicode → Result FormatError (Unit {0}) → List FormatArg → Result FormatError (Option ℤ)
unfolding parse_args
builtin_parse_integer u check args = check >>= λ _. parse_args u check args
