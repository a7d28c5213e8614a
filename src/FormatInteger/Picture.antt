-- ===== src/FormatInteger/Picture.antt =====
-- internal/evaluator/format_integer.go: the picture of `$formatInteger` and its separators.
-- The field `digits` of the Go struct, which no code reads or writes, is left out.
use jsonata_go.Prelude.{
  ℕ, zero, suc, ◌+◌, ◌-◌, Bool, true, false, not, ◌&&◌, ◌||◌, List, [], ◌∷◌, ◌++◌, Text, codes, leb,
  ◌==◌, ◌=ᵗ◌, if◌then◌else◌,
}
use jsonata_go.Prelude.Result.{Result, ok, err, ◌>>=◌}
use jsonata_go.Unicode.{Unicode}
use jsonata_go.GoStrings.{split}

-- The code of a `runtimeError`.
pub data FormatError : Type 0 where
  t0410 d1001 d3130 d3131 arity interrupted : FormatError

pub record IntegerSeparator : Type 0 where
  pub char : ℕ
  pub from_right : ℕ

-- A `zero` of 0 is one not yet set.
pub record IntegerPicture : Type 0 where
  pub zero_digit : ℕ
  pub optional : ℕ
  pub mandatory : ℕ
  pub separators : List IntegerSeparator
  pub modifier : Text
  pub ordinal : Bool
  pub input_pattern : Text

unfoldable pub is_word_modifier : Text → Bool
unfolding ◌=ᵗ◌
is_word_modifier m = m =ᵗ codes "w" || m =ᵗ codes "W" || m =ᵗ codes "Ww"

unfoldable pub is_roman_modifier : Text → Bool
unfolding ◌=ᵗ◌
is_roman_modifier m = m =ᵗ codes "I" || m =ᵗ codes "i"

unfoldable pub is_letter_modifier : Text → Bool
unfolding ◌=ᵗ◌
is_letter_modifier m = m =ᵗ codes "A" || m =ᵗ codes "a"

unfoldable pub is_integer_word_picture : Text → Bool
unfolding is_word_modifier is_roman_modifier is_letter_modifier
is_integer_word_picture p = is_word_modifier p || is_roman_modifier p || is_letter_modifier p

-- Whether ten digits begin at `start`.
unfoldable pub all_digits : Unicode → ℕ → ℕ → Bool
all_digits u zero start = true
all_digits u (suc n) start = u.is_digit (start + n) && all_digits u n start

unfoldable pub family_offset : Unicode → ℕ → ℕ → ℕ → ℕ
unfolding all_digits
family_offset u zero offset char = 0
family_offset u (suc rounds) offset char =
    let rest = family_offset u rounds (offset + 1) char in
    if u.is_digit (char - offset) && all_digits u 10 (char - offset) then offset else rest

unfoldable pub integer_picture_digit_value : Unicode → ℕ → ℕ
unfolding family_offset
integer_picture_digit_value u char =
    if leb b'0' char && leb char b'9' then char - b'0' else family_offset u 10 0 char

-- `toRight`: the digit places behind a separator.
unfoldable pub to_right : Unicode → Text → ℕ
to_right u [] = 0
to_right u (c ∷ cs) =
    if c == b'0' || c == b'#' || u.is_digit c then suc (to_right u cs) else to_right u cs

-- One round of the loop over the picture, behind which `rest` is to come; the flag is `zeroFound`.
unfoldable pub picture_step :
    Unicode → ℕ → Text → IntegerPicture × Bool → Result FormatError (IntegerPicture × Bool)
unfolding to_right integer_picture_digit_value
picture_step u char rest (p, found) =
    let family = char - integer_picture_digit_value u char in
    let zero' = if found then p.zero_digit else family in
    if char == b'0'
    then (if not (p.zero_digit == 0) && not (p.zero_digit == char)
        then err d3131
        else ok (record p { zero_digit = char; mandatory = p.mandatory + 1 }, true))
    else if char == b'#'
    then ok (record p { optional = p.optional + 1 }, found)
    else if u.is_digit char
    then (if not (zero' == family)
        then err d3131
        else ok (record p { zero_digit = zero'; mandatory = p.mandatory + 1 }, true))
    else ok (
      record p {
        separators = p.separators ++ (record { char = char; from_right = to_right u rest } ∷ []);
      },
      found,
    )

unfoldable pub picture_loop :
    Unicode → Text → IntegerPicture × Bool → Result FormatError (IntegerPicture × Bool)
unfolding picture_step
picture_loop u [] s = ok s
picture_loop u (c ∷ cs) s = picture_step u c cs s >>= picture_loop u cs

abbrev pub empty_picture : Text → IntegerPicture
empty_picture picture = record {
  zero_digit = 0;
  optional = 0;
  mandatory = 0;
  separators = [];
  modifier = [];
  ordinal = false;
  input_pattern = picture;
}

unfoldable pub finish_picture : IntegerPicture × Bool → Result FormatError IntegerPicture
finish_picture (p, found) =
    if not found
    then err d3130
    else if p.zero_digit == 0
    then ok (record p { zero_digit = b'0' })
    else ok p

-- A picture that is a word: its part behind ";" may only be "o".
unfoldable pub word_picture : IntegerPicture → List Text → Result FormatError IntegerPicture
unfolding ◌=ᵗ◌
word_picture p [] = ok p
word_picture p (m ∷ ms) = if m =ᵗ codes "o" then ok (record p { ordinal = true }) else err d3130

-- `len(digits) == 1 && digits[0] == []rune(modifier)[0]`
unfoldable pub single_of : Text → Text → Bool
single_of (d ∷ []) (m ∷ ms) = d == m
single_of _ _ = false

-- A picture of digits with the modifier behind ";".
unfoldable pub digit_picture : Unicode → IntegerPicture → Text → Result FormatError IntegerPicture
unfolding ◌=ᵗ◌ is_integer_word_picture single_of picture_loop finish_picture
digit_picture u p digits =
    let m = p.modifier in
    if not (m =ᵗ [] || m =ᵗ codes "c" || m =ᵗ codes "o" || is_integer_word_picture m)
    then err d3130
    else if is_integer_word_picture m
    then (if single_of digits m then ok p else err d3130)
    else picture_loop u digits (p, false) >>= finish_picture

unfoldable pub picture_parts : Unicode → Text → List Text → Result FormatError IntegerPicture
unfolding is_integer_word_picture word_picture digit_picture
picture_parts u picture [] = err d3130
picture_parts u picture ([] ∷ rest) = err d3130
picture_parts u picture (part ∷ a ∷ b ∷ rest) = err d3130
picture_parts u picture ((c ∷ cs) ∷ []) =
    let p = empty_picture picture in
    if is_integer_word_picture (c ∷ cs)
    then word_picture (record p { modifier = c ∷ cs }) []
    else digit_picture u p (c ∷ cs)
picture_parts u picture ((c ∷ cs) ∷ m ∷ []) =
    let p = empty_picture picture in
    if is_integer_word_picture (c ∷ cs)
    then word_picture (record p { modifier = c ∷ cs }) (m ∷ [])
    else digit_picture u (record p { modifier = m }) (c ∷ cs)

unfoldable pub parse_integer_picture : Unicode → Text → Result FormatError IntegerPicture
unfolding picture_parts split
parse_integer_picture u picture = picture_parts u picture (split picture b';')
