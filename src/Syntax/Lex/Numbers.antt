-- ===== src/Syntax/Lex/Numbers.antt =====
-- internal/syntax/lexer.go: `word`, `number` and the range of a float64.
use jsonata_go.Prelude.{
  ℕ, ◌+◌, ◌-◌, ◌*◌, ◌^◌, Bool, true, false, not, ◌&&◌, ◌||◌, [], ◌∷◌, Text, codes, leb, ltb, ◌==◌,
  ◌=ᵗ◌, if◌then◌else◌,
}
use jsonata_go.Unicode.{Unicode, ascii_digit}
use jsonata_go.Syntax.{TokenKind, Token, Position, ErrorCode}
use jsonata_go.Syntax.Lex.{
  L, ◌>>=◌, ◌>>◌, when◌then◌else◌, pure, fail_with, peek, byte_at, advance, text_from, lexer_error,
  make_token, skip_while, pos,
}

abbrev pub is_word_rune : Unicode → ℕ → Bool
is_word_rune u r = u.is_letter r || u.is_digit r || r == b'_' || r == b'$'

unfoldable pub word_kind : Text → TokenKind
unfolding ◌=ᵗ◌
word_kind s =
    if s =ᵗ codes "true"
    then TokenKind.true_word
    else if s =ᵗ codes "false"
    then TokenKind.false_word
    else if s =ᵗ codes "null"
    then TokenKind.null_word
    else if s =ᵗ codes "and" || s =ᵗ codes "or" || s =ᵗ codes "in"
    then TokenKind.operator
    else TokenKind.identifier

unfoldable pub word : Unicode → Position → L Token
word u start = skip_while (is_word_rune u) >>= λ _.
    text_from start.byte >>= λ s. pure (make_token (word_kind s) s start)

abbrev marks_base : ℕ → Bool
marks_base c = c == b'x' || c == b'X' || c == b'b' || c == b'B' || c == b'o' || c == b'O'

-- A digit of the literal whose second byte is `mark`.
abbrev pub is_base_digit : Unicode → ℕ → ℕ → Bool
is_base_digit u mark r =
    if mark == b'b' || mark == b'B'
    then r == b'0' || r == b'1'
    else if mark == b'o' || mark == b'O'
    then leb b'0' r && leb r b'7'
    else u.is_digit r || (leb b'a' r && leb r b'f') || (leb b'A' r && leb r b'F')

unfoldable pub base_number : Unicode → Position → ℕ → L Token
base_number u start mark = advance >>= λ _. advance >>= λ _. pos >>= λ digits.
    skip_while (is_base_digit u mark) >>= λ _. pos >>= λ behind. text_from start.byte >>= λ s.
    when digits.byte == behind.byte
    then fail_with (lexer_error ErrorCode.s0101 s start)
    else pure (make_token TokenKind.number s start)

-- The digits, of which there must be one.
unfoldable pub some_digits : Unicode → Position → L (Unit {0})
some_digits u start = peek >>= λ r.
    when u.is_digit r
    then skip_while u.is_digit
    else (text_from start.byte >>= λ s. fail_with (lexer_error ErrorCode.s0201 s start))

unfoldable pub integer_part : Unicode → Position → L (Unit {0})
integer_part u start =
    peek >>= λ r. when r == b'0' then (advance >>= λ _. pure tt) else some_digits u start

-- A point that is not the first of two.
unfoldable pub fraction_part : Unicode → Position → L (Unit {0})
fraction_part u start = peek >>= λ r. byte_at 1 >>= λ next.
    when r == b'.' && not (next == b'.') then (advance >> some_digits u start) else pure tt

unfoldable pub exponent_part : Unicode → Position → L (Unit {0})
exponent_part u start = peek >>= λ r.
    when r == b'e' || r == b'E'
    then (advance >>= λ _. peek >>= λ sign.
        when sign == b'+' || sign == b'-'
        then advance >> some_digits u start
        else some_digits u start)
    else pure tt

-- The parts of a decimal literal: the digits of the mantissa with how many of them stand behind the
-- point, and the exponent. It is none if a digit is not of ASCII.
abbrev pub Parts : Type 0
Parts = Text × ℕ × Bool × Text

abbrev all_ascii : Text → Bool
all_ascii [] = true
all_ascii (c ∷ cs) = ascii_digit c && all_ascii cs

-- The exponent stops growing above 10000, as in `strconv`.
unfoldable pub read_exponent : ℕ → Text → ℕ
read_exponent e [] = e
read_exponent e (c ∷ cs) = read_exponent (if ltb e 10000 then e * 10 + (c - b'0') else e) cs

-- The least number that is too large: half a unit above the largest float64.
abbrev pub too_large : ℕ
too_large = 2 ^ 1024 - 2 ^ 970

-- The number `mantissa * 10 ^ (exponent - behind)` rounds to a finite float64.
unfoldable pub in_float_range : ℕ → ℕ → Bool → ℕ → Bool
in_float_range mantissa behind negative e =
    if negative
    then ltb mantissa (too_large * 10 ^ (e + behind))
    else if leb behind e
    then ltb (mantissa * 10 ^ (e - behind)) too_large
    else ltb mantissa (too_large * 10 ^ (behind - e))

-- The reading of a literal: the mantissa so far with the digits behind the point.
unfoldable pub float_mantissa : ℕ → ℕ → Bool → Text → Bool
unfolding in_float_range read_exponent
float_mantissa m behind point [] = in_float_range m behind false 0
float_mantissa m behind point (c ∷ cs) =
    let further =
      float_mantissa (m * 10 + (c - b'0')) (if point then behind + 1 else behind) point cs in
    let fraction = float_mantissa m behind true cs in
    if c == b'.'
    then fraction
    else if c == b'e' || c == b'E'
    then (elim cs [
      | [] ↦ false
      | s ∷ ds ↦
          if s == b'-'
          then all_ascii ds && in_float_range m behind true (read_exponent 0 ds)
          else if s == b'+'
          then all_ascii ds && in_float_range m behind false (read_exponent 0 ds)
          else all_ascii (s ∷ ds) && in_float_range m behind false (read_exponent 0 (s ∷ ds))
    ])
    else ascii_digit c && further

-- `strconv.ParseFloat` reports no error on a text that the lexer has read as a number.
unfoldable pub parses_float : Text → Bool
unfolding float_mantissa
parses_float s = float_mantissa 0 0 false s

unfoldable pub decimal_number : Unicode → Position → L Token
decimal_number u start = integer_part u start >>= λ _. fraction_part u start >>= λ _.
    exponent_part u start >>= λ _. text_from start.byte >>= λ s.
    when parses_float s
    then pure (make_token TokenKind.number s start)
    else fail_with (lexer_error ErrorCode.s0102 s start)

unfoldable pub unsigned_number : Unicode → Position → L Token
unsigned_number u start = peek >>= λ r. byte_at 1 >>= λ mark.
    when r == b'0' && marks_base mark then base_number u start mark else decimal_number u start

unfoldable pub number : Unicode → Position → L Token
number u start = peek >>= λ r.
    when r == b'-' then advance >> unsigned_number u start else unsigned_number u start
