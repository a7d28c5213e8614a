-- ===== src/Syntax/Lex/Next.antt =====
-- internal/syntax/lexer.go: `next` and `Lex`.
use jsonata_go.Prelude.{
  ℕ, zero, suc, Bool, true, false, ◌&&◌, ◌||◌, List, [], ◌∷◌, Option, none, some, Text, codes, ◌==◌,
  if◌then◌else◌,
}
use jsonata_go.GoStrings.{has_prefix}
use jsonata_go.Unicode.{Unicode}
use jsonata_go.Syntax.{TokenKind, Token, Position, ErrorCode}
use jsonata_go.Syntax.State.{Outcome, done, failed, out_of_fuel}
use jsonata_go.Syntax.Quoted.{encode_rune}
use jsonata_go.Syntax.Lex.{
  L, ◌>>=◌, ◌>>◌, when◌then◌else◌, pure, fail_with, stop, peek, byte_at, bytes_before, bytes_ahead,
  advance, lexer_error, make_token, pos, at_end, with_fuel, lexer_on,
}
use jsonata_go.Syntax.Lex.Numbers.{word, number}
use jsonata_go.Syntax.Lex.Texts.{joins_word, string_token, regex_start, regex_literal}

unfoldable pub comment_loop : Position → ℕ → L (Unit {0})
comment_loop start zero = stop
comment_loop start (suc n) =
    let again = comment_loop start n in
    at_end >>= λ ended. peek >>= λ r. byte_at 1 >>= λ next.
    when ended
    then fail_with (lexer_error ErrorCode.s0106 [] start)
    else when r == b'*' && next == b'/'
    then (advance >>= λ _. advance >>= λ _. pure tt)
    else (advance >> again)

unfoldable pub comment : L (Unit {0})
comment = pos >>= λ start. advance >>= λ _. advance >>= λ _. with_fuel (comment_loop start)

-- The first loop of `next`, over spaces and comments.
unfoldable pub skip_loop : Unicode → ℕ → L (Unit {0})
skip_loop u zero = stop
skip_loop u (suc n) =
    let again = skip_loop u n in
    at_end >>= λ ended. peek >>= λ r. byte_at 1 >>= λ next.
    when ended
    then pure tt
    else when u.is_space r
    then advance >> again
    else when r == b'/' && next == b'*'
    then comment >> again
    else pure tt

abbrev pub two_byte_operators : List Text
two_byte_operators =
    codes "!="
    ∷ codes "<="
    ∷ codes ">="
    ∷ codes "??"
    ∷ codes ":="
    ∷ codes "?:"
    ∷ codes "~>"
    ∷ codes ".."
    ∷ codes "**"
    ∷ []

abbrev pub first_prefix : List Text → Text → Option Text
first_prefix [] ahead = none
first_prefix (op ∷ ops) ahead = if has_prefix op ahead then some op else first_prefix ops ahead

abbrev is_operator_rune : ℕ → Bool
is_operator_rune r =
    r == b'!'
    || r == b'-'
    || r == b'.'
    || r == b'+'
    || r == b'*'
    || r == b'/'
    || r == b'%'
    || r == b'^'
    || r == b'='
    || r == b'<'
    || r == b'>'
    || r == b'&'
    || r == b'|'
    || r == b'@'
    || r == b'#'
    || r == b'?'

-- The kind of the token that a rune is alone.
unfoldable pub single_kind : ℕ → Option TokenKind
single_kind r =
    if r == b'['
    then some TokenKind.lbracket
    else if r == b']'
    then some TokenKind.rbracket
    else if r == b'{'
    then some TokenKind.lbrace
    else if r == b'}'
    then some TokenKind.rbrace
    else if r == b'('
    then some TokenKind.lparen
    else if r == b')'
    then some TokenKind.rparen
    else if r == b','
    then some TokenKind.comma
    else if r == b':'
    then some TokenKind.colon
    else if r == b';'
    then some TokenKind.semicolon
    else if is_operator_rune r
    then some TokenKind.operator
    else none

unfoldable pub single : Position → ℕ → L Token
single start r = advance >>= λ _. elim (single_kind r) [
  | some kind ↦ pure (make_token kind (r ∷ []) start)
  | none ↦ fail_with (lexer_error ErrorCode.s0201 (encode_rune r) start)
]

unfoldable pub symbol_token : Position → ℕ → L Token
symbol_token start r = bytes_ahead >>= λ ahead. elim (first_prefix two_byte_operators ahead) [
  | some op ↦ advance >>= λ _. advance >>= λ _. pure (make_token TokenKind.operator op start)
  | none ↦ single start r
]

unfoldable pub dollar_token : Position → L Token
dollar_token start = advance >>= λ _. peek >>= λ r.
    when r == b'$'
    then (advance >>= λ _. pure (make_token TokenKind.identifier (codes "$$") start))
    else pure (make_token TokenKind.dollar (codes "$") start)

-- A quote, which begins no string behind a letter or digit.
unfoldable pub quote_token : Unicode → Position → L Token
quote_token u start = bytes_before >>= λ before.
    when joins_word u before
    then (advance >>= λ _. pure (make_token TokenKind.string [] start))
    else string_token u start false

-- The token at the position, which is not the end.
unfoldable pub token_at : Unicode → (Text → Option ErrorCode) → Position → ℕ → L Token
token_at u compile start r = bytes_before >>= λ before.
    when u.is_letter r || r == b'_'
    then word u start
    else when u.is_digit r
    then number u start
    else when r == 39 || r == 34
    then quote_token u start
    else when r == b'/' && regex_start u before
    then regex_literal compile start
    else when r == b'`'
    then string_token u start true
    else when r == b'$'
    then dollar_token start
    else symbol_token start r

unfoldable pub next : Unicode → (Text → Option ErrorCode) → L Token
next u compile = with_fuel (skip_loop u) >>= λ _. pos >>= λ start. at_end >>= λ ended. peek >>= λ r.
    when ended then pure (make_token TokenKind.eof [] start) else token_at u compile start r

abbrev pub is_eof : TokenKind → Bool
is_eof TokenKind.eof = true
is_eof _ = false

unfoldable pub lex_loop : Unicode → (Text → Option ErrorCode) → ℕ → L (List Token)
lex_loop u compile zero = stop
lex_loop u compile (suc n) =
    let again = lex_loop u compile n in
    next u compile >>= λ t.
    when is_eof t.kind then pure (t ∷ []) else (again >>= λ ts. pure (t ∷ ts))

unfoldable pub lex : Unicode → (Text → Option ErrorCode) → Text → Outcome (List Token)
lex u compile source = elim (with_fuel (lex_loop u compile) (lexer_on source)) [
  | done (ts, l) ↦ done ts
  | failed e ↦ failed e
  | out_of_fuel ↦ out_of_fuel
]
