-- ===== src/Syntax/Lex/Texts.antt =====
-- internal/syntax/lexer.go: string literals, names in backticks and regular expressions.
-- The compiler of patterns, `regex.CompileLiteral`, is an argument: the code of its error, if any.
use jsonata_go.Prelude.{
  ℕ, zero, suc, ◌+◌, ◌-◌, Bool, true, false, not, ◌&&◌, ◌||◌, [], ◌∷◌, ◌++◌, Option, none, some,
  Text, leb, ltb, ◌==◌, if◌then◌else◌, drop, reverse,
}
use jsonata_go.Unicode.{Unicode}
use jsonata_go.Utf8.{decode_rune}
use jsonata_go.Syntax.{TokenKind, Token, LiteralValue, Position, ErrorCode, ParseError}
use jsonata_go.Syntax.Quoted.{decode_quoted_string}
use jsonata_go.Syntax.Lex.{
  L, ◌>>=◌, ◌>>◌, when◌then◌else◌, pure, fail_with, stop, peek, bytes_before, bytes_ahead, advance,
  text_from, lexer_error, make_token, skip_while, pos, at_end, with_fuel,
}

-- The byte before the start is, as a rune, a letter or digit.
abbrev pub joins_word : Unicode → Text → Bool
joins_word u [] = false
joins_word u (c ∷ before) = u.is_letter c || u.is_digit c

-- `l.source[b : l.bytePos-1]`
abbrev pub without_last : Text → Text
without_last [] = []
without_last (c ∷ []) = []
without_last (c ∷ d ∷ cs) = c ∷ without_last (d ∷ cs)

abbrev contains_unicode_escape : Text → Bool
contains_unicode_escape [] = false
contains_unicode_escape (c ∷ []) = false
contains_unicode_escape (c ∷ d ∷ cs) = (c == 92 && d == b'u') || contains_unicode_escape (d ∷ cs)

abbrev string_token_of : LiteralValue → Position → Token
string_token_of (LiteralValue.text s) start = make_token TokenKind.string s start
string_token_of value start = record (make_token TokenKind.string [] start) { value = value }

-- Behind the closing quote.
unfoldable pub closed_string : Position → ℕ → Text → L Token
closed_string start quote content = elim (decode_quoted_string content) [
  | some s ↦ pure (string_token_of s start)
  | none ↦ fail_with (
      lexer_error (if contains_unicode_escape content then ErrorCode.s0104 else ErrorCode.s0103)
        (quote ∷ (content ++ quote ∷ [])) start)
]

-- At the end of the source inside a string. `before` are the bytes before its start.
unfoldable pub unclosed_string : Unicode → Text → Position → L Token
unclosed_string u before start =
    when joins_word u before
    then pure (make_token TokenKind.string [] start)
    else (pos >>= λ p. fail_with (lexer_error ErrorCode.s0101 [] p))

-- The loop of `stringToken` on a string; `escaped` is whether the last rune was a backslash in force.
unfoldable pub quoted_loop : Unicode → Text → Position → ℕ → ℕ → Bool → ℕ → L Token
quoted_loop u before start quote b escaped zero = stop
quoted_loop u before start quote b escaped (suc n) =
    let again : Bool → L Token = λ escaped'. quoted_loop u before start quote b escaped' n in
    at_end >>= λ ended. peek >>= λ r.
    when ended
    then unclosed_string u before start
    else (advance >>= λ _.
        when escaped
        then again false
        else when r == 92
        then again true
        else when r == quote
        then (text_from b >>= λ content. closed_string start quote (without_last content))
        else again false)

-- The loop of `stringToken` on a name.
unfoldable pub backtick_loop : Position → ℕ → ℕ → L Token
backtick_loop start b zero = stop
backtick_loop start b (suc n) =
    let again = backtick_loop start b n in
    at_end >>= λ ended. peek >>= λ r.
    when ended
    then (pos >>= λ p. fail_with (lexer_error ErrorCode.s0105 [] p))
    else (advance >>= λ _.
        when r == b'`'
        then (text_from b >>= λ s. pure (make_token TokenKind.identifier (without_last s) start))
        else again)

unfoldable pub string_token : Unicode → Position → Bool → L Token
string_token u start backtick = bytes_before >>= λ before. advance >>= λ quote. pos >>= λ b.
    when backtick
    then with_fuel (backtick_loop start b.byte)
    else with_fuel (quoted_loop u before start quote b.byte false)

-- `regexDelimiterUnescaped`, with the bytes before the delimiter, the last first.
unfoldable pub regex_delimiter_unescaped : Text → Bool
regex_delimiter_unescaped [] = true
regex_delimiter_unescaped (c ∷ cs) =
    let rest = regex_delimiter_unescaped cs in if c == 92 then not rest else true

abbrev pub follows_operator : ℕ → Bool
follows_operator r =
    r == b'('
    || r == b'['
    || r == b'{'
    || r == b','
    || r == b':'
    || r == b';'
    || r == b'='
    || r == b'!'
    || r == b'?'
    || r == b'&'
    || r == b'|'
    || r == b'~'
    || r == b'>'

-- `regexStart`, with the bytes before the position, the last first.
unfoldable pub regex_start : Unicode → Text → Bool
regex_start u [] = true
regex_start u (c ∷ before) =
    let further = regex_start u before in if u.is_space c then further else follows_operator c

abbrev opens_group : ℕ → Bool
opens_group c = c == b'(' || c == b'[' || c == b'{'

abbrev closes_group : ℕ → Bool
closes_group c = c == b')' || c == b']' || c == b'}'

abbrev is_backslash : Text → Bool
is_backslash [] = false
is_backslash (c ∷ cs) = c == 92

-- The search for the closing slash in the bytes ahead: its distance. `depth` is how many groups were
-- opened less how many were closed. `skip` counts the bytes of a rune that are still to be passed.
unfoldable pub regex_end : ℕ → Text → ℕ × ℕ → Text → Option ℕ
regex_end skip before depth [] = none
regex_end (suc skip) before depth (c ∷ cs) =
    let found = regex_end skip (c ∷ before) depth cs in
    elim found [ none ↦ none | some n ↦ some (suc n) ]
regex_end zero before (opened, closed) (c ∷ cs) =
    let counts = not (is_backslash before) in
    let opened' = if counts && opens_group c then opened + 1 else opened in
    let closed' = if counts && closes_group c then closed + 1 else closed in
    let found = regex_end ((decode_rune (c ∷ cs)).1 - 1) (c ∷ before) (opened', closed') cs in
    if c == b'/' && opened == closed && regex_delimiter_unescaped before
    then some 0
    else elim found [ none ↦ none | some n ↦ some (suc n) ]

-- The UTF-16 units of the runes that a string is.
unfoldable pub utf16_length : ℕ → Text → ℕ
utf16_length skip [] = 0
utf16_length (suc skip) (c ∷ cs) = utf16_length skip cs
utf16_length zero (c ∷ cs) =
    let rest = utf16_length ((decode_rune (c ∷ cs)).1 - 1) cs in
    if ltb 0xffff (decode_rune (c ∷ cs)).0 then rest + 2 else rest + 1

-- `for l.bytePos <= end`
unfoldable pub advance_to : ℕ → ℕ → L (Unit {0})
advance_to end zero = stop
advance_to end (suc n) =
    pos >>= λ p. when leb p.byte end then advance >> advance_to end n else pure tt

abbrev pub is_flag : ℕ → Bool
is_flag r = r == b'i' || r == b'm'

abbrev pub regex_error : ErrorCode → Text → Position → ParseError
regex_error code literal start = record {
  code = code;
  token = literal;
  value = literal;
  position = start.offset + 1;
}

unfoldable pub regex_token : (Text → Option ErrorCode) → Position → ℕ → L Token
regex_token compile start end = with_fuel (advance_to end) >>= λ _. skip_while is_flag >>= λ _.
    text_from start.byte >>= λ literal. elim (compile literal) [
      | none ↦ pure (make_token TokenKind.regex literal start)
      | some code ↦ fail_with (regex_error code literal start)
    ]

unfoldable pub unterminated_regex : Text → Text → ParseError
unterminated_regex before ahead = record {
  code = ErrorCode.s0302;
  token = [];
  value = [];
  position = utf16_length 0 (reverse before ++ ahead);
}

-- At a slash that begins a regular expression.
unfoldable pub regex_literal : (Text → Option ErrorCode) → Position → L Token
regex_literal compile start = bytes_before >>= λ before. bytes_ahead >>= λ ahead.
    elim (regex_end 0 (b'/' ∷ before) (0, 0) (drop 1 ahead)) [
      | some n ↦ regex_token compile start (start.byte + 1 + n)
      | none ↦ fail_with (unterminated_regex before ahead)
    ]
