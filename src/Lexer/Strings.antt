-- ===== src/Lexer/Strings.antt =====
-- jparse/lexer.go: `scanRegex`, `scanString` and `scanEscapedName`.
use jsonata_go.Prelude.{
  if◌then◌else◌, ℕ, zero, suc, ◌+◌, Bool, true, false, ◌&&◌, ◌||◌, [], ◌∷◌, ◌++◌, none, some, codes,
  ◌==◌,
}
use jsonata_go.Lexer.{
  TokenType, ErrType, Token, M, ◌>>=◌, pure, Rune, next_rune, backup, ignore, accept_rune, fuel_for,
  accept_all, is_regex_flag, new_token, fail, eof, string, name_esc, regex, unterminated_string,
  unterminated_regex, unterminated_name, ◌>>◌,
}

-- The end of a literal is found at the delimiter, or there is none.
pub data Ending : Type 0 where
  closed unterminated : Ending

abbrev pub opens : ℕ → Bool
opens c = c == b'(' || c == b'[' || c == b'{'

abbrev pub closes : ℕ → Bool
closes c = c == b')' || c == b']' || c == b'}'

-- Whether the character behind a backslash ends the literal too early.
abbrev pub cut_short : Bool → Rune → Bool
cut_short newline none = true
cut_short newline (some c) = newline && c == 10

-- Behind a backslash: the next character is passed over, unless it ends the literal too early.
unfoldable pub skip_escaped : Bool → M Ending → M Ending
unfolding next_rune
skip_escaped newline loop = do
  r ← next_rune
  if cut_short newline r then pure unterminated else loop

-- One round of the loop, which may go on with more or fewer brackets open. The depth of brackets is
-- an integer: `up` and `down` count the two sorts.
unfoldable pub regex_round : ℕ → (ℕ → ℕ → M Ending) → ℕ → ℕ → Rune → M Ending
unfolding skip_escaped
regex_round delim loop up down none = pure unterminated
regex_round delim loop up down (some c) =
    if c == delim
    then (if up == down then pure closed else loop up down)
    else if opens c
    then loop (up + 1) down
    else if closes c
    then loop up (down + 1)
    else if c == b'\\'
    then skip_escaped true (loop up down)
    else if c == 10
    then pure unterminated
    else loop up down

unfoldable pub regex_loop : ℕ → ℕ → ℕ → ℕ → M Ending
unfolding next_rune regex_round
regex_loop zero delim up down = λ l. none
regex_loop (suc fuel) delim up down =
    next_rune >>= regex_round delim (regex_loop fuel delim) up down

-- "(?" flags ")" in front of the expression.
abbrev pub with_flags : Token → Token → Token
with_flags t flags = record t { value = codes "(?" ++ (flags.value ++ (codes ")" ++ t.value)) }

unfoldable pub close_regex : ℕ → M Token
unfolding backup new_token accept_rune ignore accept_all
close_regex delim = do
  backup
  t ← new_token regex
  accept_rune delim
  ignore
  flagged ← accept_all is_regex_flag
  if flagged then (new_token eof >>= λ flags. pure (with_flags t flags)) else pure t

unfoldable pub end_regex : ℕ → Ending → M Token
unfolding close_regex fail
end_regex delim closed = close_regex delim
end_regex delim unterminated = fail unterminated_regex (delim ∷ [])

unfoldable pub scan_regex : ℕ → M Token
unfolding regex_loop end_regex
scan_regex delim = (λ l. regex_loop (fuel_for l) delim 0 0 l) >>= end_regex delim

unfoldable pub string_round : ℕ → M Ending → Rune → M Ending
unfolding skip_escaped
string_round quote loop none = pure unterminated
string_round quote loop (some c) =
    if c == quote then pure closed else if c == b'\\' then skip_escaped false loop else loop

unfoldable pub string_loop : ℕ → ℕ → M Ending
unfolding next_rune string_round
string_loop zero quote = λ l. none
string_loop (suc fuel) quote = next_rune >>= string_round quote (string_loop fuel quote)

-- The token is what stands before the delimiter just read.
unfoldable pub close_literal : TokenType → ℕ → M Token
unfolding backup new_token accept_rune ignore
close_literal type quote = do backup; t ← new_token type; accept_rune quote; ignore; pure t

unfoldable pub end_literal : TokenType → ErrType → ℕ → Ending → M Token
unfolding close_literal fail
end_literal type problem quote closed = close_literal type quote
end_literal type problem quote unterminated = fail problem (quote ∷ [])

unfoldable pub scan_string : ℕ → M Token
unfolding string_loop end_literal
scan_string quote =
    (λ l. string_loop (fuel_for l) quote l) >>= end_literal string unterminated_string quote

unfoldable pub name_round : ℕ → M Ending → Rune → M Ending
name_round quote loop none = pure unterminated
name_round quote loop (some c) =
    if c == quote then pure closed else if c == 10 then pure unterminated else loop

unfoldable pub name_loop : ℕ → ℕ → M Ending
unfolding next_rune name_round
name_loop zero quote = λ l. none
name_loop (suc fuel) quote = next_rune >>= name_round quote (name_loop fuel quote)

unfoldable pub scan_escaped_name : ℕ → M Token
unfolding name_loop end_literal
scan_escaped_name quote =
    (λ l. name_loop (fuel_for l) quote l) >>= end_literal name_esc unterminated_name quote
