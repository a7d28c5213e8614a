-- ===== src/Lexer/Symbols.antt =====
-- jparse/lexer.go: the tables of symbols and keywords.
use jsonata_go.Prelude.{if◌then◌else◌, ℕ, ◌||◌, Option, none, some, Text, codes, ◌==◌, ◌=ᵗ◌}
use jsonata_go.Lexer.{
  TokenType, Rune, boolean, null, bracket_open, bracket_close, brace_open, brace_close, paren_open,
  paren_close, dot, comma, colon, semicolon, condition, plus, minus, mult, div, mod_op, pipe, equal,
  not_equal, less, less_equal, greater, greater_equal, apply, sort, concat, range, assign,
  descendent, and_op, or_op, in_op,
}

-- `tokenType` 0, which the source tests by `> 0`, is `none`.
unfoldable pub lookup_symbol1 : Rune → Option TokenType
lookup_symbol1 none = none
lookup_symbol1 (some r) =
    if r == b'['
    then some bracket_open
    else if r == b']'
    then some bracket_close
    else if r == b'{'
    then some brace_open
    else if r == b'}'
    then some brace_close
    else if r == b'('
    then some paren_open
    else if r == b')'
    then some paren_close
    else if r == b'.'
    then some dot
    else if r == b','
    then some comma
    else if r == b';'
    then some semicolon
    else if r == b':'
    then some colon
    else if r == b'?'
    then some condition
    else if r == b'+'
    then some plus
    else if r == b'-'
    then some minus
    else if r == b'*'
    then some mult
    else if r == b'/'
    then some div
    else if r == b'%'
    then some mod_op
    else if r == b'|'
    then some pipe
    else if r == b'='
    then some equal
    else if r == b'<'
    then some less
    else if r == b'>'
    then some greater
    else if r == b'^'
    then some sort
    else if r == b'&'
    then some concat
    else none

-- Each first character has one second character at most.
unfoldable pub lookup_symbol2 : Rune → Option (ℕ × TokenType)
lookup_symbol2 none = none
lookup_symbol2 (some r) =
    if r == b'!'
    then some (b'=', not_equal)
    else if r == b'<'
    then some (b'=', less_equal)
    else if r == b'>'
    then some (b'=', greater_equal)
    else if r == b'.'
    then some (b'.', range)
    else if r == b'~'
    then some (b'>', apply)
    else if r == b':'
    then some (b'=', assign)
    else if r == b'*'
    then some (b'*', descendent)
    else none

unfoldable pub lookup_keyword : Text → Option TokenType
unfolding ◌=ᵗ◌
lookup_keyword s =
    if s =ᵗ codes "and"
    then some and_op
    else if s =ᵗ codes "or"
    then some or_op
    else if s =ᵗ codes "in"
    then some in_op
    else if s =ᵗ codes "true" || s =ᵗ codes "false"
    then some boolean
    else if s =ᵗ codes "null"
    then some null
    else none
