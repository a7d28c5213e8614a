-- ===== src/Lexer/Next.antt =====
-- jparse/lexer.go: `next`.
use jsonata_go.Prelude.{if◌then◌else◌, ℕ, Bool, ◌&&◌, ◌||◌, none, some, leb, ◌==◌}
use jsonata_go.Lexer.{
  Token, M, ◌>>=◌, ◌>>◌, Rune, next_rune, backup, ignore, accept_rune, skip_whitespace, new_token,
  eof_token,
}
use jsonata_go.Lexer.Symbols.{lookup_symbol1, lookup_symbol2}
use jsonata_go.Lexer.Strings.{scan_regex, scan_string, scan_escaped_name}
use jsonata_go.Lexer.Words.{scan_number, scan_name}

-- The tests behind the two-character symbols, on the rune just read.
unfoldable pub next_single : ℕ → M Token
unfolding lookup_symbol1 new_token ignore scan_string backup scan_number scan_escaped_name scan_name
next_single ch = elim (lookup_symbol1 (some ch)) [
  | some tt' ↦ new_token tt'
  | none ↦
      if ch == b'"' || ch == b'\''
      then ignore >> scan_string ch
      else if leb b'0' ch && leb ch b'9'
      then backup >> scan_number
      else if ch == b'`'
      then ignore >> scan_escaped_name ch
      else backup >> scan_name
]

unfoldable pub next_symbol : ℕ → M Token
unfolding lookup_symbol2 accept_rune new_token next_single
next_symbol ch = elim (lookup_symbol2 (some ch)) [
  | none ↦ next_single ch
  | some (r, tt') ↦ accept_rune r >>= λ taken. if taken then new_token tt' else next_single ch
]

unfoldable pub next_from : Bool → Rune → M Token
unfolding eof_token ignore scan_regex next_symbol
next_from allow_regex none = eof_token
next_from allow_regex (some ch) =
    if allow_regex && ch == b'/' then ignore >> scan_regex ch else next_symbol ch

unfoldable pub next : Bool → M Token
unfolding skip_whitespace next_rune next_from
next allow_regex = do skip_whitespace; ch ← next_rune; next_from allow_regex ch
