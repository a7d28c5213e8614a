-- ===== src/Lexer/Words.antt =====
-- jparse/lexer.go: `scanNumber` and `scanName`.
use jsonata_go.Prelude.{is_some, if◌then◌else◌, ℕ, zero, suc, Bool, true, false, ◌||◌, none, some}
use jsonata_go.Lexer.{
  Token, M, ◌>>=◌, ◌>>◌, pure, Rune, next_rune, backup, ignore, accept, accept_rune, accept_runes2,
  fuel_for, accept_all, is_whitespace, is_digit, is_non_zero_digit, new_token, number, name,
  variable,
}
use jsonata_go.Lexer.Symbols.{lookup_symbol1, lookup_symbol2, lookup_keyword}

unfoldable pub scan_exponent : M Token
unfolding accept_runes2 accept_all new_token
scan_exponent = do
  e ← accept_runes2 b'e' b'E'
  if e
      then (accept_runes2 b'+' b'-' >> (accept_all is_digit >> new_token number))
      else new_token number

unfoldable pub scan_fraction : M Token
unfolding accept_rune accept_all backup new_token scan_exponent
scan_fraction = do
  point ← accept_rune b'.'
  if point
      then (do
        digits ← accept_all is_digit
        if digits then scan_exponent else (backup >> new_token number))
      else scan_exponent

unfoldable pub scan_number : M Token
unfolding accept_rune accept accept_all scan_fraction
scan_number = do
  zero_first ← accept_rune b'0'
  if zero_first
      then scan_fraction
      else (accept is_non_zero_digit >> (accept_all is_digit >> scan_fraction))

-- Whether a name stops before the rune.
abbrev pub ends_name : Rune → Bool
ends_name none = true
ends_name (some c) =
    is_whitespace (some c) || is_some (lookup_symbol1 (some c)) || is_some (lookup_symbol2 (some c))

unfoldable pub chars_round : M (Unit {0}) → Rune → M (Unit {0})
unfolding backup lookup_symbol1 lookup_symbol2
chars_round loop none = pure tt
chars_round loop (some c) = if ends_name (some c) then backup else loop

unfoldable pub chars_loop : ℕ → M (Unit {0})
unfolding next_rune chars_round
chars_loop zero = λ l. none
chars_loop (suc fuel) = next_rune >>= chars_round (chars_loop fuel)

abbrev pub named : Bool → Token → Token
named true t = record t { type = variable }
named false t = elim (lookup_keyword t.value) [ none ↦ t | some tt' ↦ record t { type = tt' } ]

unfoldable pub scan_name : M Token
unfolding accept_rune ignore chars_loop new_token lookup_keyword
scan_name = do
  is_var ← accept_rune b'$'
  if is_var then ignore else pure tt
  (λ l. chars_loop (fuel_for l) l)
  t ← new_token name
  pure (named is_var t)
