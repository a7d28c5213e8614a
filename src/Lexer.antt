-- ===== src/Lexer.antt =====
-- jparse/lexer.go: the lexer of the compatibility parser.
-- The input is a string of bytes. A method of the lexer is an action on its record; `none` is a Go
-- panic: a slice whose bounds are out of range. `backup` may make `current` negative in Go, where the
-- next slice of the input panics; the model panics at `backup`. A loop without a token's end runs on
-- fuel, and running out of it is `none` too. The field `length` of the Go struct is the length of `input`.
pub mod Symbols
pub mod Strings
pub mod Words
pub mod Next
pub mod Moves
pub mod Scanners
pub mod Tokens
pub mod Literals
pub mod Numbers
pub mod Total
pub mod Panics
use jsonata_go.Prelude.{
  is_some, ℕ, zero, suc, ◌+◌, ◌-◌, Bool, true, false, not, ◌&&◌, ◌||◌, List, [], ◌∷◌, ◌++◌, Option,
  none, some, Text, codes, ltb, leb, ◌==◌, ◌=ᵗ◌, if◌then◌else◌, length, take, drop,
}
use jsonata_go.Utf8.{decode_rune}

pub data TokenType : Type 0 where
  eof error string number boolean null name name_esc variable regex : TokenType
  bracket_open bracket_close brace_open brace_close paren_open paren_close : TokenType
  dot comma colon semicolon condition plus minus mult div mod_op pipe : TokenType
  equal not_equal less less_equal greater greater_equal : TokenType
  apply sort concat range assign descendent : TokenType
  and_op or_op in_op : TokenType

pub data ErrType : Type 0 where
  unterminated_string unterminated_regex unterminated_name : ErrType

pub record Token : Type 0 where
  pub type : TokenType
  pub value : Text
  pub position : ℕ

pub record LexError : Type 0 where
  pub type : ErrType
  pub token : Text
  pub hint : Text
  pub position : ℕ

pub record Lexer : Type 0 where
  pub input : Text
  pub start : ℕ
  pub current : ℕ
  pub width : ℕ
  pub failure : Option LexError

abbrev pub M : Type 0 → Type 0
M A = Lexer → Option (A × Lexer)

module _ {A B : Type 0} where
  -- A panic ends a chain of actions.
  infixl 5 ◌>>=◌ ◌>>◌
  abbrev pub ◌>>=◌ : M A → (A → M B) → M B
  ◌>>=◌ action then_do l = elim (action l) [ none ↦ none | some (a, moved) ↦ then_do a moved ]

  abbrev pub ◌>>◌ : M A → M B → M B
  action >> then_do = action >>= λ _. then_do

abbrev pub pure : {A : Type 0} → A → M A
pure a l = some (a, l)

abbrev pub new_lexer : Text → Lexer
new_lexer input = record { input = input; start = 0; current = 0; width = 0; failure = none }

-- A rune, or `none` for the constant `eof`.
abbrev pub Rune : Type 0
Rune = Option ℕ

unfoldable pub next_rune : M Rune
next_rune l =
    let (r, w) = decode_rune (drop l.current l.input) in
    if is_some l.failure || leb (length l.input) l.current
    then some (none, record l { width = 0 })
    else some (some r, record l { width = w; current = l.current + w })

unfoldable pub backup : M (Unit {0})
backup l =
    if ltb l.current l.width then none else some (tt, record l { current = l.current - l.width })

unfoldable pub ignore : M (Unit {0})
ignore l = some (tt, record l { start = l.current })

unfoldable pub accept : (Rune → Bool) → M Bool
unfolding next_rune backup
accept is_valid = do r ← next_rune; if is_valid r then pure true else (backup >> pure false)

abbrev pub is_rune : ℕ → Rune → Bool
is_rune r none = false
is_rune r (some c) = c == r

unfoldable pub accept_rune : ℕ → M Bool
unfolding accept
accept_rune r = accept (is_rune r)

unfoldable pub accept_runes2 : ℕ → ℕ → M Bool
unfolding accept
accept_runes2 r1 r2 = accept (λ c. is_rune r1 c || is_rune r2 c)

-- The loop of `acceptAll`, whether or not it took anything before.
unfoldable pub accept_loop : ℕ → (Rune → Bool) → Bool → M Bool
unfolding accept
accept_loop zero is_valid taken l = none
accept_loop (suc fuel) is_valid taken l = elim (accept is_valid l) [
  | none ↦ none
  | some (true, l') ↦ accept_loop fuel is_valid true l'
  | some (false, l') ↦ some (taken, l')
]

-- A round takes a byte at least.
abbrev pub fuel_for : Lexer → ℕ
fuel_for l = suc (length l.input)

unfoldable pub accept_all : (Rune → Bool) → M Bool
unfolding accept_loop
accept_all is_valid l = accept_loop (fuel_for l) is_valid false l

abbrev pub is_whitespace : Rune → Bool
is_whitespace none = false
is_whitespace (some c) = c == b' ' || c == 9 || c == 10 || c == 13 || c == 11

abbrev pub is_regex_flag : Rune → Bool
is_regex_flag none = false
is_regex_flag (some c) = c == b'i' || c == b'm' || c == b's'

abbrev pub is_digit : Rune → Bool
is_digit none = false
is_digit (some c) = leb b'0' c && leb c b'9'

abbrev pub is_non_zero_digit : Rune → Bool
is_non_zero_digit none = false
is_non_zero_digit (some c) = leb b'1' c && leb c b'9'

unfoldable pub skip_whitespace : M (Unit {0})
unfolding accept_all ignore
skip_whitespace = accept_all is_whitespace >> ignore

unfoldable pub new_token : TokenType → M Token
new_token tt' l =
    let value = take (l.current - l.start) (drop l.start l.input) in
    if ltb l.current l.start
    then none
    else some (
      record { type = tt'; value = value; position = l.start },
      record l { width = 0; start = l.current },
    )

unfoldable pub fail : ErrType → Text → M Token
unfolding new_token
fail typ hint = do
  t ← new_token error
  (λ l. some (
    t,
    record l {
      failure = some (record { type = typ; token = t.value; hint = hint; position = t.position });
    },
  ))

unfoldable pub eof_token : M Token
eof_token l = some (record { type = eof; value = []; position = l.current }, l)
