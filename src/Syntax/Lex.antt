-- ===== src/Syntax/Lex.antt =====
-- internal/syntax/lexer.go: the state of the lexer, and its steps on runes.
-- The source and the position in it are the bytes before the position, the last first, and those
-- from it on. Loops run on fuel.
pub mod Numbers
pub mod Texts
pub mod Next
pub mod Moves
pub mod Placed
pub mod NumbersRun
pub mod TextsRun
pub mod PatternsRun
pub mod SymbolsRun
pub mod Total
use jsonata_go.Prelude.{
  ℕ, zero, suc, ◌+◌, ◌-◌, Bool, true, false, not, ◌&&◌, ◌||◌, List, [], ◌∷◌, ◌++◌, reverse, Option,
  none, some, Text, codes, leb, ltb, ◌==◌, if◌then◌else◌, length, take, drop,
}
use jsonata_go.Utf8.{decode_rune, rune_error}
use jsonata_go.Syntax.{TokenKind, Token, LiteralValue, Position, ErrorCode, ParseError}
use jsonata_go.Syntax.State.{Outcome, done, failed, out_of_fuel}

pub record Lexer : Type 0 where
  pub before : Text
  pub ahead : Text
  pub utf16 : ℕ
  pub line : ℕ
  pub column : ℕ

abbrev pub L : Type 0 → Type 0
L A = Lexer → Outcome (A × Lexer)

module _ {A B : Type 0} where
  infixl 5 ◌>>=◌ ◌>>◌
  unfoldable pub ◌>>=◌ : L A → (A → L B) → L B
  ◌>>=◌ first then_do l = elim (first l) [
    | done (a, moved) ↦ then_do a moved
    | failed e ↦ failed e
    | out_of_fuel ↦ out_of_fuel
  ]

  abbrev pub ◌>>◌ : L A → L B → L B
  first >> then_do = first >>= λ _. then_do

infix 3 when◌then◌else◌
-- A step that is chosen by a test.
unfoldable pub when◌then◌else◌ : {A : Type 0} → Bool → L A → L A → L A
when true then x else y = x
when false then x else y = y

abbrev pub pure : {A : Type 0} → A → L A
pure a l = done (a, l)

abbrev pub fail_with : {A : Type 0} → ParseError → L A
fail_with e l = failed e

-- The end of the fuel.
abbrev pub stop : {A : Type 0} → L A
stop l = out_of_fuel

abbrev pub position_of : Lexer → Position
position_of l = record {
  offset = l.utf16;
  byte = length l.before;
  line = l.line;
  column = l.column;
}

unfoldable pub pos : L Position
pos l = done (position_of l, l)

-- The rune in front. At the end it is U+FFFD.
unfoldable pub peek : L ℕ
unfolding decode_rune
peek l = done ((decode_rune l.ahead).0, l)

abbrev pub is_empty : Text → Bool
is_empty [] = true
is_empty (c ∷ cs) = false

unfoldable pub at_end : L Bool
at_end l = done (is_empty l.ahead, l)

-- The byte in front of which `n` stand, and 0, which no test asks for, behind the last.
abbrev nth_byte : ℕ → Text → ℕ
nth_byte n [] = 0
nth_byte zero (c ∷ cs) = c
nth_byte (suc n) (c ∷ cs) = nth_byte n cs

unfoldable pub byte_at : ℕ → L ℕ
byte_at n l = done (nth_byte n l.ahead, l)

-- The bytes in front of the position, the last first.
unfoldable pub bytes_before : L Text
bytes_before l = done (l.before, l)

unfoldable pub bytes_ahead : L Text
bytes_ahead l = done (l.ahead, l)

-- The bytes put one by one in front of those before.
abbrev pub onto : Text → Text → Text
onto [] before = before
onto (c ∷ cs) before = onto cs (c ∷ before)

-- The position behind a rune of `n` bytes.
abbrev pub passed : ℕ → ℕ → Lexer → Lexer
passed r n l = record {
  before = onto (take n l.ahead) l.before;
  ahead = drop n l.ahead;
  utf16 = if ltb 0xffff r then l.utf16 + 2 else l.utf16 + 1;
  line = if r == 10 then l.line + 1 else l.line;
  column = if r == 10 then 1 else l.column + 1;
}

unfoldable pub advance : L ℕ
unfolding decode_rune
advance l =
    if is_empty l.ahead
    then done (rune_error, l)
    else done ((decode_rune l.ahead).0, passed (decode_rune l.ahead).0 (decode_rune l.ahead).1 l)

-- `l.source[b:l.bytePos]`
unfoldable pub text_from : ℕ → L Text
text_from b l = done (reverse (take (length l.before - b) l.before), l)

abbrev pub lexer_error : ErrorCode → Text → Position → ParseError
lexer_error code token p = record { code = code; token = token; value = token; position = p.offset }

abbrev pub make_token : TokenKind → Text → Position → Token
make_token kind text position = record {
  kind = kind;
  text = text;
  position = position;
  value = LiteralValue.nothing;
}

unfoldable pub advance_while : (ℕ → Bool) → ℕ → L (Unit {0})
unfolding peek advance
advance_while holds zero = stop
advance_while holds (suc n) =
    peek >>= λ r. when holds r then advance >> advance_while holds n else pure tt

-- The fuel of a loop that takes a byte in each round.
unfoldable pub with_fuel : {A : Type 0} → (ℕ → L A) → L A
with_fuel loop l = loop (suc (length l.ahead)) l

abbrev pub skip_while : (ℕ → Bool) → L (Unit {0})
skip_while holds = with_fuel (advance_while holds)

-- The lexer at the start of a source.
abbrev pub lexer_on : Text → Lexer
lexer_on source = record { before = []; ahead = source; utf16 = 0; line = 1; column = 1 }
