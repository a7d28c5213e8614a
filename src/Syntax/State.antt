-- ===== src/Syntax/State.antt =====
-- internal/syntax/lexer.go: the state of the parser, and its steps on tokens.
-- The slice of tokens and the index into it are the tokens behind the index, the last first, and
-- those from it on. The field `allowParentOperator`, which is set and never read, is left out.
use jsonata_go.Prelude.{
  ℕ, zero, suc, ◌+◌, Bool, true, false, ◌&&◌, List, [], ◌∷◌, Text, codes, ◌==◌, ◌=ᵗ◌, if◌then◌else◌,
  length,
}
use jsonata_go.Syntax.{TokenKind, Token, LiteralValue, no_position, ErrorCode, ParseError}

pub record Parser : Type 0 where
  pub behind : List Token
  pub ahead : List Token
  pub depth : ℕ
  pub source : Text

-- What a parse comes to. The end of the fuel has no ParseError.
pub data Outcome {ℓ} (A : Type ℓ) : Type ℓ where
  done : A → Outcome A
  failed : ParseError → Outcome A
  out_of_fuel : Outcome A

abbrev pub P : Type 0 → Type 0
P A = Parser → Outcome (A × Parser)

module _ {A B : Type 0} where
  infixl 5 ◌>>=◌ ◌>>◌
  unfoldable pub ◌>>=◌ : P A → (A → P B) → P B
  ◌>>=◌ first then_do s = elim (first s) [
    | done (a, moved) ↦ then_do a moved
    | failed e ↦ failed e
    | out_of_fuel ↦ out_of_fuel
  ]

  abbrev pub ◌>>◌ : P A → P B → P B
  first >> then_do = first >>= λ _. then_do

infix 3 when◌then◌else◌
-- A step that is chosen by a test.
unfoldable pub when◌then◌else◌ : {A : Type 0} → Bool → P A → P A → P A
when true then x else y = x
when false then x else y = y

abbrev pub pure : {A : Type 0} → A → P A
pure a s = done (a, s)

abbrev pub kind_number : TokenKind → ℕ
kind_number TokenKind.eof = 0
kind_number TokenKind.identifier = 1
kind_number TokenKind.string = 2
kind_number TokenKind.number = 3
kind_number TokenKind.regex = 4
kind_number TokenKind.true_word = 5
kind_number TokenKind.false_word = 6
kind_number TokenKind.null_word = 7
kind_number TokenKind.operator = 8
kind_number TokenKind.lbracket = 9
kind_number TokenKind.rbracket = 10
kind_number TokenKind.lbrace = 11
kind_number TokenKind.rbrace = 12
kind_number TokenKind.lparen = 13
kind_number TokenKind.rparen = 14
kind_number TokenKind.comma = 15
kind_number TokenKind.colon = 16
kind_number TokenKind.semicolon = 17
kind_number TokenKind.dollar = 18

abbrev pub is_kind : TokenKind → Token → Bool
is_kind k t = kind_number t.kind == kind_number k

-- `t.Kind == Operator && t.Text == op`
abbrev pub is_op : Text → Token → Bool
is_op op t = is_kind TokenKind.operator t && t.text =ᵗ op

-- `Token{Kind: EOF}`
abbrev pub eof_token : Token
eof_token = record {
  kind = TokenKind.eof;
  text = [];
  position = no_position;
  value = LiteralValue.nothing;
}

abbrev pub nth_token : ℕ → List Token → Token
nth_token n [] = eof_token
nth_token zero (t ∷ ts) = t
nth_token (suc n) (t ∷ ts) = nth_token n ts

-- `p.tokens[p.index+n]`, and the end behind the last.
unfoldable pub look_at : ℕ → P Token
look_at n s = done (nth_token n s.ahead, s)

abbrev pub peek : P Token
peek = look_at 0

abbrev pub take_from : List Token → P Token
take_from [] s = done (eof_token, s)
take_from (t ∷ ts) s = done (t, record s { behind = t ∷ s.behind; ahead = ts })

unfoldable pub take_token : P Token
take_token s = take_from s.ahead s

abbrev pub is_end_error : ErrorCode → TokenKind → Bool
is_end_error ErrorCode.s0207 TokenKind.eof = true
is_end_error _ _ = false

-- `p.error(code, t, msg)`
abbrev pub error_at : ErrorCode → Token → ParseError
error_at code t =
    if is_end_error code t.kind
    then (record {
      code = code;
      token = codes "(end)";
      value = codes "(end)";
      position = t.position.offset;
    })
    else (record { code = code; token = t.text; value = t.text; position = t.position.offset + 1 })

abbrev pub fail_with : {A : Type 0} → ParseError → P A
fail_with e s = failed e

abbrev pub fail : {A : Type 0} → ErrorCode → Token → P A
fail code t = fail_with (error_at code t)

-- The end of the fuel.
abbrev pub stop : {A : Type 0} → P A
stop s = out_of_fuel

-- `p.error(code, p.peek(), msg)`
abbrev pub fail_here : {A : Type 0} → ErrorCode → P A
fail_here code = peek >>= fail code

unfoldable pub expect : TokenKind → P Token
unfolding take_token
expect k = peek >>= λ t.
    when is_kind k t
    then take_token
    else when is_kind TokenKind.eof t
    then fail ErrorCode.s0203 t
    else fail ErrorCode.s0202 t

-- The fuel of a loop that takes a token in each round.
unfoldable pub with_fuel : {A : Type 0} → (ℕ → P A) → P A
with_fuel loop s = loop (suc (length s.ahead)) s

-- The number of tokens `%` in front.
unfoldable pub count_parents : List Token → ℕ
unfolding ◌=ᵗ◌
count_parents [] = 0
count_parents (t ∷ ts) = if is_op (codes "%") t then suc (count_parents ts) else 0

unfoldable pub parents_ahead : P ℕ
unfolding count_parents
parents_ahead s = done (count_parents s.ahead, s)

abbrev pub tokens_behind : P (List Token)
tokens_behind s = done (s.behind, s)
