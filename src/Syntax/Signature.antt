-- ===== src/Syntax/Signature.antt =====
-- internal/syntax/lexer.go: `readSignature`, `validateSignature` and the parameters of a lambda.
use jsonata_go.Prelude.{
  ℕ, ◌+◌, ◌-◌, ◌/◌, ◌%◌, Bool, true, false, not, ◌&&◌, ◌||◌, List, [], ◌∷◌, ◌++◌, Option, none,
  some, Text, codes, ltb, ◌==◌, ◌=ᵗ◌, if◌then◌else◌, length, take, drop,
}
use jsonata_go.Decimal.{decimal}
use jsonata_go.GoStrings.{has_prefix}
use jsonata_go.Syntax.{
  TokenKind, Token, LiteralValue, Position, ErrorCode, ParseError, Variable, Node, literal,
  name_node, variable_node, Nodes, no_nodes, one_node,
}
use jsonata_go.Syntax.State.{
  Outcome, done, failed, P, ◌>>=◌, pure, is_kind, is_op, eof_token, error_at, fail_with, take_token,
}

-- The rest of `matchingSignatureDelimiter` behind an open bracket: the text up to its close.
unfoldable pub until_close : ℕ → ℕ → ℕ → Text → Option Text
until_close opened closing depth [] = none
until_close opened closing depth (c ∷ cs) =
    let depth' = if c == opened then depth + 1 else if c == closing then depth - 1 else depth in
    let rest = until_close opened closing depth' cs in
    if c == closing && depth' == 0
    then some []
    else elim rest [ none ↦ none | some inside ↦ some (c ∷ inside) ]

abbrev contains_byte : ℕ → Text → Bool
contains_byte b [] = false
contains_byte b (c ∷ cs) = c == b || contains_byte b cs

-- The byte in front of some blanks; what stands before is given the last byte first.
abbrev before_blanks : Text → Option ℕ
before_blanks [] = none
before_blanks (c ∷ cs) = if c == b' ' || c == 9 then before_blanks cs else some c

-- `string(b)` of a byte: the rune of that number, in UTF-8.
abbrev byte_text : Option ℕ → Text
byte_text none = []
byte_text (some b) = if ltb b 128 then b ∷ [] else (192 + b / 64) ∷ (128 + b % 64) ∷ []

abbrev takes_parameters : Option ℕ → Bool
takes_parameters none = false
takes_parameters (some b) = b == b'a' || b == b'f'

abbrev signature_error : ErrorCode → Text → ℕ → ParseError
signature_error code val position = record {
  code = code;
  token = [];
  value = val;
  position = position;
}

-- The loop of `validateSignature` at index `i`, with the bytes before it and from it on.
unfoldable pub validate_from : ℕ → ℕ → Text → Text → Option ParseError
unfolding until_close
validate_from offset i before [] = none
validate_from offset i before (c ∷ cs) =
    let rest = validate_from offset (i + 1) (c ∷ before) cs in
    if c == b'('
    then elim (until_close b'(' b')' 1 cs) [
      | none ↦ none
      | some choice ↦
          if contains_byte b'<' choice
          then some (signature_error ErrorCode.s0402 choice (offset + i + 1))
          else rest
    ]
    else if c == b'<' && not (i == 0) && not (takes_parameters (before_blanks before))
    then some (signature_error ErrorCode.s0401 (byte_text (before_blanks before)) (offset + i + 1))
    else rest

unfoldable pub validate_signature : Text → Position → Option ParseError
unfolding validate_from
validate_signature raw start = validate_from start.offset 0 [] raw

-- The loop of `readSignature`: the last token, with the tokens behind and ahead.
unfoldable pub read_tokens : ℕ → List Token → List Token → Outcome (Token × List Token × List Token)
unfolding ◌=ᵗ◌
read_tokens depth behind [] = failed (error_at ErrorCode.s0202 eof_token)
read_tokens depth behind (t ∷ ts) =
    let depth' =
      if is_op (codes "<") t then depth + 1 else if is_op (codes ">") t then depth - 1 else depth in
    let rest = read_tokens depth' (t ∷ behind) ts in
    if is_kind TokenKind.eof t
    then failed (error_at ErrorCode.s0202 t)
    else if depth' == 0
    then done (t, t ∷ behind, ts)
    else rest

-- The text from the one token to the other, if it is in the source and valid.
unfoldable pub signature_text : Token → Token → P Text
unfolding validate_signature
signature_text first last s =
    let start = first.position.byte in
    let end = last.position.byte + length last.text in
    let raw = take (end - start) (drop start s.source) in
    if ltb (length s.source) end || ltb end start
    then failed (error_at ErrorCode.s0202 last)
    else elim (validate_signature raw first.position) [ none ↦ done (raw, s) | some e ↦ failed e ]

unfoldable pub read_to_close : P Token
unfolding read_tokens
read_to_close s = elim (read_tokens 1 s.behind s.ahead) [
  | done (last, behind, ahead) ↦ done (last, record s { behind = behind; ahead = ahead })
  | failed e ↦ failed e
  | Outcome.out_of_fuel ↦ Outcome.out_of_fuel
]

unfoldable pub read_signature : P Text
unfolding take_token read_to_close signature_text
read_signature = do first ← take_token; last ← read_to_close; signature_text first last

-- `fmt.Sprint` of the value of a literal.
abbrev sprint_units : List ℕ → Text
sprint_units [] = []
sprint_units (u ∷ []) = decimal u
sprint_units (u ∷ us) = decimal u ++ (b' ' ∷ sprint_units us)

unfoldable pub sprint : LiteralValue → Text
unfolding decimal
sprint (LiteralValue.text t) = t
sprint (LiteralValue.units us) = codes "{[" ++ (sprint_units us ++ codes "]}")
sprint (LiteralValue.truth true) = codes "true"
sprint (LiteralValue.truth false) = codes "false"
sprint LiteralValue.nothing = codes "<nil>"

-- What the error on a parameter shows of it.
abbrev shown : Node → Position → Text × Position
shown (variable_node v) otherwise = (v.name, v.position)
shown (name_node name position) otherwise = (name, position)
shown (literal kind val position) otherwise = (sprint val, position)
shown _ otherwise = ([], otherwise)

abbrev parameter_error : Node → Position → ℕ → ParseError
parameter_error argument otherwise i =
    let (token, position) = shown argument otherwise in
    record {
      code = ErrorCode.s0208;
      token = token;
      value = decimal (i + 1);
      position = position.offset + 1;
    }

-- The variable that an argument is, if its name has more than the sign "$" or "$$".
abbrev parameter_of : Node → Option Variable
parameter_of (variable_node v) =
    if not (has_prefix (codes "$") v.name) || v.name =ᵗ codes "$" || v.name =ᵗ codes "$$"
    then none
    else some v
parameter_of _ = none

-- The loop over the arguments of `lambda`.
unfoldable pub parameters_of : ℕ → Position → Nodes → P (List Variable)
unfolding has_prefix ◌=ᵗ◌ sprint
parameters_of i position no_nodes = pure []
parameters_of i position (one_node argument rest) = elim (parameter_of argument) [
  | none ↦ fail_with (parameter_error argument position i)
  | some v ↦ (parameters_of (i + 1) position rest >>= λ vs. pure (v ∷ vs))
]
