-- ===== src/Syntax/Items.antt =====
-- internal/syntax/lexer.go: `array`, `object`, `binding`, `lambda` and the arguments of a call.
-- Each takes the parser of expressions as `expr`. `array` and `object` stand behind their open
-- bracket: the source steps back to it and takes it again.
use jsonata_go.Prelude.{ℕ, zero, suc, Bool, true, false, ◌&&◌, ◌||◌, [], ◌++◌, Text, codes, ◌=ᵗ◌}
use jsonata_go.Syntax.{
  TokenKind, Token, LiteralValue, Position, ErrorCode, Node, literal, array, object, binary_node,
  placeholder, lambda_node, Nodes, no_nodes, add_node, Pairs, no_pairs, add_pair, name_node, absent,
}
use jsonata_go.Syntax.State.{
  stop, P, ◌>>=◌, ◌>>◌, when◌then◌else◌, pure, is_kind, is_op, look_at, peek, take_token, fail,
  fail_with, expect, with_fuel,
}
use jsonata_go.Syntax.Tables.{variable_named}
use jsonata_go.Syntax.Signature.{read_signature, parameters_of}

-- The value of a string token, which is its text if the lexer set none.
abbrev pub string_value : Token → LiteralValue
string_value t = elim t.value [
  | LiteralValue.nothing ↦ LiteralValue.text t.text
  | LiteralValue.text w ↦ LiteralValue.text w
  | LiteralValue.units us ↦ LiteralValue.units us
  | LiteralValue.truth b ↦ LiteralValue.truth b
]

unfoldable pub array_loop : (ℕ → P Node) → Position → ℕ → Nodes → P Node
unfolding take_token ◌=ᵗ◌
array_loop expr position zero items = stop
array_loop expr position (suc n) items = expr 0 >>= λ item.
    let again = array_loop expr position n (add_node items item) in
    peek >>= λ t.
    when is_kind TokenKind.rbracket t
    then take_token >> pure (array (add_node items item) false position)
    else when is_kind TokenKind.comma t
    then take_token
      >> (peek >>= λ u. when is_kind TokenKind.rbracket u then fail ErrorCode.s0201 u else again)
    else when is_op (codes "!") t
    then fail ErrorCode.s0204 t
    else fail ErrorCode.s0202 t

unfoldable pub array_rest : (ℕ → P Node) → Token → P Node
unfolding array_loop take_token
array_rest expr first = peek >>= λ t.
    when is_kind TokenKind.rbracket t
    then take_token >> pure (array no_nodes false first.position)
    else with_fuel (λ n. array_loop expr first.position n no_nodes)

-- The key of a pair: a string in front of a colon, or an expression.
unfoldable pub object_key : (ℕ → P Node) → Token → P Node
unfolding take_token
object_key expr k = look_at 1 >>= λ after.
    when is_kind TokenKind.string k && is_kind TokenKind.colon after
    then take_token >> pure (literal TokenKind.string (string_value k) k.position)
    else expr 0

-- A key that is a name is kept as its text.
abbrev pub keyed : Pairs → Node → Node → Position → Pairs
keyed pairs (name_node name position) val at = add_pair pairs name absent val at
keyed pairs key val at = add_pair pairs [] key val at

unfoldable pub object_loop : (ℕ → P Node) → Position → ℕ → Pairs → P Node
unfolding take_token expect object_key
object_loop expr position zero pairs = stop
object_loop expr position (suc n) pairs = peek >>= λ k. object_key expr k >>= λ key.
    expect TokenKind.colon >>= λ _. expr 0 >>= λ val.
    let again = object_loop expr position n (keyed pairs key val k.position) in
    peek >>= λ t.
    when is_kind TokenKind.rbrace t
    then take_token >> pure (object (keyed pairs key val k.position) position)
    else when is_kind TokenKind.comma t
    then take_token
      >> (peek >>= λ u. when is_kind TokenKind.rbrace u then fail ErrorCode.s0201 u else again)
    else fail ErrorCode.s0202 t

unfoldable pub object_rest : (ℕ → P Node) → Token → P Node
unfolding object_loop take_token
object_rest expr first = peek >>= λ t.
    when is_kind TokenKind.rbrace t
    then take_token >> pure (object no_pairs first.position)
    else with_fuel (λ n. object_loop expr first.position n no_pairs)

-- An argument, and whether it is the placeholder "?".
unfoldable pub argument : (ℕ → P Node) → P (Node × Bool)
unfolding take_token ◌=ᵗ◌
argument expr = peek >>= λ t.
    when is_op (codes "?") t
    then (take_token >>= λ p. pure (placeholder p.position, true))
    else expr 0 >>= λ n. pure (n, false)

-- Behind an argument: a name, a string and a closing parenthesis have an error of their own.
abbrev pub arguments_end : Nodes → Bool → P (Nodes × Bool)
arguments_end arguments partial = peek >>= λ t. look_at 1 >>= λ t1. look_at 2 >>= λ t2.
    when is_kind TokenKind.identifier t
      && (is_kind TokenKind.string t1 && is_kind TokenKind.rparen t2)
    then fail_with (record {
      code = ErrorCode.s0202;
      token = t.text ++ codes "\"";
      value = t2.text;
      position = t2.position.offset;
    })
    else pure (arguments, partial)

unfoldable pub arguments_loop : (ℕ → P Node) → ℕ → Nodes → Bool → P (Nodes × Bool)
unfolding take_token argument
arguments_loop expr zero arguments partial = stop
arguments_loop expr (suc n) arguments partial = argument expr >>= λ (item, blank).
    let again = arguments_loop expr n (add_node arguments item) (partial || blank) in
    peek >>= λ t.
    when is_kind TokenKind.comma t
    then take_token >> again
    else arguments_end (add_node arguments item) (partial || blank)

unfoldable pub call_arguments : (ℕ → P Node) → P (Nodes × Bool)
unfolding arguments_loop
call_arguments expr = peek >>= λ t.
    when is_kind TokenKind.rparen t
    then pure (no_nodes, false)
    else with_fuel (λ n. arguments_loop expr n no_nodes false)

unfoldable pub binding : Node → Token → P Node
unfolding take_token
binding left operator = peek >>= λ dollar.
    when is_kind TokenKind.dollar dollar
    then take_token
      >> (take_token >>= λ name.
          when is_kind TokenKind.identifier name
          then pure (
              binary_node operator.text left (variable_named (codes "$" ++ name.text) name.position)
                operator.position)
          else fail ErrorCode.s0214 name)
    else fail ErrorCode.s0214 operator

-- The signature of a lambda, which is empty if there is none.
unfoldable pub optional_signature : P Text
unfolding read_signature ◌=ᵗ◌
optional_signature = peek >>= λ t. when is_op (codes "<") t then read_signature else pure []

unfoldable pub lambda : (ℕ → P Node) → Nodes → Position → P Node
unfolding parameters_of optional_signature expect
lambda expr arguments position = do
  params ← parameters_of 0 position arguments
  signature ← optional_signature
  expect TokenKind.lbrace
  body ← expr 0
  expect TokenKind.rbrace
  pure (lambda_node params signature body position)
