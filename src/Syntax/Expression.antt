-- ===== src/Syntax/Expression.antt =====
-- internal/syntax/lexer.go: `expression`, the operators behind an expression, and `Parse`.
pub mod TokensAdvance
pub mod ItemsAdvance
pub mod Parts
pub mod Starts
pub mod Total
pub mod Depth
use jsonata_go.Prelude.{
  ℕ, zero, suc, ◌+◌, ◌-◌, Bool, true, false, not, ◌&&◌, ◌||◌, List, [], ◌∷◌, ◌++◌, Option, none,
  some, Text, codes, ◌==◌, ◌=ᵗ◌, ltb, leb, if◌then◌else◌,
}
use jsonata_go.Syntax.{
  TokenKind, Token, LiteralValue, Position, ErrorCode, ParseError, Variable, Node, literal,
  name_node, variable_node, binary_node, bind_node, apply_node, selector,
}
use jsonata_go.Syntax.State.{
  Parser, Outcome, done, failed, out_of_fuel, P, ◌>>=◌, ◌>>◌, when◌then◌else◌, pure, is_kind, is_op,
  nth_token, look_at, peek, take_token, error_at, fail, fail_with, fail_here, with_fuel,
  parents_ahead, stop,
}
use jsonata_go.Syntax.Tables.{precedence, assignable, grouping_step}
use jsonata_go.Syntax.Signature.{sprint}
use jsonata_go.Syntax.Items.{object_rest, binding}
use jsonata_go.Syntax.Postfix.{postfix_node, postfix, indexes_by_literal}
use jsonata_go.Syntax.Prefix.{prefix}

-- Behind a question: the two values with a colon between them, or one.
unfoldable pub conditional : (ℕ → P Node) → Node → Token → P Node
unfolding take_token
conditional expr left t = expr 0 >>= λ met. peek >>= λ colon.
    when is_kind TokenKind.colon colon
    then take_token
      >> (expr 2 >>= λ unmet.
          pure (
            binary_node (codes "?") left (binary_node (codes ":") met unmet t.position) t.position))
    else pure (binary_node (codes "?") left met t.position)

unfoldable pub grouping : (ℕ → P Node) → Node → Token → P Node
unfolding take_token grouping_step object_rest postfix_node
grouping expr left t =
    when grouping_step left
    then fail ErrorCode.s0210 t
    else (take_token >>= λ first. object_rest expr first >>= λ right.
        postfix expr (binary_node (codes ".") left right t.position))

-- The step behind ".": no number, unless a name follows it, and neither two "%" nor more.
unfoldable pub path_step : (ℕ → P Node) → Node → Token → P Node
unfolding parents_ahead ◌=ᵗ◌
path_step expr left t = peek >>= λ u. look_at 1 >>= λ u1. parents_ahead >>= λ count.
    when is_kind TokenKind.number u && not (is_kind TokenKind.identifier u1)
    then fail ErrorCode.s0213 u
    else when count == 2
    then fail ErrorCode.s0207 u1
    else when ltb 2 count
    then fail ErrorCode.s0217 u
    else (expr 15 >>= λ right. pure (binary_node (codes ".") left right t.position))

abbrev pub is_sorted : Node → Bool
is_sorted (binary_node op left right position) = op =ᵗ codes "^"
is_sorted _ = false

unfoldable pub infix_binding : Node → Token → P Node
unfolding binding ◌=ᵗ◌
infix_binding left t =
    when t.text =ᵗ codes "@" && is_sorted left
    then fail ErrorCode.s0216 t
    else when t.text =ᵗ codes "@" && indexes_by_literal left
    then fail ErrorCode.s0215 t
    else binding left t

-- `p.assignmentError(left)`, with the next token.
abbrev pub assignment_place : Node → Option (Text × Position)
assignment_place (variable_node v) = some (v.name, v.position)
assignment_place (name_node name position) = some (name, position)
assignment_place (literal kind val position) = some (sprint val, position)
assignment_place (selector base index position) = some (codes "[", position)
assignment_place (binary_node op left right position) = some (op, position)
assignment_place _ = none

unfoldable pub assignment_error : Node → Token → ParseError
unfolding sprint
assignment_error n next = elim (assignment_place n) [
  | none ↦ error_at ErrorCode.s0212 next
  | some (token, position) ↦ record {
    code = ErrorCode.s0212;
    token = token;
    value = [];
    position = position.offset + 1;
  }
]

abbrev pub bound_by : Node → Node → Position → Node
bound_by (variable_node v) right position = bind_node v right position
bound_by left right position = left

-- The expression that operator `t` makes of its two sides.
unfoldable pub operation : Node → Token → Node → P Node
unfolding assignable assignment_error ◌=ᵗ◌
operation left t right =
    when t.text =ᵗ codes ":="
    then (when assignable left
        then pure (bound_by left right t.position)
        else peek >>= λ next. fail_with (assignment_error left next))
    else when t.text =ᵗ codes "~>"
    then pure (apply_node left right t.position)
    else pure (binary_node t.text left right t.position)

-- The least binding power on the right of an operator.
unfoldable pub right_min : Text → ℕ → Bool → ℕ
unfolding ◌=ᵗ◌
right_min op prec assoc = if op =ᵗ codes "^" then 14 else if assoc then prec else prec + 1

-- One operator of the table and its right side.
unfoldable pub operator_step : (ℕ → P Node) → Node → Token → ℕ → Bool → P Node
unfolding take_token right_min operation
operator_step expr left t prec assoc =
    take_token >> (expr (right_min t.text prec assoc) >>= operation left t)

-- The loop of `expression`.
unfoldable pub infix_loop : (ℕ → P Node) → ℕ → ℕ → Node → P Node
unfolding take_token conditional grouping path_step infix_binding precedence operator_step ◌=ᵗ◌
infix_loop expr zero min left = stop
infix_loop expr (suc n) min left =
    let again = infix_loop expr n min in
    peek >>= λ t. look_at 1 >>= λ after.
    when is_op (codes "?") t
    then (when ltb 2 min then pure left else take_token >> (conditional expr left t >>= again))
    else when is_kind TokenKind.lbrace t
    then (grouping expr left t >>= again)
    else when not (is_kind TokenKind.operator t)
    then pure left
    else when t.text =ᵗ codes "."
    then (when leb 14 min then pure left else take_token >> (path_step expr left t >>= again))
    else when t.text =ᵗ codes "@" || t.text =ᵗ codes "#"
    then (infix_binding left t >>= again)
    else (elim (precedence t.text) [
      | none ↦ pure left
      | some (prec, assoc) ↦
          when ltb prec min
          then pure left
          else when t.text =ᵗ codes ";" && is_kind TokenKind.rparen after
          then pure left
          else when t.text =ᵗ codes ";" && is_kind TokenKind.eof after
          then fail ErrorCode.s0201 t
          else (operator_step expr left t prec assoc >>= again)
    ])

-- The depth that `expression` may reach.
abbrev pub max_depth : ℕ
max_depth = 512

abbrev pub left_again : {A : Type 0} → A × Parser → Outcome (A × Parser)
left_again (a, s) = done (a, record s { depth = s.depth - 1 })

-- One level deeper, and back.
abbrev pub deeper : {A : Type 0} → P A → P A
deeper m s = elim (m (record s { depth = s.depth + 1 })) [
  | done r ↦ left_again r
  | failed e ↦ failed e
  | out_of_fuel ↦ out_of_fuel
]

unfoldable pub nested : {A : Type 0} → P A → P A
nested m s = if ltb max_depth (s.depth + 1) then fail_here ErrorCode.s1001 s else deeper m s

-- One level of `expression`, with the levels below it as `expr`.
unfoldable pub level : (ℕ → P Node) → ℕ → P Node
level expr min = nested (prefix expr >>= λ left. with_fuel (λ m. infix_loop expr m min left))

unfoldable pub expression : ℕ → ℕ → P Node
expression zero min = stop
expression (suc n) min = level (expression n) min

-- The depth bounds the fuel that `expression` needs.
abbrev pub full_fuel : ℕ
full_fuel = 513

-- The parser on a source and its tokens.
abbrev pub parser_on : Text → List Token → Parser
parser_on source tokens = record { behind = []; ahead = tokens; depth = 0; source = source }

-- An expression with nothing behind it.
unfoldable pub whole : P Node
whole = expression full_fuel 0 >>= λ n.
    peek >>= λ t. when is_kind TokenKind.eof t then pure n else fail ErrorCode.s0201 t
