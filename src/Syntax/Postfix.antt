-- ===== src/Syntax/Postfix.antt =====
-- internal/syntax/lexer.go: `postfixNode`, the calls, filters and bindings behind an expression.
use jsonata_go.Prelude.{ℕ, zero, suc, Bool, false, not, ◌&&◌, ◌||◌, [], ◌∷◌, codes, ◌=ᵗ◌}
use jsonata_go.Syntax.{
  TokenKind, Token, ErrorCode, Node, absent, name_node, unary_node, selector, call,
}
use jsonata_go.Syntax.State.{
  stop, P, ◌>>=◌, ◌>>◌, when◌then◌else◌, pure, is_kind, is_op, peek, take_token, fail, expect,
  with_fuel,
}
use jsonata_go.Syntax.Tables.{grouping_step, is_absent, is_literal}
use jsonata_go.Syntax.Items.{call_arguments, binding, lambda}

-- The words "function" and "λ", the second as its two bytes.
unfoldable pub names_function : Node → Bool
unfolding ◌=ᵗ◌
names_function (name_node name position) = name =ᵗ codes "function" || name =ᵗ (206 ∷ 187 ∷ [])
names_function _ = false

unfoldable pub postfix_call : (ℕ → P Node) → Node → Bool → Token → P Node
unfolding call_arguments expect names_function lambda
postfix_call expr n grouped first = do
  (arguments, partial) ← call_arguments expr
  expect TokenKind.rparen
  when names_function n
      then lambda expr arguments first.position
      else pure (call n arguments partial grouped first.position)

-- The index between the brackets, which may be missing.
unfoldable pub optional_index : (ℕ → P Node) → P Node
optional_index expr = peek >>= λ t. when is_kind TokenKind.rbracket t then pure absent else expr 0

unfoldable pub postfix_selector : (ℕ → P Node) → Node → Token → P Node
unfolding optional_index expect grouping_step
postfix_selector expr n first = do
  index ← optional_index expr
  expect TokenKind.rbracket
  when grouping_step n && not (is_absent index)
      then fail ErrorCode.s0209 first
      else pure (selector n index first.position)

abbrev pub is_sort : Node → Bool
is_sort (unary_node op operand position) = op =ᵗ codes "<" || op =ᵗ codes ">"
is_sort _ = false

-- A filter whose index is a literal.
abbrev pub indexes_by_literal : Node → Bool
indexes_by_literal (selector base index position) = is_literal index
indexes_by_literal _ = false

unfoldable pub postfix_binding : Node → Token → P Node
unfolding binding ◌=ᵗ◌
postfix_binding n t =
    when t.text =ᵗ codes "@" && is_sort n
    then fail ErrorCode.s0216 t
    else when indexes_by_literal n
    then fail ErrorCode.s0215 t
    else binding n t

unfoldable pub postfix_loop : (ℕ → P Node) → ℕ → Node → Bool → P Node
unfolding take_token postfix_call postfix_selector postfix_binding ◌=ᵗ◌
postfix_loop expr zero n grouped = stop
postfix_loop expr (suc m) n grouped =
    let again : Node → P Node = λ n'. postfix_loop expr m n' false in
    peek >>= λ t.
    when is_kind TokenKind.lparen t
    then take_token >> (postfix_call expr n grouped t >>= again)
    else when is_kind TokenKind.lbracket t
    then take_token >> (postfix_selector expr n t >>= again)
    else when is_op (codes "@") t || is_op (codes "#") t
    then take_token >> (postfix_binding n t >>= again)
    else pure n

unfoldable pub postfix_node : (ℕ → P Node) → Bool → Node → P Node
unfolding postfix_loop
postfix_node expr grouped n = with_fuel (λ m. postfix_loop expr m n grouped)

-- `p.postfix(n)`
abbrev pub postfix : (ℕ → P Node) → Node → P Node
postfix expr n = postfix_node expr false n
