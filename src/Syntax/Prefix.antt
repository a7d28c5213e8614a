-- ===== src/Syntax/Prefix.antt =====
-- internal/syntax/lexer.go: `prefix` and `transform`, what an expression may start with.
-- Each takes the parser of expressions as `expr`.
use jsonata_go.Prelude.{
  ℕ, zero, suc, Bool, true, false, ◌&&◌, ◌||◌, List, [], ◌∷◌, ◌++◌, Text, codes, ◌==◌, ◌=ᵗ◌,
}
use jsonata_go.Syntax.{
  TokenKind, Token, LiteralValue, Position, ErrorCode, Node, absent, literal, name_node, array,
  block_node, binary_node, bind_node, unary_node, wildcard_node, parent_node, transform_node, Nodes,
  no_nodes, one_node, add_node,
}
use jsonata_go.Syntax.State.{
  stop, P, ◌>>=◌, ◌>>◌, when◌then◌else◌, pure, is_kind, is_op, look_at, peek, take_token, fail,
  expect, with_fuel, parents_ahead, tokens_behind,
}
use jsonata_go.Syntax.Tables.{variable_named, binds_path_variable}
use jsonata_go.Syntax.Items.{string_value, array_rest, object_rest}
use jsonata_go.Syntax.Postfix.{postfix_node, postfix}

-- The check of the operator "|" and the step over it.
unfoldable pub take_bar : P Token
unfolding take_token ◌=ᵗ◌
take_bar = peek >>= λ t. when is_op (codes "|") t then take_token else fail ErrorCode.s0202 t

unfoldable pub optional_delete : (ℕ → P Node) → P Node
unfolding take_token
optional_delete expr =
    peek >>= λ t. when is_kind TokenKind.comma t then take_token >> expr 0 else pure absent

unfoldable pub transform : (ℕ → P Node) → Token → P Node
unfolding take_bar optional_delete postfix_node
transform expr first = do
  path ← expr 0
  take_bar
  update ← expr 0
  delete ← optional_delete expr
  take_bar
  postfix expr (transform_node path update delete first.position)

unfoldable pub comma_loop : (ℕ → P Node) → ℕ → Nodes → P Nodes
unfolding take_token
comma_loop expr zero items = stop
comma_loop expr (suc n) items = peek >>= λ t.
    when is_kind TokenKind.comma t
    then take_token >> (expr 0 >>= λ item. comma_loop expr n (add_node items item))
    else pure items

unfoldable pub semicolon_loop : (ℕ → P Node) → ℕ → Nodes → P Nodes
unfolding take_token
semicolon_loop expr zero items = stop
semicolon_loop expr (suc n) items = peek >>= λ t.
    when is_kind TokenKind.semicolon t
    then take_token
      >> (peek >>= λ u.
          when is_kind TokenKind.rparen u
          then pure items
          else (expr 0 >>= λ item. semicolon_loop expr n (add_node items item)))
    else pure items

abbrev pub is_bind : Node → Bool
is_bind (bind_node variable bound position) = true
is_bind _ = false

-- An array in parentheses is flattened in a path.
abbrev pub flattened : Node → Node
flattened (array items flatten position) = array items true position
flattened n = n

-- What follows the first expression in parentheses: more items of an array or a block, or nothing.
unfoldable pub group_of : (ℕ → P Node) → Position → Node → P Node
unfolding comma_loop semicolon_loop binds_path_variable
group_of expr position n = peek >>= λ t.
    when is_kind TokenKind.comma t
    then (with_fuel (λ m. comma_loop expr m (one_node n no_nodes)) >>= λ items.
        pure (array items false position))
    else when is_kind TokenKind.semicolon t
    then (with_fuel (λ m. semicolon_loop expr m (one_node n no_nodes)) >>= λ items.
        pure (block_node items position))
    else when is_bind n || binds_path_variable n
    then pure (block_node (one_node n no_nodes) position)
    else pure n

abbrev pub parent_of : Node → Position → Node
parent_of absent position = parent_node position
parent_of n position = binary_node (codes "%") n (parent_node position) position

-- `count` operators "%", each the parent of what those before it stand for.
unfoldable pub take_parents : ℕ → Node → P Node
unfolding take_token
take_parents zero n = pure n
take_parents (suc count) n = take_token >>= λ part. take_parents count (parent_of n part.position)

unfoldable pub group_rest : (ℕ → P Node) → Token → P Node
unfolding group_of expect postfix_node
group_rest expr first = do
  n ← expr 0
  group ← group_of expr first.position n
  expect TokenKind.rparen
  postfix_node expr true (flattened group)

-- A run of "%" alone in parentheses.
unfoldable pub parents_group : (ℕ → P Node) → ℕ → P Node
unfolding take_parents take_token postfix_node
parents_group expr count =
    when count == 2
    then look_at 1 >>= fail ErrorCode.s0211
    else (take_parents count absent >>= λ n. take_token >> postfix expr n)

unfoldable pub prefix_group : (ℕ → P Node) → Token → P Node
unfolding take_token postfix_node group_rest parents_group parents_ahead ◌=ᵗ◌
prefix_group expr first = peek >>= λ t. parents_ahead >>= λ count. look_at count >>= λ behind.
    when is_kind TokenKind.rparen t
    then take_token >> postfix expr (block_node no_nodes first.position)
    else when is_op (codes "%") t && is_kind TokenKind.rparen behind
    then parents_group expr count
    else group_rest expr first

unfoldable pub prefix_dollar : (ℕ → P Node) → Token → P Node
unfolding take_token postfix_node
prefix_dollar expr first = peek >>= λ t.
    when is_kind TokenKind.identifier t
    then take_token >> postfix expr (variable_named (codes "$" ++ t.text) first.position)
    else postfix expr (variable_named (codes "$") first.position)

-- The text of the token before the one just taken is "=".
abbrev pub behind_equals : List Token → Bool
behind_equals (taken ∷ before ∷ rest) = before.text =ᵗ codes "="
behind_equals _ = false

abbrev pub is_one_of : Text → List Text → Bool
is_one_of t [] = false
is_one_of t (w ∷ ws) = t =ᵗ w || is_one_of t ws

unfoldable pub prefix_operator : (ℕ → P Node) → Token → P Node
unfolding postfix_node transform ◌=ᵗ◌
prefix_operator expr t = tokens_behind >>= λ behind.
    when is_one_of t.text (codes "and" ∷ codes "or" ∷ codes "in" ∷ codes "#" ∷ [])
    then postfix expr (name_node t.text t.position)
    else when t.text =ᵗ codes "!"
    then fail ErrorCode.s0204 t
    else when t.text =ᵗ codes "@"
        || t.text =ᵗ codes ":"
        || (t.text =ᵗ codes ">" && behind_equals behind)
        || t.text =ᵗ codes "?"
    then fail ErrorCode.s0211 t
    else when is_one_of t.text (codes "-" ∷ codes "+" ∷ codes "not" ∷ codes "<" ∷ codes ">" ∷ [])
    then (expr 13 >>= λ n. postfix expr (unary_node t.text n t.position))
    else when t.text =ᵗ codes "*"
    then postfix expr (wildcard_node false t.position)
    else when t.text =ᵗ codes "**"
    then postfix expr (wildcard_node true t.position)
    else when t.text =ᵗ codes "|"
    then transform expr t
    else when t.text =ᵗ codes "%"
    then postfix expr (parent_node t.position)
    else fail ErrorCode.s0201 t

-- The branches of `prefix` on the token that it has taken.
unfoldable pub prefix_of : (ℕ → P Node) → Token → TokenKind → P Node
unfolding postfix_node prefix_dollar prefix_group array_rest object_rest prefix_operator ◌=ᵗ◌
prefix_of expr t TokenKind.eof = fail ErrorCode.s0207 t
prefix_of expr t TokenKind.string =
    postfix expr (literal TokenKind.string (string_value t) t.position)
prefix_of expr t TokenKind.number =
    postfix expr (literal TokenKind.number (LiteralValue.text t.text) t.position)
prefix_of expr t TokenKind.regex =
    postfix expr (literal TokenKind.regex (LiteralValue.text t.text) t.position)
prefix_of expr t TokenKind.true_word =
    postfix expr (literal TokenKind.true_word (LiteralValue.truth true) t.position)
prefix_of expr t TokenKind.false_word =
    postfix expr (literal TokenKind.false_word (LiteralValue.truth false) t.position)
prefix_of expr t TokenKind.null_word =
    postfix expr (literal TokenKind.null_word LiteralValue.nothing t.position)
prefix_of expr t TokenKind.identifier =
    when t.text =ᵗ codes "$$"
    then postfix expr (variable_named t.text t.position)
    else postfix expr (name_node t.text t.position)
prefix_of expr t TokenKind.dollar = prefix_dollar expr t
prefix_of expr t TokenKind.lparen = prefix_group expr t
prefix_of expr t TokenKind.lbracket = array_rest expr t >>= postfix expr
prefix_of expr t TokenKind.lbrace = object_rest expr t >>= postfix expr
prefix_of expr t TokenKind.operator = prefix_operator expr t
prefix_of expr t TokenKind.colon = fail ErrorCode.s0211 t
prefix_of expr t _ = fail ErrorCode.s0201 t

unfoldable pub prefix : (ℕ → P Node) → P Node
unfolding take_token prefix_of
prefix expr = take_token >>= λ t. prefix_of expr t t.kind
