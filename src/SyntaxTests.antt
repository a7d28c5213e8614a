-- ===== src/SyntaxTests.antt =====
-- internal/syntax/lexer.go: the parser on small inputs.
use jsonata_go.Prelude.{
  ◌≡◌, ◌≢◌, ◌<◌, refl, true, ◌=ᵗ◌, arith, replicate, List, [], ◌∷◌, Text, codes,
}
use jsonata_go.Syntax.{TokenKind, Token, LiteralValue, no_position, Node, name_node, binary_node}
use jsonata_go.Syntax.State.{
  Parser, Outcome, done, failed, ◌>>=◌, look_at, when◌then◌else◌, with_fuel, take_token,
}
use jsonata_go.Syntax.Expression.{
  parser_on, whole, expression, level, nested, infix_loop, operator_step, operation, right_min,
}
use jsonata_go.Syntax.Prefix.{prefix, prefix_of}
use jsonata_go.Syntax.Postfix.{postfix_loop, postfix_node}
use jsonata_go.Syntax.Tables.{precedence}
use jsonata_go.Syntax.Within.{Advances}
use jsonata_go.Syntax.Expression.Total.{expression-Advances}
use jsonata_go.Syntax.Expression.Depth.{group_token, opened, too_deep, whole-opened}
use jsonata_go.Precedence.{BinaryOp, Expr, name_expr, op_expr, tree, written, names_only, levels}
use jsonata_go.Precedence.Steps.{at}
use jsonata_go.Precedence.RoundTrip.{end_token, whole-written}
use jsonata_go.Parsing.{Parsed, parsed, exhausted, parse_tokens, parse_tokens-total}

abbrev word : TokenKind → Text → Token
word kind text = record {
  kind = kind;
  text = text;
  position = no_position;
  value = LiteralValue.nothing;
}

abbrev sum_tokens : List Token
sum_tokens =
    word TokenKind.identifier (codes "a")
    ∷ word TokenKind.operator (codes "+")
    ∷ word TokenKind.identifier (codes "b")
    ∷ word TokenKind.operator (codes "*")
    ∷ word TokenKind.identifier (codes "c")
    ∷ word TokenKind.eof []
    ∷ []

abbrev tree_of : Outcome (Node × Parser) → Parsed
tree_of (done (n, s)) = parsed n
tree_of (failed e) = Parsed.refused e
tree_of Outcome.out_of_fuel = Parsed.exhausted

-- `(a + b) * c`, with a right operand that is a path.
abbrev sum : Expr
sum =
    op_expr BinaryOp.times no_position
      (op_expr BinaryOp.plus no_position (name_expr (codes "a") no_position)
        (name_expr (codes "b") no_position))
      (op_expr BinaryOp.path no_position (name_expr (codes "c") no_position)
        (name_expr (codes "d") no_position))

sum-names_only : names_only sum ≡ true
unfolding names_only ◌=ᵗ◌
sum-names_only = refl

sum-shallow : levels sum < 512
unfolding levels
sum-shallow = omega arith

parsed_sum :
    tree_of (whole (parser_on [] sum_tokens))
    ≡ parsed (
        binary_node
          (codes "+")
          (name_node (codes "a") no_position)
          (binary_node
            (codes "*")
            (name_node (codes "b") no_position)
            (name_node (codes "c") no_position)
            no_position)
          no_position)
unfolding whole expression level nested prefix prefix_of postfix_node postfix_loop infix_loop
    operator_step operation right_min precedence ◌>>=◌ look_at when◌then◌else◌ with_fuel take_token
parsed_sum = refl

whole-written_example :
    (behind : List Token) × (whole (parser_on [] (written sum (end_token ∷ [])))
      ≡ done (tree sum, at [] behind (end_token ∷ []) 0))
whole-written_example = whole-written [] sum sum-names_only sum-shallow

parse_tokens-total_example : parse_tokens [] sum_tokens ≢ exhausted
parse_tokens-total_example = parse_tokens-total [] sum_tokens

expression-Advances_example : Advances 0 6 1 (expression 513 0)
expression-Advances_example = expression-Advances 513 0 6 0 (omega arith) (omega arith)

whole-opened_example :
    whole (parser_on [] (opened (replicate 512 no_position) (group_token no_position ∷ [])))
    ≡ failed (too_deep no_position)
whole-opened_example = whole-opened [] no_position [] (replicate 512 no_position) refl
