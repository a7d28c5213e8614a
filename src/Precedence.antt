-- ===== src/Precedence.antt =====
-- internal/syntax/lexer.go: expressions of names and binary operators, and the tokens that write them
-- with no more parentheses than the operators' binding powers need.
pub mod Steps
pub mod Follows
pub mod Levels
pub mod RoundTrip
use jsonata_go.Prelude.{
  ℕ, ◌+◌, Bool, true, false, ◌&&◌, not, List, [], ◌∷◌, Text, codes, ltb, ◌=ᵗ◌, if◌then◌else◌,
}
use jsonata_go.Syntax.{
  TokenKind, Token, LiteralValue, Position, no_position, Node, name_node, binary_node,
}

-- The operators whose tree is a Binary of the operator's text. `path` is ".".
pub data BinaryOp : Type 0 where
  elvis coalesce either both equal unequal less at_most greater at_least within : BinaryOp
  concat range plus minus times divide modulo path : BinaryOp

abbrev pub symbol : BinaryOp → Text
symbol elvis = codes "?:"
symbol coalesce = codes "??"
symbol either = codes "or"
symbol both = codes "and"
symbol equal = codes "="
symbol unequal = codes "!="
symbol less = codes "<"
symbol at_most = codes "<="
symbol greater = codes ">"
symbol at_least = codes ">="
symbol within = codes "in"
symbol concat = codes "&"
symbol range = codes ".."
symbol plus = codes "+"
symbol minus = codes "-"
symbol times = codes "*"
symbol divide = codes "/"
symbol modulo = codes "%"
symbol path = codes "."

-- The rank of an operator: the higher binds the tighter.
abbrev pub power : BinaryOp → ℕ
power elvis = 2
power coalesce = 3
power either = 5
power both = 6
power concat = 8
power range = 9
power plus = 10
power minus = 10
power times = 11
power divide = 11
power modulo = 11
power path = 13
power _ = 7

-- The operators of the ranks below 4 group to the right, all others to the left.
abbrev pub left_floor : BinaryOp → ℕ
left_floor o = if ltb (power o) 4 then power o + 1 else power o

-- The right side of "." is a single step.
abbrev pub right_floor : BinaryOp → ℕ
right_floor path = 15
right_floor o = if ltb (power o) 4 then power o else power o + 1

pub data Expr : Type 0 where
  name_expr : Text → Position → Expr
  op_expr : BinaryOp → Position → Expr → Expr → Expr

abbrev pub rank : Expr → ℕ
rank (name_expr text position) = 16
rank (op_expr o position left right) = power o

abbrev pub tree : Expr → Node
tree (name_expr text position) = name_node text position
tree (op_expr o position left right) = binary_node (symbol o) (tree left) (tree right) position

abbrev pub name_token : Text → Position → Token
name_token text position = record {
  kind = TokenKind.identifier;
  text = text;
  position = position;
  value = LiteralValue.nothing;
}

abbrev pub op_token : BinaryOp → Position → Token
op_token o position = record {
  kind = TokenKind.operator;
  text = symbol o;
  position = position;
  value = LiteralValue.nothing;
}

abbrev pub bracket_token : TokenKind → Token
bracket_token kind = record {
  kind = kind;
  text = [];
  position = no_position;
  value = LiteralValue.nothing;
}

-- Tokens in parentheses, if the test says so. What is in them is given what follows it.
abbrev pub enclosed : Bool → (List Token → List Token) → List Token → List Token
enclosed false inner rest = inner rest
enclosed true inner rest =
    bracket_token TokenKind.lparen ∷ inner (bracket_token TokenKind.rparen ∷ rest)

-- The tokens of an expression in front of others.
unfoldable pub written : Expr → List Token → List Token
written (name_expr text position) rest = name_token text position ∷ rest
written (op_expr o position left right) rest =
    enclosed (ltb (rank left) (left_floor o)) (written left)
      (op_token o position ∷ enclosed (ltb (rank right) (right_floor o)) (written right) rest)

-- As an operand of the given floor.
abbrev pub operand : ℕ → Expr → List Token → List Token
operand floor e = enclosed (ltb (rank e) floor) (written e)

-- "$$" is no name, but a variable.
unfoldable pub names_only : Expr → Bool
unfolding ◌=ᵗ◌
names_only (name_expr text position) = not (text =ᵗ codes "$$")
names_only (op_expr o position left right) = names_only left && names_only right

abbrev deeper_if : Bool → ℕ → ℕ
deeper_if enclosed depth = if enclosed then depth + 1 else depth

abbrev larger : ℕ → ℕ → ℕ
larger a b = if ltb a b then b else a

-- The levels of `expression` below the one that reads the tokens.
unfoldable pub levels : Expr → ℕ
levels (name_expr text position) = 0
levels (op_expr o position left right) =
    larger (deeper_if (ltb (rank left) (left_floor o)) (levels left))
      (deeper_if (ltb (rank right) (right_floor o)) (levels right) + 1)
