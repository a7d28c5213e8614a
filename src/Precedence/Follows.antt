-- ===== src/Precedence/Follows.antt =====
-- internal/syntax/lexer.go: the parser gives back the expression that tokens were written from; part.
use jsonata_go.Prelude.{
  ℕ, ◌+◌, ◌≤◌, ◌<◌, ◌≡◌, refl, ap, ◌∙◌, Bool, true, false, ◌||◌, List, ◌∷◌, ltb, ◌=ᵗ◌, length,
  arith, if◌then◌else◌,
}
use jsonata_go.Syntax.{TokenKind, Token, Position}
use jsonata_go.Syntax.State.{when◌then◌else◌}
use jsonata_go.Syntax.Tables.{binds_path_variable}
use jsonata_go.Syntax.Prefix.{is_bind, flattened}
use jsonata_go.Precedence.{
  BinaryOp, path, power, left_floor, right_floor, Expr, name_expr, op_expr, rank, tree, op_token,
  bracket_token, enclosed, written, operand,
}
use jsonata_go.Precedence.Steps.{
  Opening, opens_name, opens_group, Stops, at_operator, at_close, at_end, Quiet, before_operator,
  before_close, before_end,
}

pub Stops-Quiet : {floor : ℕ} {ts : List Token} → Stops floor ts → Quiet ts
Stops-Quiet (at_operator o position rest h) = before_operator o position rest
Stops-Quiet (at_close rest) = before_close rest
Stops-Quiet (at_end rest) = before_end rest

Stops-higher : {a b : ℕ} {ts : List Token} → a ≤ b → Stops a ts → Stops b ts
Stops-higher le (at_operator o position rest h) = at_operator o position rest (omega arith)
Stops-higher le (at_close rest) = at_close rest
Stops-higher le (at_end rest) = at_end rest

-- What may follow the tokens of an expression without parentheses.
abbrev pub Follows : Expr → List Token → Type 0
Follows (name_expr text position) rest = Quiet rest
Follows (op_expr o position left right) rest = Stops (right_floor o) rest

Follows-Quiet : (e : Expr) (ts : List Token) → Follows e ts → Quiet ts
Follows-Quiet (name_expr text position) ts h = h
Follows-Quiet (op_expr o position left right) ts h = Stops-Quiet h

pub Follows-close :
    (e : Expr) (rest : List Token) → Follows e (bracket_token TokenKind.rparen ∷ rest)
Follows-close (name_expr text position) rest = before_close rest
Follows-close (op_expr o position left right) rest = at_close rest

power-right_floor : (o : BinaryOp) → power o ≤ right_floor o
power-right_floor path = omega arith
power-right_floor o = omega arith

pub below : (p p' : ℕ) → (if ltb p 4 then p + 1 else p) ≤ p' → p < (if ltb p' 4 then p' else p' + 1)
below p p' = ground arith

below_path : (p : ℕ) → (if ltb p 4 then p + 1 else p) ≤ 13 → p < 15
below_path p = ground arith

-- An operator ends its left operand.
power-left_floor : (o o' : BinaryOp) → left_floor o ≤ power o' → power o < right_floor o'
power-left_floor o path h = below_path (power o) h
power-left_floor o o' h = below (power o) (power o') h

pub Follows-left :
    (l : Expr) (o : BinaryOp) (position : Position) (rest : List Token)
    → left_floor o ≤ rank l
    → Follows l (op_token o position ∷ rest)
Follows-left (name_expr text at_name) o position rest h = before_operator o position rest
Follows-left (op_expr o' at_op left right) o position rest h =
    at_operator o position rest (power-left_floor o o' h)

pub Follows-right :
    (r : Expr) (floor : ℕ) (rest : List Token) → floor ≤ rank r → Stops floor rest → Follows r rest
Follows-right (name_expr text position) floor rest le h = Stops-Quiet h
Follows-right (op_expr o position left right) floor rest le h =
    Stops-higher (omega (arith, power-right_floor o)) h

binds-tree : (e : Expr) → binds_path_variable (tree e) ≡ false
unfolding binds_path_variable ◌=ᵗ◌
binds-tree (name_expr text position) = refl
binds-tree (op_expr path position left right) =
    ap (λ b. b || binds_path_variable (tree left)) (binds-tree right) ∙ binds-tree left
binds-tree (op_expr o position left right) = refl

pub tree-free : (e : Expr) → (is_bind (tree e) || binds_path_variable (tree e)) ≡ false
tree-free (name_expr text position) = binds-tree (name_expr text position)
tree-free (op_expr o position left right) = binds-tree (op_expr o position left right)

pub flattened-tree : (e : Expr) → flattened (tree e) ≡ tree e
flattened-tree (name_expr text position) = refl
flattened-tree (op_expr o position left right) = refl

pub enclosed-Opening :
    (b : Bool) (inner : List Token → List Token) (rest : List Token)
    → ((ts : List Token) → Opening (inner ts))
    → Opening (enclosed b inner rest)
enclosed-Opening false inner rest h = h rest
enclosed-Opening true inner rest h = opens_group _

pub written-Opening : (e : Expr) (rest : List Token) → Opening (written e rest)
unfolding written
written-Opening (name_expr text position) rest = opens_name text position rest
written-Opening (op_expr o position left right) rest =
    enclosed-Opening (ltb (rank left) (left_floor o)) (written left) _ (written-Opening left)

pub length-enclosed :
    (b : Bool) (inner : List Token → List Token) (rest : List Token)
    → ((ts : List Token) → length ts ≤ length (inner ts))
    → length rest ≤ length (enclosed b inner rest)
length-enclosed false inner rest h = h rest
length-enclosed true inner rest h = omega (arith, h (bracket_token TokenKind.rparen ∷ rest))

pub length-written : (e : Expr) (rest : List Token) → length rest ≤ length (written e rest)
unfolding written
length-written (name_expr text position) rest = omega arith
length-written (op_expr o position left right) rest = omega (
  arith,
  length-enclosed (ltb (rank left) (left_floor o)) (written left)
      (op_token o position ∷ operand (right_floor o) right rest) (length-written left),
  length-enclosed (ltb (rank right) (right_floor o)) (written right) rest (length-written right),
)
