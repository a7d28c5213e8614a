-- ===== src/Precedence/Steps.antt =====
-- internal/syntax/lexer.go: single steps of the parser on the tokens of names and operators.
use jsonata_go.Prelude.{
  ℕ, suc, ◌≤◌, ◌<◌, ◌≡◌, refl, ap, ◌∙◌, Bool, true, false, ◌||◌, List, ◌∷◌, Text, codes, ltb, leb,
  lt→ltb, ◌=ᵗ◌, arith,
}
use jsonata_go.Syntax.{TokenKind, Token, Position, Node, name_node, binary_node}
use jsonata_go.Syntax.State.{
  P, Parser, done, failed, out_of_fuel, ◌>>=◌, look_at, when◌then◌else◌, with_fuel, pure,
  take_token, expect, parents_ahead,
}
use jsonata_go.Syntax.Tables.{precedence, binds_path_variable}
use jsonata_go.Syntax.Postfix.{postfix_loop, postfix_node}
use jsonata_go.Syntax.Prefix.{
  prefix_of, prefix, prefix_group, group_rest, group_of, is_bind, flattened,
}
use jsonata_go.Syntax.Expression.{path_step, operation, right_min, operator_step, infix_loop}
use jsonata_go.Precedence.{
  BinaryOp, path, symbol, power, right_floor, name_token, op_token, bracket_token,
}

-- The parser between the tokens behind and those ahead.
abbrev pub at : Text → List Token → List Token → ℕ → Parser
at source behind ahead depth = record {
  behind = behind;
  ahead = ahead;
  depth = depth;
  source = source;
}

-- Tokens that an operand starts with.
pub data Opening : List Token → Type 0 where
  opens_name :
      (text : Text) (position : Position) (rest : List Token)
      → Opening (name_token text position ∷ rest)
  opens_group : (rest : List Token) → Opening (bracket_token TokenKind.lparen ∷ rest)

-- Tokens at which the operators of the floor end.
pub data Stops (floor : ℕ) : List Token → Type 0 where
  at_operator :
      (o : BinaryOp) (position : Position) (rest : List Token)
      → power o < floor
      → Stops floor (op_token o position ∷ rest)
  at_close : (rest : List Token) → Stops floor (bracket_token TokenKind.rparen ∷ rest)
  at_end : (rest : List Token) → Stops floor (bracket_token TokenKind.eof ∷ rest)

-- Tokens that end an operand: an operator or a close.
pub data Quiet : List Token → Type 0 where
  before_operator :
      (o : BinaryOp) (position : Position) (rest : List Token) → Quiet (op_token o position ∷ rest)
  before_close : (rest : List Token) → Quiet (bracket_token TokenKind.rparen ∷ rest)
  before_end : (rest : List Token) → Quiet (bracket_token TokenKind.eof ∷ rest)

leb_of : (a b : ℕ) → a ≤ b → leb a b ≡ true
leb_of a b = ground arith

not_ltb : (a b : ℕ) → b ≤ a → ltb a b ≡ false
not_ltb a b = ground arith

not_leb : (b : ℕ) → b ≤ 13 → leb 14 b ≡ false
not_leb b = ground arith

pub bind-done :
    {A B : Type 0} (m : P A) (f : A → P B) {s s' : Parser} {a : A}
    → m s ≡ done (a, s')
    → (m >>= f) s ≡ f a s'
unfolding ◌>>=◌
bind-done m f h =
    ap (λ r. elim r [ done (a, s) ↦ f a s | failed e ↦ failed e | out_of_fuel ↦ out_of_fuel ]) h

module _ (source : Text) (expr : ℕ → P Node) (d : ℕ) where
  postfix-Quiet :
      (b ts : List Token) (grouped : Bool) (n : Node)
      → Quiet ts
      → postfix_node expr grouped n (at source b ts d) ≡ done (n, at source b ts d)
  unfolding postfix_node postfix_loop with_fuel ◌>>=◌ look_at when◌then◌else◌ ◌=ᵗ◌
  postfix-Quiet b _ grouped n (before_operator path position rest) = refl
  postfix-Quiet b _ grouped n (before_operator o position rest) = refl
  postfix-Quiet b _ grouped n (before_close rest) = refl
  postfix-Quiet b _ grouped n (before_end rest) = refl

  pub prefix-name :
      (b rest : List Token) (text : Text) (position : Position)
      → (text =ᵗ codes "$$") ≡ false
      → Quiet rest
      → prefix expr (at source b (name_token text position ∷ rest) d)
        ≡ done (name_node text position, at source (name_token text position ∷ b) rest d)
  unfolding prefix prefix_of take_token ◌>>=◌ when◌then◌else◌
  prefix-name b rest text position named quiet =
      rw named
        (postfix-Quiet (name_token text position ∷ b) rest false (name_node text position) quiet)

  pub infix_loop-Stops :
      (b ts : List Token) (m min : ℕ) (left : Node)
      → Stops min ts
      → infix_loop expr (suc m) min left (at source b ts d) ≡ done (left, at source b ts d)
  unfolding infix_loop ◌>>=◌ look_at when◌then◌else◌ precedence ◌=ᵗ◌
  infix_loop-Stops b _ m min left (at_operator path position rest h) = rw (leb_of 14 min h) refl
  infix_loop-Stops b _ m min left (at_operator o position rest h) = rw (lt→ltb (power o) min h) refl
  infix_loop-Stops b _ m min left (at_close rest) = refl
  infix_loop-Stops b _ m min left (at_end rest) = refl

  path_step-Opening :
      (b ts b' rest : List Token) (left right : Node) (t : Token)
      → Opening ts
      → expr 15 (at source b ts d) ≡ done (right, at source b' rest d)
      → path_step expr left t (at source b ts d)
        ≡ done (binary_node (codes ".") left right t.position, at source b' rest d)
  unfolding path_step parents_ahead ◌>>=◌ look_at when◌then◌else◌
  path_step-Opening b _ b' rest left right t (opens_name text position ts) h =
      bind-done (expr 15) (λ right. pure (binary_node (codes ".") left right t.position)) h
  path_step-Opening b _ b' rest left right t (opens_group ts) h =
      bind-done (expr 15) (λ right. pure (binary_node (codes ".") left right t.position)) h

  -- The operator of a rank that is not below the floor, with its right side.
  pub infix_loop-op :
      (b ts b' rest : List Token) (m min : ℕ) (left right : Node) (o : BinaryOp)
      (position : Position)
      → Opening ts
      → min ≤ power o
      → expr (right_floor o) (at source (op_token o position ∷ b) ts d)
        ≡ done (right, at source b' rest d)
      → infix_loop expr (suc m) min left (at source b (op_token o position ∷ ts) d)
        ≡ infix_loop expr m min (binary_node (symbol o) left right position) (at source b' rest d)
  unfolding infix_loop ◌>>=◌ look_at when◌then◌else◌ precedence ◌=ᵗ◌ operator_step right_min
      operation take_token
  infix_loop-op b ts b' rest m min left right path position opens le h = rw (not_leb min le) (
      bind-done (path_step expr left (op_token path position)) (infix_loop expr m min)
        {s = at source (op_token path position ∷ b) ts d}
        (path_step-Opening _ ts b' rest left right (op_token path position) opens h))
  infix_loop-op b ts b' rest m min left right o position opens le h =
      rw (not_ltb (power o) min le) (
        bind-done (operator_step expr left (op_token o position) (power o) (ltb (power o) 4))
          (infix_loop expr m min) {s = at source b (op_token o position ∷ ts) d}
          (bind-done (expr (right_floor o)) (operation left (op_token o position)) h))

  -- Parentheses around an expression that is neither a binding nor an array.
  pub prefix-brackets :
      (b ts b' rest : List Token) (n : Node)
      → Opening ts
      → expr 0 (at source (bracket_token TokenKind.lparen ∷ b) ts d)
        ≡ done (n, at source b' (bracket_token TokenKind.rparen ∷ rest) d)
      → (is_bind n || binds_path_variable n) ≡ false
      → flattened n ≡ n
      → Quiet rest
      → prefix expr (at source b (bracket_token TokenKind.lparen ∷ ts) d)
        ≡ done (n, at source (bracket_token TokenKind.rparen ∷ b') rest d)
  unfolding prefix prefix_of prefix_group group_rest group_of take_token ◌>>=◌ look_at
      when◌then◌else◌ parents_ahead expect
  prefix-brackets b _ b' rest n (opens_name text at_name ts) h free flat quiet =
      bind-done (expr 0) _ h ∙ rw (free, flat) (postfix-Quiet _ rest true n quiet)
  prefix-brackets b _ b' rest n (opens_group ts) h free flat quiet =
      bind-done (expr 0) _ h ∙ rw (free, flat) (postfix-Quiet _ rest true n quiet)
