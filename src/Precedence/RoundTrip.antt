-- ===== src/Precedence/RoundTrip.antt =====
-- internal/syntax/lexer.go: the parser gives back the expression that tokens were written from.
use jsonata_go.Prelude.{
  left_of, right_of, ℕ, zero, suc, ◌+◌, ◌-◌, ◌≤◌, ◌<◌, ◌≡◌, refl, sym, ◌∙◌, Bool, true, false, not,
  List, [], ◌∷◌, Text, ltb, length, arith, if◌then◌else◌,
}
use jsonata_go.Syntax.{TokenKind, Token, Position, ErrorCode, Node}
use jsonata_go.Syntax.State.{
  P, Parser, Outcome, done, ◌>>=◌, look_at, when◌then◌else◌, with_fuel, pure, is_kind, fail,
}
use jsonata_go.Syntax.Prefix.{prefix}
use jsonata_go.Syntax.Expression.{infix_loop, expression, max_depth, whole, parser_on, full_fuel}
use jsonata_go.Precedence.{
  BinaryOp, power, left_floor, right_floor, Expr, name_expr, op_expr, rank, tree, op_token,
  bracket_token, enclosed, written, operand, names_only, levels, larger, deeper_if,
}
use jsonata_go.Precedence.Steps.{
  at, Stops, at_close, at_end, Quiet, before_operator, before_end, bind-done, prefix-name,
  infix_loop-op, prefix-brackets,
}
use jsonata_go.Precedence.Follows.{
  Stops-Quiet, Follows, Follows-close, Follows-left, Follows-right, tree-free, flattened-tree,
  enclosed-Opening, written-Opening, length-enclosed, length-written,
}
use jsonata_go.Precedence.Levels.{Reaches, enter, level-done, Reads}

larger_left : (a b n : ℕ) → larger a (b + 1) ≤ n → a ≤ n
larger_left a b n = ground arith

larger_right : (a b n : ℕ) → larger a (b + 1) ≤ n → b + 1 ≤ n
larger_right a b n = ground arith

power-floor : (p : ℕ) → p ≤ (if ltb p 4 then p + 1 else p)
power-floor p = ground arith

module _ (source : Text) where
  entered :
      (n d min : ℕ) (b b' ts rest : List Token) (e : Node)
      → prefix (expression n) (at source b ts d) ≡ done (e, at source b' rest d)
      → Reaches source n d min e rest (enter n min (at source b ts d))
  unfolding with_fuel
  entered n d min b b' ts rest e h = record {
    behind = b';
    fuel = suc (length rest);
    enough = omega arith;
    reached = bind-done (prefix (expression n)) _ h;
  }

  bracketed :
      (e : Expr) (n d min : ℕ) (b rest : List Token)
      → Reads source e
      → levels e + 1 ≤ n
      → d + (levels e + 1) ≤ max_depth
      → Quiet rest
      → Reaches source n d min
          (tree e)
          rest
          (enter n min (at source b (enclosed true (written e) rest) d))
  bracketed e zero d min b rest reads le deep quiet = absurd (omega arith)
  bracketed e (suc n) d min b rest reads le deep quiet =
      let inside = bracket_token TokenKind.rparen ∷ rest in
      let (b', inner) =
        level-done source n d 0 (bracket_token TokenKind.lparen ∷ b) (written e inside) inside
          (tree e) (omega arith)
          (reads n (d + 1) 0 (bracket_token TokenKind.lparen ∷ b) inside (omega arith) (omega arith)
            (omega arith) (Follows-close e rest))
          (at_close rest) in
      entered (suc n) d min b (bracket_token TokenKind.rparen ∷ b') _ rest (tree e) (
        prefix-brackets source (expression (suc n)) d b (written e inside) b' rest (tree e)
          (written-Opening e inside) inner (tree-free e) (flattened-tree e) quiet)

  operand-Reaches :
      (e : Expr) (floor n d min : ℕ) (b rest : List Token)
      → Reads source e
      → deeper_if (ltb (rank e) floor) (levels e) ≤ n
      → d + deeper_if (ltb (rank e) floor) (levels e) ≤ max_depth
      → min ≤ floor
      → Quiet rest
      → (floor ≤ rank e → Follows e rest)
      → Reaches source n d min (tree e) rest (enter n min (at source b (operand floor e rest) d))
  operand-Reaches e floor n d min b rest reads le deep low quiet follows =
      chosen (ltb (rank e) floor) refl le deep
    where
      high : (r : ℕ) → ltb r floor ≡ false → floor ≤ r
      high r = ground arith

      chosen :
          (brackets : Bool)
          → ltb (rank e) floor ≡ brackets
          → deeper_if brackets (levels e) ≤ n
          → d + deeper_if brackets (levels e) ≤ max_depth
          → Reaches source n d min
              (tree e)
              rest
              (enter n min (at source b (enclosed brackets (written e) rest) d))
      chosen true same le deep = bracketed e n d min b rest reads le deep quiet
      chosen false same le deep =
          reads n d min b rest le deep (omega (arith, high (rank e) same))
            (follows (high (rank e) same))

  -- Behind the left operand: the operator and its right operand.
  joined :
      (left right : Expr) (o : BinaryOp) (position : Position) (n d min : ℕ) (rest : List Token)
      (r : Outcome (Node × Parser))
      → Reads source right
      → deeper_if (ltb (rank right) (right_floor o)) (levels right) + 1 ≤ n
      → d + (deeper_if (ltb (rank right) (right_floor o)) (levels right) + 1) ≤ max_depth
      → min ≤ power o
      → Stops (right_floor o) rest
      → Reaches source n d min
          (tree left)
          (op_token o position ∷ operand (right_floor o) right rest)
          r
      → Reaches source n d min (tree (op_expr o position left right)) rest r
  joined left right o position zero d min rest r reads le deep low stops first =
      absurd (omega arith)
  joined left right o position (suc n) d min rest r reads le deep low stops first =
      stepped first.fuel first.enough first.reached
    where
      ahead : List Token
      ahead = operand (right_floor o) right rest

      stepped :
          (fuel : ℕ)
          → length (op_token o position ∷ ahead) < fuel
          → r
            ≡ infix_loop
                (expression (suc n))
                fuel
                min
                (tree left)
                (at source first.behind (op_token o position ∷ ahead) d)
          → Reaches source (suc n) d min (tree (op_expr o position left right)) rest r
      stepped zero lt reached = absurd (omega arith)
      stepped (suc m) lt reached =
          let (b', inner) =
            level-done source n d (right_floor o) (op_token o position ∷ first.behind) ahead rest
              (tree right) (omega arith)
              (operand-Reaches right (right_floor o) n (d + 1) (right_floor o) _ rest reads
                (omega arith) (omega arith) (omega arith) (Stops-Quiet stops)
                (λ h. Follows-right right (right_floor o) rest h stops))
              stops in
          record {
            behind = b';
            fuel = m;
            enough = omega (
              arith,
              length-enclosed (ltb (rank right) (right_floor o)) (written right) rest
                  (length-written right),
            );
            reached =
                reached
                ∙ infix_loop-op source (expression (suc n)) d first.behind ahead b' rest m min
                    (tree left) (tree right) o position
                    (enclosed-Opening (ltb (rank right) (right_floor o)) (written right) rest
                      (written-Opening right))
                    low inner;
          }

  written-Reaches : (e : Expr) → names_only e ≡ true → Reads source e
  unfolding written names_only levels
  written-Reaches (name_expr text position) named n d min b rest le deep low quiet =
      entered n d min b _ _ rest _
        (prefix-name source (expression n) d b rest text position (unquoted _ named) quiet)
    where
      unquoted : (b : Bool) → not b ≡ true → b ≡ false
      unquoted false h = refl
      unquoted true h = sym h
  written-Reaches (op_expr o position left right) named n d min b rest le deep low stops =
      joined left right o position n d min rest _ (written-Reaches right (right_of _ _ named))
        (larger_right lefts rights n le)
        (omega (arith, larger_right lefts rights (max_depth - d) (omega arith))) low stops
        (operand-Reaches left (left_floor o) n d min b _ (written-Reaches left (left_of _ _ named))
          (larger_left lefts rights n le)
          (omega (arith, larger_left lefts rights (max_depth - d) (omega arith)))
          (omega (arith, power-floor (power o))) (before_operator o position _)
          (Follows-left left o position _))
    where
      lefts : ℕ
      lefts = deeper_if (ltb (rank left) (left_floor o)) (levels left)

      rights : ℕ
      rights = deeper_if (ltb (rank right) (right_floor o)) (levels right)

abbrev pub end_token : Token
end_token = bracket_token TokenKind.eof

Follows-end : (e : Expr) → Follows e (end_token ∷ [])
Follows-end (name_expr text position) = before_end []
Follows-end (op_expr o position left right) = at_end []

-- The tokens of an expression of names and binary operators, written with no more parentheses than
-- the ranks of the operators ask for, are parsed to the tree of that expression and are all taken up
-- to the end, if no name is "$$" and if the levels of operands stay below the limit of 512.
pub whole-written :
    (source : Text) (e : Expr)
    → names_only e ≡ true
    → levels e < max_depth
    → (behind : List Token) × (whole (parser_on source (written e (end_token ∷ [])))
        ≡ done (tree e, at source behind (end_token ∷ []) 0))
unfolding whole ◌>>=◌ look_at when◌then◌else◌
whole-written source e named shallow =
    let (behind, ended) =
      level-done source max_depth 0 0 [] (written e (end_token ∷ [])) (end_token ∷ []) (tree e)
        (omega arith)
        (written-Reaches source e named max_depth 1 0 [] (end_token ∷ []) (omega arith)
          (omega arith) (omega arith) (Follows-end e))
        (at_end []) in
    (behind, bind-done (expression full_fuel 0) ending ended)
  where
    ending : Node → P Node
    ending n =
        look_at 0 >>= λ t. when is_kind TokenKind.eof t then pure n else fail ErrorCode.s0201 t
