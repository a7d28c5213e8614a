-- ===== src/Precedence/Levels.antt =====
-- internal/syntax/lexer.go: the parser gives back the expression that tokens were written from; part.
use jsonata_go.Prelude.{
  ℕ, zero, suc, ◌+◌, ◌-◌, ◌≤◌, ◌<◌, ◌≡◌, ap, ◌∙◌, false, List, Text, ltb, length, arith,
}
use jsonata_go.Syntax.{Token, Node}
use jsonata_go.Syntax.State.{P, Parser, Outcome, done, failed, out_of_fuel, ◌>>=◌, with_fuel}
use jsonata_go.Syntax.Prefix.{prefix}
use jsonata_go.Syntax.Expression.{infix_loop, nested, level, expression, max_depth, left_again}
use jsonata_go.Precedence.{Expr, rank, tree, written, levels}
use jsonata_go.Precedence.Steps.{at, Stops, infix_loop-Stops}
use jsonata_go.Precedence.Follows.{Follows}

-- What `level` runs one level deeper.
abbrev pub enter : ℕ → ℕ → P Node
enter n min =
    prefix (expression n) >>= λ left. with_fuel (λ m. infix_loop (expression n) m min left)

-- The run comes to the loop behind the expression, with fuel for the tokens that are left.
pub record Reaches (source : Text) (n d min : ℕ) (e : Node) (rest : List Token)
    (r : Outcome (Node × Parser)) : Type 0 where
  pub behind : List Token
  pub fuel : ℕ
  pub enough : length rest < fuel
  pub reached : r ≡ infix_loop (expression n) fuel min e (at source behind rest d)

Reaches-end :
    {source : Text} {n d min : ℕ} {e : Node} {rest : List Token} {r : Outcome (Node × Parser)}
    → Reaches source n d min e rest r
    → Stops min rest
    → (behind : List Token) × (r ≡ done (e, at source behind rest d))
Reaches-end {source} {n} {d} {min} {e} {rest} {r} h stops = stopped h.fuel h.enough h.reached
  where
    stopped :
        (fuel : ℕ)
        → length rest < fuel
        → r ≡ infix_loop (expression n) fuel min e (at source h.behind rest d)
        → (behind : List Token) × (r ≡ done (e, at source behind rest d))
    stopped zero lt reached = absurd (omega arith)
    stopped (suc m) lt reached =
        (h.behind, reached ∙ infix_loop-Stops source (expression n) d h.behind rest m min e stops)

pub level-done :
    (source : Text) (n d min : ℕ) (b ts rest : List Token) (e : Node)
    → d + 1 ≤ max_depth
    → Reaches source n (d + 1) min e rest (enter n min (at source b ts (d + 1)))
    → Stops min rest
    → (behind : List Token) × (expression (suc n) min (at source b ts d)
        ≡ done (e, at source behind rest d))
unfolding expression level nested
level-done source n d min b ts rest e le h stops =
    let (behind, ended) = Reaches-end h stops in
    (
      behind,
      rw (shallow d le) (
          ap
            (λ r. elim r [
              | done r ↦ left_again r
              | failed e ↦ failed e
              | out_of_fuel ↦ out_of_fuel
            ])
            ended
          ∙ ap (λ k. done (e, at source behind rest k)) (back d)),
    )
  where
    shallow : (d : ℕ) → d + 1 ≤ max_depth → ltb max_depth (d + 1) ≡ false
    shallow d = ground arith

    back : (d : ℕ) → d + 1 - 1 ≡ d
    back d = omega arith

-- Without parentheses around it, an expression is read wherever the levels reach.
abbrev pub Reads : Text → Expr → Type 0
Reads source e =
    (n d min : ℕ) (b rest : List Token)
    → levels e ≤ n
    → d + levels e ≤ max_depth
    → min ≤ rank e
    → Follows e rest
    → Reaches source n d min (tree e) rest (enter n min (at source b (written e rest) d))
