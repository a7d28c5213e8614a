-- ===== src/Syntax/Expression/Total.antt =====
-- internal/syntax/lexer.go: `expression` ends within its fuel, takes a token and gives the depth back.
use jsonata_go.Prelude.{
  ℕ, zero, suc, ◌+◌, ◌≤◌, ◌<◌, ◌≡◌, refl, Bool, true, false, not, ◌==◌, Option, none, some, arith,
  ltb, if◌then◌else◌,
}
use jsonata_go.Syntax.{TokenKind, Token, ErrorCode, Node}
use jsonata_go.Syntax.State.{
  P, Parser, Outcome, done, failed, out_of_fuel, ◌>>=◌, when◌then◌else◌, pure, is_kind, kind_number,
  fail_here, look_at,
}
use jsonata_go.Syntax.Tables.{precedence}
use jsonata_go.Syntax.Items.{binding}
use jsonata_go.Syntax.Within.{
  Within, Advances, At, Live, Advances-failed, Advances-when, At-of, At-when, Advances-bind,
  At-bind, Advances-peek, At-look, Advances-look, Advances-with_fuel, At-take, Advances-pure,
}
use jsonata_go.Syntax.Advance.{
  At-cases, At-kind, At-failed, At-peek, At-over, is_op-Live, is_kind-Live, At-parents,
}
use jsonata_go.Syntax.Expression.{
  conditional, grouping, path_step, infix_binding, operation, operator_step, infix_loop, nested,
  deeper, left_again, max_depth, full_fuel, level, expression, whole,
}
use jsonata_go.Syntax.Expression.ItemsAdvance.{object_rest-Advances}
use jsonata_go.Syntax.Expression.Parts.{postfix-Advances}
use jsonata_go.Syntax.Expression.Starts.{prefix-Advances}

module _ {d : ℕ} (expr : ℕ → P Node) (ok : (min n : ℕ) → Advances d n 1 (expr min)) where
  conditional-Advances :
      (n : ℕ) (left : Node) (t : Token) → Advances d n 0 (conditional expr left t)
  unfolding conditional
  conditional-Advances n left t = Advances-bind (ok 0 n) (λ _ met. Advances-peek (λ colon.
      At-kind TokenKind.colon refl
        (λ live. At-over live (λ _. Advances-bind (ok 2 _) (λ _ unmet. Advances-pure)))
        (At-of Advances-pure)))

  grouping-At : {n : ℕ} (left : Node) {t : Token} → Live t → At t d n 1 (grouping expr left t)
  unfolding grouping
  grouping-At left live =
      At-when _ (λ _. At-failed)
        (At-bind (At-take live) (λ _ first.
          Advances-bind (object_rest-Advances expr ok _ first)
            (λ _ right. postfix-Advances expr ok _ _)))

  path_step-Advances : (n : ℕ) (left : Node) (t : Token) → Advances d n 0 (path_step expr left t)
  unfolding path_step
  path_step-Advances n left t = Advances-peek (λ u. At-look 1 (λ u1. At-parents (λ count.
      At-when _ (λ _. At-failed)
        (At-when _ (λ _. At-failed)
          (At-when _ (λ _. At-failed)
            (At-of (Advances-bind (ok 15 n) (λ _ right. Advances-pure))))))))

  -- In the loop no variable follows the operator: it is the token in front itself.
  infix_binding-At :
      {n : ℕ} (left : Node) {t : Token}
      → is_kind TokenKind.operator t ≡ true
      → At t d n 1 (infix_binding left t)
  unfolding infix_binding binding
  infix_binding-At left {t} operator =
      At-when _ (λ _. At-failed)
        (At-when _ (λ _. At-failed)
          (At-peek _ (
            At-when _ (λ dollar. absurd (one_kind (kind_number t.kind) operator dollar))
              At-failed)))
    where
      one_kind : (k : ℕ) → (k == 8) ≡ true → (k == 18) ≡ true → ⊥
      one_kind k = ground arith

  operation-Advances :
      {n : ℕ} (left : Node) (t : Token) (right : Node) → Advances d n 0 (operation left t right)
  unfolding operation
  operation-Advances left t right =
      Advances-when _ (Advances-when _ Advances-pure (Advances-look 0 (λ _. Advances-failed)))
        (Advances-when _ Advances-pure Advances-pure)

  operator_step-At :
      {n : ℕ} (left : Node) {t : Token} (prec : ℕ) (assoc : Bool)
      → Live t
      → At t d n 1 (operator_step expr left t prec assoc)
  unfolding operator_step
  operator_step-At left {t} prec assoc live =
      At-over live (λ _. Advances-bind (ok _ _) (λ _ right. operation-Advances left t right))

  infix_loop-Advances :
      (fuel n min : ℕ) (left : Node) → n < fuel → Advances d n 0 (infix_loop expr fuel min left)
  unfolding infix_loop
  infix_loop-Advances zero n min left lt = absurd (omega arith)
  infix_loop-Advances (suc fuel) n min left lt = Advances-peek (λ t. At-look 1 (λ after.
      At-when _
        (λ h.
          At-when _ (λ _. At-of Advances-pure)
            (At-over (is_op-Live t _ h) (λ le.
              Advances-bind (conditional-Advances _ left t)
                (λ _ node. infix_loop-Advances fuel _ min node (omega arith)))))
        (At-kind TokenKind.lbrace refl
          (λ live.
            At-bind (grouping-At left live)
              (λ le node. infix_loop-Advances fuel _ min node (omega arith)))
          (At-cases _ (λ _. At-of Advances-pure)
            (λ h.
              At-when _
                (λ _.
                  At-when _ (λ _. At-of Advances-pure)
                    (At-over (operator-Live t h) (λ le.
                      Advances-bind (path_step-Advances _ left t)
                        (λ _ node. infix_loop-Advances fuel _ min node (omega arith)))))
                (At-when _
                  (λ _.
                    At-bind (infix_binding-At left (operator t h))
                      (λ le node. infix_loop-Advances fuel _ min node (omega arith)))
                  (table (precedence t.text) (λ prec assoc.
                    At-when _ (λ _. At-of Advances-pure)
                      (At-when _ (λ _. At-of Advances-pure)
                        (At-when _ (λ _. At-failed)
                          (At-bind (operator_step-At left prec assoc (operator-Live t h))
                            (λ le node.
                              infix_loop-Advances fuel _ min node (omega arith)))))))))))))
    where
      operator :
          (t : Token)
          → not (is_kind TokenKind.operator t) ≡ false
          → is_kind TokenKind.operator t ≡ true
      operator t = ground arith

      operator-Live : (t : Token) → not (is_kind TokenKind.operator t) ≡ false → Live t
      operator-Live t h = is_kind-Live TokenKind.operator t (operator t h) refl

      table :
          {t : Token} {m : ℕ → Bool → P Node} (entry : Option (ℕ × Bool))
          → ((prec : ℕ) (assoc : Bool) → At t d n 0 (m prec assoc))
          → At t d n 0 (elim entry [ none ↦ pure left | some (prec, assoc) ↦ m prec assoc ])
      table none h = At-of Advances-pure
      table (some (prec, assoc)) h = h prec assoc

deeper-Advances :
    {A : Type 0} {d n k : ℕ} {m : P A} → Advances (suc d) n k m → Advances d n k (deeper m)
deeper-Advances {A} {k} {m} h = record {
  steps = λ s e l. back s (m (record s { depth = s.depth + 1 })) (h.steps _ (omega arith) l);
}
  where
    back :
        (s : Parser) (r : Outcome (A × Parser))
        → Within k (record s { depth = s.depth + 1 }) r
        → Within k s
            (elim r [ done r ↦ left_again r | failed e ↦ failed e | out_of_fuel ↦ out_of_fuel ])
    back s (done (a, s')) (h, e) = (h, omega arith)
    back s (failed e) h = tt
    back s out_of_fuel h = h

nested-Advances :
    {A : Type 0} {d n k : ℕ} {m : P A}
    → (d + 1 ≤ max_depth → Advances (suc d) n k m)
    → Advances d n k (nested m)
unfolding nested ◌>>=◌ look_at
nested-Advances {A} {d} {n} {k} {m} h = record {
  steps = λ s e l.
      chosen s (ltb max_depth (s.depth + 1))
        (λ shallow. (deeper-Advances (h (allowed s.depth d e shallow))).steps s e l);
}
  where
    allowed : (depth d : ℕ) → depth ≡ d → ltb max_depth (depth + 1) ≡ false → d + 1 ≤ max_depth
    allowed depth d = ground arith

    chosen :
        (s : Parser) (b : Bool)
        → (b ≡ false → Within k s (deeper m s))
        → Within k s (if b then fail_here ErrorCode.s1001 s else deeper m s)
    chosen s true h = tt
    chosen s false h = h refl

level-Advances :
    {d : ℕ} (n min : ℕ) (expr : ℕ → P Node)
    → (d + 1 ≤ max_depth → (min n : ℕ) → Advances (suc d) n 1 (expr min))
    → Advances d n 1 (level expr min)
unfolding level
level-Advances n min expr ok = nested-Advances (λ le.
    Advances-bind (prefix-Advances expr (ok le) n) (λ _ left.
      Advances-with_fuel _
        (λ m _. infix_loop-Advances expr (ok le) (suc m) m min left (omega arith))))

-- At a depth up to the limit of 512, fuel for the levels that are left is enough: the expression is
-- read or has an error, at least one token is taken, and the depth is what it was.
pub expression-Advances :
    (fuel d n min : ℕ) → d ≤ max_depth → max_depth < fuel + d → Advances d n 1 (expression fuel min)
unfolding expression
expression-Advances zero d n min le lt = absurd (omega arith)
expression-Advances (suc fuel) d n min le lt =
    level-Advances n min (expression fuel)
      (λ le' min n. expression-Advances fuel (suc d) n min (omega arith) (omega arith))

pub whole-Advances : {n : ℕ} → Advances 0 n 0 whole
unfolding whole
whole-Advances =
    Advances-bind (expression-Advances full_fuel 0 _ 0 (omega arith) (omega arith))
      (λ _ node. Advances-look 0 (λ t. Advances-when _ Advances-pure Advances-failed))
