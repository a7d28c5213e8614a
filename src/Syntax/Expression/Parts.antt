-- ===== src/Syntax/Expression/Parts.antt =====
-- internal/syntax/lexer.go: the parts of `expression` keep within their fuel, if expressions do.
use jsonata_go.Prelude.{ℕ, zero, suc, ◌<◌, refl, Bool, false, arith}
use jsonata_go.Syntax.{TokenKind, Token, Node}
use jsonata_go.Syntax.State.{P}
use jsonata_go.Syntax.Postfix.{
  postfix_call, optional_index, postfix_selector, postfix_binding, postfix_loop, postfix_node,
}
use jsonata_go.Syntax.Within.{
  Advances, Advances-failed, Advances-when, At-of, At-when, Advances-bind, Advances-peek,
  Advances-with_fuel, Advances-pure,
}
use jsonata_go.Syntax.Advance.{At-kind, At-over, Advances-weaken, expect-Advances}
use jsonata_go.Syntax.Expression.ItemsAdvance.{
  either-Live, lambda-Advances, call_arguments-Advances, binding-Advances,
}

module _ {d : ℕ} (expr : ℕ → P Node) (ok : (min n : ℕ) → Advances d n 1 (expr min)) where
  postfix_call-Advances :
      (n : ℕ) (node : Node) (grouped : Bool) (first : Token)
      → Advances d n 0 (postfix_call expr node grouped first)
  unfolding postfix_call
  postfix_call-Advances n node grouped first =
      Advances-bind (call_arguments-Advances expr ok n) (λ _ (arguments, partial).
        Advances-bind (expect-Advances TokenKind.rparen refl) (λ _ _.
          Advances-when _ (lambda-Advances expr ok _ arguments first.position) Advances-pure))

  postfix_selector-Advances :
      (n : ℕ) (node : Node) (first : Token) → Advances d n 0 (postfix_selector expr node first)
  unfolding postfix_selector optional_index
  postfix_selector-Advances n node first =
      Advances-bind
        (Advances-peek
          (λ t. At-when _ (λ _. At-of Advances-pure) (At-of (Advances-weaken (ok 0 n)))))
        (λ _ index.
          Advances-bind (expect-Advances TokenKind.rbracket refl)
            (λ _ _. Advances-when _ Advances-failed Advances-pure))

  postfix_binding-Advances :
      (n : ℕ) (node : Node) (t : Token) → Advances d n 0 (postfix_binding node t)
  unfolding postfix_binding
  postfix_binding-Advances n node t =
      Advances-when _ Advances-failed
        (Advances-when _ Advances-failed (binding-Advances expr ok n node t))

  postfix_loop-Advances :
      (fuel n : ℕ) (node : Node) (grouped : Bool)
      → n < fuel
      → Advances d n 0 (postfix_loop expr fuel node grouped)
  unfolding postfix_loop
  postfix_loop-Advances zero n node grouped lt = absurd (omega arith)
  postfix_loop-Advances (suc fuel) n node grouped lt = Advances-peek (λ t.
      At-kind TokenKind.lparen refl
        (λ live. At-over live (λ le.
          Advances-bind (postfix_call-Advances _ node grouped t)
            (λ _ node'. postfix_loop-Advances fuel _ node' false (omega arith))))
        (At-kind TokenKind.lbracket refl
          (λ live. At-over live (λ le.
            Advances-bind (postfix_selector-Advances _ node t)
              (λ _ node'. postfix_loop-Advances fuel _ node' false (omega arith))))
          (At-when _
            (λ h. At-over (either-Live t h) (λ le.
              Advances-bind (postfix_binding-Advances _ node t)
                (λ _ node'. postfix_loop-Advances fuel _ node' false (omega arith))))
            (At-of Advances-pure))))

  pub postfix-Advances :
      {n : ℕ} (grouped : Bool) (node : Node) → Advances d n 0 (postfix_node expr grouped node)
  unfolding postfix_node
  postfix-Advances grouped node =
      Advances-with_fuel _ (λ m le. postfix_loop-Advances (suc m) m node grouped (omega arith))
