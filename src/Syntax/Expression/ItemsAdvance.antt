-- ===== src/Syntax/Expression/ItemsAdvance.antt =====
-- internal/syntax/lexer.go: the parts of `expression` keep within their fuel, if expressions do; part.
use jsonata_go.Prelude.{
  ℕ, zero, suc, ◌-◌, ◌<◌, ◌≡◌, refl, Bool, true, false, ◌||◌, inl, inr, codes, arith, Bool-cases,
  sym, ap, ◌∙◌,
}
use jsonata_go.Syntax.{TokenKind, Token, Position, Node, Nodes, Pairs, no_pairs, no_nodes}
use jsonata_go.Syntax.State.{P, is_op}
use jsonata_go.Syntax.Items.{
  array_loop, array_rest, object_key, object_loop, object_rest, argument, arguments_end,
  arguments_loop, call_arguments, binding, lambda,
}
use jsonata_go.Syntax.Within.{
  Advances, At, Live, Advances-failed, Advances-when, At-of, At-when, Advances-bind, At-bind,
  Advances-peek, At-look, Advances-with_fuel, At-take, Advances-pure, Advances-take,
}
use jsonata_go.Syntax.Advance.{
  At-kind, At-failed, At-over, is_op-Live, both-Live, Advances-weaken, expect-Advances,
}
use jsonata_go.Syntax.Expression.TokensAdvance.{optional_signature-Advances, parameters_of-Advances}

pub either-Live : (t : Token) → (is_op (codes "@") t || is_op (codes "#") t) ≡ true → Live t
either-Live t h = elim (Bool-cases (is_op (codes "@") t)) [
  | inl e ↦ is_op-Live t _ e
  | inr e ↦ is_op-Live t (codes "#") (sym (ap (λ b. b || is_op (codes "#") t) e) ∙ h)
]

module _ {d : ℕ} (expr : ℕ → P Node) (ok : (min n : ℕ) → Advances d n 1 (expr min)) where
  array_loop-Advances :
      (position : Position) (fuel n : ℕ) (items : Nodes)
      → n < fuel
      → Advances d n 0 (array_loop expr position fuel items)
  unfolding array_loop
  array_loop-Advances position zero n items lt = absurd (omega arith)
  array_loop-Advances position (suc fuel) n items lt = Advances-bind (ok 0 n) (λ le item.
      Advances-peek (λ t.
        At-kind TokenKind.rbracket refl (λ live. At-over live (λ _. Advances-pure))
          (At-kind TokenKind.comma refl
            (λ live. At-over live (λ _. Advances-peek (λ u.
              At-when _ (λ _. At-failed)
                (At-of (array_loop-Advances position fuel (n - 1 - 1) _ (omega arith))))))
            (At-when _ (λ _. At-failed) At-failed))))

  pub array_rest-Advances : (n : ℕ) (first : Token) → Advances d n 0 (array_rest expr first)
  unfolding array_rest
  array_rest-Advances n first = Advances-peek (λ t.
      At-kind TokenKind.rbracket refl (λ live. At-over live (λ _. Advances-pure))
        (At-of (
          Advances-with_fuel _
            (λ m le. array_loop-Advances first.position (suc m) m no_nodes (omega arith)))))

  object_key-Advances : {n : ℕ} (k : Token) → At k d n 0 (object_key expr k)
  unfolding object_key
  object_key-Advances {n} k = At-look 1 (λ after.
      At-when _ (λ h. At-over (both-Live TokenKind.string k _ h refl) (λ _. Advances-pure))
        (At-of (Advances-weaken (ok 0 n))))

  object_loop-Advances :
      (position : Position) (fuel n : ℕ) (pairs : Pairs)
      → n < fuel
      → Advances d n 0 (object_loop expr position fuel pairs)
  unfolding object_loop
  object_loop-Advances position zero n pairs lt = absurd (omega arith)
  object_loop-Advances position (suc fuel) n pairs lt = Advances-peek (λ k.
      At-bind (object_key-Advances k) (λ _ key.
        Advances-bind (expect-Advances TokenKind.colon refl) (λ le _.
          Advances-bind (ok 0 _) (λ le' val. Advances-peek (λ t.
            At-kind TokenKind.rbrace refl (λ live. At-over live (λ _. Advances-pure))
              (At-kind TokenKind.comma refl
                (λ live. At-over live (λ _. Advances-peek (λ u.
                  At-when _ (λ _. At-failed)
                    (At-of (object_loop-Advances position fuel _ _ (omega arith))))))
                At-failed))))))

  pub object_rest-Advances : (n : ℕ) (first : Token) → Advances d n 0 (object_rest expr first)
  unfolding object_rest
  object_rest-Advances n first = Advances-peek (λ t.
      At-kind TokenKind.rbrace refl (λ live. At-over live (λ _. Advances-pure))
        (At-of (
          Advances-with_fuel _
            (λ m le. object_loop-Advances first.position (suc m) m no_pairs (omega arith)))))

  argument-Advances : (n : ℕ) → Advances d n 1 (argument expr)
  unfolding argument
  argument-Advances n = Advances-peek (λ t.
      At-when _ (λ h. At-bind (At-take (is_op-Live t _ h)) (λ _ p. Advances-pure))
        (At-of (Advances-bind (ok 0 n) (λ _ item. Advances-pure))))

  arguments_end-Advances :
      (n : ℕ) (arguments : Nodes) (partial : Bool)
      → Advances d n 0 (arguments_end arguments partial)
  arguments_end-Advances n arguments partial =
      Advances-peek
        (λ t. At-look 1 (λ t1. At-look 2 (λ t2. At-when _ (λ _. At-failed) (At-of Advances-pure))))

  arguments_loop-Advances :
      (fuel n : ℕ) (arguments : Nodes) (partial : Bool)
      → n < fuel
      → Advances d n 0 (arguments_loop expr fuel arguments partial)
  unfolding arguments_loop
  arguments_loop-Advances zero n arguments partial lt = absurd (omega arith)
  arguments_loop-Advances (suc fuel) n arguments partial lt =
      Advances-bind (argument-Advances n) (λ le (item, blank). Advances-peek (λ t.
        At-kind TokenKind.comma refl
          (λ live. At-over live (λ _. arguments_loop-Advances fuel _ _ _ (omega arith)))
          (At-of (arguments_end-Advances _ _ _))))

  pub call_arguments-Advances : (n : ℕ) → Advances d n 0 (call_arguments expr)
  unfolding call_arguments
  call_arguments-Advances n = Advances-peek (λ t.
      At-when _ (λ _. At-of Advances-pure)
        (At-of (
          Advances-with_fuel _
            (λ m le. arguments_loop-Advances (suc m) m no_nodes false (omega arith)))))

  pub binding-Advances :
      (n : ℕ) (left : Node) (operator : Token) → Advances d n 0 (binding left operator)
  unfolding binding
  binding-Advances n left operator = Advances-peek (λ t.
      At-kind TokenKind.dollar refl
        (λ live. At-over live (λ _.
          Advances-bind Advances-take (λ _ name. Advances-when _ Advances-pure Advances-failed)))
        At-failed)

  pub lambda-Advances :
      (n : ℕ) (arguments : Nodes) (position : Position)
      → Advances d n 0 (lambda expr arguments position)
  unfolding lambda
  lambda-Advances n arguments position =
      Advances-bind (parameters_of-Advances 0 position arguments) (λ _ params.
        Advances-bind optional_signature-Advances (λ _ signature.
          Advances-bind (expect-Advances TokenKind.lbrace refl) (λ _ _.
            Advances-bind (ok 0 _) (λ _ body.
              Advances-bind (expect-Advances TokenKind.rbrace refl) (λ _ _. Advances-pure)))))
