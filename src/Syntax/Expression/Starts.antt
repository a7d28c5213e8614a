-- ===== src/Syntax/Expression/Starts.antt =====
-- internal/syntax/lexer.go: `prefix` keeps within its fuel, if expressions do.
use jsonata_go.Prelude.{ℕ, zero, suc, ◌<◌, refl, sym, false, subst, arith}
use jsonata_go.Syntax.{TokenKind, Token, Position, Node, absent, Nodes, no_nodes, one_node}
use jsonata_go.Syntax.State.{P}
use jsonata_go.Syntax.Within.{
  Within, Advances, Advances-failed, Advances-when, At-of, At-when, Advances-bind, Advances-peek,
  At-look, Advances-look, Advances-with_fuel, At-take, Advances-pure, Advances-take,
}
use jsonata_go.Syntax.Advance.{
  At-kind, At-failed, At-over, Advances-behind, Advances-start, is_op-Live, Advances-weaken,
  expect-Advances, At-parents,
}
use jsonata_go.Syntax.Postfix.{postfix_node}
use jsonata_go.Syntax.Prefix.{
  take_bar, optional_delete, transform, comma_loop, semicolon_loop, group_of, take_parents,
  group_rest, parents_group, prefix_group, prefix_dollar, prefix_operator, prefix_of, prefix,
}
use jsonata_go.Syntax.Expression.ItemsAdvance.{array_rest-Advances, object_rest-Advances}
use jsonata_go.Syntax.Expression.Parts.{postfix-Advances}

take_bar-Advances : {d n : ℕ} → Advances d n 1 take_bar
unfolding take_bar
take_bar-Advances = Advances-peek (λ t. At-when _ (λ h. At-take (is_op-Live t _ h)) At-failed)

module _ {d : ℕ} (expr : ℕ → P Node) (ok : (min n : ℕ) → Advances d n 1 (expr min)) where
  optional_delete-Advances : (n : ℕ) → Advances d n 0 (optional_delete expr)
  unfolding optional_delete
  optional_delete-Advances n = Advances-peek (λ t.
      At-kind TokenKind.comma refl (λ live. At-over live (λ _. Advances-weaken (ok 0 _)))
        (At-of Advances-pure))

  transform-Advances : (n : ℕ) (first : Token) → Advances d n 0 (transform expr first)
  unfolding transform
  transform-Advances n first = Advances-bind (ok 0 n) (λ _ path.
      Advances-bind take_bar-Advances (λ _ _. Advances-bind (ok 0 _) (λ _ update.
        Advances-bind (optional_delete-Advances _)
          (λ _ delete. Advances-bind take_bar-Advances (λ _ _. postfix-Advances expr ok _ _)))))

  comma_loop-Advances :
      (fuel n : ℕ) (items : Nodes) → n < fuel → Advances d n 0 (comma_loop expr fuel items)
  unfolding comma_loop
  comma_loop-Advances zero n items lt = absurd (omega arith)
  comma_loop-Advances (suc fuel) n items lt = Advances-peek (λ t.
      At-kind TokenKind.comma refl
        (λ live.
          At-over live
            (λ le. Advances-bind (ok 0 _) (λ _ item. comma_loop-Advances fuel _ _ (omega arith))))
        (At-of Advances-pure))

  semicolon_loop-Advances :
      (fuel n : ℕ) (items : Nodes) → n < fuel → Advances d n 0 (semicolon_loop expr fuel items)
  unfolding semicolon_loop
  semicolon_loop-Advances zero n items lt = absurd (omega arith)
  semicolon_loop-Advances (suc fuel) n items lt = Advances-peek (λ t.
      At-kind TokenKind.semicolon refl
        (λ live. At-over live (λ le. Advances-peek (λ u.
          At-when _ (λ _. At-of Advances-pure)
            (At-of (
              Advances-bind (ok 0 _) (λ _ item. semicolon_loop-Advances fuel _ _ (omega arith)))))))
        (At-of Advances-pure))

  group_of-Advances :
      (n : ℕ) (position : Position) (node : Node) → Advances d n 0 (group_of expr position node)
  unfolding group_of
  group_of-Advances n position node = Advances-peek (λ t.
      At-when _
        (λ _. At-of (
          Advances-bind
            (Advances-with_fuel _
              (λ m le. comma_loop-Advances (suc m) m (one_node node no_nodes) (omega arith)))
            (λ _ items. Advances-pure)))
        (At-when _
          (λ _. At-of (
            Advances-bind
              (Advances-with_fuel _
                (λ m le. semicolon_loop-Advances (suc m) m (one_node node no_nodes) (omega arith)))
              (λ _ items. Advances-pure)))
          (At-of (Advances-when _ Advances-pure Advances-pure))))

  take_parents-Advances : (count n : ℕ) (node : Node) → Advances d n 0 (take_parents count node)
  unfolding take_parents
  take_parents-Advances zero n node = Advances-pure
  take_parents-Advances (suc count) n node =
      Advances-bind Advances-take (λ _ part. take_parents-Advances count _ _)

  group_rest-Advances : (n : ℕ) (first : Token) → Advances d n 0 (group_rest expr first)
  unfolding group_rest
  group_rest-Advances n first = Advances-bind (ok 0 n) (λ _ node.
      Advances-bind (group_of-Advances _ first.position node) (λ _ group.
        Advances-bind (expect-Advances TokenKind.rparen refl)
          (λ _ _. postfix-Advances expr ok _ _)))

  parents_group-Advances : (n count : ℕ) → Advances d n 0 (parents_group expr count)
  unfolding parents_group
  parents_group-Advances n count = Advances-when _ (Advances-look 1 (λ _. Advances-failed)) (
      Advances-bind (take_parents-Advances count _ absent)
        (λ _ node. Advances-bind Advances-take (λ _ _. postfix-Advances expr ok _ _)))

  prefix_group-Advances : (n : ℕ) (first : Token) → Advances d n 0 (prefix_group expr first)
  unfolding prefix_group
  prefix_group-Advances n first = Advances-peek (λ t. At-parents (λ count. At-look count (λ behind.
      At-kind TokenKind.rparen refl (λ live. At-over live (λ _. postfix-Advances expr ok _ _))
        (At-of (Advances-when _ (parents_group-Advances n count) (group_rest-Advances n first))))))

  prefix_dollar-Advances : (n : ℕ) (first : Token) → Advances d n 0 (prefix_dollar expr first)
  unfolding prefix_dollar
  prefix_dollar-Advances n first = Advances-peek (λ t.
      At-kind TokenKind.identifier refl (λ live. At-over live (λ _. postfix-Advances expr ok _ _))
        (At-of (postfix-Advances expr ok _ _)))

  after : {n : ℕ} (node : Node) → Advances d n 0 (postfix_node expr false node)
  after node = postfix-Advances expr ok false node

  prefix_operator-Advances : (n : ℕ) (t : Token) → Advances d n 0 (prefix_operator expr t)
  unfolding prefix_operator
  prefix_operator-Advances n t = Advances-bind Advances-behind (λ _ behind.
      Advances-when _ (after _) (
        Advances-when _ Advances-failed (
          Advances-when _ Advances-failed (
            Advances-when _ (Advances-bind (ok 13 _) (λ _ operand. postfix-Advances expr ok _ _)) (
              Advances-when _ (after _) (
                Advances-when _ (after _) (
                  Advances-when _ (transform-Advances _ t)
                    (Advances-when _ (after _) Advances-failed))))))))

  prefix_of-Advances :
      (n : ℕ) (t : Token) (kind : TokenKind) → Advances d n 0 (prefix_of expr t kind)
  unfolding prefix_of
  prefix_of-Advances n t TokenKind.eof = Advances-failed
  prefix_of-Advances n t TokenKind.identifier =
      Advances-when _ (postfix-Advances expr ok _ _) (postfix-Advances expr ok _ _)
  prefix_of-Advances n t TokenKind.dollar = prefix_dollar-Advances n t
  prefix_of-Advances n t TokenKind.lparen = prefix_group-Advances n t
  prefix_of-Advances n t TokenKind.lbracket =
      Advances-bind (array_rest-Advances expr ok n t) (λ _ node. postfix-Advances expr ok _ _)
  prefix_of-Advances n t TokenKind.lbrace =
      Advances-bind (object_rest-Advances expr ok n t) (λ _ node. postfix-Advances expr ok _ _)
  prefix_of-Advances n t TokenKind.operator = prefix_operator-Advances n t
  prefix_of-Advances n t TokenKind.colon = Advances-failed
  prefix_of-Advances n t TokenKind.string = postfix-Advances expr ok _ _
  prefix_of-Advances n t TokenKind.number = postfix-Advances expr ok _ _
  prefix_of-Advances n t TokenKind.regex = postfix-Advances expr ok _ _
  prefix_of-Advances n t TokenKind.true_word = postfix-Advances expr ok _ _
  prefix_of-Advances n t TokenKind.false_word = postfix-Advances expr ok _ _
  prefix_of-Advances n t TokenKind.null_word = postfix-Advances expr ok _ _
  prefix_of-Advances n t TokenKind.rbracket = Advances-failed
  prefix_of-Advances n t TokenKind.rbrace = Advances-failed
  prefix_of-Advances n t TokenKind.rparen = Advances-failed
  prefix_of-Advances n t TokenKind.comma = Advances-failed
  prefix_of-Advances n t TokenKind.semicolon = Advances-failed

  -- The end is taken as well, but then the parse fails.
  pub prefix-Advances : (n : ℕ) → Advances d n 1 (prefix expr)
  unfolding prefix
  prefix-Advances n =
      Advances-start (λ t. prefix_of expr t t.kind) (λ t live le. prefix_of-Advances _ t t.kind)
        (λ t s s' last. subst (λ kind. Within 1 s (prefix_of expr t kind s')) (sym last) tt)
