-- ===== src/Syntax/Expression/Depth.antt =====
-- internal/syntax/lexer.go: the limit of nested expressions.
use jsonata_go.Prelude.{
  ℕ, zero, suc, ◌+◌, ◌<◌, ◌≡◌, refl, ap, true, false, List, [], ◌∷◌, Text, codes, ltb, length,
  arith,
}
use jsonata_go.Syntax.{TokenKind, Token, LiteralValue, Position, ErrorCode, ParseError, Node}
use jsonata_go.Syntax.State.{
  P, Parser, done, failed, out_of_fuel, ◌>>=◌, look_at, when◌then◌else◌, error_at, fail_here,
  take_token, parents_ahead,
}
use jsonata_go.Syntax.Prefix.{prefix, prefix_of, prefix_group, group_rest}
use jsonata_go.Syntax.Expression.{
  expression, level, nested, max_depth, left_again, full_fuel, whole, parser_on,
}

abbrev pub group_token : Position → Token
group_token position = record {
  kind = TokenKind.lparen;
  text = codes "(";
  position = position;
  value = LiteralValue.nothing;
}

-- Open parentheses at the positions.
abbrev pub opened : List Position → List Token → List Token
opened [] rest = rest
opened (p ∷ ps) rest = group_token p ∷ opened ps rest

abbrev pub too_deep : Position → ParseError
too_deep p = error_at ErrorCode.s1001 (group_token p)

bind-failed :
    {A B : Type 0} (m : P A) (f : A → P B) {s : Parser} {e : ParseError}
    → m s ≡ failed e
    → (m >>= f) s ≡ failed e
unfolding ◌>>=◌
bind-failed m f h =
    ap (λ r. elim r [ done (a, s) ↦ f a s | failed e ↦ failed e | out_of_fuel ↦ out_of_fuel ]) h

within_limit : (d k : ℕ) → d + suc k ≡ max_depth → ltb max_depth (d + 1) ≡ false
within_limit d k = ground arith

at_limit : (d : ℕ) → d + 0 ≡ max_depth → ltb max_depth (d + 1) ≡ true
at_limit d = ground arith

module _ (source : Text) (p : Position) (rest : List Token) where
  prefix-opened :
      (expr : ℕ → P Node) (d : ℕ) (b : List Token) (q : Position) (ps : List Position)
      → expr 0 (record {
        behind = group_token q ∷ b;
        ahead = opened ps (group_token p ∷ rest);
        depth = d;
        source = source;
      })
        ≡ failed (too_deep p)
      → prefix expr (record {
        behind = b;
        ahead = group_token q ∷ opened ps (group_token p ∷ rest);
        depth = d;
        source = source;
      })
        ≡ failed (too_deep p)
  unfolding prefix prefix_of prefix_group group_rest take_token ◌>>=◌ look_at when◌then◌else◌
      parents_ahead
  prefix-opened expr d b q [] h = bind-failed (expr 0) _ h
  prefix-opened expr d b q (q' ∷ ps) h = bind-failed (expr 0) _ h

  limit_error :
      (d : ℕ) (b : List Token)
      → fail_here {A = Node} ErrorCode.s1001
          (record { behind = b; ahead = group_token p ∷ rest; depth = d; source = source })
        ≡ failed (too_deep p)
  unfolding ◌>>=◌ look_at
  limit_error d b = refl

  expression-opened :
      (ps : List Position) (fuel d : ℕ) (b : List Token)
      → d + length ps ≡ max_depth
      → length ps < fuel
      → expression fuel 0 (record {
        behind = b;
        ahead = opened ps (group_token p ∷ rest);
        depth = d;
        source = source;
      })
        ≡ failed (too_deep p)
  unfolding expression level nested
  expression-opened ps zero d b limit lt = absurd (omega arith)
  expression-opened [] (suc fuel) d b limit lt = rw (at_limit d limit) (limit_error d b)
  expression-opened (q ∷ ps) (suc fuel) d b limit lt = rw (within_limit d (length ps) limit) (
      ap (λ r. elim r [ done r ↦ left_again r | failed e ↦ failed e | out_of_fuel ↦ out_of_fuel ])
        (bind-failed {B = Node} (prefix (expression fuel)) _ (
          prefix-opened (expression fuel) (d + 1) b q ps
            (expression-opened ps fuel (d + 1) (group_token q ∷ b) (omega arith) (omega arith)))))

  -- Behind 512 open parentheses at any positions, one more is the error S1001 at that parenthesis,
  -- whatever follows it.
  pub whole-opened :
      (ps : List Position)
      → length ps ≡ max_depth
      → whole (parser_on source (opened ps (group_token p ∷ rest))) ≡ failed (too_deep p)
  unfolding whole
  whole-opened ps many =
      bind-failed {B = Node} (expression full_fuel 0) _
        (expression-opened ps full_fuel 0 [] (omega arith) (omega arith))
