-- ===== src/Syntax/Lex/SymbolsRun.antt =====
-- internal/syntax/lexer.go: `next` ends within its fuel and takes a byte of what is not the end; part.
use jsonata_go.Prelude.{ℕ, zero, suc, ◌<◌, false, length, arith}
use jsonata_go.Unicode.{Unicode}
use jsonata_go.Syntax.{Position}
use jsonata_go.Syntax.Lex.{Lexer}
use jsonata_go.Syntax.Lex.Next.{
  comment_loop, comment, skip_loop, two_byte_operators, first_prefix, single_kind, single,
  symbol_token, dollar_token, quote_token,
}
use jsonata_go.Syntax.Lex.Moves.{
  Runs, Live, Runs-pure, Runs-failed, Runs-when, Runs-option, Runs-peek, Runs-at_end, Runs-byte_at,
  Runs-before, Runs-ahead, Runs-pos, Runs-with_fuel, Runs-bind, Runs-advance, Runs-advance_any,
}
use jsonata_go.Syntax.Lex.TextsRun.{string_token-Runs}

comment_loop-Runs :
    (start : Position) (fuel : ℕ) (l : Lexer)
    → length l.ahead < fuel
    → Runs l 0 (comment_loop start fuel)
unfolding comment_loop
comment_loop-Runs start zero l lt = absurd (omega arith)
comment_loop-Runs start (suc fuel) l lt = Runs-at_end _ (
    Runs-peek _ (
      Runs-byte_at 1 (λ next.
        Runs-when _ (λ _. Runs-failed)
          (λ live.
            Runs-when _
              (λ _.
                Runs-bind (Runs-advance live)
                  (λ _ l1 _ _. Runs-bind Runs-advance_any (λ _ l2 _ _. Runs-pure)))
              (λ _.
                Runs-bind (Runs-advance {l = l} live)
                  (λ _ l' _ near. comment_loop-Runs start fuel l' (omega arith)))))))

comment-Runs : (l : Lexer) → Live l → Runs l 1 comment
unfolding comment
comment-Runs l live = Runs-pos _ (
    Runs-bind (Runs-advance live) (λ _ l1 _ _. Runs-bind Runs-advance_any (λ _ l2 _ _.
      Runs-with_fuel _ (comment_loop-Runs _ (suc (length l2.ahead)) l2 (omega arith)))))

pub skip_loop-Runs :
    (u : Unicode) (fuel : ℕ) (l : Lexer) → length l.ahead < fuel → Runs l 0 (skip_loop u fuel)
unfolding skip_loop
skip_loop-Runs u zero l lt = absurd (omega arith)
skip_loop-Runs u (suc fuel) l lt = Runs-at_end _ (
    Runs-peek _ (
      Runs-byte_at 1 (λ next.
        Runs-when _ (λ _. Runs-pure)
          (λ live.
            Runs-when _
              (λ _.
                Runs-bind (Runs-advance live)
                  (λ _ l' _ near. skip_loop-Runs u fuel l' (omega arith)))
              (λ _.
                Runs-when _
                  (λ _.
                    Runs-bind (comment-Runs l live)
                      (λ _ l' _ near. skip_loop-Runs u fuel l' (omega arith)))
                  (λ _. Runs-pure))))))

pub symbol_token-Runs :
    (l : Lexer) (start : Position) (r : ℕ) → Live l → Runs l 1 (symbol_token start r)
unfolding symbol_token single
symbol_token-Runs l start r live = Runs-ahead _ (
    Runs-option (first_prefix two_byte_operators l.ahead)
      (λ _.
        Runs-bind (Runs-advance live)
          (λ _ l1 _ _. Runs-option (single_kind r) (λ _. Runs-failed) (λ kind _. Runs-pure)))
      (λ op _.
        Runs-bind (Runs-advance live)
          (λ _ l1 _ _. Runs-bind Runs-advance_any (λ _ l2 _ _. Runs-pure))))

pub dollar_token-Runs : (l : Lexer) (start : Position) → Live l → Runs l 1 (dollar_token start)
unfolding dollar_token
dollar_token-Runs l start live = Runs-bind (Runs-advance live) (λ _ l' _ _.
    Runs-peek _
      (Runs-when _ (λ _. Runs-bind Runs-advance_any (λ _ l'' _ _. Runs-pure)) (λ _. Runs-pure)))

pub quote_token-Runs :
    (u : Unicode) (l : Lexer) (start : Position) → Live l → Runs l 1 (quote_token u start)
unfolding quote_token
quote_token-Runs u l start live = Runs-before _ (
    Runs-when _ (λ _. Runs-bind (Runs-advance live) (λ _ l' _ _. Runs-pure))
      (λ _. string_token-Runs u l start false live))
