-- ===== src/Syntax/Lex/TextsRun.antt =====
-- internal/syntax/lexer.go: `next` ends within its fuel and takes a byte of what is not the end; part.
use jsonata_go.Prelude.{ℕ, zero, suc, ◌<◌, Bool, true, false, Text, length, arith}
use jsonata_go.Unicode.{Unicode}
use jsonata_go.Syntax.{Position}
use jsonata_go.Syntax.Quoted.{decode_quoted_string}
use jsonata_go.Syntax.Lex.{Lexer}
use jsonata_go.Syntax.Lex.Texts.{
  closed_string, unclosed_string, quoted_loop, backtick_loop, string_token,
}
use jsonata_go.Syntax.Lex.Moves.{
  Runs, Live, Runs-pure, Runs-failed, Runs-when, Runs-option, Runs-peek, Runs-at_end, Runs-before,
  Runs-pos, Runs-text, Runs-with_fuel, Runs-bind, Runs-advance,
}

closed_string-Runs :
    (l : Lexer) (start : Position) (quote : ℕ) (content : Text)
    → Runs l 0 (closed_string start quote content)
unfolding closed_string
closed_string-Runs l start quote content =
    Runs-option (decode_quoted_string content) (λ _. Runs-failed) (λ s _. Runs-pure)

module _ (u : Unicode) (before : Text) (start : Position) (quote b : ℕ) where
  quoted_loop-Runs :
      (fuel : ℕ) (escaped : Bool) (l : Lexer)
      → length l.ahead < fuel
      → Runs l 0 (quoted_loop u before start quote b escaped fuel)
  unfolding quoted_loop unclosed_string
  quoted_loop-Runs zero escaped l lt = absurd (omega arith)
  quoted_loop-Runs (suc fuel) escaped l lt = Runs-at_end _ (
      Runs-peek _ (
        Runs-when _ (λ _. Runs-when _ (λ _. Runs-pure) (λ _. Runs-pos _ Runs-failed))
          (λ live. Runs-bind (Runs-advance live) (λ _ l' _ near.
            Runs-when _ (λ _. quoted_loop-Runs fuel false l' (omega arith))
              (λ _.
                Runs-when _ (λ _. quoted_loop-Runs fuel true l' (omega arith))
                  (λ _.
                    Runs-when _ (λ _. Runs-text b (λ content. closed_string-Runs l' start quote _))
                      (λ _. quoted_loop-Runs fuel false l' (omega arith))))))))

backtick_loop-Runs :
    (start : Position) (b fuel : ℕ) (l : Lexer)
    → length l.ahead < fuel
    → Runs l 0 (backtick_loop start b fuel)
unfolding backtick_loop
backtick_loop-Runs start b zero l lt = absurd (omega arith)
backtick_loop-Runs start b (suc fuel) l lt = Runs-at_end _ (
    Runs-peek _ (
      Runs-when _ (λ _. Runs-pos _ Runs-failed)
        (λ live. Runs-bind (Runs-advance live) (λ _ l' _ near.
          Runs-when _ (λ _. Runs-text b (λ s. Runs-pure))
            (λ _. backtick_loop-Runs start b fuel l' (omega arith))))))

pub string_token-Runs :
    (u : Unicode) (l : Lexer) (start : Position) (backtick : Bool)
    → Live l
    → Runs l 1 (string_token u start backtick)
unfolding string_token
string_token-Runs u l start backtick live = Runs-before _ (
    Runs-bind (Runs-advance live) (λ quote l' _ _. Runs-pos _ (
      Runs-when _ (λ _. Runs-with_fuel _ (backtick_loop-Runs start _ _ l' (omega arith)))
        (λ _. Runs-with_fuel _ (quoted_loop-Runs u _ start quote _ _ false l' (omega arith))))))
