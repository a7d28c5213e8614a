-- ===== src/Syntax/Lex/PatternsRun.antt =====
-- internal/syntax/lexer.go: `next` ends within its fuel and takes a byte of what is not the end; part.
use mathlib.Core.Bool.{true≢false}
use jsonata_go.Prelude.{
  ℕ, zero, suc, ◌+◌, ◌≤◌, ◌<◌, ◌≡◌, ◌≢◌, refl, sym, ap, ◌∙◌, Bool, true, false, [], ◌∷◌, Text,
  Option, none, some, length, drop, leb, leb→le, arith, if◌then◌else◌,
}
use jsonata_go.Syntax.{Position, ErrorCode}
use jsonata_go.Syntax.Lex.{Lexer, when◌then◌else◌, is_empty, position_of}
use jsonata_go.Syntax.Lex.Texts.{advance_to, is_flag, regex_token, regex_literal, regex_end}
use jsonata_go.Syntax.Lex.Placed.{total-Reached}
use jsonata_go.Syntax.Lex.Moves.{
  Runs, Live, Runs-pure, Runs-failed, Runs-when, Runs-option, Runs-before, Runs-ahead, Runs-pos,
  Runs-text, Runs-with_fuel, Runs-bind, Runs-advance, skip_while-Runs,
}

none≢some : {n : ℕ} → none ≢ some n
none≢some e = true≢false (ap (λ o. elim o [ none ↦ true | some i ↦ false ]) e)

abbrev or_zero : Option ℕ → ℕ
or_zero none = 0
or_zero (some n) = n

bound_suc :
    (o : Option ℕ) (m n : ℕ)
    → ((i : ℕ) → o ≡ some i → i < m)
    → elim o [ none ↦ none | some i ↦ some (suc i) ] ≡ some n
    → n < suc m
bound_suc none m n h e = absurd (none≢some e)
bound_suc (some i) m n h e = omega (arith, h i refl, ap (or_zero) e)

bound_zero : (n m : ℕ) → some 0 ≡ some n → n < suc m
bound_zero n m e = omega (arith, ap or_zero e)

bound_if :
    (b : Bool) (x y : Option ℕ) (n m : ℕ)
    → (if b then x else y) ≡ some n
    → (x ≡ some n → n < suc m)
    → (y ≡ some n → n < suc m)
    → n < suc m
bound_if true x y n m h hx hy = hx h
bound_if false x y n m h hx hy = hy h

regex_end-bound :
    (cs : Text) (skip : ℕ) (before : Text) (depth : ℕ × ℕ) (n : ℕ)
    → regex_end skip before depth cs ≡ some n
    → n < length cs
unfolding regex_end
regex_end-bound [] skip before depth n h = absurd (none≢some h)
regex_end-bound (c ∷ cs) (suc skip) before depth n h =
    bound_suc _ (length cs) n (λ i. regex_end-bound cs skip (c ∷ before) depth i) h
regex_end-bound (c ∷ cs) zero before (opened, closed) n h =
    bound_if _ _ _ n (length cs) h (bound_zero n (length cs))
      (bound_suc _ (length cs) n (λ i. regex_end-bound cs _ (c ∷ before) _ i))

advance_to-Runs :
    (end fuel : ℕ) (l : Lexer)
    → length l.ahead < fuel
    → end < length l.before + length l.ahead
    → Runs l 0 (advance_to end fuel)
unfolding advance_to
advance_to-Runs end zero l lt le = absurd (omega arith)
advance_to-Runs end (suc fuel) l lt le = Runs-pos _ (
    Runs-when _
      (λ h.
        Runs-bind (Runs-advance {l = l} (live_of l.ahead (length l.before) (leb→le _ _ h) le))
          (λ _ l' far near.
            advance_to-Runs end fuel l' (omega arith) (omega (arith, total-Reached far))))
      (λ _. Runs-pure))
  where
    live_of : (ts : Text) (b : ℕ) → b ≤ end → end < b + length ts → is_empty ts ≡ false
    live_of [] b h h' = absurd (omega arith)
    live_of (c ∷ cs) b h h' = refl

advance_to-Runs_some :
    (end fuel : ℕ) (l : Lexer)
    → length l.ahead ≤ fuel
    → length l.before ≤ end
    → end < length l.before + length l.ahead
    → Runs l 1 (advance_to end (suc fuel))
unfolding advance_to
advance_to-Runs_some end fuel l lt low le = Runs-pos _ (
    Runs-when _
      (λ h.
        Runs-bind (Runs-advance {l = l} (live_of l.ahead (length l.before) low le))
          (λ _ l' far near.
            advance_to-Runs end fuel l' (omega arith) (omega (arith, total-Reached far))))
      (λ h. absurd (true≢false (sym (le→leb _ _ low) ∙ h))))
  where
    live_of : (ts : Text) (b : ℕ) → b ≤ end → end < b + length ts → is_empty ts ≡ false
    live_of [] b h h' = absurd (omega arith)
    live_of (c ∷ cs) b h h' = refl

    le→leb : (a b : ℕ) → a ≤ b → leb a b ≡ true
    le→leb a b = ground arith

regex_token-Runs :
    (compile : Text → Option ErrorCode) (l : Lexer) (start : Position) (end : ℕ)
    → length l.before ≤ end
    → end < length l.before + length l.ahead
    → Runs l 1 (regex_token compile start end)
unfolding regex_token
regex_token-Runs compile l start end low high =
    Runs-bind
      (Runs-with_fuel _ (advance_to-Runs_some end (length l.ahead) l (omega arith) low high))
      (λ _ l1 _ _. Runs-bind (skip_while-Runs is_flag refl l1) (λ _ l2 _ _.
        Runs-text start.byte
          (λ literal. Runs-option (compile literal) (λ _. Runs-pure) (λ code _. Runs-failed))))

pub regex_literal-Runs :
    (compile : Text → Option ErrorCode) (l : Lexer)
    → Live l
    → Runs l 1 (regex_literal compile (position_of l))
unfolding regex_literal
regex_literal-Runs compile l live = Runs-before _ (
    Runs-ahead _ (
      Runs-option (regex_end 0 (b'/' ∷ l.before) (0, 0) (drop 1 l.ahead)) (λ _. Runs-failed)
        (λ n found. regex_token-Runs compile l (position_of l) _ (omega arith) (
          inside l.ahead live n
            (regex_end-bound (drop 1 l.ahead) 0 (b'/' ∷ l.before) (0, 0) n found)))))
  where
    inside :
        (ts : Text)
        → is_empty ts ≡ false
        → (n : ℕ) → n < length (drop 1 ts)
        → length l.before + 1 + n < length l.before + length ts
    inside [] live n h = absurd (true≢false live)
    inside (c ∷ cs) live n h = omega arith
