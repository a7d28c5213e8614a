-- ===== src/Syntax/Lex/NumbersRun.antt =====
-- internal/syntax/lexer.go: `next` ends within its fuel and takes a byte of what is not the end; part.
use jsonata_go.Prelude.{left_of, ℕ, ◌≡◌, refl, Bool, true, false, ◌||◌, ◌==◌, if◌then◌else◌}
use jsonata_go.Unicode.{Unicode}
use jsonata_go.Utf8.{decode_rune, rune_error}
use jsonata_go.Syntax.{Position}
use jsonata_go.Syntax.Lex.{Lexer, when◌then◌else◌}
use jsonata_go.Syntax.Lex.Numbers.{
  word, base_number, some_digits, integer_part, fraction_part, exponent_part, decimal_number,
  unsigned_number, number, is_base_digit, is_word_rune,
}
use jsonata_go.Syntax.Lex.Moves.{
  Runs, Live, Runs-pure, Runs-failed, Runs-when, Runs-peek, Runs-byte_at, Runs-pos, Runs-text,
  Runs-weaken, Runs-bind, Runs-advance, Runs-advance_any, Live-rune, skip_while-Runs,
  skip_while-Runs_some,
}

module _ (u : Unicode) (letter : u.is_letter rune_error ≡ false)
    (digit : u.is_digit rune_error ≡ false) where
  pub word-Runs :
      (l : Lexer) (start : Position)
      → is_word_rune u (decode_rune l.ahead).0 ≡ true
      → Runs l 1 (word u start)
  unfolding word
  word-Runs l start h =
      Runs-bind (skip_while-Runs_some (is_word_rune u) never l h)
        (λ _ l' _ near. Runs-text start.byte (λ s. Runs-pure))
    where
      never : is_word_rune u rune_error ≡ false
      never = rw (letter, digit) refl

  base_digit-never : (mark : ℕ) → is_base_digit u mark rune_error ≡ false
  base_digit-never mark = neither (mark == b'b' || mark == b'B') _ _ refl (
      neither (mark == b'o' || mark == b'O') _ (u.is_digit rune_error || false || false) refl
        (rw digit refl))
    where
      neither : (b x y : Bool) → x ≡ false → y ≡ false → (if b then x else y) ≡ false
      neither true x y hx hy = hx
      neither false x y hx hy = hy

  some_digits-Runs : (l : Lexer) (start : Position) → Runs l 0 (some_digits u start)
  unfolding some_digits
  some_digits-Runs l start = Runs-peek _ (
      Runs-when _ (λ h. skip_while-Runs u.is_digit digit l)
        (λ h. Runs-text start.byte (λ s. Runs-failed)))

  base_number-Runs :
      (l : Lexer) (start : Position) (mark : ℕ) → Live l → Runs l 1 (base_number u start mark)
  unfolding base_number
  base_number-Runs l start mark live = Runs-bind (Runs-advance live) (λ _ l1 _ _.
      Runs-bind Runs-advance_any (λ _ l2 _ _. Runs-pos _ (
        Runs-bind (skip_while-Runs (is_base_digit u mark) (base_digit-never mark) l2) (λ _ l3 _ _.
          Runs-pos _
            (Runs-text start.byte (λ s. Runs-when _ (λ _. Runs-failed) (λ _. Runs-pure)))))))

  -- A first digit that is taken.
  integer_part-Runs : (l : Lexer) (start : Position) → Runs l 1 (integer_part u start)
  unfolding integer_part some_digits
  integer_part-Runs l start = Runs-peek _ (
      Runs-when _
        (λ h.
          Runs-bind (Runs-advance (Live-rune (λ r. r == b'0') l.ahead refl h))
            (λ _ l' _ _. Runs-pure))
        (λ _. Runs-peek _ (
          Runs-when _ (λ h. skip_while-Runs_some u.is_digit digit l h)
            (λ _. Runs-text start.byte (λ s. Runs-failed)))))

  fraction_part-Runs : (l : Lexer) (start : Position) → Runs l 0 (fraction_part u start)
  unfolding fraction_part
  fraction_part-Runs l start = Runs-peek _ (
      Runs-byte_at 1 (λ next.
        Runs-when _ (λ _. Runs-bind Runs-advance_any (λ _ l' _ _. some_digits-Runs l' start))
          (λ _. Runs-pure)))

  exponent_part-Runs : (l : Lexer) (start : Position) → Runs l 0 (exponent_part u start)
  unfolding exponent_part
  exponent_part-Runs l start = Runs-peek _ (
      Runs-when _
        (λ _. Runs-bind Runs-advance_any (λ _ l' _ _. Runs-peek _ (
          Runs-when _ (λ _. Runs-bind Runs-advance_any (λ _ l'' _ _. some_digits-Runs l'' start))
            (λ _. some_digits-Runs l' start))))
        (λ _. Runs-pure))

  unsigned_number-Runs : (l : Lexer) (start : Position) → Runs l 1 (unsigned_number u start)
  unfolding unsigned_number decimal_number
  unsigned_number-Runs l start = Runs-peek _ (
      Runs-byte_at 1 (λ mark.
        Runs-when _
          (λ h.
            base_number-Runs l start mark (Live-rune (λ r. r == b'0') l.ahead refl (left_of _ _ h)))
          (λ _. Runs-bind (integer_part-Runs l start) (λ _ l1 _ _.
            Runs-bind (fraction_part-Runs l1 start) (λ _ l2 _ _.
              Runs-bind (exponent_part-Runs l2 start) (λ _ l3 _ _.
                Runs-text start.byte (λ s. Runs-when _ (λ _. Runs-pure) (λ _. Runs-failed))))))))

  pub number-Runs : (l : Lexer) (start : Position) → Runs l 1 (number u start)
  unfolding number
  number-Runs l start = Runs-peek _ (
      Runs-when _
        (λ h.
          Runs-bind (Runs-advance (Live-rune (λ r. r == b'-') l.ahead refl h))
            (λ _ l' _ _. Runs-weaken (unsigned_number-Runs l' start)))
        (λ _. unsigned_number-Runs l start))
