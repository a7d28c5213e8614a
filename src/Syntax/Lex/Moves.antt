-- ===== src/Syntax/Lex/Moves.antt =====
-- internal/syntax/lexer.go: what a step of the lexer leaves of the source.
-- `Runs l k m` is about the step `m` at `l`: it has an error, or it goes forward rune by rune over `k`
-- bytes at least.
use mathlib.Core.Bool.{true≢false}
use jsonata_go.Prelude.{
  ℕ, zero, suc, ◌+◌, ◌-◌, ◌≤◌, ◌<◌, ◌≡◌, refl, sym, ◌∙◌, Bool, true, false, [], ◌∷◌, Text, length,
  length-drop, arith, if◌then◌else◌, Option, none, some,
}
use jsonata_go.Utf8.{decode_rune, decode_rune_width, rune_error}
use jsonata_go.Syntax.{Position, ParseError}
use jsonata_go.Syntax.State.{Outcome, done, failed, out_of_fuel}
use jsonata_go.Syntax.Lex.{
  Lexer, L, ◌>>=◌, when◌then◌else◌, pure, fail_with, peek, at_end, byte_at, bytes_before,
  bytes_ahead, pos, position_of, nth_byte, is_empty, advance, passed, text_from, with_fuel,
  advance_while, skip_while,
}

-- The lexer behind the rune in front.
abbrev pub stepped : Lexer → Lexer
stepped l = passed (decode_rune l.ahead).0 (decode_rune l.ahead).1 l

pub data Reached (l : Lexer) : Lexer → Type 0 where
  here : Reached l l
  further : {l' : Lexer} → Reached l l' → is_empty l'.ahead ≡ false → Reached l (stepped l')

pub Reached-trans : {l l' l'' : Lexer} → Reached l l' → Reached l' l'' → Reached l l''
Reached-trans h here = h
Reached-trans h (further h' live) = further (Reached-trans h h') live

abbrev pub Within : {A : Type 0} → ℕ → Lexer → Outcome (A × Lexer) → Type 0
Within k l (done (a, l')) = Reached l l' × (length l'.ahead + k ≤ length l.ahead)
Within k l (failed e) = Unit
Within k l out_of_fuel = ⊥

pub record Runs {A : Type 0} (l : Lexer) (k : ℕ) (m : L A) : Type 0 where
  pub ran : Within k l (m l)

abbrev pub Live : Lexer → Type 0
Live l = is_empty l.ahead ≡ false

pub Runs-pure : {A : Type 0} {l : Lexer} {a : A} → Runs l 0 (pure a)
Runs-pure = record { ran = (here, omega arith) }

module _ {A : Type 0} {l : Lexer} {k : ℕ} where
  pub Runs-failed : {e : ParseError} → Runs {A = A} l k (fail_with e)
  Runs-failed = record { ran = tt }

  pub Runs-when :
      {x y : L A} (b : Bool)
      → (b ≡ true → Runs l k x)
      → (b ≡ false → Runs l k y)
      → Runs l k (when b then x else y)
  unfolding when◌then◌else◌
  Runs-when true hx hy = hx refl
  Runs-when false hx hy = hy refl

  pub Runs-option :
      {X : Type 0} {x : L A} {f : X → L A} (o : Option X)
      → (o ≡ none → Runs l k x)
      → ((v : X) → o ≡ some v → Runs l k (f v))
      → Runs l k (elim o [ none ↦ x | some v ↦ f v ])
  Runs-option none hx hf = hx refl
  Runs-option (some v) hx hf = hf v refl

  pub Runs-peek : (f : ℕ → L A) → Runs l k (f (decode_rune l.ahead).0) → Runs l k (peek >>= f)
  unfolding peek ◌>>=◌
  Runs-peek f h = record { ran = h.ran }

  pub Runs-at_end : (f : Bool → L A) → Runs l k (f (is_empty l.ahead)) → Runs l k (at_end >>= f)
  unfolding at_end ◌>>=◌
  Runs-at_end f h = record { ran = h.ran }

  pub Runs-byte_at : {f : ℕ → L A} (n : ℕ) → ((b : ℕ) → Runs l k (f b)) → Runs l k (byte_at n >>= f)
  unfolding byte_at ◌>>=◌
  Runs-byte_at n h = record { ran = (h (nth_byte n l.ahead)).ran }

  pub Runs-before : (f : Text → L A) → Runs l k (f l.before) → Runs l k (bytes_before >>= f)
  unfolding bytes_before ◌>>=◌
  Runs-before f h = record { ran = h.ran }

  pub Runs-ahead : (f : Text → L A) → Runs l k (f l.ahead) → Runs l k (bytes_ahead >>= f)
  unfolding bytes_ahead ◌>>=◌
  Runs-ahead f h = record { ran = h.ran }

  pub Runs-pos : (f : Position → L A) → Runs l k (f (position_of l)) → Runs l k (pos >>= f)
  unfolding pos ◌>>=◌
  Runs-pos f h = record { ran = h.ran }

  pub Runs-text :
      {f : Text → L A} (b : ℕ) → ((s : Text) → Runs l k (f s)) → Runs l k (text_from b >>= f)
  unfolding text_from ◌>>=◌
  Runs-text b h = record { ran = (h _).ran }

  pub Runs-with_fuel :
      (loop : ℕ → L A) → Runs l k (loop (suc (length l.ahead))) → Runs l k (with_fuel loop)
  unfolding with_fuel
  Runs-with_fuel loop h = record { ran = h.ran }

  pub Runs-weaken : {m : L A} → Runs l (suc k) m → Runs l k m
  Runs-weaken {m} h = record { ran = weaker (m l) h.ran }
    where
      weaker : (r : Outcome (A × Lexer)) → Within (suc k) l r → Within k l r
      weaker (done (a, l')) (far, near) = (far, omega arith)
      weaker (failed e) h = tt
      weaker out_of_fuel h = h

module _ {A B : Type 0} {l : Lexer} {j k : ℕ} where
  pub Runs-bind :
      {m : L A} {f : A → L B}
      → Runs l j m
      → ((a : A) (l' : Lexer)
          → Reached l l'
          → length l'.ahead + j ≤ length l.ahead
          → Runs l' (k - j) (f a))
      → Runs l k (m >>= f)
  unfolding ◌>>=◌
  Runs-bind {m} {f} first next = record { ran = bound (m l) first.ran }
    where
      chained :
          (l' : Lexer) (r : Outcome (B × Lexer))
          → Reached l l'
          → length l'.ahead + j ≤ length l.ahead
          → Within (k - j) l' r
          → Within k l r
      chained l' (done (b, l'')) far near (far', near') = (Reached-trans far far', omega arith)
      chained l' (failed e) far near h = tt
      chained l' out_of_fuel far near h = h

      bound :
          (r : Outcome (A × Lexer))
          → Within j l r
          → Within k l
              (elim r [ done (a, l') ↦ f a l' | failed e ↦ failed e | out_of_fuel ↦ out_of_fuel ])
      bound (done (a, l')) (far, near) = chained l' (f a l') far near (next a l' far near).ran
      bound (failed e) h = tt
      bound out_of_fuel h = h

rune_width : (ts : Text) → is_empty ts ≡ false → (1 ≤ (decode_rune ts).1) × (1 ≤ length ts)
rune_width [] h = absurd (true≢false h)
rune_width (c ∷ cs) h = ((decode_rune_width c cs).0, omega arith)

stepped-Within : (l : Lexer) → Live l → Within 1 l (done ((decode_rune l.ahead).0, stepped l))
stepped-Within l live =
    let (some_width, some_length) = rune_width l.ahead live in
    (further here live, omega (arith, length-drop (decode_rune l.ahead).1 l.ahead))

pub Runs-advance : {l : Lexer} → Live l → Runs l 1 advance
unfolding advance
Runs-advance {l} live = record { ran = rw live (stepped-Within l live) }

-- At the end nothing moves.
pub Runs-advance_any : {l : Lexer} → Runs l 0 advance
unfolding advance
Runs-advance_any {l} = record { ran = chosen (is_empty l.ahead) refl }
  where
    chosen :
        (ended : Bool)
        → is_empty l.ahead ≡ ended
        → Within 0 l
            (if ended then done (rune_error, l) else done ((decode_rune l.ahead).0, stepped l))
    chosen true same = (here, omega arith)
    chosen false same = (further here same, omega (arith, (stepped-Within l same).1))

pub Live-rune :
    (holds : ℕ → Bool) (ts : Text)
    → holds rune_error ≡ false
    → holds (decode_rune ts).0 ≡ true
    → is_empty ts ≡ false
unfolding decode_rune
Live-rune holds [] never h = absurd (true≢false (sym h ∙ never))
Live-rune holds (c ∷ cs) never h = refl

pub advance_while-Runs :
    (holds : ℕ → Bool)
    → holds rune_error ≡ false
    → (fuel : ℕ) (l : Lexer) → length l.ahead < fuel
    → Runs l 0 (advance_while holds fuel)
unfolding advance_while
advance_while-Runs holds never zero l lt = absurd (omega arith)
advance_while-Runs holds never (suc fuel) l lt = Runs-peek _ (
    Runs-when _
      (λ h.
        Runs-bind (Runs-advance (Live-rune holds l.ahead never h))
          (λ _ l' _ near. advance_while-Runs holds never fuel l' (omega arith)))
      (λ _. Runs-pure))

pub skip_while-Runs :
    (holds : ℕ → Bool) → holds rune_error ≡ false → (l : Lexer) → Runs l 0 (skip_while holds)
skip_while-Runs holds never l =
    Runs-with_fuel _ (advance_while-Runs holds never (suc (length l.ahead)) l (omega arith))

-- A first rune that is taken.
pub skip_while-Runs_some :
    (holds : ℕ → Bool)
    → holds rune_error ≡ false
    → (l : Lexer) → holds (decode_rune l.ahead).0 ≡ true
    → Runs l 1 (skip_while holds)
unfolding advance_while
skip_while-Runs_some holds never l h = Runs-with_fuel _ (
    Runs-peek _ (
      Runs-when _
        (λ h.
          Runs-bind (Runs-advance (Live-rune holds l.ahead never h))
            (λ _ l' _ near. advance_while-Runs holds never (length l.ahead) l' (omega arith)))
        (λ h'. absurd (true≢false (sym h ∙ h')))))
