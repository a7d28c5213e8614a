-- ===== src/Syntax/Within.antt =====
-- internal/syntax/lexer.go: what a step of the parser leaves of the tokens and of the depth; part.
use mathlib.Core.Bool.{true≢false}
use jsonata_go.Prelude.{
  ℕ, suc, ◌+◌, ◌-◌, ◌≤◌, ◌≡◌, refl, ap, ◌∙◌, Bool, true, false, List, [], ◌∷◌, length, arith,
}
use jsonata_go.Syntax.{TokenKind, Token, ParseError}
use jsonata_go.Syntax.State.{
  Parser, Outcome, done, failed, out_of_fuel, P, ◌>>=◌, pure, is_kind, nth_token, look_at,
  take_token, take_from, fail_with, with_fuel, when◌then◌else◌,
}

abbrev pub Within : {A : Type 0} → ℕ → Parser → Outcome (A × Parser) → Type 0
Within k s (done (a, s')) = (length s'.ahead + k ≤ length s.ahead) × (s'.depth ≡ s.depth)
Within k s (failed e) = Unit
Within k s out_of_fuel = ⊥

pub record Advances {A : Type 0} (d n k : ℕ) (m : P A) : Type 0 where
  pub steps : (s : Parser) → s.depth ≡ d → length s.ahead ≤ n → Within k s (m s)

pub record At {A : Type 0} (t : Token) (d n k : ℕ) (m : P A) : Type 0 where
  pub steps_at :
      (s : Parser) → nth_token 0 s.ahead ≡ t → s.depth ≡ d → length s.ahead ≤ n → Within k s (m s)

-- The token is not the end.
abbrev pub Live : Token → Type 0
Live t = is_kind TokenKind.eof t ≡ false

module _ {A : Type 0} {d n k : ℕ} where
  pub At-of : {t : Token} {m : P A} → Advances d n k m → At t d n k m
  At-of h = record { steps_at = λ s _ e l. h.steps s e l }

  pub Advances-failed : {e : ParseError} → Advances {A = A} d n k (fail_with e)
  Advances-failed = record { steps = λ s e l. tt }

  pub Advances-when :
      {x y : P A} (b : Bool)
      → Advances d n k x
      → Advances d n k y
      → Advances d n k (when b then x else y)
  unfolding when◌then◌else◌
  Advances-when true hx hy = hx
  Advances-when false hx hy = hy

  pub At-when :
      {t : Token} {x y : P A} (b : Bool)
      → (b ≡ true → At t d n k x)
      → At t d n k y
      → At t d n k (when b then x else y)
  unfolding when◌then◌else◌
  At-when true hx hy = hx refl
  At-when false hx hy = hy

module _ {A B : Type 0} {d n : ℕ} where
  Within-bind :
      {j : ℕ} (k : ℕ) (s : Parser) (f : A → P B) (r : Outcome (A × Parser))
      → s.depth ≡ d
      → length s.ahead ≤ n
      → Within j s r
      → (j ≤ n → (a : A) → Advances d (n - j) (k - j) (f a))
      → Within k s
          (elim r [ done (a, s') ↦ f a s' | failed e ↦ failed e | out_of_fuel ↦ out_of_fuel ])
  Within-bind {j} k s f (done (a, s')) e l (h, at_depth) next =
      chained (f a s') ((next (omega arith) a).steps s' (at_depth ∙ e) (omega arith))
    where
      chained : (r : Outcome (B × Parser)) → Within (k - j) s' r → Within k s r
      chained (done (b, s'')) (h', at_depth') = (omega arith, at_depth' ∙ at_depth)
      chained (failed e) _ = tt
      chained out_of_fuel h = elim h [ ]
  Within-bind k s f (failed e) _ _ _ next = tt
  Within-bind k s f out_of_fuel _ _ h next = elim h [ ]

module _ {A B : Type 0} {d n k : ℕ} where
  pub Advances-bind :
      {j : ℕ} {m : P A} {f : A → P B}
      → Advances d n j m
      → (j ≤ n → (a : A) → Advances d (n - j) (k - j) (f a))
      → Advances d n k (m >>= f)
  unfolding ◌>>=◌
  Advances-bind {m} {f} first next = record {
    steps = λ s e l. Within-bind k s f (m s) e l (first.steps s e l) next;
  }

  pub At-bind :
      {j : ℕ} {t : Token} {m : P A} {f : A → P B}
      → At t d n j m
      → (j ≤ n → (a : A) → Advances d (n - j) (k - j) (f a))
      → At t d n k (m >>= f)
  unfolding ◌>>=◌
  At-bind {m} {f} first next = record {
    steps_at = λ s h e l. Within-bind k s f (m s) e l (first.steps_at s h e l) next;
  }

module _ {A : Type 0} {d n k : ℕ} where
  pub Advances-peek :
      {f : Token → P A} → ((t : Token) → At t d n k (f t)) → Advances d n k (look_at 0 >>= f)
  unfolding ◌>>=◌ look_at
  Advances-peek next = record { steps = λ s e l. (next (nth_token 0 s.ahead)).steps_at s refl e l }

  pub At-look :
      {t : Token} (i : ℕ) {f : Token → P A}
      → ((u : Token) → At t d n k (f u))
      → At t d n k (look_at i >>= f)
  unfolding ◌>>=◌ look_at
  At-look i next = record { steps_at = λ s h e l. (next (nth_token i s.ahead)).steps_at s h e l }

  pub Advances-look :
      (i : ℕ) {f : Token → P A}
      → ((u : Token) → Advances d n k (f u))
      → Advances d n k (look_at i >>= f)
  unfolding ◌>>=◌ look_at
  Advances-look i next = record { steps = λ s e l. (next (nth_token i s.ahead)).steps s e l }

  pub Advances-with_fuel :
      (loop : ℕ → P A)
      → ((m : ℕ) → m ≤ n → Advances d m k (loop (suc m)))
      → Advances d n k (with_fuel loop)
  unfolding with_fuel
  Advances-with_fuel loop h = record {
    steps = λ s e l. (h (length s.ahead) l).steps s e (omega arith);
  }

take_from-Within :
    (ts : List Token) (s : Parser)
    → length ts ≡ length s.ahead
    → is_kind TokenKind.eof (nth_token 0 ts) ≡ false
    → Within 1 s (take_from ts s)
take_from-Within [] s e live = elim (true≢false live) [ ]
take_from-Within (t ∷ ts) s e live = (omega arith, refl)

take_from-any :
    (ts : List Token) (s : Parser) → length ts ≡ length s.ahead → Within 0 s (take_from ts s)
take_from-any [] s e = (omega arith, refl)
take_from-any (t ∷ ts) s e = (omega arith, refl)

pub At-take : {t : Token} {d n : ℕ} → Live t → At t d n 1 take_token
unfolding take_token
At-take live = record {
  steps_at = λ s h e l. take_from-Within s.ahead s refl (ap (is_kind TokenKind.eof) h ∙ live);
}

pub Advances-pure : {A : Type 0} {d n : ℕ} {a : A} → Advances d n 0 (pure a)
Advances-pure = record { steps = λ s e l. (omega arith, refl) }

-- Any token, which may be the end.
pub Advances-take : {d n : ℕ} → Advances d n 0 take_token
unfolding take_token
Advances-take = record { steps = λ s e l. take_from-any s.ahead s refl }
