-- ===== src/Syntax/Advance.antt =====
-- internal/syntax/lexer.go: what a step of the parser leaves of the tokens and of the depth.
-- `Advances d n k` is about steps at depth `d` with up to `n` tokens ahead, which take `k` of them at
-- least; `At t` is about those in front of token `t`.
use jsonata_go.Prelude.{
  left_of, ℕ, suc, ◌+◌, ◌-◌, ◌≤◌, ◌≡◌, refl, sym, ◌∙◌, Bool, true, false, List, [], ◌∷◌, ◌⊎◌, inl,
  inr, Text, ◌&&◌, ◌==◌, length, arith, subst,
}
use jsonata_go.Syntax.{TokenKind, Token, ParseError}
use jsonata_go.Syntax.State.{
  Parser, Outcome, done, failed, out_of_fuel, P, ◌>>=◌, kind_number, is_kind, eof_token, look_at,
  take_token, take_from, fail_with, is_op, count_parents, parents_ahead, tokens_behind, expect,
  ◌>>◌, when◌then◌else◌,
}
use jsonata_go.Syntax.Within.{
  Within, Advances, At, Live, At-of, Advances-failed, At-when, At-bind, Advances-peek, At-take,
}

is_kind-same : (j t e : ℕ) → (t == j) ≡ true → (j == e) ≡ false → (t == e) ≡ false
is_kind-same j t e = ground arith

module _ {A : Type 0} {t : Token} {d n k : ℕ} where
  -- A branch on the kind of the token in front.
  pub At-kind :
      {x y : P A} (kind : TokenKind)
      → (kind_number kind == 0) ≡ false
      → (Live t → At t d n k x)
      → At t d n k y
      → At t d n k (when is_kind kind t then x else y)
  At-kind kind other hx hy =
      At-when (is_kind kind t)
        (λ same. hx (is_kind-same (kind_number kind) (kind_number t.kind) 0 same other)) hy

  pub At-parents :
      {f : ℕ → P A} → ((count : ℕ) → At t d n k (f count)) → At t d n k (parents_ahead >>= f)
  unfolding parents_ahead ◌>>=◌
  At-parents next = record { steps_at = λ s h e l. (next (count_parents s.ahead)).steps_at s h e l }

  pub At-failed : {e : ParseError} → At {A = A} t d n k (fail_with e)
  At-failed = At-of Advances-failed

-- A step over the token in front.
pub At-over :
    {A : Type 0} {t : Token} {d n k : ℕ} {m : P A}
    → Live t
    → (1 ≤ n → Advances d (n - 1) (k - 1) m)
    → At t d n k (take_token >> m)
At-over live next = At-bind (At-take live) (λ le _. next le)

pub is_op-Live : (t : Token) (op : Text) → is_op op t ≡ true → Live t
is_op-Live t op h = is_kind-same 8 (kind_number t.kind) 0 (left_of _ _ h) refl

pub expect-Advances :
    {d n : ℕ} (kind : TokenKind) → (kind_number kind == 0) ≡ false → Advances d n 1 (expect kind)
unfolding expect
expect-Advances kind other =
    Advances-peek
      (λ t. At-kind kind other (λ live. At-take live) (At-when _ (λ _. At-failed) At-failed))

pub Advances-weaken : {A : Type 0} {d n k : ℕ} {m : P A} → Advances d n (suc k) m → Advances d n k m
Advances-weaken {A} {k} {m} h = record { steps = λ s e l. weaken s (m s) (h.steps s e l) }
  where
    weaken : (s : Parser) (r : Outcome (A × Parser)) → Within (suc k) s r → Within k s r
    weaken s (done (a, s')) (h, at_depth) = (omega arith, at_depth)
    weaken s (failed e) h = tt
    weaken s out_of_fuel h = h

pub both-Live :
    (kind : TokenKind) (t : Token) (b : Bool)
    → (is_kind kind t && b) ≡ true
    → (kind_number kind == 0) ≡ false
    → Live t
both-Live kind t b h = is_kind-same (kind_number kind) (kind_number t.kind) 0 (left_of _ _ h)

pub Advances-behind : {d n : ℕ} → Advances d n 0 tokens_behind
Advances-behind = record { steps = λ s e l. (omega arith, refl) }

module _ {A : Type 0} {t : Token} {d n k : ℕ} where
  pub At-peek : (f : Token → P A) → At t d n k (f t) → At t d n k (look_at 0 >>= f)
  unfolding ◌>>=◌ look_at
  At-peek f next = record {
    steps_at = λ s h e l. subst (λ u. Within k s (f u s)) (sym h) (next.steps_at s h e l);
  }

  pub At-cases :
      {x y : P A} (b : Bool)
      → (b ≡ true → At t d n k x)
      → (b ≡ false → At t d n k y)
      → At t d n k (when b then x else y)
  unfolding when◌then◌else◌
  At-cases true hx hy = hx refl
  At-cases false hx hy = hy refl

abbrev Starting : TokenKind → Type 0
Starting kind = (kind ≡ TokenKind.eof) ⊎ ((kind_number kind == 0) ≡ false)

Starting-of : (kind : TokenKind) → Starting kind
Starting-of TokenKind.eof = inl refl
Starting-of _ = inr refl

-- A step over the token in front, which may be the end if nothing can follow it.
pub Advances-start :
    {A : Type 0} {d n k : ℕ} (f : Token → P A)
    → ((t : Token) → Live t → 1 ≤ n → Advances d (n - 1) (k - 1) (f t))
    → ((t : Token) (s s' : Parser) → t.kind ≡ TokenKind.eof → Within k s (f t s'))
    → Advances d n k (take_token >>= f)
unfolding take_token ◌>>=◌
Advances-start {A} {d} {n} {k} f next ended = record { steps = λ s e l. starts s.ahead s refl e l }
  where
    further :
        (s s' : Parser) (r : Outcome (A × Parser))
        → length s'.ahead + 1 ≤ length s.ahead
        → s'.depth ≡ s.depth
        → Within (k - 1) s' r
        → Within k s r
    further s s' (done (a, s'')) h e (h', e') = (omega arith, e' ∙ e)
    further s s' (failed error) h e w = tt
    further s s' out_of_fuel h e w = w

    starts :
        (ts : List Token) (s : Parser)
        → length ts ≡ length s.ahead
        → s.depth ≡ d
        → length s.ahead ≤ n
        → Within k s ((take_from ts >>= f) s)
    starts [] s same e l = ended eof_token s s refl
    starts (t ∷ ts) s same e l = elim (Starting-of t.kind) [
      | inl last ↦ ended t s _ last
      | inr live ↦
          further s (record s { behind = t ∷ s.behind; ahead = ts }) _ (omega arith) refl
            ((next t live (omega arith)).steps _ e (omega arith))
    ]

pub is_kind-Live :
    (kind : TokenKind) (t : Token)
    → is_kind kind t ≡ true
    → (kind_number kind == 0) ≡ false
    → Live t
is_kind-Live kind t h = is_kind-same (kind_number kind) (kind_number t.kind) 0 h
