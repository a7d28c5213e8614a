-- ===== src/Lexer/Moves.antt =====
-- jparse/lexer.go: what the small steps of the lexer do on a text of ASCII bytes.
use jsonata_go.Prelude.{
  is_some, ℕ, zero, suc, ◌+◌, ◌≤◌, ◌<◌, ◌≡◌, refl, sym, ◌∙◌, subst, Bool, true, false, ◌⊎◌, inl,
  inr, [], ◌∷◌, Option, none, some, Text, leb, if◌then◌else◌, length, drop, All, arith, Bool-cases,
  ◌||◌,
}
use jsonata_go.Utf8.{decode_rune-ascii}
use jsonata_go.Lexer.{
  Lexer, M, ◌>>=◌, Rune, next_rune, backup, ◌>>◌, pure, accept, accept_loop, accept_all, fuel_for,
}

abbrev pub Ascii : Text → Type 0
Ascii = All (λ b. b < 128)

-- The action returns, and what it returns has the property.
abbrev pub Ends : {A : Type 0} → (A → Lexer → Type 0) → Option (A × Lexer) → Type 0
Ends P none = ⊥
Ends P (some (a, l)) = P a l

module _ {A B : Type 0} (P : A → Lexer → Type 0) (Q : B → Lexer → Type 0) where
  pub Ends-bind :
      (m : M A) (f : A → M B) (l : Lexer)
      → Ends P (m l)
      → ((a : A) (l' : Lexer) → P a l' → Ends Q (f a l'))
      → Ends Q ((m >>= f) l)
  Ends-bind m f l h k = go (m l) h
    where
      go :
          (r : Option (A × Lexer))
          → Ends P r
          → Ends Q (elim r [ none ↦ none | some (a, l') ↦ f a l' ])
      go none h = absurd h
      go (some (a, l')) h = k a l' h

pub Ends-weaken :
    {A : Type 0} (P Q : A → Lexer → Type 0) (r : Option (A × Lexer))
    → Ends P r
    → ((a : A) (l' : Lexer) → P a l' → Q a l')
    → Ends Q r
Ends-weaken P Q none h k = h
Ends-weaken P Q (some (a, l')) h k = k a l' h

-- From `l` to `l'` the text, the token's start and the error are the same, and nothing goes back.
pub record Forward (l l' : Lexer) : Type 0 where
  pub input_same : l'.input ≡ l.input
  pub start_same : l'.start ≡ l.start
  pub failure_same : l'.failure ≡ l.failure
  pub forward : l.current ≤ l'.current
  pub bounded : l'.current ≤ length l.input
  pub narrow : l'.width ≤ 1

-- What `nextRune` read.
abbrev pub Read : Lexer → Rune → Lexer → Type 0
Read l none l' = Forward l l' × (l'.current ≡ l.current) × (l'.width ≡ 0)
Read l (some c) l' = Forward l l' × (l'.current ≡ suc l.current) × (l'.width ≡ 1) × (c < 128)

-- A lexer over ASCII within its text.
pub record Ready (l : Lexer) : Type 0 where
  pub plain : Ascii l.input
  pub within : l.current ≤ length l.input

drop-cons :
    {P : ℕ → Type 0} (i : ℕ) (xs : Text)
    → All P xs
    → i < length xs
    → (b : ℕ) × (bs : Text) × (drop i xs ≡ b ∷ bs) × P b
drop-cons i [] a h = elim h [ ]
drop-cons zero (x ∷ xs) (p, a) h = (x, xs, refl, p)
drop-cons {P} (suc i) (x ∷ xs) (p, a) h = drop-cons {P = P} i xs a (omega arith)

pub next_rune-Read : (l : Lexer) → Ready l → Ends (Read l) (next_rune l)
unfolding next_rune
next_rune-Read l g = elim (Bool-cases (is_some l.failure || leb (length l.input) l.current)) [
  | inl stop ↦ rw stop (ground arith)
  | inr more ↦
      let (b, bs, e, small) =
        drop-cons {P = λ b. b < 128} l.current l.input g.plain (ground arith) in
      rw (more, e, decode_rune-ascii b bs small) (ground arith)
]

pub Ready-Forward : (l l' : Lexer) → Ready l → Forward l l' → Ready l'
Ready-Forward l l' g f = record {
  plain = subst Ascii (sym f.input_same) g.plain;
  within = rw f.input_same f.bounded;
}

pub Forward-trans : (a b c : Lexer) → Forward a b → Forward b c → Forward a c
Forward-trans a b c f g = record {
  input_same = g.input_same ∙ f.input_same;
  start_same = g.start_same ∙ f.start_same;
  failure_same = g.failure_same ∙ f.failure_same;
  forward = omega (arith, f.forward, g.forward);
  bounded = rw (← f.input_same) g.bounded;
  narrow = g.narrow;
}

abbrev pub Took : Lexer → Bool → Lexer → Type 0
Took l true l' = Forward l l' × (l'.current ≡ suc l.current) × (l'.width ≡ 1)
Took l false l' = Forward l l' × (l'.current ≡ l.current)

module _ (is_valid : Rune → Bool) (not_eof : is_valid none ≡ false) where
  accept-Read :
      (l : Lexer) (r : Rune) (l' : Lexer)
      → Read l r l'
      → Ends (Took l) ((if is_valid r then pure true else (backup >> pure false)) l')
  accept-Read l none l' h = rw not_eof (unfold backup in ground arith)
  accept-Read l (some c) l' h = elim (Bool-cases (is_valid (some c))) [
    | inl e ↦ rw e (ground arith)
    | inr e ↦ rw e (unfold backup in ground arith)
  ]

  pub accept-Took : (l : Lexer) → Ready l → Ends (Took l) (accept is_valid l)
  unfolding accept
  accept-Took l g =
      Ends-bind (Read l) (Took l) next_rune _ l (next_rune-Read l g) λ r l'. accept-Read l r l'

  -- What the loop leaves: it has moved on exactly if it took something.
  abbrev Looped : Lexer → Bool → Bool → Lexer → Type 0
  Looped l taken b l' =
      Forward l l'
      × ((b ≡ taken) × (l'.current ≡ l.current) ⊎ (b ≡ true) × (l.current < l'.current))

  accept_loop_step :
      (fuel : ℕ) (taken : Bool) (l : Lexer)
      → Ready l
      → ((l' : Lexer)
          → Ready l'
          → l.current < l'.current
          → l'.input ≡ l.input
          → Ends (Looped l' true) (accept_loop fuel is_valid true l'))
      → Ends (Looped l taken) (accept_loop (suc fuel) is_valid taken l)
  unfolding accept_loop
  accept_loop_step fuel taken l g again = go (accept is_valid l) (accept-Took l g)
    where
      go :
          (r : Option (Bool × Lexer))
          → Ends (Took l) r
          → Ends (Looped l taken) (elim r [
            | none ↦ none
            | some (true, l') ↦ accept_loop fuel is_valid true l'
            | some (false, l') ↦ some (taken, l')
          ])
      go none t = absurd t
      go (some (false, l')) t = (t.0, inl (refl, t.1))
      go (some (true, l')) (f, c, w) =
          Ends-weaken (Looped l' true) (Looped l taken) _
            (again l' (Ready-Forward l l' g f) (omega arith) f.input_same)
            λ b k (f', e). (Forward-trans l l' k f f', ground (arith, f'.forward))

  accept_loop-Looped :
      (fuel : ℕ) (taken : Bool) (l : Lexer)
      → Ready l
      → length l.input < fuel + l.current
      → Ends (Looped l taken) (accept_loop fuel is_valid taken l)
  accept_loop-Looped zero taken l g h = absurd (omega (arith, g.within))
  accept_loop-Looped (suc fuel) taken l g h =
      accept_loop_step fuel taken l g
        λ l' g' c e. accept_loop-Looped fuel true l' g' (rw e (omega arith))

  -- `acceptAll` says whether it has moved.
  pub accept_all-Forward :
      (l : Lexer)
      → Ready l
      → Ends
          (λ b l'.
            Forward l l'
            × ((b ≡ false) × (l'.current ≡ l.current) ⊎ (b ≡ true) × (l.current < l'.current)))
          (accept_all is_valid l)
  unfolding accept_all
  accept_all-Forward l g = accept_loop-Looped (fuel_for l) false l g (omega arith)

pub Ends-both :
    {A : Type 0} (P Q : A → Lexer → Type 0) (r : Option (A × Lexer))
    → Ends P r
    → Ends Q r
    → Ends (λ a l. P a l × Q a l) r
Ends-both P Q none h k = h
Ends-both P Q (some (a, l')) h k = (h, k)
