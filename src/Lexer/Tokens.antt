-- ===== src/Lexer/Tokens.antt =====
-- jparse/lexer.go: the tokens that the scanners return on a text of ASCII bytes.
use jsonata_go.Prelude.{
  ℕ, zero, suc, ◌-◌, ◌≤◌, ◌<◌, ◌≡◌, refl, sym, ap, ◌∙◌, true, false, ◌⊎◌, inl, inr, [], ◌∷◌, Text,
  length, take, drop, arith, Bool-cases, ltb,
}
use jsonata_go.Lexer.{Lexer, Token, TokenType, ErrType, new_token, fail}
use jsonata_go.Lexer.Moves.{Ends, Ends-both, Ends-bind, Forward, Ready}

take-length-take : (k : ℕ) (xs : Text) → take (length (take k xs)) xs ≡ take k xs
take-length-take zero xs = refl
take-length-take (suc k) [] = refl
take-length-take (suc k) (x ∷ xs) = ap (◌∷◌ x) (take-length-take k xs)

-- What the token says of the text: its value stands at its position, but for the flags that are put in
-- front of a regular expression.
abbrev pub Spells : Text → Token → Type 0
Spells input t =
    (t.type ≡ TokenType.regex) ⊎ (take (length t.value) (drop t.position input) ≡ t.value)

-- A token that begins at `from` or later has been read, and the lexer stands behind it.
pub record Scanned (input : Text) (from : ℕ) (t : Token) (l' : Lexer) : Type 0 where
  pub input_same : l'.input ≡ input
  pub at_boundary : l'.start ≡ l'.current
  pub behind : from ≤ t.position
  pub before : t.position ≤ l'.current
  pub bounded : l'.current ≤ length input
  pub moves : (from < l'.current) ⊎ (t.value ≡ [])
  pub spells : Spells input t

-- A lexer in the middle of a token.
pub record Begun (l : Lexer) : Type 0 where
  pub ready : Ready l
  pub begun : l.start ≤ l.current

abbrev pub ScannedFrom : Lexer → Token → Lexer → Type 0
ScannedFrom l = Scanned l.input l.start

empty-take : (k : ℕ) (xs : Text) → k ≡ 0 → take k xs ≡ []
empty-take k xs e = rw e

pub new_token-Scanned :
    (type : TokenType) (l : Lexer) → Begun l → Ends (ScannedFrom l) (new_token type l)
unfolding new_token
new_token-Scanned type l b = elim (Bool-cases (ltb l.current l.start)) [
  | inl e ↦ absurd (ground (arith, b.begun))
  | inr e ↦ rw e (record {
    input_same = refl;
    at_boundary = refl;
    behind = omega arith;
    before = b.begun;
    bounded = b.ready.within;
    moves = still (Bool-cases (ltb l.start l.current));
    spells = inr (take-length-take (l.current - l.start) (drop l.start l.input));
  })
]
  where
    still :
        (ltb l.start l.current ≡ true) ⊎ (ltb l.start l.current ≡ false)
        → (l.start < l.current) ⊎ (take (l.current - l.start) (drop l.start l.input) ≡ [])
    still (inl e) = inl (ground arith)
    still (inr e) = inr (empty-take (l.current - l.start) (drop l.start l.input) (ground arith))

-- The same token, scanned from an earlier state of the lexer.
pub Scanned-back :
    (l k : Lexer)
    → l.input ≡ k.input
    → l.start ≤ k.start
    → (t : Token) (l' : Lexer) → ScannedFrom k t l'
    → ScannedFrom l t l'
Scanned-back l k e h t l' s = rw e (record {
  input_same = s.input_same;
  at_boundary = s.at_boundary;
  behind = omega (arith, s.behind);
  before = s.before;
  bounded = s.bounded;
  moves = ground (arith, s.moves);
  spells = s.spells;
})

pub fail-Scanned :
    (typ : ErrType) (hint : Text) (l : Lexer) → Begun l → Ends (ScannedFrom l) (fail typ hint l)
unfolding fail
fail-Scanned typ hint l b =
    Ends-bind (ScannedFrom l) (ScannedFrom l) (new_token TokenType.error) _ l
      (new_token-Scanned TokenType.error l b)
      λ t l' s. record {
        input_same = s.input_same;
        at_boundary = s.at_boundary;
        behind = s.behind;
        before = s.before;
        bounded = s.bounded;
        moves = s.moves;
        spells = s.spells;
      }

-- Behind a token the lexer may pass over more, up to where it sets `start` again.
pub Scanned-further :
    (input : Text) (from : ℕ) (t : Token) (l' l2 : Lexer)
    → Scanned input from t l'
    → Forward l' l2
    → Scanned input from t (record l2 { start = l2.current })
Scanned-further input from t l' l2 s f = record {
  input_same = f.input_same ∙ s.input_same;
  at_boundary = refl;
  behind = s.behind;
  before = omega (arith, s.before, f.forward);
  bounded = rw (← s.input_same) f.bounded;
  moves = ground (arith, s.moves, f.forward);
  spells = s.spells;
}

pub Scanned-Ready :
    (input : Text) (from : ℕ) (t : Token) (l' : Lexer)
    → Scanned input from t l'
    → (l : Lexer) → l.input ≡ input
    → Ready l
    → Ready l'
Scanned-Ready input from t l' s l e g = record {
  plain = rw (s.input_same ∙ sym e) g.plain;
  within = rw (s.input_same) s.bounded;
}

pub new_token-kept :
    (type : TokenType) (l : Lexer)
    → Begun l
    → Ends
        (λ t l'. ((t.type ≡ type) × (l'.current ≡ l.current)) × ScannedFrom l t l')
        (new_token type l)
new_token-kept type l b =
    Ends-both _ (ScannedFrom l) _ (kept (Bool-cases (ltb l.current l.start)))
      (new_token-Scanned type l b)
  where
    kept :
        (ltb l.current l.start ≡ true) ⊎ (ltb l.current l.start ≡ false)
        → Ends (λ t l'. (t.type ≡ type) × (l'.current ≡ l.current)) (new_token type l)
    kept (inl e) = absurd (ground (arith, b.begun))
    kept (inr e) = unfold new_token in rw e (refl, refl)
