-- ===== src/Lexer/Total.antt =====
-- jparse/lexer.go: `next` on a text of ASCII bytes.
use jsonata_go.Prelude.{
  ℕ, ◌≤◌, ◌≡◌, refl, sym, Bool, true, false, inl, inr, Option, none, some, ◌==◌, leb, ◌&&◌,
  if◌then◌else◌, length, arith, Bool-cases, Option-cases, ◌||◌,
}
use jsonata_go.Lexer.{
  Lexer, M, Rune, Token, TokenType, ◌>>=◌, ◌>>◌, next_rune, backup, ignore, accept_rune, accept_all,
  is_rune, is_whitespace, new_token, skip_whitespace,
}
use jsonata_go.Lexer.Words.{scan_number, scan_name}
use jsonata_go.Lexer.Symbols.{lookup_symbol1, lookup_symbol2}
use jsonata_go.Lexer.Strings.{scan_string, scan_escaped_name, scan_regex}
use jsonata_go.Lexer.Next.{next_single, next_symbol, next_from, next}
use jsonata_go.Lexer.Moves.{
  Ascii, Ends, Ends-bind, Ends-weaken, Read, Ready, Ready-Forward, Took, next_rune-Read,
  accept-Took, accept_all-Forward,
}
use jsonata_go.Lexer.Tokens.{Scanned, ScannedFrom, Begun, new_token-Scanned, Scanned-back}
use jsonata_go.Lexer.Literals.{
  Reading, backup-Begun, scan_string-Scanned, scan_escaped_name-Scanned, scan_regex-Scanned,
}
use jsonata_go.Lexer.Numbers.{Scanner, scan_number-Scanned, scan_name-Scanned}

Reading-Begun : (l : Lexer) → Reading l → Begun l
Reading-Begun l r = record { ready = r.ready; begun = omega (arith, r.ahead) }

-- The token's character is put back, and a scanner reads it again.
put_back :
    (m : M Token) → Scanner m → (l : Lexer) → Reading l → Ends (ScannedFrom l) ((backup >> m) l)
put_back m k l r = Ends-bind _ (ScannedFrom l) backup _ l (backup-Begun l r) λ _ l1 (b, e, st).
    Ends-weaken (ScannedFrom l1) (ScannedFrom l) _ (k l1 b)
      (Scanned-back l l1 (sym e) (omega arith))

-- The token begins behind the character read.
pass_over :
    (m : M Token) → Scanner m → (l : Lexer) → Reading l → Ends (ScannedFrom l) ((ignore >> m) l)
unfolding ignore
pass_over m k l r =
    let l1 = record l { start = l.current } in
    Ends-weaken (ScannedFrom l1) (ScannedFrom l) _
      (k l1 (record {
        ready = record { plain = r.ready.plain; within = r.ready.within };
        begun = omega arith;
      }))
      (Scanned-back l l1 refl (omega (arith, r.ahead)))

single-Scanned :
    (ch : ℕ) (l : Lexer)
    → Reading l
    → Ends (ScannedFrom l) (
        (if ch == b'"' || ch == b'\''
            then ignore >> scan_string ch
            else if leb b'0' ch && leb ch b'9'
            then backup >> scan_number
            else if ch == b'`'
            then ignore >> scan_escaped_name ch
            else backup >> scan_name)
          l)
single-Scanned ch l r = elim (Bool-cases (ch == b'"' || ch == b'\'')) [
  | inl e ↦ rw e (pass_over (scan_string ch) (scan_string-Scanned ch) l r)
  | inr e ↦ rw e (elim (Bool-cases (leb b'0' ch && leb ch b'9')) [
    | inl d ↦ rw d (put_back scan_number scan_number-Scanned l r)
    | inr d ↦ rw d (elim (Bool-cases (ch == b'`')) [
      | inl q ↦ rw q (pass_over (scan_escaped_name ch) (scan_escaped_name-Scanned ch) l r)
      | inr q ↦ rw q (put_back scan_name scan_name-Scanned l r)
    ])
  ])
]

next_single-Scanned : (ch : ℕ) (l : Lexer) → Reading l → Ends (ScannedFrom l) (next_single ch l)
unfolding next_single
next_single-Scanned ch l r = elim (Option-cases (lookup_symbol1 (some ch))) [
  | inl e ↦ rw (next_single, e) (single-Scanned ch l r)
  | inr (type, e) ↦ rw (next_single, e) (new_token-Scanned type l (Reading-Begun l r))
]

next_symbol-Scanned : (ch : ℕ) (l : Lexer) → Reading l → Ends (ScannedFrom l) (next_symbol ch l)
unfolding next_symbol
next_symbol-Scanned ch l r = elim (Option-cases (lookup_symbol2 (some ch))) [
  | inl e ↦ rw (next_symbol, e) (next_single-Scanned ch l r)
  | inr ((second, type), e) ↦
      rw (next_symbol, e)
        (Ends-bind (Took l) (ScannedFrom l) (accept_rune second) _ l
          (unfold accept_rune in accept-Took (is_rune second) refl l r.ready) (pair type))
]
  where
    pair :
        (type : TokenType) (taken : Bool) (l1 : Lexer)
        → Took l taken l1
        → Ends (ScannedFrom l) ((if taken then new_token type else next_single ch) l1)
    pair type true l1 (f, c, w) =
        Ends-weaken (ScannedFrom l1) (ScannedFrom l) _
          (new_token-Scanned type l1 (record {
            ready = Ready-Forward l l1 r.ready f;
            begun = omega (arith, r.ahead, f.start_same);
          }))
          (Scanned-back l l1 (sym f.input_same) (omega (arith, f.start_same)))
    pair type false l1 (f, c) =
        Ends-weaken (ScannedFrom l1) (ScannedFrom l) _
          (next_single-Scanned ch l1 (record {
            ready = Ready-Forward l l1 r.ready f;
            ahead = omega (arith, r.ahead, f.start_same);
            single = f.narrow;
          }))
          (Scanned-back l l1 (sym f.input_same) (omega (arith, f.start_same)))

next_from-Scanned :
    (allow_regex : Bool) (l : Lexer)
    → Ready l
    → l.start ≡ l.current
    → (r : Rune) (l1 : Lexer) → Read l r l1
    → Ends (ScannedFrom l) (next_from allow_regex r l1)
unfolding next_from
next_from-Scanned allow_regex l g at none l1 (f, c, w) = record {
  input_same = f.input_same;
  at_boundary = omega (arith, f.start_same);
  behind = omega arith;
  before = omega arith;
  bounded = f.bounded;
  moves = inr refl;
  spells = inr refl;
}
next_from-Scanned allow_regex l g at (some ch) l1 (f, c, w, _) =
    elim (Bool-cases (allow_regex && ch == b'/')) [
      | inl e ↦ rw e (back _ (pass_over (scan_regex ch) (scan_regex-Scanned ch) l1 reading))
      | inr e ↦ rw e (back _ (next_symbol-Scanned ch l1 reading))
    ]
  where
    reading : Reading l1
    reading = record {
      ready = Ready-Forward l l1 g f;
      ahead = omega (arith, f.start_same);
      single = omega arith;
    }

    back : (r : Option (Token × Lexer)) → Ends (ScannedFrom l1) r → Ends (ScannedFrom l) r
    back r h =
        Ends-weaken (ScannedFrom l1) (ScannedFrom l) r h
          (Scanned-back l l1 (sym f.input_same) (omega (arith, f.start_same)))

-- The lexer behind the white space, where the token begins.
record Skipped (l l1 : Lexer) : Type 0 where
  input_same : l1.input ≡ l.input
  at : l1.start ≡ l1.current
  further : l.current ≤ l1.current
  inside : l1.current ≤ length l1.input

skip_whitespace-Skipped : (l : Lexer) → Ready l → Ends (λ _. Skipped l) (skip_whitespace l)
unfolding skip_whitespace ignore
skip_whitespace-Skipped l g =
    Ends-bind _ (λ _. Skipped l) (accept_all is_whitespace) _ l
      (accept_all-Forward is_whitespace refl l g)
      λ _ l1 (f, _). record {
        input_same = f.input_same;
        at = refl;
        further = f.forward;
        inside = (Ready-Forward l l1 g f).within;
      }

-- On ASCII text `next` returns: it neither panics nor runs out of fuel. The token begins where the
-- lexer stood or later and ends within the text, where the next token begins; the lexer has moved
-- forward, or the token is empty; and the token's value is the text at its position, unless it is a
-- regular expression, whose flags go in front.
pub next-Scanned :
    (allow_regex : Bool) (l : Lexer)
    → Ascii l.input
    → l.current ≤ length l.input
    → Ends (Scanned l.input l.current) (next allow_regex l)
unfolding next
next-Scanned allow_regex l plain within =
    Ends-bind _ (Scanned l.input l.current) skip_whitespace _ l
      (skip_whitespace-Skipped l (record { plain = plain; within = within })) λ _. skipped
  where
    token :
        (l1 : Lexer)
        → Skipped l l1
        → (t : Token) (l' : Lexer) → ScannedFrom l1 t l'
        → Scanned l.input l.current t l'
    token l1 s t l' k = rw (← s.input_same) (record {
      input_same = k.input_same;
      at_boundary = k.at_boundary;
      behind = omega (arith, k.behind, s.at, s.further);
      before = k.before;
      bounded = k.bounded;
      moves = ground (arith, k.moves, s.at, s.further);
      spells = k.spells;
    })

    skipped :
        (l1 : Lexer)
        → Skipped l l1
        → Ends (Scanned l.input l.current) ((next_rune >>= next_from allow_regex) l1)
    skipped l1 s =
        let g : Ready l1 = record { plain = rw s.input_same plain; within = s.inside } in
        Ends-weaken (ScannedFrom l1) (Scanned l.input l.current) _
          (Ends-bind (Read l1) (ScannedFrom l1) next_rune _ l1 (next_rune-Read l1 g)
            (next_from-Scanned allow_regex l1 g s.at))
          (token l1 s)
