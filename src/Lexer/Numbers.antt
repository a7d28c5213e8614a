-- ===== src/Lexer/Numbers.antt =====
-- jparse/lexer.go: the tokens of numbers and names on a text of ASCII bytes.
use jsonata_go.Prelude.{
  suc, ◌≡◌, refl, sym, Bool, true, false, inl, inr, if◌then◌else◌, length, take, drop, arith,
  Option-cases, ◌||◌,
}
use jsonata_go.Lexer.{
  Lexer, M, Token, TokenType, ◌>>=◌, ◌>>◌, pure, backup, ignore, accept, accept_rune, accept_runes2,
  accept_all, is_rune, is_digit, is_non_zero_digit, new_token, fuel_for,
}
use jsonata_go.Lexer.Words.{scan_exponent, scan_fraction, scan_number, chars_loop, scan_name, named}
use jsonata_go.Lexer.Symbols.{lookup_keyword}
use jsonata_go.Lexer.Moves.{
  Ends, Ends-bind, Ends-weaken, Forward, Forward-trans, Ready-Forward, Took, accept-Took,
  accept_all-Forward,
}
use jsonata_go.Lexer.Scanners.{chars_loop_end}
use jsonata_go.Lexer.Tokens.{
  ScannedFrom, Begun, new_token-Scanned, new_token-kept, Scanned-back, Spells,
}
use jsonata_go.Lexer.Literals.{Reading, backup-Begun}

pub Took-Forward : (l : Lexer) (b : Bool) (l' : Lexer) → Took l b l' → Forward l l'
Took-Forward l true l' t = t.0
Took-Forward l false l' t = t.0

pub Begun-Forward : (l l' : Lexer) → Begun l → Forward l l' → Begun l'
Begun-Forward l l' b f = record {
  ready = Ready-Forward l l' b.ready f;
  begun = rw f.start_same (omega (arith, b.begun, f.forward));
}

-- A scanner that may be called once the token has begun.
abbrev pub Scanner : M Token → Type 0
Scanner m = (l : Lexer) → Begun l → Ends (ScannedFrom l) (m l)

-- Such a scanner goes on behind whatever has moved forward.
pub then_scan :
    {A : Type 0} (l : Lexer) (b : Begun l) (P : A → Lexer → Type 0) (m : M A) (f : A → M Token)
    → Ends P (m l)
    → ((a : A) (l' : Lexer) → P a l' → Forward l l')
    → ((a : A) (l' : Lexer) → P a l' → Begun l' → Ends (ScannedFrom l') (f a l'))
    → Ends (ScannedFrom l) ((m >>= f) l)
then_scan l b P m f h fwd k = Ends-bind P (ScannedFrom l) m f l h λ a l' p.
    Ends-weaken (ScannedFrom l') (ScannedFrom l) (f a l')
      (k a l' p (Begun-Forward l l' b (fwd a l' p)))
      (Scanned-back l l' (sym (fwd a l' p).input_same) (omega (arith, (fwd a l' p).start_same)))

scan_exponent-Scanned : Scanner scan_exponent
unfolding scan_exponent
scan_exponent-Scanned l b =
    then_scan l b (Took l) (accept_runes2 b'e' b'E') _
      (unfold accept_runes2 in accept-Took (λ c. is_rune b'e' c || is_rune b'E' c) refl l b.ready)
      (Took-Forward l) exponent
  where
    signed :
        (l1 : Lexer)
        → Begun l1
        → Ends
            (ScannedFrom l1)
            ((accept_runes2 b'+' b'-' >> (accept_all is_digit >> new_token TokenType.number)) l1)
    signed l1 b1 =
        then_scan l1 b1 (Took l1) (accept_runes2 b'+' b'-') _
          (unfold accept_runes2 in
            accept-Took (λ c. is_rune b'+' c || is_rune b'-' c) refl l1 b1.ready)
          (Took-Forward l1)
          λ _ l2 _ b2.
            then_scan l2 b2 _ (accept_all is_digit) _ (accept_all-Forward is_digit refl l2 b2.ready)
              (λ _ _ p. p.0) λ _ l3 _ b3. new_token-Scanned TokenType.number l3 b3

    exponent :
        (e : Bool) (l1 : Lexer)
        → Took l e l1
        → Begun l1
        → Ends (ScannedFrom l1) (
            (if e
                then (accept_runes2 b'+' b'-'
                    >> (accept_all is_digit >> new_token TokenType.number))
                else new_token TokenType.number)
              l1)
    exponent true l1 t b1 = signed l1 b1
    exponent false l1 t b1 = new_token-Scanned TokenType.number l1 b1

-- Behind a point with no digit the lexer goes back by one.
point_alone :
    (l : Lexer) → Reading l → Ends (ScannedFrom l) ((backup >> new_token TokenType.number) l)
point_alone l r = Ends-bind _ (ScannedFrom l) backup _ l (backup-Begun l r) λ _ l1 (b, e, st).
    Ends-weaken (ScannedFrom l1) (ScannedFrom l) _ (new_token-Scanned TokenType.number l1 b)
      (Scanned-back l l1 (sym e) (omega arith))

after_digits :
    (l : Lexer)
    → Begun l
    → (l1 : Lexer) → Forward l l1
    → l1.current ≡ suc l.current
    → (digits : Bool) (l2 : Lexer) → Forward l1 l2
    → Ends
        (ScannedFrom l)
        ((if digits then scan_exponent else (backup >> new_token TokenType.number)) l2)
after_digits l b l1 f c true l2 f' =
    let k = Forward-trans l l1 l2 f f' in
    Ends-weaken (ScannedFrom l2) (ScannedFrom l) _
      (scan_exponent-Scanned l2 (Begun-Forward l l2 b k))
      (Scanned-back l l2 (sym k.input_same) (omega (arith, k.start_same)))
after_digits l b l1 f c false l2 f' =
    let k = Forward-trans l l1 l2 f f' in
    Ends-weaken (ScannedFrom l2) (ScannedFrom l) _
      (point_alone l2 (record {
        ready = Ready-Forward l l2 b.ready k;
        ahead = omega (arith, k.start_same, b.begun, f'.forward);
        single = k.narrow;
      }))
      (Scanned-back l l2 (sym k.input_same) (omega (arith, k.start_same)))

scan_fraction-Scanned : Scanner scan_fraction
unfolding scan_fraction
scan_fraction-Scanned l b =
    Ends-bind (Took l) (ScannedFrom l) (accept_rune b'.') _ l
      (unfold accept_rune in accept-Took (is_rune b'.') refl l b.ready) fraction
  where
    fraction :
        (point : Bool) (l1 : Lexer)
        → Took l point l1
        → Ends (ScannedFrom l) (
            (if point
                then (accept_all is_digit >>= λ digits.
                    if digits then scan_exponent else (backup >> new_token TokenType.number))
                else scan_exponent)
              l1)
    fraction true l1 (f, c, w) =
        Ends-bind _ (ScannedFrom l) (accept_all is_digit) _ l1
          (accept_all-Forward is_digit refl l1 (Ready-Forward l l1 b.ready f))
          λ digits l2 (f', _). after_digits l b l1 f c digits l2 f'
    fraction false l1 (f, c) =
        Ends-weaken (ScannedFrom l1) (ScannedFrom l) _
          (scan_exponent-Scanned l1 (Begun-Forward l l1 b f))
          (Scanned-back l l1 (sym f.input_same) (omega (arith, f.start_same)))

pub scan_number-Scanned : Scanner scan_number
unfolding scan_number
scan_number-Scanned l b =
    then_scan l b (Took l) (accept_rune b'0') _
      (unfold accept_rune in accept-Took (is_rune b'0') refl l b.ready) (Took-Forward l) whole
  where
    whole :
        (zero_first : Bool) (l1 : Lexer)
        → Took l zero_first l1
        → Begun l1
        → Ends (ScannedFrom l1) (
            (if zero_first
                then scan_fraction
                else (accept is_non_zero_digit >> (accept_all is_digit >> scan_fraction)))
              l1)
    whole true l1 t b1 = scan_fraction-Scanned l1 b1
    whole false l1 t b1 =
        then_scan l1 b1 (Took l1) (accept is_non_zero_digit) _
          (accept-Took is_non_zero_digit refl l1 b1.ready) (Took-Forward l1)
          λ _ l2 _ b2.
            then_scan l2 b2 _ (accept_all is_digit) _ (accept_all-Forward is_digit refl l2 b2.ready)
              (λ _ _ p. p.0) λ _ l3 _ b3. scan_fraction-Scanned l3 b3

-- The type that a name gets in the end changes nothing else.
retyped :
    (l : Lexer) (t : Token) (l' : Lexer) (type : TokenType)
    → t.type ≡ TokenType.name
    → ScannedFrom l t l'
    → ScannedFrom l (record t { type = type }) l'
retyped l t l' type n s = record {
  input_same = s.input_same;
  at_boundary = s.at_boundary;
  behind = s.behind;
  before = s.before;
  bounded = s.bounded;
  moves = s.moves;
  spells = inr (plain s.spells);
}
  where
    plain : Spells l.input t → take (length t.value) (drop t.position l.input) ≡ t.value
    plain (inl regex) = cc
    plain (inr e) = e

named-Scanned :
    (is_var : Bool) (l : Lexer) (t : Token) (l' : Lexer)
    → t.type ≡ TokenType.name
    → ScannedFrom l t l'
    → ScannedFrom l (named is_var t) l'
named-Scanned true l t l' n s = retyped l t l' TokenType.variable n s
named-Scanned false l t l' n s = elim (Option-cases (lookup_keyword t.value)) [
  | inl e ↦ rw (e, named) s
  | inr (type, e) ↦ rw (e, named) (retyped l t l' type n s)
]

name_text :
    (is_var : Bool) (l : Lexer)
    → Begun l
    → Ends (ScannedFrom l) (
        ((λ k. chars_loop (fuel_for k) k)
            >> (new_token TokenType.name >>= λ t. pure (named is_var t)))
          l)
name_text is_var l b =
    then_scan l b (λ _. Forward l) (λ k. chars_loop (fuel_for k) k) _
      (chars_loop_end (fuel_for l) l b.ready (omega arith)) (λ _ _ f. f)
      λ _ l1 f b1.
        Ends-bind _ (ScannedFrom l1) (new_token TokenType.name) _ l1
          (new_token-kept TokenType.name l1 b1) λ t l2 ((n, _), s). named-Scanned is_var l1 t l2 n s

pub scan_name-Scanned : Scanner scan_name
unfolding scan_name ignore
scan_name-Scanned l b =
    Ends-bind (Took l) (ScannedFrom l) (accept_rune b'$') _ l
      (unfold accept_rune in accept-Took (is_rune b'$') refl l b.ready) begin
  where
    begin :
        (is_var : Bool) (l1 : Lexer)
        → Took l is_var l1
        → Ends (ScannedFrom l) (
            ((if is_var then ignore else pure tt)
                >> ((λ k. chars_loop (fuel_for k) k)
                    >> (new_token TokenType.name >>= λ t. pure (named is_var t))))
              l1)
    begin true l1 (f, c, w) =
        let l2 = record l1 { start = l1.current } in
        Ends-weaken (ScannedFrom l2) (ScannedFrom l) _
          (name_text true l2 (record {
            ready = record {
              plain = (Ready-Forward l l1 b.ready f).plain;
              within = (Ready-Forward l l1 b.ready f).within;
            };
            begun = omega arith;
          }))
          (Scanned-back l l2 (sym f.input_same) (omega (arith, b.begun, f.forward)))
    begin false l1 (f, c) =
        Ends-weaken (ScannedFrom l1) (ScannedFrom l) _ (name_text false l1 (Begun-Forward l l1 b f))
          (Scanned-back l l1 (sym f.input_same) (omega (arith, f.start_same)))
