-- ===== src/Lexer/Literals.antt =====
-- jparse/lexer.go: the tokens of strings, names in backquotes and regular expressions.
use jsonata_go.Prelude.{
  ℕ, ◌≤◌, ◌<◌, ◌≡◌, refl, sym, ◌∙◌, Bool, true, false, ◌⊎◌, inl, inr, [], ◌∷◌, if◌then◌else◌, arith,
  Bool-cases, ltb,
}
use jsonata_go.Lexer.{
  Lexer, M, Token, TokenType, ErrType, ◌>>=◌, pure, backup, ignore, accept_rune, accept_all,
  is_rune, is_regex_flag, new_token, fuel_for,
}
use jsonata_go.Lexer.Strings.{
  Ending, closed, unterminated, string_loop, name_loop, regex_loop, close_literal, end_literal,
  scan_string, scan_escaped_name, close_regex, end_regex, scan_regex, with_flags,
}
use jsonata_go.Lexer.Moves.{
  Ends, Ends-bind, Ends-weaken, Forward, Ready, Ready-Forward, Took, accept-Took,
  accept_all-Forward,
}
use jsonata_go.Lexer.Scanners.{LoopEnd, string_loop_end, name_loop_end, regex_loop_end}
use jsonata_go.Lexer.Tokens.{
  Scanned, ScannedFrom, Begun, new_token-Scanned, new_token-kept, Scanned-back, fail-Scanned,
  Scanned-further, Scanned-Ready,
}

-- A character has been read behind the token's start, and `backup` goes back by one at most.
pub record Reading (l : Lexer) : Type 0 where
  pub ready : Ready l
  pub ahead : l.start < l.current
  pub single : l.width ≤ 1

pub backup-Begun :
    (l : Lexer)
    → Reading l
    → Ends (λ _ l'. Begun l' × (l'.input ≡ l.input) × (l'.start ≡ l.start)) (backup l)
unfolding backup
backup-Begun l r = elim (Bool-cases (ltb l.current l.width)) [
  | inl e ↦ absurd (ground (arith, r.ahead, r.single))
  | inr e ↦ rw e (
    record {
      ready = record { plain = r.ready.plain; within = omega (arith, r.ready.within) };
      begun = omega (arith, r.ahead, r.single);
    },
    refl,
    refl,
  )
]

-- The delimiter that may stand behind a token.
pub accept_rune-Forward : (c : ℕ) (l : Lexer) → Ready l → Ends (λ _. Forward l) (accept_rune c l)
unfolding accept_rune
accept_rune-Forward c l g =
    Ends-weaken (Took l) (λ _. Forward l) _ (accept-Took (is_rune c) refl l g) λ b l' t. forward b t
  where
    forward : (b : Bool) {l' : Lexer} → Took l b l' → Forward l l'
    forward true t = t.0
    forward false t = t.0

close_literal-Scanned :
    (type : TokenType) (quote : ℕ) (l : Lexer)
    → Reading l
    → Ends (ScannedFrom l) (close_literal type quote l)
unfolding close_literal ignore
close_literal-Scanned type quote l r =
    Ends-bind _ (ScannedFrom l) backup _ l (backup-Begun l r) λ _ l1 (b, e, st).
      Ends-bind (ScannedFrom l1) (ScannedFrom l) (new_token type) _ l1 (new_token-Scanned type l1 b)
        λ t l2 s.
          Ends-bind (λ _. Forward l2) (ScannedFrom l) (accept_rune quote) _ l2
            (accept_rune-Forward quote l2 (Scanned-Ready l1.input l1.start t l2 s l1 refl b.ready))
            λ _ l3 f.
              Scanned-back l l1 (sym e) (omega arith) t _
                (Scanned-further l1.input l1.start t l2 l3 s f)

end_literal-Scanned :
    (type : TokenType) (problem : ErrType) (quote : ℕ) (l : Lexer)
    → Begun l
    → (e : Ending) (l1 : Lexer) → LoopEnd l e l1
    → Ends (ScannedFrom l) (end_literal type problem quote e l1)
unfolding end_literal
end_literal-Scanned type problem quote l b closed l1 (f, m, w) =
    Ends-weaken (ScannedFrom l1) (ScannedFrom l) _
      (close_literal-Scanned type quote l1 (record {
        ready = Ready-Forward l l1 b.ready f;
        ahead = rw f.start_same (omega (arith, b.begun));
        single = omega (arith, w);
      }))
      (Scanned-back l l1 (sym f.input_same) (omega (arith, f.start_same)))
end_literal-Scanned type problem quote l b unterminated l1 f =
    Ends-weaken (ScannedFrom l1) (ScannedFrom l) _
      (fail-Scanned problem (quote ∷ []) l1 (record {
        ready = Ready-Forward l l1 b.ready f;
        begun = rw f.start_same (omega (arith, b.begun, f.forward));
      }))
      (Scanned-back l l1 (sym f.input_same) (omega (arith, f.start_same)))

pub scan_string-Scanned :
    (quote : ℕ) (l : Lexer) → Begun l → Ends (ScannedFrom l) (scan_string quote l)
unfolding scan_string
scan_string-Scanned quote l b =
    Ends-bind (LoopEnd l) (ScannedFrom l) (λ k. string_loop (fuel_for k) quote k) _ l
      (string_loop_end quote (fuel_for l) l b.ready (omega arith))
      (end_literal-Scanned TokenType.string ErrType.unterminated_string quote l b)

pub scan_escaped_name-Scanned :
    (quote : ℕ) (l : Lexer) → Begun l → Ends (ScannedFrom l) (scan_escaped_name quote l)
unfolding scan_escaped_name
scan_escaped_name-Scanned quote l b =
    Ends-bind (LoopEnd l) (ScannedFrom l) (λ k. name_loop (fuel_for k) quote k) _ l
      (name_loop_end quote (fuel_for l) l b.ready (omega arith))
      (end_literal-Scanned TokenType.name_esc ErrType.unterminated_name quote l b)

-- The flags, which are read behind the closing delimiter.
abbrev take_flags : Token → Bool → M Token
take_flags t flagged =
    if flagged then (new_token TokenType.eof >>= λ flags. pure (with_flags t flags)) else pure t

take_flags-Scanned :
    (l : Lexer) (t : Token) (k : Lexer)
    → t.type ≡ TokenType.regex
    → l.start ≤ k.current
    → Scanned l.input l.start t k
    → (flagged : Bool) (k' : Lexer) → Forward k k'
    → (flagged ≡ false) × (k'.current ≡ k.current) ⊎ (flagged ≡ true) × (k.current < k'.current)
    → Ready k'
    → Ends (ScannedFrom l) (take_flags t flagged k')
take_flags-Scanned l t k regex m s false k' f w g =
    let still : k'.current ≡ k.current = ground arith in
    record {
      input_same = f.input_same ∙ s.input_same;
      at_boundary = omega (arith, f.start_same, s.at_boundary);
      behind = s.behind;
      before = omega (arith, s.before);
      bounded = omega (arith, s.bounded);
      moves = ground (arith, s.moves);
      spells = s.spells;
    }
take_flags-Scanned l t k regex m s true k' f w g =
    let further : k.current < k'.current = ground arith in
    Ends-bind _ (ScannedFrom l) (new_token TokenType.eof) _ k'
      (new_token-kept TokenType.eof k'
        (record { ready = g; begun = omega (arith, f.start_same, s.at_boundary) }))
      λ flags k2 ((_, c), r). record {
        input_same = r.input_same ∙ f.input_same ∙ s.input_same;
        at_boundary = r.at_boundary;
        behind = s.behind;
        before = omega (arith, s.before);
        bounded = rw (← s.input_same, ← f.input_same) r.bounded;
        moves = inl (omega arith);
        spells = inl regex;
      }

close_regex-Scanned :
    (delim : ℕ) (l : Lexer) → Reading l → Ends (ScannedFrom l) (close_regex delim l)
unfolding close_regex ignore
close_regex-Scanned delim l r =
    Ends-bind _ (ScannedFrom l) backup _ l (backup-Begun l r) λ _ l1 (b, e, st).
      Ends-bind _ (ScannedFrom l) (new_token TokenType.regex) _ l1
        (new_token-kept TokenType.regex l1 b)
        λ t l2 ((regex, c), s).
          let g2 = Scanned-Ready l1.input l1.start t l2 s l1 refl b.ready in
          Ends-bind (λ _. Forward l2) (ScannedFrom l) (accept_rune delim) _ l2
            (accept_rune-Forward delim l2 g2)
            λ _ l3 f.
              let l4 = record l3 { start = l3.current } in
              let s4 =
                Scanned-back l l1 (sym e) (omega arith) t l4
                  (Scanned-further l1.input l1.start t l2 l3 s f) in
              let g4 = Scanned-Ready l.input l.start t l4 s4 l refl r.ready in
              Ends-bind _ (ScannedFrom l) (accept_all is_regex_flag) _ l4
                (accept_all-Forward is_regex_flag refl l4 g4)
                λ flagged k' (f', w).
                  take_flags-Scanned l t l4 regex (omega (arith, s4.behind, s4.before)) s4 flagged
                    k' f' w (Ready-Forward l4 k' g4 f')

end_regex-Scanned :
    (delim : ℕ) (l : Lexer)
    → Begun l
    → (e : Ending) (l1 : Lexer) → LoopEnd l e l1
    → Ends (ScannedFrom l) (end_regex delim e l1)
unfolding end_regex
end_regex-Scanned delim l b closed l1 (f, m, w) =
    Ends-weaken (ScannedFrom l1) (ScannedFrom l) _
      (close_regex-Scanned delim l1 (record {
        ready = Ready-Forward l l1 b.ready f;
        ahead = rw f.start_same (omega (arith, b.begun));
        single = omega (arith, w);
      }))
      (Scanned-back l l1 (sym f.input_same) (omega (arith, f.start_same)))
end_regex-Scanned delim l b unterminated l1 f =
    Ends-weaken (ScannedFrom l1) (ScannedFrom l) _
      (fail-Scanned ErrType.unterminated_regex (delim ∷ []) l1 (record {
        ready = Ready-Forward l l1 b.ready f;
        begun = rw f.start_same (omega (arith, b.begun, f.forward));
      }))
      (Scanned-back l l1 (sym f.input_same) (omega (arith, f.start_same)))

pub scan_regex-Scanned :
    (delim : ℕ) (l : Lexer) → Begun l → Ends (ScannedFrom l) (scan_regex delim l)
unfolding scan_regex
scan_regex-Scanned delim l b =
    Ends-bind (LoopEnd l) (ScannedFrom l) (λ k. regex_loop (fuel_for k) delim 0 0 k) _ l
      (regex_loop_end delim (fuel_for l) 0 0 l b.ready (omega arith)) (end_regex-Scanned delim l b)
