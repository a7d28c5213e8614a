-- ===== src/Syntax/Lex/Total.antt =====
-- internal/syntax/lexer.go: `next` ends within its fuel and takes a byte of what is not the end.
use mathlib.Core.Bool.{true≢false}
use jsonata_go.Prelude.{
  ℕ, zero, suc, ◌+◌, ◌≤◌, ◌<◌, ◌≡◌, ◌≢◌, refl, sym, subst, ◌∙◌, Bool, true, false, ◌||◌, List, [],
  ◌∷◌, Text, Option, length, ◌==◌, arith, if◌then◌else◌, inl, inr, ◌⊎◌,
}
use jsonata_go.Unicode.{Unicode}
use jsonata_go.Utf8.{decode_rune, rune_error}
use jsonata_go.Syntax.{TokenKind, Token, ErrorCode}
use jsonata_go.Syntax.State.{Outcome, done, failed, out_of_fuel}
use jsonata_go.Syntax.Lex.{
  Lexer, ◌>>=◌, when◌then◌else◌, pure, is_empty, with_fuel, lexer_on, pos, at_end, peek, make_token,
  position_of,
}
use jsonata_go.Syntax.Lex.Numbers.{is_word_rune}
use jsonata_go.Syntax.Lex.Next.{skip_loop, token_at, next, is_eof, lex_loop, lex}
use jsonata_go.Syntax.Lex.Placed.{Placed, Placed-Reached}
use jsonata_go.Syntax.Lex.Moves.{
  Reached, Reached-trans, Within, Runs, Live, Runs-when, Runs-before, Runs-with_fuel,
}
use jsonata_go.Syntax.Lex.TextsRun.{string_token-Runs}
use jsonata_go.Syntax.Lex.NumbersRun.{word-Runs, number-Runs}
use jsonata_go.Syntax.Lex.PatternsRun.{regex_literal-Runs}
use jsonata_go.Syntax.Lex.SymbolsRun.{
  skip_loop-Runs, symbol_token-Runs, dollar_token-Runs, quote_token-Runs,
}

wider : (a b c d : Bool) → (a || c) ≡ true → (a || b || c || d) ≡ true
wider true b c d h = refl
wider false true c d h = refl
wider false false true d h = refl
wider false false false d h = absurd (true≢false (sym h))

module _ (u : Unicode) (compile : Text → Option ErrorCode) (letter : u.is_letter rune_error ≡ false)
    (digit : u.is_digit rune_error ≡ false) where
  token_at-Runs :
      (l : Lexer) → Live l → Runs l 1 (token_at u compile (position_of l) (decode_rune l.ahead).0)
  unfolding token_at
  token_at-Runs l live = Runs-before _ (
      Runs-when _
        (λ h. word-Runs u letter digit l (position_of l) (begins_word (decode_rune l.ahead).0 h))
        (λ _.
          Runs-when _ (λ _. number-Runs u letter digit l (position_of l))
            (λ _.
              Runs-when _ (λ _. quote_token-Runs u l (position_of l) live)
                (λ _.
                  Runs-when _ (λ _. regex_literal-Runs compile l live)
                    (λ _.
                      Runs-when _ (λ _. string_token-Runs u l (position_of l) true live)
                        (λ _.
                          Runs-when _ (λ _. dollar_token-Runs l (position_of l) live)
                            (λ _. symbol_token-Runs l (position_of l) _ live)))))))
    where
      begins_word : (r : ℕ) → (u.is_letter r || r == b'_') ≡ true → is_word_rune u r ≡ true
      begins_word r = wider (u.is_letter r) (u.is_digit r) (r == b'_') (r == b'$')

  -- A token takes a byte at least, unless it is the end.
  abbrev Takes : Lexer → Outcome (Token × Lexer) → Type 0
  Takes l (done (t, l')) =
      Reached l l' × (is_eof t.kind ≡ true ⊎ (length l'.ahead + 1 ≤ length l.ahead))
  Takes l (failed e) = Unit
  Takes l out_of_fuel = ⊥

  Takes-Within :
      (l l' : Lexer)
      → Reached l l'
      → length l'.ahead + 0 ≤ length l.ahead
      → (r : Outcome (Token × Lexer)) → Within 1 l' r
      → Takes l r
  Takes-Within l l' far near (done (t, l'')) (far', near') =
      (Reached-trans far far', inr (omega arith))
  Takes-Within l l' far near (failed e) h = tt
  Takes-Within l l' far near out_of_fuel h = h

  -- Where u knows U+FFFD as no letter and no digit, next has an error or goes forward rune by rune:
  -- over a byte at least, if its token is not the end.
  pub next-Takes : (l : Lexer) → Takes l (next u compile l)
  unfolding next ◌>>=◌ pos at_end peek when◌then◌else◌
  next-Takes l =
      skipped (with_fuel (skip_loop u) l)
        (Runs-with_fuel (skip_loop u) (skip_loop-Runs u (suc (length l.ahead)) l (omega arith))).ran
    where
      chosen :
          (l' : Lexer)
          → Reached l l'
          → length l'.ahead + 0 ≤ length l.ahead
          → (ended : Bool) → is_empty l'.ahead ≡ ended
          → Takes l (
              (when ended
                  then pure (make_token TokenKind.eof [] (position_of l'))
                  else token_at u compile (position_of l') (decode_rune l'.ahead).0)
                l')
      chosen l' far near true same = (far, inl refl)
      chosen l' far near false same = Takes-Within l l' far near _ (token_at-Runs l' same).ran

      skipped :
          (r : Outcome (Unit {0} × Lexer))
          → Within 0 l r
          → Takes l (elim r [
            | done (a, l') ↦
                ((pos >>= λ start. at_end >>= λ ended. peek >>= λ r.
                when ended
                then pure (make_token TokenKind.eof [] start)
                else token_at u compile start r)
                  l')
            | failed e ↦ failed e
            | out_of_fuel ↦ out_of_fuel
          ])
      skipped (done (a, l')) (far, near) = chosen l' far near (is_empty l'.ahead) refl
      skipped (failed e) h = tt
      skipped out_of_fuel h = h

  abbrev Ended : {A : Type 0} → Outcome A → Type 0
  Ended (done a) = Unit
  Ended (failed e) = Unit
  Ended out_of_fuel = ⊥

  Ended-cons :
      (t : Token) (r : Outcome (List Token × Lexer))
      → Ended r
      → Ended (elim r [
        | done (ts, l) ↦ pure (t ∷ ts) l
        | failed e ↦ failed e
        | out_of_fuel ↦ out_of_fuel
      ])
  Ended-cons t (done (ts, l)) h = tt
  Ended-cons t (failed e) h = tt
  Ended-cons t out_of_fuel h = h

  behind :
      (l : Lexer) (fuel : ℕ)
      → length l.ahead < suc fuel
      → ((l' : Lexer) → length l'.ahead < fuel → Ended (lex_loop u compile fuel l'))
      → (r : Outcome (Token × Lexer)) → Takes l r
      → Ended (elim r [
        | done (t, l') ↦
            ((when is_eof t.kind
                then pure (t ∷ [])
                else (lex_loop u compile fuel >>= λ ts. pure (t ∷ ts)))
              l')
        | failed e ↦ failed e
        | out_of_fuel ↦ out_of_fuel
      ])
  unfolding ◌>>=◌ when◌then◌else◌
  behind l fuel lt again (failed e) h = tt
  behind l fuel lt again out_of_fuel h = h
  behind l fuel lt again (done (t, l')) (far, taken) = chosen (is_eof t.kind) refl
    where
      chosen :
          (b : Bool)
          → is_eof t.kind ≡ b
          → Ended (
              (when b then pure (t ∷ []) else (lex_loop u compile fuel >>= λ ts. pure (t ∷ ts))) l')
      chosen true same = tt
      chosen false same = elim taken [
        | inl last ↦ absurd (true≢false (sym last ∙ same))
        | inr shorter ↦ Ended-cons t (lex_loop u compile fuel l') (again l' (omega arith))
      ]

  lex_loop-Ended :
      (fuel : ℕ) (l : Lexer) → length l.ahead < fuel → Ended (lex_loop u compile fuel l)
  unfolding lex_loop ◌>>=◌ when◌then◌else◌
  lex_loop-Ended zero l lt = absurd (omega arith)
  lex_loop-Ended (suc fuel) l lt =
      behind l fuel lt (λ l' shorter. lex_loop-Ended fuel l' shorter) (next u compile l)
        (next-Takes l)

  -- The lexing of any source comes to its tokens or to an error, if the tables of `unicode` know
  -- U+FFFD as no letter and no digit, whatever the compiler of patterns says.
  pub lex-ends : (source : Text) → lex u compile source ≢ out_of_fuel
  unfolding lex with_fuel
  lex-ends source =
      ending (lex_loop u compile (suc (length source)) (lexer_on source))
        (lex_loop-Ended (suc (length source)) (lexer_on source) (omega arith))
    where
      ending :
          (r : Outcome (List Token × Lexer))
          → Ended r
          → elim r [ done (ts, l) ↦ done ts | failed e ↦ failed e | out_of_fuel ↦ out_of_fuel ]
            ≢ out_of_fuel
      ending (done (ts, l)) h = cc
      ending (failed e) h = cc
      ending out_of_fuel h = elim h [ ]

  -- Where the tables of `unicode` know U+FFFD as no letter and no digit, next keeps the lexer placed in
  -- its source: the bytes before and ahead are the source, the line is one more than the newlines
  -- before, and the offset is the number of UTF-16 units before.
  pub next-Placed :
      (source : Text) (l l' : Lexer) (t : Token)
      → Placed source l
      → next u compile l ≡ done (t, l')
      → Placed source l'
  next-Placed source l l' t placed e = kept (next u compile l) (next-Takes l) e
    where
      kept : (r : Outcome (Token × Lexer)) → Takes l r → r ≡ done (t, l') → Placed source l'
      kept r takes same = Placed-Reached source l l' placed (subst (Takes l) same takes).0
