-- ===== src/Lexer/Panics.antt =====
-- jparse/lexer.go: where `next` panics, and where it gives EOF from then on.
use jsonata_go.Prelude.{
  is_some, ℕ, ◌+◌, ◌<◌, ◌≡◌, refl, ap, ◌∙◌, Bool, true, false, ◌⊎◌, inl, inr, [], ◌∷◌, Option, none,
  some, Text, ◌==◌, leb, ◌&&◌, length, arith, ◌||◌,
}
use jsonata_go.Utf8.{decode_rune, decode_rune-ascii, decode_rune_wide}
use jsonata_go.Lexer.{
  Lexer, M, Rune, TokenType, ◌>>=◌, ◌>>◌, pure, next_rune, backup, ignore, accept, accept_rune,
  accept_loop, accept_all, is_whitespace, new_lexer, skip_whitespace, eof_token,
}
use jsonata_go.Lexer.Next.{next_single, next_symbol, next_from, next}
use jsonata_go.Lexer.Symbols.{lookup_symbol2}
use jsonata_go.Lexer.Words.{scan_name}

-- Nothing is left to read, or the lexer has failed.
abbrev pub IsDone : Lexer → Type 0
IsDone l = (is_some l.failure || leb (length l.input) l.current) ≡ true

bind_step :
    {A B : Type 0} (m : M A) (f : A → M B) (l : Lexer) (a : A) (l' : Lexer)
    → m l ≡ some (a, l')
    → (m >>= f) l ≡ f a l'
bind_step m f l a l' e = rw (e, ◌>>=◌)

bind_panics : {A B : Type 0} (m : M A) (f : A → M B) (l : Lexer) → m l ≡ none → (m >>= f) l ≡ none
bind_panics m f l e = rw (e, ◌>>=◌)

done_rune : (l : Lexer) → IsDone l → next_rune l ≡ some (none, record l { width = 0 })
unfolding next_rune
done_rune l d = rw d

back_zero : (l : Lexer) → l.width ≡ 0 → backup l ≡ some (tt, l)
unfolding backup
back_zero l e = ground arith

refused :
    (is_valid : Rune → Bool) (l l1 : Lexer)
    → accept is_valid l ≡ some (false, l1)
    → accept_all is_valid l ≡ some (false, l1)
unfolding accept_all
refused is_valid l l1 e =
    ap
      (λ (o : Option (Bool × Lexer)). elim o as (λ _. Option (Bool × Lexer)) [
        | none ↦ none
        | some (true, l') ↦ accept_loop (length l.input) is_valid true l'
        | some (false, l') ↦ some (false, l')
      ])
      e

done_accept : (l : Lexer) → IsDone l → accept is_whitespace l ≡ some (false, record l { width = 0 })
unfolding accept
done_accept l d =
    let l0 = record l { width = 0 } in
    bind_step next_rune _ l none l0 (done_rune l d)
    ∙ bind_step backup (λ _. pure false) l0 tt l0 (back_zero l0 refl)

done_skip :
    (l : Lexer)
    → IsDone l
    → skip_whitespace l ≡ some (tt, record l { width = 0; start = l.current })
unfolding skip_whitespace
done_skip l d =
    bind_step (accept_all is_whitespace) (λ _. ignore) l false (record l { width = 0 })
      (refused is_whitespace l _ (done_accept l d))

-- Once the lexer has failed or stands at the end of its text, a call of `next` gives EOF at the place
-- where it stands, stays there, and leaves it in such a state.
pub next-IsDone :
    (allow_regex : Bool) (l : Lexer)
    → IsDone l
    → (l' : Lexer) × (next allow_regex l
        ≡ some (record { type = TokenType.eof; value = []; position = l.current }, l'))
      × (l'.current ≡ l.current)
      × IsDone l'
unfolding next next_from eof_token
next-IsDone allow_regex l d =
    let l1 = record l { width = 0; start = l.current } in
    (
      l1,
      bind_step skip_whitespace _ l tt l1 (done_skip l d)
          ∙ bind_step next_rune _ l1 none l1 (done_rune l1 d),
      refl,
      d,
    )

wide-pos : (bs : Text) → 1 < (decode_rune bs).1 → 0 < length bs
wide-pos [] h = absurd (unfold decode_rune in omega arith)
wide-pos (b ∷ bs) h = omega arith

-- A text that begins with a character which is the first of a symbol of two, and no symbol by itself.
module _ (mark second : ℕ) (type : TokenType) (rest : Text) (mark_small : mark < 128)
    (second_small : second < 128) (pair : lookup_symbol2 (some mark) ≡ some (second, type))
    (alone : next_single mark ≡ (backup >> scan_name))
    (no_space : is_whitespace (some mark) ≡ false) (no_regex : (mark == b'/') ≡ false)
    (wide : 1 < (decode_rune rest).1) where
  at_mark :
      (w : ℕ)
      → next_rune (record (new_lexer (mark ∷ rest)) { width = w })
        ≡ some (some mark, record (new_lexer (mark ∷ rest)) { width = 1; current = 1 })
  unfolding next_rune
  at_mark w = rw (decode_rune-ascii mark rest mark_small) (ground arith)

  mark_skip :
      skip_whitespace (new_lexer (mark ∷ rest))
      ≡ some (tt, record (new_lexer (mark ∷ rest)) { width = 1 })
  unfolding skip_whitespace
  mark_skip =
      let l = new_lexer (mark ∷ rest) in
      let l1 = record l { width = 1; current = 1 } in
      bind_step (accept_all is_whitespace) (λ _. ignore) l false (record l { width = 1 })
        (refused is_whitespace l _ (
          bind_step next_rune _ l (some mark) l1 (at_mark 0)
          ∙ rw no_space (bind_step backup (λ _. pure false) l1 tt (record l { width = 1 }) refl)))

  abbrev behind_mark : ℕ → Lexer
  behind_mark w = record (new_lexer (mark ∷ rest)) { width = w; current = 1 }

  other_rune :
      next_rune (behind_mark 1)
      ≡ some (
        some (decode_rune rest).0,
        record (behind_mark 1) { width = (decode_rune rest).1; current = 1 + (decode_rune rest).1 },
      )
  other_rune = step (wide-pos rest wide)
    where
      step :
          0 < length rest
          → next_rune (behind_mark 1)
            ≡ some (
              some (decode_rune rest).0,
              record (behind_mark 1) {
                width = (decode_rune rest).1;
                current = 1 + (decode_rune rest).1;
              },
            )
      step h = unfold next_rune in ground arith

  -- The second character is not there; its rune has been put back, and its width is kept.
  no_second : accept_rune second (behind_mark 1) ≡ some (false, behind_mark (decode_rune rest).1)
  unfolding accept_rune
  no_second =
      let w = (decode_rune rest).1 in
      let read = record (behind_mark 1) { width = w; current = 1 + w } in
      let other : (◌==◌ (decode_rune rest).0 second) ≡ false =
        ground (arith, decode_rune_wide rest wide) in
      bind_step next_rune _ (behind_mark 1) (some (decode_rune rest).0) read other_rune
      ∙ rw other (
          bind_step backup (λ _. pure false) read tt (behind_mark w)
            (unfold backup in ground arith))

  mark_panics : (allow_regex : Bool) → next allow_regex (new_lexer (mark ∷ rest)) ≡ none
  unfolding next next_from next_symbol
  mark_panics allow_regex =
      let w = (decode_rune rest).1 in
      let l1 = record (new_lexer (mark ∷ rest)) { width = 1 } in
      let no_slash : (allow_regex && mark == b'/') ≡ false = ground arith in
      bind_step skip_whitespace _ (new_lexer (mark ∷ rest)) tt l1 mark_skip
      ∙ bind_step next_rune _ l1 (some mark) (behind_mark 1) (at_mark 1)
      ∙ rw no_slash (
          rw (next_symbol, pair)
            (bind_step (accept_rune second) _ (behind_mark 1) false (behind_mark w) no_second
              ∙ rw alone (
                  bind_panics backup (λ _. scan_name) (behind_mark w)
                    (unfold backup in ground arith))))

bang_alone : next_single b'!' ≡ (backup >> scan_name)
unfolding next_single
bang_alone = refl

tilde_alone : next_single b'~' ≡ (backup >> scan_name)
unfolding next_single
tilde_alone = refl

bang_pair : lookup_symbol2 (some b'!') ≡ some (b'=', TokenType.not_equal)
unfolding lookup_symbol2
bang_pair = refl

tilde_pair : lookup_symbol2 (some b'~') ≡ some (b'>', TokenType.apply)
unfolding lookup_symbol2
tilde_pair = refl

-- A text that begins with "!" or "~" and a rune of two bytes or more behind it makes `next` panic:
-- `backup` goes back by the width of that rune, which has been put back before.
pub next_panics :
    (allow_regex : Bool) (mark : ℕ) (rest : Text)
    → (mark ≡ b'!') ⊎ (mark ≡ b'~')
    → 1 < (decode_rune rest).1
    → next allow_regex (new_lexer (mark ∷ rest)) ≡ none
next_panics allow_regex mark rest (inl e) wide = rw e (
    mark_panics b'!' b'=' TokenType.not_equal rest (omega arith) (omega arith) bang_pair bang_alone
      refl refl wide allow_regex)
next_panics allow_regex mark rest (inr e) wide = rw e (
    mark_panics b'~' b'>' TokenType.apply rest (omega arith) (omega arith) tilde_pair tilde_alone
      refl refl wide allow_regex)
