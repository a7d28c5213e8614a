-- ===== src/Lexer/Scanners.antt =====
-- jparse/lexer.go: the loops that look for the end of a literal, on a text of ASCII bytes.
use jsonata_go.Prelude.{
  ℕ, zero, suc, ◌+◌, ◌<◌, ◌≡◌, Bool, true, false, inl, inr, none, some, ◌==◌, if◌then◌else◌, length,
  arith, Bool-cases,
}
use jsonata_go.Lexer.{Lexer, M, Rune, next_rune, backup, ◌>>=◌, pure}
use jsonata_go.Lexer.Strings.{
  Ending, closed, unterminated, cut_short, opens, closes, skip_escaped, string_round, string_loop,
  name_round, name_loop, regex_round, regex_loop,
}
use jsonata_go.Lexer.Words.{chars_round, chars_loop, ends_name}
use jsonata_go.Lexer.Moves.{
  Ends, Ends-bind, Ends-weaken, Forward, Forward-trans, Read, Ready, Ready-Forward, next_rune-Read,
}

-- How such a loop ends: behind a delimiter of one byte, or without one.
abbrev pub LoopEnd : Lexer → Ending → Lexer → Type 0
LoopEnd l closed l' = Forward l l' × (l.current < l'.current) × (l'.width ≡ 1)
LoopEnd l unterminated l' = Forward l l'

LoopEnd-trans :
    (a b : Lexer) → Forward a b → (e : Ending) (c : Lexer) → LoopEnd b e c → LoopEnd a e c
LoopEnd-trans a b f closed c (g, lt, w) = (Forward-trans a b c f g, omega (arith, f.forward), w)
LoopEnd-trans a b f unterminated c g = Forward-trans a b c f g

-- A loop that goes on from further along.
abbrev Again : Lexer → M Ending → Type 0
Again l loop =
    (l' : Lexer)
    → Ready l'
    → l.current < l'.current
    → l'.input ≡ l.input
    → Ends (LoopEnd l') (loop l')

module _ (l l1 : Lexer) (g : Ready l) (f : Forward l l1) (further : l.current < l1.current) where
  -- Going on ends as the loop ends.
  resume : (loop : M Ending) → Again l loop → Ends (LoopEnd l) (loop l1)
  resume loop again =
      Ends-weaken (LoopEnd l1) (LoopEnd l) (loop l1)
        (again l1 (Ready-Forward l l1 g f) further f.input_same) (LoopEnd-trans l l1 f)

  resume_escaped :
      (newline : Bool) (loop : M Ending)
      → Again l loop
      → Ends (LoopEnd l) (skip_escaped newline loop l1)
  unfolding skip_escaped
  resume_escaped newline loop again =
      Ends-bind (Read l1) (LoopEnd l) next_rune _ l1 (next_rune-Read l1 (Ready-Forward l l1 g f))
        finish
    where
      behind :
          (r : Rune) (l2 : Lexer)
          → Forward l l2
          → l.current < l2.current
          → Ends (LoopEnd l) ((if cut_short newline r then pure unterminated else loop) l2)
      behind r l2 k m = elim (Bool-cases (cut_short newline r)) [
        | inl e ↦ rw e k
        | inr e ↦ rw e (
            Ends-weaken (LoopEnd l2) (LoopEnd l) (loop l2)
              (again l2 (Ready-Forward l l2 g k) m k.input_same) (LoopEnd-trans l l2 k))
      ]

      finish :
          (r : Rune) (l2 : Lexer)
          → Read l1 r l2
          → Ends (LoopEnd l) ((if cut_short newline r then pure unterminated else loop) l2)
      finish none l2 (k, c, _) =
          behind none l2 (Forward-trans l l1 l2 f k) (omega (arith, k.forward))
      finish (some d) l2 (k, c, _, _) =
          behind (some d) l2 (Forward-trans l l1 l2 f k) (omega (arith, k.forward))

-- The end of one round, from the rune that it has read.
abbrev RoundEnd : Lexer → (Rune → M Ending) → Type 0
RoundEnd l round = (r : Rune) (l1 : Lexer) → Read l r l1 → Ends (LoopEnd l) (round r l1)

loop_end :
    (round : Rune → M Ending) (l : Lexer)
    → Ready l
    → RoundEnd l round
    → Ends (LoopEnd l) ((next_rune >>= round) l)
loop_end round l g k = Ends-bind (Read l) (LoopEnd l) next_rune round l (next_rune-Read l g) k

string_round_end :
    (quote : ℕ) (loop : M Ending) (l : Lexer)
    → Ready l
    → Again l loop
    → RoundEnd l (string_round quote loop)
unfolding string_round
string_round_end quote loop l g again none l1 h = h.0
string_round_end quote loop l g again (some c) l1 (f, e, w, _) = elim (Bool-cases (c == quote)) [
  | inl q ↦ rw q (f, omega arith, w)
  | inr q ↦ rw q (elim (Bool-cases (c == b'\\')) [
    | inl b ↦ rw b (resume_escaped l l1 g f (omega arith) false loop again)
    | inr b ↦ rw b (resume l l1 g f (omega arith) loop again)
  ])
]

name_round_end :
    (quote : ℕ) (loop : M Ending) (l : Lexer)
    → Ready l
    → Again l loop
    → RoundEnd l (name_round quote loop)
unfolding name_round
name_round_end quote loop l g again none l1 h = h.0
name_round_end quote loop l g again (some c) l1 (f, e, w, _) = elim (Bool-cases (c == quote)) [
  | inl q ↦ rw q (f, omega arith, w)
  | inr q ↦ rw q (elim (Bool-cases (c == 10)) [
    | inl b ↦ rw b f
    | inr b ↦ rw b (resume l l1 g f (omega arith) loop again)
  ])
]

-- With enough fuel the loops end.
pub string_loop_end :
    (quote fuel : ℕ) (l : Lexer)
    → Ready l
    → length l.input < fuel + l.current
    → Ends (LoopEnd l) (string_loop fuel quote l)
unfolding string_loop
string_loop_end quote zero l g h = absurd (omega (arith, g.within))
string_loop_end quote (suc fuel) l g h = loop_end _ l g (
    string_round_end quote (string_loop fuel quote) l g
      λ l' g' m e. string_loop_end quote fuel l' g' (rw e (omega arith)))

pub name_loop_end :
    (quote fuel : ℕ) (l : Lexer)
    → Ready l
    → length l.input < fuel + l.current
    → Ends (LoopEnd l) (name_loop fuel quote l)
unfolding name_loop
name_loop_end quote zero l g h = absurd (omega (arith, g.within))
name_loop_end quote (suc fuel) l g h = loop_end _ l g (
    name_round_end quote (name_loop fuel quote) l g
      λ l' g' m e. name_loop_end quote fuel l' g' (rw e (omega arith)))

regex_round_end :
    (delim : ℕ) (loop : ℕ → ℕ → M Ending) (up down : ℕ) (l : Lexer)
    → Ready l
    → ((u d : ℕ) → Again l (loop u d))
    → RoundEnd l (regex_round delim loop up down)
unfolding regex_round
regex_round_end delim loop up down l g again none l1 h = h.0
regex_round_end delim loop up down l g again (some c) l1 (f, e, w, _) =
    elim (Bool-cases (c == delim)) [
      | inl q ↦ rw q (elim (Bool-cases (up == down)) [
        | inl b ↦ rw b (f, omega arith, w)
        | inr b ↦ rw b (on up down)
      ])
      | inr q ↦ rw q (elim (Bool-cases (opens c)) [
        | inl b ↦ rw b (on (up + 1) down)
        | inr b ↦ rw b (elim (Bool-cases (closes c)) [
          | inl s ↦ rw s (on up (down + 1))
          | inr s ↦ rw s (elim (Bool-cases (c == b'\\')) [
            | inl k ↦
                rw k (resume_escaped l l1 g f (omega arith) true (loop up down) (again up down))
            | inr k ↦
                rw k (elim (Bool-cases (c == 10)) [ inl z ↦ rw z f | inr z ↦ rw z (on up down) ])
          ])
        ])
      ])
    ]
  where
    on : (u d : ℕ) → Ends (LoopEnd l) (loop u d l1)
    on u d = resume l l1 g f (omega arith) (loop u d) (again u d)

pub regex_loop_end :
    (delim fuel up down : ℕ) (l : Lexer)
    → Ready l
    → length l.input < fuel + l.current
    → Ends (LoopEnd l) (regex_loop fuel delim up down l)
unfolding regex_loop
regex_loop_end delim zero up down l g h = absurd (omega (arith, g.within))
regex_loop_end delim (suc fuel) up down l g h = loop_end _ l g (
    regex_round_end delim (regex_loop fuel delim) up down l g
      λ u d l' g' m e. regex_loop_end delim fuel u d l' g' (rw e (omega arith)))

-- The loop over the characters of a name.
chars_round_end :
    (loop : M (Unit {0})) (l : Lexer)
    → Ready l
    → ((l' : Lexer)
        → Ready l'
        → l.current < l'.current
        → l'.input ≡ l.input
        → Ends (λ _. Forward l') (loop l'))
    → (r : Rune) (l1 : Lexer) → Read l r l1
    → Ends (λ _. Forward l) (chars_round loop r l1)
unfolding chars_round
chars_round_end loop l g again none l1 h = h.0
chars_round_end loop l g again (some c) l1 (f, e, w, _) = elim (Bool-cases (ends_name (some c))) [
  | inl b ↦ rw b (unfold backup in ground arith)
  | inr b ↦ rw b (
      Ends-weaken (λ _. Forward l1) (λ _. Forward l) (loop l1)
        (again l1 (Ready-Forward l l1 g f) (omega arith) f.input_same)
        (λ _ l2. Forward-trans l l1 l2 f))
]

pub chars_loop_end :
    (fuel : ℕ) (l : Lexer)
    → Ready l
    → length l.input < fuel + l.current
    → Ends (λ _. Forward l) (chars_loop fuel l)
unfolding chars_loop
chars_loop_end zero l g h = absurd (omega (arith, g.within))
chars_loop_end (suc fuel) l g h =
    Ends-bind (Read l) (λ _. Forward l) next_rune _ l (next_rune-Read l g)
      (chars_round_end (chars_loop fuel) l g
        λ l' g' m e. chars_loop_end fuel l' g' (rw e (omega arith)))
