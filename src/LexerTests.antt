-- ===== src/LexerTests.antt =====
-- Runs of the lexer, and its theorems at concrete texts.
use jsonata_go.Prelude.{
  ℕ, ◌≡◌, refl, true, false, inl, [], ◌∷◌, Option, none, some, Text, codes, List, arith,
}
use jsonata_go.Utf8.{decode_rune}
use jsonata_go.Lexer.{Lexer, TokenType, new_lexer}
use jsonata_go.Lexer.Next.{next}
use jsonata_go.Lexer.Moves.{Ends}
use jsonata_go.Lexer.Tokens.{Scanned}
use jsonata_go.Lexer.Total.{next-Scanned}
use jsonata_go.Lexer.Panics.{next_panics, next-IsDone, IsDone}

-- The tokens of a text, up to EOF or as many as the number says.
tokens : ℕ → Lexer → Option (List (TokenType × Text))
tokens ℕ.zero l = some []
tokens (ℕ.suc n) l =
    let rest = tokens n in
    elim (next true l) [
      | none ↦ none
      | some (t, l') ↦ elim (rest l') [ none ↦ none | some ts ↦ some ((t.type, t.value) ∷ ts) ]
    ]

tokens_run :
    tokens 6 (new_lexer (codes "$a.b>=12.5e3 'x\\'y'"))
    ≡ some (
        (TokenType.variable, codes "a")
        ∷ (TokenType.dot, codes ".")
        ∷ (TokenType.name, codes "b")
        ∷ (TokenType.greater_equal, codes ">=")
        ∷ (TokenType.number, codes "12.5e3")
        ∷ (TokenType.string, codes "x\\'y")
        ∷ [])
unfolding tokens next decode_rune
tokens_run = refl

regex_run :
    tokens 2 (new_lexer (codes "/a[/]b/im and"))
    ≡ some ((TokenType.regex, codes "(?im)a[/]b") ∷ (TokenType.and_op, codes "and") ∷ [])
unfolding tokens next decode_rune
regex_run = refl

-- A point without digits is given back before another point, and kept at the end of the text.
point_run :
    (tokens 3 (new_lexer (codes "1..5"))
      ≡ some (
          (TokenType.number, codes "1")
          ∷ (TokenType.range, codes "..")
          ∷ (TokenType.number, codes "5")
          ∷ []))
    × (tokens 1 (new_lexer (codes "1.")) ≡ some ((TokenType.number, codes "1.") ∷ []))
unfolding tokens next decode_rune
point_run = (refl, refl)

-- A point without digits is given back by the width of the rune behind it, which here is too far.
wide_behind_point : tokens 1 (new_lexer (b'1' ∷ b'.' ∷ 0xe4 ∷ 0xb8 ∷ 0x96 ∷ [])) ≡ none
unfolding tokens next decode_rune
wide_behind_point = refl

next-Scanned_example :
    Ends (Scanned (codes " 'ab' & c") 0) (next false (new_lexer (codes " 'ab' & c")))
next-Scanned_example =
    next-Scanned false (new_lexer (codes " 'ab' & c")) (omega arith) (omega arith)

next_panics_example : next true (new_lexer (b'!' ∷ 0xe4 ∷ 0xb8 ∷ 0x96 ∷ [])) ≡ none
unfolding decode_rune
next_panics_example = next_panics true b'!' (0xe4 ∷ 0xb8 ∷ 0x96 ∷ []) (inl refl) (omega arith)

next-IsDone_example :
    (l' : Lexer) × (next true (new_lexer [])
      ≡ some (record { type = TokenType.eof; value = []; position = 0 }, l'))
    × (l'.current ≡ 0)
    × IsDone l'
next-IsDone_example = next-IsDone true (new_lexer []) refl
