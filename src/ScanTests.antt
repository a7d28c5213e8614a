-- ===== src/ScanTests.antt =====
-- internal/syntax/lexer.go: the lexer on small inputs.
use jsonata_go.Prelude.{
  ◌≡◌, ◌≢◌, ◌↔◌, ◌∷◌, [], List, refl, false, Option, none, Text, codes, ◌=ᵗ◌, arith,
}
use jsonata_go.Unicode.{ascii}
use jsonata_go.Utf8.{decode_rune}
use jsonata_go.GoStrings.{has_prefix}
use jsonata_go.Syntax.{TokenKind, Token, ErrorCode}
use jsonata_go.Syntax.State.{Outcome, done, failed, out_of_fuel}
use jsonata_go.Syntax.Quoted.{decode_units, has_unpaired_surrogate, decode_quoted_string}
use jsonata_go.Syntax.Quoted.Surrogates.{
  units_of, decode-units_of, has_unpaired_surrogate_iff, Utf16,
}
use jsonata_go.Syntax.Lex.{
  Lexer, lexer_on, ◌>>=◌, when◌then◌else◌, peek, pos, at_end, byte_at, bytes_before, bytes_ahead,
  advance, text_from, advance_while, with_fuel, make_token,
}
use jsonata_go.Syntax.Lex.Numbers.{word, word_kind, number, unsigned_number, decimal_number}
use jsonata_go.Syntax.Lex.Texts.{string_token, quoted_loop, closed_string, regex_start}
use jsonata_go.Syntax.Lex.Next.{
  comment_loop, comment, skip_loop, single_kind, single, symbol_token, dollar_token, quote_token,
  token_at, next, lex_loop, lex,
}
use jsonata_go.Syntax.Lex.Placed.{Placed, Placed-lexer_on}
use jsonata_go.Syntax.Lex.Total.{next-Placed}
use jsonata_go.Parsing.{parse, exhausted, parse-total}

abbrev kinds_of : Outcome (List Token) → List TokenKind
kinds_of (done ts) = kinds ts
  where
    kinds : List Token → List TokenKind
    kinds [] = []
    kinds (t ∷ ts) = t.kind ∷ kinds ts
kinds_of (failed e) = []
kinds_of out_of_fuel = []

-- No pattern is an error.
abbrev compiles : Text → Option ErrorCode
compiles pattern = none

abbrev source : Text
source = codes "$sum(a.b) /* c */ + 'x\\u0041'"

parse-total_example : parse ascii compiles source ≢ exhausted
parse-total_example = parse-total ascii compiles refl refl source

abbrev after_word : Lexer
after_word = record { before = codes "ba"; ahead = codes " c"; utf16 = 2; line = 1; column = 3 }

abbrev word_token : Token
word_token =
    make_token TokenKind.identifier (codes "ab")
      (record { offset = 0; byte = 0; line = 1; column = 1 })

first_token : next ascii compiles (lexer_on (codes "ab c")) ≡ done (word_token, after_word)
unfolding next skip_loop token_at word word_kind ◌>>=◌ when◌then◌else◌ peek pos at_end byte_at
    bytes_before advance text_from advance_while with_fuel decode_rune ◌=ᵗ◌
first_token = refl

next-Placed_example : Placed (codes "ab c") after_word
next-Placed_example =
    next-Placed ascii compiles refl refl (codes "ab c") (lexer_on (codes "ab c")) after_word
      word_token (Placed-lexer_on (codes "ab c")) first_token

decode-units_of_example :
    (decode_units (units_of (0x1f600 ∷ b'a' ∷ [])) ≡ 0x1f600 ∷ b'a' ∷ [])
    × (has_unpaired_surrogate (units_of (0x1f600 ∷ b'a' ∷ [])) ≡ false)
decode-units_of_example = decode-units_of (0x1f600 ∷ b'a' ∷ []) (refl, (refl, tt))

has_unpaired_surrogate_iff_example :
    (has_unpaired_surrogate (0xd83d ∷ 0xde00 ∷ []) ≡ false) ↔ Utf16 (0xd83d ∷ 0xde00 ∷ [])
has_unpaired_surrogate_iff_example =
    has_unpaired_surrogate_iff (0xd83d ∷ 0xde00 ∷ []) (omega arith, (omega arith, tt))

lexed_source :
    kinds_of (lex ascii compiles source)
    ≡ TokenKind.dollar ∷ TokenKind.identifier ∷ TokenKind.lparen ∷ TokenKind.identifier
      ∷ TokenKind.operator ∷ TokenKind.identifier ∷ TokenKind.rparen ∷ TokenKind.operator
      ∷ TokenKind.string ∷ TokenKind.eof ∷ []
unfolding lex lex_loop next skip_loop comment comment_loop token_at word word_kind number
    unsigned_number decimal_number string_token quoted_loop closed_string regex_start dollar_token
    quote_token symbol_token single single_kind ◌>>=◌ when◌then◌else◌ peek pos at_end byte_at
    bytes_before bytes_ahead advance text_from advance_while with_fuel decode_rune has_prefix
    decode_quoted_string ◌=ᵗ◌
lexed_source = refl
