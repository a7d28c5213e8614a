-- ===== src/Parsing.antt =====
-- internal/syntax/lexer.go: `Parse`, the lexer, the parser and the check of parent operators.
use jsonata_go.Prelude.{
  Option, ◌≡◌, Bool, false, ◌||◌, List, [], ◌∷◌, Text, codes, ◌=ᵗ◌, if◌then◌else◌, ◌≢◌, length,
  Bool-cases, inl, inr, refl, arith,
}
use jsonata_go.Unicode.{Unicode}
use jsonata_go.Utf8.{rune_error}
use jsonata_go.Syntax.Lex.Next.{lex}
use jsonata_go.Syntax.Lex.Total.{lex-ends}
use jsonata_go.Syntax.{Token, ErrorCode, ParseError, Node}
use jsonata_go.Syntax.Within.{Within}
use jsonata_go.Syntax.Expression.Total.{whole-Advances}
use jsonata_go.Syntax.State.{Parser, Outcome, done, failed, out_of_fuel, is_op}
use jsonata_go.Syntax.Expression.{parser_on, whole}
use jsonata_go.Ancestry.{Kind}
use jsonata_go.Ancestry.Process.{Verdict, accepted, rejected, check_ancestry}

-- A tree, an error, the panic of the check, or the end of the fuel.
pub data Parsed : Type 0 where
  parsed : Node → Parsed
  refused : ParseError → Parsed
  panicked exhausted : Parsed

-- `hasPercentToken`
unfoldable pub has_percent_token : List Token → Bool
unfolding ◌=ᵗ◌
has_percent_token [] = false
has_percent_token (t ∷ ts) = is_op (codes "%") t || has_percent_token ts

abbrev kind_text : Kind → Text
kind_text Kind.name = codes "name"
kind_text Kind.wildcard = codes "wildcard"
kind_text Kind.descendant = codes "descendant"
kind_text Kind.parent = codes "parent"
kind_text Kind.variable = codes "variable"
kind_text Kind.string = codes "string"
kind_text Kind.number = codes "number"
kind_text Kind.regex = codes "regex"
kind_text Kind.value = codes "value"
kind_text Kind.path = codes "path"
kind_text Kind.block = codes "block"
kind_text Kind.unary = codes "unary"
kind_text Kind.function = codes "function"
kind_text Kind.lambda = codes "lambda"
kind_text Kind.transform = codes "transform"
kind_text Kind.apply = codes "apply"
kind_text Kind.bind = codes "bind"
kind_text Kind.operator = codes "operator"
kind_text Kind.sort = codes "sort"
kind_text Kind.condition = codes "condition"
kind_text Kind.binary = codes "binary"

abbrev pub with_verdict : Node → Verdict → Parsed
with_verdict n accepted = parsed n
with_verdict n (rejected k position) =
    refused
      (record { code = ErrorCode.s0217; token = kind_text k; value = []; position = position })
with_verdict n Verdict.panics = panicked

unfoldable pub parse_tokens : Text → List Token → Parsed
parse_tokens source tokens = elim (whole (parser_on source tokens)) [
  | done (n, s) ↦ if has_percent_token tokens then with_verdict n (check_ancestry n) else parsed n
  | failed e ↦ refused e
  | out_of_fuel ↦ exhausted
]

-- The parse of any list of tokens comes to a tree, an error or the panic of the check.
pub parse_tokens-total :
    (source : Text) (tokens : List Token) → parse_tokens source tokens ≢ exhausted
unfolding parse_tokens
parse_tokens-total source tokens =
    ending (whole (parser_on source tokens))
      ((whole-Advances {n = length tokens}).steps (parser_on source tokens) refl (omega arith))
  where
    with_verdict-ends : (n : Node) (v : Verdict) → with_verdict n v ≢ exhausted
    with_verdict-ends n accepted = cc
    with_verdict-ends n (rejected k position) = cc
    with_verdict-ends n Verdict.panics = cc

    ending :
        (r : Outcome (Node × Parser))
        → Within 0 (parser_on source tokens) r
        → elim r [
          | done (n, s) ↦
              if has_percent_token tokens then with_verdict n (check_ancestry n) else parsed n
          | failed e ↦ refused e
          | out_of_fuel ↦ exhausted
        ]
          ≢ exhausted
    ending (done (n, s)) h = elim (Bool-cases (has_percent_token tokens)) [
      | inl e ↦ rw e (with_verdict-ends n (check_ancestry n))
      | inr e ↦ rw e (cc)
    ]
    ending (failed e) h = cc
    ending out_of_fuel h = elim h [ ]

-- `Parse`
unfoldable pub parse : Unicode → (Text → Option ErrorCode) → Text → Parsed
unfolding lex parse_tokens
parse u compile source = elim (lex u compile source) [
  | done tokens ↦ parse_tokens source tokens
  | failed e ↦ refused e
  | out_of_fuel ↦ exhausted
]

-- The parse of any source comes to a tree, an error or the panic of the check, if the tables of
-- `unicode` know U+FFFD as no letter and no digit, whatever the compiler of patterns says.
pub parse-total :
    (u : Unicode) (compile : Text → Option ErrorCode)
    → u.is_letter rune_error ≡ false
    → u.is_digit rune_error ≡ false
    → (source : Text) → parse u compile source ≢ exhausted
unfolding parse
parse-total u compile letter digit source =
    ending (lex u compile source) (lex-ends u compile letter digit source)
  where
    ending :
        (r : Outcome (List Token))
        → r ≢ out_of_fuel
        → elim r [
          | done tokens ↦ parse_tokens source tokens
          | failed e ↦ refused e
          | out_of_fuel ↦ exhausted
        ]
          ≢ exhausted
    ending (done tokens) h = parse_tokens-total source tokens
    ending (failed e) h = cc
    ending out_of_fuel h = absurd (h refl)
