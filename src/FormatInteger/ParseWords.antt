-- ===== src/FormatInteger/ParseWords.antt =====
-- internal/evaluator/format_integer.go: `parseIntegerWords`.
-- The result is the integer that the source then converts to a float64. A check of the runtime stands
-- before each word: it may stop the loop, which is an argument here.
use jsonata_go.Prelude.{
  ℕ, ◌+◌, ◌*◌, Bool, true, false, List, [], ◌∷◌, ◌++◌, map, none, some, Text, codes, ltb, ◌==◌,
  ◌=ᵗ◌, if◌then◌else◌,
}
use jsonata_go.Prelude.Int.{ℤ, pos, neg}
use jsonata_go.Prelude.Result.{Result, ok, err, ◌>>=◌}
use jsonata_go.Unicode.{Unicode}
use jsonata_go.GoStrings.{upper_text, lower_text, trim_space, replace_all, fields}
use jsonata_go.FormatInteger.Picture.{FormatError, d3130}
use jsonata_go.FormatInteger.Words.{words_under_twenty, words_tens, ordinal_names, lookup_text}

-- `ordinalWords`, the other way round, with the two scales that have an ordinal.
abbrev pub ordinal_words : List (Text × Text)
ordinal_words =
    map (λ (k, v). (v, k)) ordinal_names
    ++ ((codes "hundredth", codes "hundred") ∷ (codes "thousandth", codes "thousand") ∷ [])

abbrev numbered : ℕ → ℕ → List Text → List (Text × ℕ)
numbered step n [] = []
numbered step n ([] ∷ ts) = numbered step (n + step) ts
numbered step n ((c ∷ cs) ∷ ts) = (c ∷ cs, n) ∷ numbered step (n + step) ts

-- `unitValues`. With `ordinal` it also holds the ordinals, which never get there: a token that is
-- one of them has been replaced.
abbrev pub unit_values : List (Text × ℕ)
unit_values = numbered 1 0 words_under_twenty ++ numbered 10 0 words_tens

abbrev pub scale_values : List (Text × ℕ)
scale_values =
    (codes "hundred", 100)
    ∷ (codes "thousand", 1000)
    ∷ (codes "million", 1_000_000)
    ∷ (codes "billion", 1_000_000_000)
    ∷ (codes "trillion", 1_000_000_000_000)
    ∷ []

-- `total` and `current`
abbrev pub Sums : Type 0
Sums = ℕ × ℕ

unfoldable pub apply_scale : Bool → ℕ → Sums → Result FormatError Sums
apply_scale hundred scale (total, current) =
    if hundred
    then ok (total, if current == 0 then 100 else current * scale)
    else if ltb 0 current
    then ok (total + current * scale, 0)
    else if ltb 0 total
    then ok (total * scale, current)
    else err d3130

unfoldable pub apply_number : Text → Sums → Result FormatError Sums
unfolding apply_scale ◌=ᵗ◌
apply_number token (total, current) = elim (lookup_text token unit_values) [
  | some unit ↦ ok (total, current + unit)
  | none ↦ elim (lookup_text token scale_values) [
    | none ↦ err d3130
    | some scale ↦ apply_scale (token =ᵗ codes "hundred") scale (total, current)
  ]
]

unfoldable pub apply_word : Text → Sums → Result FormatError Sums
unfolding apply_number
apply_word token s = if token =ᵗ codes "and" then ok s else elim (lookup_text token ordinal_words) [
  | some replacement ↦ apply_number replacement s
  | none ↦ apply_number token s
]

unfoldable pub words_loop :
    Result FormatError (Unit {0}) → List Text → Sums → Result FormatError Sums
unfolding apply_word
words_loop check [] s = ok s
words_loop check (token ∷ tokens) s = check >>= λ _. apply_word token s >>= words_loop check tokens

unfoldable pub sum_words : Result FormatError (Unit {0}) → Bool → List Text → Result FormatError ℤ
unfolding words_loop
sum_words check negative tokens = words_loop check tokens (0, 0) >>= λ (total, current).
    ok (if negative then neg (pos (total + current)) else pos (total + current))

unfoldable pub signed_words : Result FormatError (Unit {0}) → List Text → Result FormatError ℤ
unfolding sum_words ◌=ᵗ◌
signed_words check [] = ok (pos 0)
signed_words check (token ∷ []) =
    if token =ᵗ codes "minus" then err d3130 else sum_words check false (token ∷ [])
signed_words check (token ∷ next ∷ tokens) =
    if token =ᵗ codes "minus"
    then sum_words check true (next ∷ tokens)
    else sum_words check false (token ∷ next ∷ tokens)

-- The words of a text.
unfoldable pub word_tokens : Unicode → Text → Text → List Text
unfolding trim_space replace_all fields ◌=ᵗ◌
word_tokens u modifier text =
    let lower = lower_text u (trim_space u text) in
    let again = if modifier =ᵗ codes "W" then lower_text u (upper_text u lower) else lower in
    fields u (replace_all (replace_all again (codes "-") (codes " ")) (codes ",") (codes " "))

unfoldable pub parse_integer_words :
    Unicode → Result FormatError (Unit {0}) → Text → Text → Result FormatError ℤ
unfolding word_tokens signed_words
parse_integer_words u check text modifier = signed_words check (word_tokens u modifier text)
