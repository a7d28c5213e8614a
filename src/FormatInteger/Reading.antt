-- ===== src/FormatInteger/Reading.antt =====
-- internal/evaluator/format_integer.go: what `builtinParseInteger` reads in digits and separators.
use jsonata_go.Prelude.{
  none, ℕ, ◌≡◌, refl, sym, ap, ◌∙◌, Bool, true, false, not, ◌&&◌, ◌||◌, List, [], ◌∷◌, ◌++◌,
  append_assoc, append-nil, Text, leb, ◌==◌, All, arith, Bool-cases, inl, inr,
}
use jsonata_go.Prelude.Result.{ok, ◌>>=◌}
use jsonata_go.Decimal.RoundTrip.{IsDecimal}
use jsonata_go.FormatInteger.Picture.{IntegerSeparator, IntegerPicture}
use jsonata_go.FormatInteger.Separators.Strip.{keep, Refused}
use jsonata_go.FormatInteger.Builtins.{
  unicode_integer_digit, is_separator, parse_digit, parse_digits,
}

abbrev pub is_decimal_digit : ℕ → Bool
is_decimal_digit c = leb b'0' c && leb c b'9'

-- A picture in ASCII digits whose separators are neither digits nor a minus.
abbrev pub IsOrdinary : IntegerPicture → Type 0
IsOrdinary picture =
    (picture.zero_digit ≡ b'0')
    × Refused is_decimal_digit picture.separators
    × (is_separator b'-' picture.separators ≡ false)

-- A test that keeps nothing refuses every character.
pub keep-nil : (p : ℕ → Bool) (t : Text) → keep p t ≡ [] → All (λ c. p c ≡ false) t
keep-nil p [] h = tt
keep-nil p (c ∷ cs) h = ground (arith, keep-nil p cs)

pub keep-all : (t : Text) → IsDecimal t → keep is_decimal_digit t ≡ t
keep-all [] d = refl
keep-all (c ∷ cs) d = ground (arith, keep-all cs)

pub keep-none : (p : ℕ → Bool) (t : Text) → All (λ c. p c ≡ false) t → keep p t ≡ []
keep-none p [] a = refl
keep-none p (c ∷ cs) (h, a) = ground (arith, keep-none p cs)

-- A character that is neither a digit nor a separator.
abbrev pub is_foreign : List IntegerSeparator → ℕ → Bool
is_foreign separators c = not (is_decimal_digit c || is_separator c separators)

or_true : (b : Bool) → (b || true) ≡ true
or_true true = refl
or_true false = refl

is_separator-behind :
    (s : IntegerSeparator) (ss xs : List IntegerSeparator)
    → All (λ x. is_separator x.char ss ≡ true) xs
    → All (λ x. is_separator x.char (s ∷ ss) ≡ true) xs
unfolding is_separator
is_separator-behind s ss [] a = tt
is_separator-behind s ss (x ∷ xs) (h, a) =
    (rw h (or_true (x.char == s.char)), is_separator-behind s ss xs a)

pub is_separator-members :
    (ss : List IntegerSeparator) → All (λ x. is_separator x.char ss ≡ true) ss
is_separator-members [] = tt
is_separator-members (s ∷ ss) =
    (unfold is_separator in ground arith, is_separator-behind s ss ss (is_separator-members ss))

-- Separators are not foreign.
pub members-Refused :
    (all ss : List IntegerSeparator)
    → All (λ x. is_separator x.char all ≡ true) ss
    → Refused (is_foreign all) ss
members-Refused all [] a = tt
members-Refused all (s ∷ ss) (h, a) =
    (rw (h, or_true (is_decimal_digit s.char)) refl, members-Refused all ss a)

digit_step :
    (picture : IntegerPicture) (c : ℕ) (digits : Text)
    → picture.zero_digit ≡ b'0'
    → is_decimal_digit c ≡ true
    → parse_digit picture c digits ≡ ok (digits ++ c ∷ [])
unfolding parse_digit
digit_step picture c digits z h = rw (z, h) refl

no_digit : (c : ℕ) → is_decimal_digit c ≡ false → unicode_integer_digit c b'0' ≡ none
unfolding unicode_integer_digit
no_digit c h = ground arith

separator_step :
    (picture : IntegerPicture) (c : ℕ) (digits : Text)
    → picture.zero_digit ≡ b'0'
    → is_decimal_digit c ≡ false
    → is_separator c picture.separators ≡ true
    → parse_digit picture c digits ≡ ok digits
unfolding parse_digit
separator_step picture c digits z h s = ground (arith, z, h, s, no_digit c h)

parse_step :
    (picture : IntegerPicture) (c : ℕ) (cs digits : Text) {more : Text}
    → parse_digit picture c digits ≡ ok more
    → parse_digits picture (c ∷ cs) digits ≡ parse_digits picture cs more
parse_step picture c cs digits e = unfold parse_digits in ap (λ r. r >>= parse_digits picture cs) e

pub parse-All :
    (picture : IntegerPicture) (t digits : Text)
    → picture.zero_digit ≡ b'0'
    → All (λ c. is_foreign picture.separators c ≡ false) t
    → parse_digits picture t digits ≡ ok (digits ++ keep is_decimal_digit t)
parse-All picture [] digits z a = unfold parse_digits in ap ok (sym (append-nil digits))
parse-All picture (c ∷ cs) digits z (h, a) = elim (Bool-cases (is_decimal_digit c)) [
  | inl d ↦
      parse_step picture c cs digits (digit_step picture c digits z d)
      ∙ parse-All picture cs (digits ++ c ∷ []) z a
      ∙ rw d (ap ok (append_assoc digits (c ∷ []) (keep is_decimal_digit cs)))
  | inr d ↦
      parse_step picture c cs digits (separator_step picture c digits z d (ground arith))
      ∙ parse-All picture cs digits z a
      ∙ rw d refl
]
