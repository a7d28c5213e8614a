-- ===== src/FormatInteger/Digits.antt =====
-- internal/evaluator/format_integer.go: digits and separators that are written are read back.
use jsonata_go.Prelude.{
  =ᵗ_iff, ==_iff, ◌⊎◌, ℕ, zero, suc, ◌≡◌, refl, sym, ap, ◌∙◌, Bool, true, false, not, ◌&&◌, [], ◌∷◌,
  ◌++◌, Text, codes, ◌==◌, ◌=ᵗ◌, if◌then◌else◌, All, arith, Bool-cases, inl, inr,
}
use mathlib.Core.Bool.{true≢false}
use jsonata_go.Prelude.Int.{ℤ, pos, neg}
use jsonata_go.Prelude.Result.{Result, ok, ◌>>=◌}
use jsonata_go.Unicode.{Unicode}
use jsonata_go.Decimal.{decimal, read_decimal}
use jsonata_go.Decimal.RoundTrip.{IsDecimal, read-decimal, decimal-IsDecimal}
use jsonata_go.GoStrings.{trim_space}
use jsonata_go.GoStrings.Laws.{NoSpace, trim_space_fixed}
use jsonata_go.FormatInteger.Picture.{FormatError, IntegerPicture}
use jsonata_go.FormatInteger.Separators.{apply_integer_separators, map_integer_digits}
use jsonata_go.FormatInteger.Separators.Strip.{keep, Refused, keep-apply_integer_separators}
use jsonata_go.FormatInteger.Builtins.{
  pad_digits, ordinal_suffix, decimal_text, format_decimal, parse_digits, parse_signed, parse_with,
}
use jsonata_go.FormatInteger.Reading.{
  is_decimal_digit, IsOrdinary, keep-nil, keep-all, keep-none, is_foreign, is_separator-members,
  members-Refused, parse-All,
}

pad_digits-IsDecimal :
    (rounds mandatory : ℕ) (t : Text) → IsDecimal t → IsDecimal (pad_digits rounds mandatory t)
unfolding pad_digits
pad_digits-IsDecimal zero mandatory t d = d
pad_digits-IsDecimal (suc rounds) mandatory t d =
    ground (arith, pad_digits-IsDecimal rounds mandatory (b'0' ∷ t), d)

read_zero : (t : Text) → read_decimal 0 (b'0' ∷ t) ≡ read_decimal 0 t
unfolding read_decimal
read_zero t = refl

read-pad_digits :
    (rounds mandatory : ℕ) (t : Text)
    → read_decimal 0 (pad_digits rounds mandatory t) ≡ read_decimal 0 t
unfolding pad_digits
read-pad_digits zero mandatory t = refl
read-pad_digits (suc rounds) mandatory t =
    ground (arith, read-pad_digits rounds mandatory (b'0' ∷ t), read_zero t)

-- The digits of a number in a picture, before the separators.
abbrev digits_in : IntegerPicture → ℕ → Text
digits_in picture n =
    if n == 0 && picture.mandatory == 0
    then []
    else pad_digits picture.mandatory picture.mandatory (decimal n)

digits_in-IsDecimal : (picture : IntegerPicture) (n : ℕ) → IsDecimal (digits_in picture n)
digits_in-IsDecimal picture n = elim (Bool-cases (n == 0 && picture.mandatory == 0)) [
  | inl e ↦ rw e tt
  | inr e ↦
      rw e
        (pad_digits-IsDecimal picture.mandatory picture.mandatory (decimal n) (decimal-IsDecimal n))
]

read-digits_in : (picture : IntegerPicture) (n : ℕ) → read_decimal 0 (digits_in picture n) ≡ n
read-digits_in picture n = elim (Bool-cases (n == 0 && picture.mandatory == 0)) [
  | inl e ↦ rw e (unfold read_decimal in ground arith)
  | inr e ↦ rw e (read-pad_digits picture.mandatory picture.mandatory (decimal n) ∙ read-decimal n)
]

module _ (picture : IntegerPicture) (ordinary : IsOrdinary picture) where
  abbrev grouped : ℕ → Text
  grouped n = apply_integer_separators (digits_in picture n) picture

  decimal-own : (t : Text) → IsDecimal t → All (λ c. is_foreign picture.separators c ≡ false) t
  decimal-own [] d = tt
  decimal-own (c ∷ cs) d = ground (arith, decimal-own cs)

  grouped-own : (n : ℕ) → All (λ c. is_foreign picture.separators c ≡ false) (grouped n)
  grouped-own n = keep-nil (is_foreign picture.separators) (grouped n) (
      keep-apply_integer_separators (is_foreign picture.separators) (digits_in picture n) picture (
        members-Refused picture.separators picture.separators
          (is_separator-members picture.separators))
      ∙ keep-none (is_foreign picture.separators) (digits_in picture n)
          (decimal-own (digits_in picture n) (digits_in-IsDecimal picture n)))

  keep-grouped : (n : ℕ) → keep is_decimal_digit (grouped n) ≡ digits_in picture n
  keep-grouped n =
      keep-apply_integer_separators is_decimal_digit (digits_in picture n) picture ordinary.1
      ∙ keep-all (digits_in picture n) (digits_in-IsDecimal picture n)

  parse-grouped : (n : ℕ) → parse_digits picture (grouped n) [] ≡ ok (digits_in picture n)
  parse-grouped n =
      parse-All picture (grouped n) [] ordinary.0 (grouped-own n) ∙ ap ok (keep-grouped n)

  parse_minus :
      (t : Text) {digits : Text}
      → parse_digits picture t [] ≡ ok digits
      → parse_signed picture (b'-' ∷ t) ≡ ok (neg (pos (read_decimal 0 digits)))
  parse_minus t e = unfold parse_signed in ap (λ r. r >>= λ d. ok (neg (pos (read_decimal 0 d)))) e

  parse_empty :
      {digits : Text}
      → parse_digits picture [] [] ≡ ok digits
      → parse_signed picture [] ≡ ok (pos (read_decimal 0 digits))
  unfolding parse_signed read_decimal
  parse_empty e = ap (λ r. r >>= λ d. ok (pos (read_decimal 0 d))) e

  parse_other :
      (c : ℕ) (cs : Text)
      → (c == b'-') ≡ false
      → parse_signed picture (c ∷ cs)
        ≡ (parse_digits picture (c ∷ cs) [] >>= λ d. ok (pos (read_decimal 0 d)))
  unfolding parse_signed
  parse_other c cs m = rw m refl

  minus-foreign : (c : ℕ) → (c == b'-') ≡ true → is_foreign picture.separators c ≡ true
  minus-foreign c m = rw ((==_iff c b'-').0 m, ordinary.2) refl

  parse_plain :
      (t : Text) {digits : Text}
      → All (λ c. is_foreign picture.separators c ≡ false) t
      → parse_digits picture t [] ≡ ok digits
      → parse_signed picture t ≡ ok (pos (read_decimal 0 digits))
  parse_plain [] a e = parse_empty e
  parse_plain (c ∷ cs) (h, a) e = elim (Bool-cases (c == b'-')) [
    | inl m ↦ elim (true≢false (sym (minus-foreign c m) ∙ h)) [ ]
    | inr m ↦ parse_other c cs m ∙ ap (λ r. r >>= λ d. ok (pos (read_decimal 0 d))) e
  ]

  abbrev signed : Bool → ℕ → ℤ
  signed negative n = if negative then neg (pos n) else pos n

  decimal_text_lem :
      (negative : Bool) (n : ℕ)
      → decimal_text negative n picture
        ≡ (if negative && not (grouped n =ᵗ []) then b'-' ∷ grouped n else grouped n)
  decimal_text_lem negative n = unfold decimal_text in refl

  grouped-nil : (n : ℕ) → grouped n ≡ [] → n ≡ 0
  grouped-nil n e =
      sym (read-digits_in picture n)
      ∙ ap (read_decimal 0) (sym (keep-grouped n) ∙ ap (keep is_decimal_digit) e)
      ∙ (unfold read_decimal in refl)

  -- The sign is written unless there is no digit, and then the number is 0.
  text_cases :
      (negative : Bool) (n : ℕ)
      → (decimal_text negative n picture ≡ grouped n) × (signed negative n ≡ pos n)
        ⊎ (decimal_text negative n picture ≡ b'-' ∷ grouped n) × (signed negative n ≡ neg (pos n))
  text_cases false n = inl (decimal_text_lem false n, refl)
  text_cases true n = elim (Bool-cases (grouped n =ᵗ [])) [
    | inl e ↦
        let z = grouped-nil n ((=ᵗ_iff (grouped n) []).0 e) in
        inl (decimal_text_lem true n ∙ rw e refl, rw z refl)
    | inr e ↦ inr (decimal_text_lem true n ∙ rw e refl, refl)
  ]

  parse-decimal_text :
      (negative : Bool) (n : ℕ)
      → parse_signed picture (decimal_text negative n picture) ≡ ok (signed negative n)
  parse-decimal_text negative n = elim (text_cases negative n) [
    | inl (e, s) ↦
        rw (e, s)
          (parse_plain (grouped n) (grouped-own n) (parse-grouped n)
            ∙ ap (λ d. ok (pos d)) (read-digits_in picture n))
    | inr (e, s) ↦
        rw (e, s)
          (parse_minus (grouped n) (parse-grouped n)
            ∙ ap (λ d. ok (neg (pos d))) (read-digits_in picture n))
  ]

  digits-NoSpace : (u : Unicode) (t : Text) → IsDecimal t → NoSpace u t
  digits-NoSpace u [] d = tt
  digits-NoSpace u (c ∷ cs) ((a, b), d) =
      (u.is_space_ascii c (omega arith) ∙ ground arith, digits-NoSpace u cs d)

  grouped-NoSpace :
      (u : Unicode) (n : ℕ) → Refused u.is_space picture.separators → NoSpace u (grouped n)
  grouped-NoSpace u n blank = keep-nil u.is_space (grouped n) (
      keep-apply_integer_separators u.is_space (digits_in picture n) picture blank
      ∙ keep-none u.is_space (digits_in picture n)
          (digits-NoSpace u (digits_in picture n) (digits_in-IsDecimal picture n)))

  decimal_text-NoSpace :
      (u : Unicode) (negative : Bool) (n : ℕ)
      → Refused u.is_space picture.separators
      → NoSpace u (decimal_text negative n picture)
  decimal_text-NoSpace u negative n blank = elim (text_cases negative n) [
    | inl (e, s) ↦ rw e (grouped-NoSpace u n blank)
    | inr (e, s) ↦ rw e (u.is_space_ascii b'-' (omega arith), grouped-NoSpace u n blank)
  ]

  format_plain :
      (negative : Bool) (n : ℕ)
      → picture.modifier ≡ []
      → format_decimal negative n picture ≡ decimal_text negative n picture
  format_plain negative n m = format_by ∙ mapped _ ∙ unmodified
    where
      format_by :
          format_decimal negative n picture
          ≡ map_integer_digits picture.zero_digit (
              if picture.modifier =ᵗ codes "o"
              then decimal_text negative n picture ++ ordinal_suffix n
              else decimal_text negative n picture)
      format_by = unfold format_decimal in refl

      mapped : (t : Text) → map_integer_digits picture.zero_digit t ≡ t
      mapped t = unfold map_integer_digits in rw ordinary.0 refl

      unmodified :
          (if picture.modifier =ᵗ codes "o"
            then decimal_text negative n picture ++ ordinal_suffix n
            else decimal_text negative n picture)
          ≡ decimal_text negative n picture
      unmodified = unfold ◌=ᵗ◌ in rw m refl

  parse_unmodified :
      (u : Unicode) (check : Result FormatError (Unit {0})) (t : Text)
      → picture.modifier ≡ []
      → parse_with u check t picture ≡ parse_signed picture (trim_space u t)
  parse_unmodified u check t m = unfold parse_with in rw m refl

  -- The picture is in the digits 0 to 9 and has no modifier, and its separators are neither digits nor
  -- spaces nor a minus. Then the text that a number is written as is read back as that number, with its
  -- sign, whatever the separators and the zeros in front.
  pub parse-format_decimal :
      (u : Unicode) (check : Result FormatError (Unit {0})) (negative : Bool) (n : ℕ)
      → picture.modifier ≡ []
      → Refused u.is_space picture.separators
      → parse_with u check (format_decimal negative n picture) picture ≡ ok (signed negative n)
  parse-format_decimal u check negative n m blank = rw (format_plain negative n m) (
      parse_unmodified u check (decimal_text negative n picture) m
      ∙ ap (parse_signed picture) (
          trim_space_fixed u (decimal_text negative n picture)
            (decimal_text-NoSpace u negative n blank))
      ∙ parse-decimal_text negative n)
