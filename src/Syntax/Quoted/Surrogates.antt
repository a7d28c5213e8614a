-- ===== src/Syntax/Quoted/Surrogates.antt =====
-- internal/syntax/lexer.go: which units are the UTF-16 of runes.
use mathlib.Core.Bool.{true≢false}
use jsonata_go.Prelude.{
  ℕ, ◌<◌, ◌≡◌, ◌↔◌, refl, sym, ap, ◌∙◌, Bool, true, false, ◌||◌, List, [], ◌∷◌, ◌++◌, leb, All,
  arith, Bool-cases, inl, inr,
}
use jsonata_go.Syntax.Quoted.{
  rune_units, is_high, is_low, has_unpaired_surrogate, decode_units, is_scalar, high_unit, low_unit,
  joined_rune,
}

-- The UTF-16 of runes.
unfoldable pub units_of : List ℕ → List ℕ
units_of [] = []
units_of (r ∷ rs) = rune_units r ++ units_of rs

abbrev pub Scalar : ℕ → Type 0
Scalar r = is_scalar r ≡ true

module _ (unit : ℕ) (rest : List ℕ) (high : is_high unit ≡ false) (low : is_low unit ≡ false) where
  decode-plain : decode_units (unit ∷ rest) ≡ unit ∷ decode_units rest
  unfolding decode_units
  decode-plain = plain rest
    where
      plain : (rest : List ℕ) → decode_units (unit ∷ rest) ≡ unit ∷ decode_units rest
      plain [] = rw (high, low) refl
      plain (next ∷ rest) = rw (high, low) refl

  unpaired-plain : has_unpaired_surrogate (unit ∷ rest) ≡ has_unpaired_surrogate rest
  unfolding has_unpaired_surrogate
  unpaired-plain = plain rest
    where
      plain : (rest : List ℕ) → has_unpaired_surrogate (unit ∷ rest) ≡ has_unpaired_surrogate rest
      plain [] = rw (high, low) refl
      plain (next ∷ rest) = rw (high, low) refl

module _ (h l : ℕ) (rest : List ℕ) (high : is_high h ≡ true) (low : is_low l ≡ true) where
  decode-pair : decode_units (h ∷ l ∷ rest) ≡ joined_rune h l ∷ decode_units rest
  unfolding decode_units
  decode-pair = rw (high, low) refl

  unpaired-pair : has_unpaired_surrogate (h ∷ l ∷ rest) ≡ has_unpaired_surrogate rest
  unfolding has_unpaired_surrogate
  unpaired-pair = rw (high, low) refl

Scalar-high : (r : ℕ) → Scalar r → is_high r ≡ false
Scalar-high r = ground arith

Scalar-low : (r : ℕ) → Scalar r → is_low r ≡ false
Scalar-low r = ground arith

is_high-high_unit : (r : ℕ) → is_high (high_unit r) ≡ true
is_high-high_unit r = ground arith

is_low-low_unit : (r : ℕ) → is_low (low_unit r) ≡ true
is_low-low_unit r = ground arith

joined-units :
    (r : ℕ) → Scalar r → leb r 0xffff ≡ false → joined_rune (high_unit r) (low_unit r) ≡ r
joined-units r h wide = ground arith

decode-rune_units :
    (r : ℕ) (rest : List ℕ) → Scalar r → decode_units (rune_units r ++ rest) ≡ r ∷ decode_units rest
unfolding rune_units
decode-rune_units r rest h = elim (Bool-cases (leb r 0xffff)) [
  | inl e ↦ rw e (decode-plain r rest (Scalar-high r h) (Scalar-low r h))
  | inr e ↦ rw e (
      decode-pair (high_unit r) (low_unit r) rest (is_high-high_unit r) (is_low-low_unit r)
      ∙ ap (λ n. n ∷ decode_units rest) (joined-units r h e))
]

unpaired-rune_units :
    (r : ℕ) (rest : List ℕ)
    → Scalar r
    → has_unpaired_surrogate (rune_units r ++ rest) ≡ has_unpaired_surrogate rest
unfolding rune_units
unpaired-rune_units r rest h = elim (Bool-cases (leb r 0xffff)) [
  | inl e ↦ rw e (unpaired-plain r rest (Scalar-high r h) (Scalar-low r h))
  | inr e ↦
      rw e (unpaired-pair (high_unit r) (low_unit r) rest (is_high-high_unit r) (is_low-low_unit r))
]

unpaired-units_of : (rs : List ℕ) → All Scalar rs → has_unpaired_surrogate (units_of rs) ≡ false
unfolding units_of has_unpaired_surrogate
unpaired-units_of [] h = refl
unpaired-units_of (r ∷ rs) (h, hs) = unpaired-rune_units r (units_of rs) h ∙ unpaired-units_of rs hs

-- The units of runes that are no surrogates decode to those runes, and none of them is an unpaired
-- surrogate.
pub decode-units_of :
    (rs : List ℕ)
    → All Scalar rs
    → (decode_units (units_of rs) ≡ rs) × (has_unpaired_surrogate (units_of rs) ≡ false)
unfolding units_of decode_units
decode-units_of [] h = (refl, unpaired-units_of [] h)
decode-units_of (r ∷ rs) (h, hs) = (
  decode-rune_units r (units_of rs) h ∙ ap (λ xs. r ∷ xs) (decode-units_of rs hs).0,
  unpaired-units_of (r ∷ rs) (h, hs),
)

-- A number of 16 bits.
abbrev pub Fits : ℕ → Type 0
Fits unit = unit < 0x10000

Scalar-joined : (h l : ℕ) → is_high h ≡ true → is_low l ≡ true → Scalar (joined_rune h l)
Scalar-joined h l = ground arith

joined-wide : (h l : ℕ) → is_high h ≡ true → is_low l ≡ true → leb (joined_rune h l) 0xffff ≡ false
joined-wide h l = ground arith

high-joined : (h l : ℕ) → is_high h ≡ true → is_low l ≡ true → high_unit (joined_rune h l) ≡ h
high-joined h l = ground arith

low-joined : (h l : ℕ) → is_high h ≡ true → is_low l ≡ true → low_unit (joined_rune h l) ≡ l
low-joined h l = ground arith

plain-Scalar : (unit : ℕ) → Fits unit → is_high unit ≡ false → is_low unit ≡ false → Scalar unit
plain-Scalar unit = ground arith

-- The units are the UTF-16 of runes that are no surrogates.
abbrev pub Utf16 : List ℕ → Type 0
Utf16 us = (rs : List ℕ) × (All Scalar rs) × (units_of rs ≡ us)

units-wide :
    (h l : ℕ) → is_high h ≡ true → is_low l ≡ true → rune_units (joined_rune h l) ≡ h ∷ l ∷ []
unfolding rune_units
units-wide h l high low = rw (joined-wide h l high low) (
    ap (λ x. x ∷ low_unit (joined_rune h l) ∷ []) (high-joined h l high low)
    ∙ ap (λ x. h ∷ x ∷ []) (low-joined h l high low))

units-plain : (unit : ℕ) → Fits unit → rune_units unit ≡ unit ∷ []
unfolding rune_units
units-plain unit fits = rw (narrow unit fits) refl
  where
    narrow : (unit : ℕ) → Fits unit → leb unit 0xffff ≡ true
    narrow unit = ground arith

add-plain :
    (unit : ℕ) (rest : List ℕ)
    → Fits unit
    → is_high unit ≡ false
    → is_low unit ≡ false
    → Utf16 rest
    → Utf16 (unit ∷ rest)
unfolding units_of
add-plain unit rest fits high low (rs, scalars, same) = (
  unit ∷ rs,
  (plain-Scalar unit fits high low, scalars),
  ap (λ us. us ++ units_of rs) (units-plain unit fits) ∙ ap (λ us. unit ∷ us) same,
)

add-pair :
    (h l : ℕ) (rest : List ℕ)
    → is_high h ≡ true
    → is_low l ≡ true
    → Utf16 rest
    → Utf16 (h ∷ l ∷ rest)
unfolding units_of
add-pair h l rest high low (rs, scalars, same) = (
  joined_rune h l ∷ rs,
  (Scalar-joined h l high low, scalars),
  ap (λ us. us ++ units_of rs) (units-wide h l high low) ∙ ap (λ us. h ∷ l ∷ us) same,
)

module _ (unit next : ℕ) (rest : List ℕ) where
  unpaired-broken :
      is_high unit ≡ true → is_low next ≡ false → has_unpaired_surrogate (unit ∷ next ∷ rest) ≡ true
  unfolding has_unpaired_surrogate
  unpaired-broken high low = rw (high, low) refl

  unpaired-low :
      is_high unit ≡ false → is_low unit ≡ true → has_unpaired_surrogate (unit ∷ next ∷ rest) ≡ true
  unfolding has_unpaired_surrogate
  unpaired-low high low = rw (high, low) refl

  add-unit :
      Fits unit
      → (has_unpaired_surrogate rest ≡ false → Utf16 rest)
      → (has_unpaired_surrogate (next ∷ rest) ≡ false → Utf16 (next ∷ rest))
      → has_unpaired_surrogate (unit ∷ next ∷ rest) ≡ false
      → Utf16 (unit ∷ next ∷ rest)
  add-unit fits behind alone paired = elim (Bool-cases (is_high unit)) [
    | inl high ↦ elim (Bool-cases (is_low next)) [
      | inl low ↦
          add-pair unit next rest high low
            (behind (sym (unpaired-pair unit next rest high low) ∙ paired))
      | inr low ↦ absurd (true≢false (sym (unpaired-broken high low) ∙ paired))
    ]
    | inr high ↦ elim (Bool-cases (is_low unit)) [
      | inl low ↦ absurd (true≢false (sym (unpaired-low high low) ∙ paired))
      | inr low ↦
          add-plain unit (next ∷ rest) fits high low
            (alone (sym (unpaired-plain unit (next ∷ rest) high low) ∙ paired))
    ]
  ]

paired-Utf16 : (us : List ℕ) → All Fits us → has_unpaired_surrogate us ≡ false → Utf16 us
unfolding has_unpaired_surrogate units_of
paired-Utf16 [] fits paired = ([], tt, refl)
paired-Utf16 (unit ∷ []) (fits, none_left) paired =
    add-plain unit [] fits (first_of _ _ paired) (second_of _ _ paired) ([], tt, refl)
  where
    first_of : (a b : Bool) → (a || b) ≡ false → a ≡ false
    first_of false b h = refl
    first_of true b h = h

    second_of : (a b : Bool) → (a || b) ≡ false → b ≡ false
    second_of false b h = h
    second_of true b h = absurd (true≢false h)
paired-Utf16 (unit ∷ next ∷ rest) (fits, (fits_next, fits_rest)) paired =
    add-unit unit next rest fits (λ h. paired-Utf16 rest fits_rest h)
      (λ h. paired-Utf16 (next ∷ rest) (fits_next, fits_rest) h) paired

-- Units of 16 bits have no unpaired surrogate exactly if they are the UTF-16 of runes that are no
-- surrogates.
pub has_unpaired_surrogate_iff :
    (us : List ℕ) → All Fits us → (has_unpaired_surrogate us ≡ false) ↔ Utf16 us
has_unpaired_surrogate_iff us fits = (
  λ h. paired-Utf16 us fits h,
  λ (rs, scalars, same). ap has_unpaired_surrogate (sym same) ∙ unpaired-units_of rs scalars,
)
