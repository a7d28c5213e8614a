-- ===== src/Decimal/RoundTrip.antt =====
-- What `decimal` writes are digits, and `read_decimal` reads them back.
use jsonata_go.Prelude.{
  ℕ, zero, suc, ◌+◌, ◌-◌, ◌*◌, ◌/◌, ◌%◌, ◌≤◌, ◌≡◌, refl, ◌∙◌, [], ◌∷◌, ◌++◌, Text, arith, All,
  All-append,
}
use jsonata_go.Decimal.{digits_of, decimal, read_decimal}

abbrev pub IsDecimal : Text → Type 0
IsDecimal = All (λ c. (b'0' ≤ c) × (c ≤ b'9'))

read_decimal-concat :
    (acc : ℕ) (t : Text) (c : ℕ)
    → read_decimal acc (t ++ c ∷ []) ≡ read_decimal acc t * 10 + (c - b'0')
unfolding read_decimal
read_decimal-concat acc [] c = refl
read_decimal-concat acc (d ∷ t) c = read_decimal-concat (acc * 10 + (d - b'0')) t c

read-digits_of : (fuel n : ℕ) → n ≤ fuel → read_decimal 0 (digits_of fuel n) ≡ n
unfolding digits_of
read-digits_of zero n h = unfold read_decimal in omega arith
read-digits_of (suc fuel) zero h = unfold read_decimal in refl
read-digits_of (suc fuel) (suc n) h =
    read_decimal-concat 0 (digits_of fuel (suc n / 10)) (b'0' + suc n % 10)
    ∙ omega (arith, read-digits_of fuel (suc n / 10) (omega arith))

pub read-decimal : (n : ℕ) → read_decimal 0 (decimal n) ≡ n
unfolding decimal
read-decimal zero = unfold read_decimal in refl
read-decimal (suc n) = ground (arith, read-digits_of (suc n) (suc n))

digits_of-IsDecimal : (fuel n : ℕ) → IsDecimal (digits_of fuel n)
unfolding digits_of
digits_of-IsDecimal zero n = tt
digits_of-IsDecimal (suc fuel) zero = tt
digits_of-IsDecimal (suc fuel) (suc n) =
    All-append _ (digits_of fuel (suc n / 10)) _ (digits_of-IsDecimal fuel (suc n / 10))
      (omega arith)

pub decimal-IsDecimal : (n : ℕ) → IsDecimal (decimal n)
unfolding decimal
decimal-IsDecimal zero = omega arith
decimal-IsDecimal (suc n) = ground (arith, digits_of-IsDecimal (suc n) (suc n))
