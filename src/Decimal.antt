-- ===== src/Decimal.antt =====
-- Go's `big.Int.Text(10)` and `big.Int.SetString(…, 10)` on the digits that the sources hand it.
pub mod RoundTrip
pub mod Canonical
use jsonata_go.Prelude.{
  ℕ, zero, suc, ◌+◌, ◌-◌, ◌*◌, ◌/◌, ◌%◌, [], ◌∷◌, ◌++◌, Text, ◌==◌, if◌then◌else◌,
}

-- The digits of a positive number; the number itself is fuel enough.
unfoldable pub digits_of : ℕ → ℕ → Text
digits_of zero n = []
digits_of (suc fuel) zero = []
digits_of (suc fuel) (suc n) = digits_of fuel (suc n / 10) ++ (b'0' + suc n % 10) ∷ []

unfoldable pub decimal : ℕ → Text
unfolding digits_of
decimal n = if n == 0 then b'0' ∷ [] else digits_of n n

unfoldable pub read_decimal : ℕ → Text → ℕ
read_decimal acc [] = acc
read_decimal acc (c ∷ cs) = read_decimal (acc * 10 + (c - b'0')) cs
