-- ===== src/FormatInteger/Separators/Spaced.antt =====
-- internal/evaluator/format_integer.go: where the separators stand between the digits.
use mathlib.Core.Path.{ap₂}
use jsonata_go.Prelude.{
  ℕ, suc, ◌<◌, ◌≤◌, ◌≡◌, refl, List, [], ◌∷◌, ◌++◌, Text, ◌==◌, if◌then◌else◌, length, All, arith,
}
use jsonata_go.FormatInteger.Picture.{IntegerSeparator}

-- The characters of the separators that stand so many digits from the right, in their order.
abbrev pub chars_at : ℕ → List IntegerSeparator → Text
chars_at n [] = []
chars_at n (s ∷ ss) = if s.from_right == n then s.char ∷ chars_at n ss else chars_at n ss

-- The digits with what stands in front of each of them, by the number of digits from there on.
abbrev pub spread : (ℕ → Text) → Text → Text
spread before [] = []
spread before (c ∷ cs) = before (suc (length cs)) ++ (c ∷ spread before cs)

-- Nothing stands in front of the first digit.
abbrev pub spaced : (ℕ → Text) → Text → Text
spaced before [] = []
spaced before (c ∷ cs) = c ∷ spread before cs

abbrev Bounded : ℕ → List IntegerSeparator → Type 0
Bounded n = All (λ s. s.from_right ≤ n)

abbrev Descending : List IntegerSeparator → Type 0
Descending [] = Unit {0}
Descending (s ∷ ss) = Bounded s.from_right ss × Descending ss

pub spread-cong :
    (f g : ℕ → Text) (t : Text)
    → ((n : ℕ) → 0 < n → n ≤ length t → f n ≡ g n)
    → spread f t ≡ spread g t
spread-cong f g [] h = refl
spread-cong f g (c ∷ cs) h =
    ap₂ (λ x y. x ++ (c ∷ y)) (h (suc (length cs)) (omega arith) (omega arith))
      (spread-cong f g cs (λ n k l. h n k (omega arith)))
