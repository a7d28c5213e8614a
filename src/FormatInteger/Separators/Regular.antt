-- ===== src/FormatInteger/Separators/Regular.antt =====
-- internal/evaluator/format_integer.go: which separators are taken as regular and continued.
use jsonata_go.Prelude.{ℕ, Bool, [], ◌∷◌, Text, if◌then◌else◌}
use jsonata_go.FormatInteger.Picture.{IntegerSeparator}

abbrev pub at_place : ℕ → ℕ → IntegerSeparator
at_place char place = record { char = char; from_right = place }

abbrev pub char_if : Bool → ℕ → Text
char_if b char = if b then char ∷ [] else []
