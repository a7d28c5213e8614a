-- ===== src/Prelude/Strings.antt =====
-- Text as a list of numbers: code points, or the bytes where the text is ASCII.
use Prim.Native.Char.{code}
use Prim.Native.Nat.{ℕ}
use Prim.Native.String.{String}
use mathlib.Core.Path.{◌≡◌, refl}
use mathlib.Core.Logic.{◌↔◌}
use mathlib.Core.Bool.{Bool, true, false, ◌&&◌}
use mathlib.Core.List.{List, [], ◌∷◌}
use native.Mathlib.Omega.{arith}
use jsonata_go.Prelude.Tests.{◌==◌}

abbrev pub Text : Type 0
Text = List ℕ

abbrev pub codes : String → Text
codes String.[] = []
codes (String.◌∷◌ c s) = code c ∷ codes s

-- `==` on strings.
infix 50 ◌=ᵗ◌
unfoldable pub ◌=ᵗ◌ : Text → Text → Bool
[] =ᵗ [] = true
(x ∷ a) =ᵗ (y ∷ b) = x == y && a =ᵗ b
_ =ᵗ _ = false

pub =ᵗ_iff : (a b : Text) → ((a =ᵗ b) ≡ true) ↔ (a ≡ b)
unfolding ◌=ᵗ◌
=ᵗ_iff (x ∷ a) (y ∷ b) = ground (arith, =ᵗ_iff a b)
=ᵗ_iff _ _ = ground arith

pub =ᵗ_refl : (a : Text) → (a =ᵗ a) ≡ true
=ᵗ_refl a = (=ᵗ_iff a a).1 refl
