-- ===== src/GoStrings/Laws.antt =====
-- Laws of the functions of `strings`.
use mathlib.Core.List.{reverse-reverse, reverse-cons}
use jsonata_go.Prelude.{ℕ, false, [], ◌∷◌, reverse, Text, ◌≡◌, refl, ap, ◌∙◌, All, All-append}
use jsonata_go.Unicode.{Unicode}
use jsonata_go.GoStrings.{trim_left, trim_space}

abbrev pub NoSpace : Unicode → Text → Type 0
NoSpace u = All (λ c. u.is_space c ≡ false)

All-reverse {κ} : (P : ℕ → Type κ) (t : Text) → All P t → All P (reverse t)
All-reverse P [] a = a
All-reverse P (c ∷ cs) (p, a) =
    rw (reverse-cons c cs) (All-append P (reverse cs) (c ∷ []) (All-reverse P cs a) (p, tt))

trim_left_fixed : (u : Unicode) (t : Text) → NoSpace u t → trim_left u t ≡ t
unfolding trim_left
trim_left_fixed u [] a = refl
trim_left_fixed u (c ∷ cs) (p, a) = rw p

pub trim_space_fixed : (u : Unicode) (t : Text) → NoSpace u t → trim_space u t ≡ t
unfolding trim_space
trim_space_fixed u t a =
    ap (λ s. reverse (trim_left u (reverse s))) (trim_left_fixed u t a)
    ∙ ap reverse (trim_left_fixed u (reverse t) (All-reverse _ t a))
    ∙ reverse-reverse t
