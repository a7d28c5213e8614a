-- ===== src/ObjectOrder/Sorted.antt =====
-- internal/value/value.go: sorting the keys that are indices.
use jsonata_go.Prelude.{
  ℕ, ◌≤◌, ◌≡◌, refl, ap, ◌∙◌, List, [], ◌∷◌, Text, leb, leb→le, All, arith, Bool-cases, inl, inr,
}
use mathlib.Core.List.{Perm}
use mathlib.Core.List.Perm
use jsonata_go.ObjectOrder.{insert_indexed, sort_indexed}

-- The indices are at least `least` and go up.
abbrev pub Ascending : ℕ → List (Text × ℕ) → Type 0
Ascending least [] = Unit
Ascending least (x ∷ xs) = (least ≤ x.1) × Ascending x.1 xs

insert_indexed-Ascending :
    (least : ℕ) (x : Text × ℕ) (ys : List (Text × ℕ))
    → least ≤ x.1
    → Ascending least ys
    → Ascending least (insert_indexed x ys)
unfolding insert_indexed
insert_indexed-Ascending least x [] le a = (le, tt)
insert_indexed-Ascending least x (y ∷ ys) le (l, a) = elim (Bool-cases (leb x.1 y.1)) [
  | inl e ↦ rw e (le, (leb→le x.1 y.1 e, a))
  | inr e ↦ rw e (l, insert_indexed-Ascending y.1 x ys (ground arith) a)
]

pub sort_indexed-Ascending : (xs : List (Text × ℕ)) → Ascending 0 (sort_indexed xs)
unfolding sort_indexed
sort_indexed-Ascending [] = tt
sort_indexed-Ascending (x ∷ xs) =
    insert_indexed-Ascending 0 x (sort_indexed xs) (omega arith) (sort_indexed-Ascending xs)

insert_below :
    (x : Text × ℕ) (xs : List (Text × ℕ)) → Ascending x.1 xs → insert_indexed x xs ≡ x ∷ xs
unfolding insert_indexed
insert_below x [] a = refl
insert_below x (y ∷ ys) (le, a) = ground arith

-- A list in order stays as it is.
pub sort-Ascending : (least : ℕ) (xs : List (Text × ℕ)) → Ascending least xs → sort_indexed xs ≡ xs
unfolding sort_indexed
sort-Ascending least [] a = refl
sort-Ascending least (x ∷ xs) (le, a) =
    ap (insert_indexed x) (sort-Ascending x.1 xs a) ∙ insert_below x xs a

insert_perm : (x : Text × ℕ) (ys : List (Text × ℕ)) → Perm (insert_indexed x ys) (x ∷ ys)
unfolding insert_indexed
insert_perm x [] = Perm.rfl
insert_perm x (y ∷ ys) = elim (Bool-cases (leb x.1 y.1)) [
  | inl e ↦ rw e Perm.rfl
  | inr e ↦ rw e (Perm.trans (Perm.cons y (insert_perm x ys)) (Perm.swap x y ys))
]

pub sort_perm : (xs : List (Text × ℕ)) → Perm (sort_indexed xs) xs
unfolding sort_indexed
sort_perm [] = Perm.rfl
sort_perm (x ∷ xs) = Perm.trans (insert_perm x (sort_indexed xs)) (Perm.cons x (sort_perm xs))

module _ (P : Text × ℕ → Type 0) where
  insert_indexed-All :
      (x : Text × ℕ) (ys : List (Text × ℕ)) → P x → All P ys → All P (insert_indexed x ys)
  unfolding insert_indexed
  insert_indexed-All x [] p a = (p, tt)
  insert_indexed-All x (y ∷ ys) p (q, a) = elim (Bool-cases (leb x.1 y.1)) [
    | inl e ↦ rw e (p, (q, a))
    | inr e ↦ rw e (q, insert_indexed-All x ys p a)
  ]

  pub sort_indexed-All : (xs : List (Text × ℕ)) → All P xs → All P (sort_indexed xs)
  unfolding sort_indexed
  sort_indexed-All [] a = tt
  sort_indexed-All (x ∷ xs) (p, a) =
      insert_indexed-All x (sort_indexed xs) p (sort_indexed-All xs a)
