-- ===== src/ObjectOrder/Order.antt =====
-- internal/value/value.go: `canonicalObjectOrder` keeps the keys and puts the indices first.
use jsonata_go.Prelude.{
  ℕ, ◌≤◌, ◌≡◌, refl, sym, ap, ◌∙◌, subst, Bool, true, false, not, ◌&&◌, List, [], ◌∷◌, ◌++◌, map,
  Text, Option, none, some, arith, Bool-cases, Option-cases, inl, inr,
}
use mathlib.Core.Bool.{true≢false}
use jsonata_go.ObjectOrder.{
  parse_array_index, is_canonical, misplaced, indexed_keys, other_keys, sorted_order,
  canonical_object_order,
}
use jsonata_go.ObjectOrder.Sorted.{Ascending, sort-Ascending}

abbrev pub names : List (Text × ℕ) → List Text
names = map (λ x. x.0)

-- What the two lists of keys are for one key more.
module _ (key : Text) (keys : List Text) where
  pub indexed-other : parse_array_index key ≡ none → indexed_keys (key ∷ keys) ≡ indexed_keys keys
  unfolding indexed_keys
  indexed-other e = rw e refl

  pub indexed-index :
      (n : ℕ)
      → parse_array_index key ≡ some n
      → indexed_keys (key ∷ keys) ≡ (key, n) ∷ indexed_keys keys
  unfolding indexed_keys
  indexed-index n e = rw e refl

  pub other-other : parse_array_index key ≡ none → other_keys (key ∷ keys) ≡ key ∷ other_keys keys
  unfolding other_keys
  other-other e = rw e refl

  pub other-index :
      (n : ℕ) → parse_array_index key ≡ some n → other_keys (key ∷ keys) ≡ other_keys keys
  unfolding other_keys
  other-index n e = rw e refl

-- The keys from which the first loop finds nothing at a wrong place.
module _ where
  abbrev least_of : Option ℕ → ℕ
  least_of none = 0
  least_of (some n) = n

  abbrev Tidy : List Text → Bool → Option ℕ → Type 0
  Tidy keys seen previous =
      (keys ≡ names (indexed_keys keys) ++ other_keys keys)
      × (Ascending (least_of previous) (indexed_keys keys) × (seen ≡ true → indexed_keys keys ≡ []))

  canonical-other :
      (key : Text) (keys : List Text) (seen : Bool) (previous : Option ℕ)
      → parse_array_index key ≡ none
      → is_canonical (key ∷ keys) seen previous ≡ is_canonical keys true previous
  unfolding is_canonical
  canonical-other key keys seen previous e = rw (e, is_canonical) refl

  canonical-index :
      (key : Text) (keys : List Text) (seen : Bool) (previous : Option ℕ) (n : ℕ)
      → parse_array_index key ≡ some n
      → is_canonical (key ∷ keys) seen previous
        ≡ (not (misplaced seen previous n) && is_canonical keys seen (some n))
  unfolding is_canonical
  canonical-index key keys seen previous n e = rw (e, is_canonical) refl

  in_place :
      (seen : Bool) (previous : Option ℕ) (n : ℕ)
      → misplaced seen previous n ≡ false
      → (seen ≡ false) × (least_of previous ≤ n)
  in_place seen none n h = ground arith
  in_place seen (some p) n h = ground arith

  Tidy-other :
      (key : Text) (keys : List Text) (seen : Bool) (previous : Option ℕ)
      → parse_array_index key ≡ none
      → Tidy keys true previous
      → Tidy (key ∷ keys) seen previous
  Tidy-other key keys seen previous e (q, (a, gone)) =
      rw (indexed-other key keys e, other-other key keys e, gone refl)
        (ap (◌∷◌ key) (q ∙ ap (λ xs. names xs ++ other_keys keys) (gone refl)), (tt, λ _. refl))

  Tidy-index :
      (key : Text) (keys : List Text) (seen : Bool) (previous : Option ℕ) (n : ℕ)
      → parse_array_index key ≡ some n
      → (seen ≡ false) × (least_of previous ≤ n)
      → Tidy keys seen (some n)
      → Tidy (key ∷ keys) seen previous
  Tidy-index key keys seen previous n e (unseen, le) (q, (a, gone)) =
      rw (indexed-index key keys n e, other-index key keys n e)
        (ap (◌∷◌ key) q, ((le, a), λ s. elim (true≢false (sym s ∙ unseen)) [ ]))

  tidy :
      (keys : List Text) (seen : Bool) (previous : Option ℕ)
      → is_canonical keys seen previous ≡ true
      → Tidy keys seen previous
  tidy [] seen previous h = unfold indexed_keys other_keys in (refl, (tt, λ _. refl))
  tidy (key ∷ keys) seen previous h = elim (Option-cases (parse_array_index key)) [
    | inl e ↦
        Tidy-other key keys seen previous e
          (tidy keys true previous (sym (canonical-other key keys seen previous e) ∙ h))
    | inr (n, e) ↦
        let both = sym (canonical-index key keys seen previous n e) ∙ h in
        elim (Bool-cases (misplaced seen previous n)) [
          | inl m ↦ elim (true≢false (sym both ∙ rw m refl)) [ ]
          | inr m ↦ Tidy-index key keys seen previous n e (in_place seen previous n m) (
              tidy keys seen (some n)
                (subst (λ b. (not b && is_canonical keys seen (some n)) ≡ true) m both))
        ]
  ]

-- The fast path gives what sorting gives: a list of keys that is left as it is has its indices in
-- front and in order.
pub canonical-sorted_order : (keys : List Text) → canonical_object_order keys ≡ sorted_order keys
unfolding canonical_object_order
canonical-sorted_order keys = elim (Bool-cases (is_canonical keys false none)) [
  | inl e ↦ rw e (
      let (q, (a, _)) = tidy keys false none e in
      q ∙ ap (λ xs. names xs ++ other_keys keys) (sym (sort-Ascending 0 (indexed_keys keys) a)))
  | inr e ↦ rw e refl
]
