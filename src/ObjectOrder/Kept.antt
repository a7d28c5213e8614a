-- ===== src/ObjectOrder/Kept.antt =====
-- internal/value/value.go: what `canonicalObjectOrder` keeps of the list of keys.
use jsonata_go.Prelude.{
  ℕ, ◌≡◌, refl, ap, append-nil, ◌∙◌, List, [], ◌∷◌, ◌++◌, Text, some, All, Option-cases, inl, inr,
}
use mathlib.Core.List.{Perm, perm_middle}
use mathlib.Core.List.Perm
use jsonata_go.ObjectOrder.{
  parse_array_index, indexed_keys, sort_indexed, other_keys, sorted_order, canonical_object_order,
}
use jsonata_go.ObjectOrder.Sorted.{Ascending, sort_indexed-Ascending, sort_perm, sort_indexed-All}
use jsonata_go.ObjectOrder.Order.{
  names, indexed-other, indexed-index, other-other, other-index, canonical-sorted_order,
}

-- Each key with the number that it is.
abbrev IsIndex : Text × ℕ → Type 0
IsIndex x = parse_array_index x.0 ≡ some x.1

indexed_keys-IsIndex : (keys : List Text) → All IsIndex (indexed_keys keys)
indexed_keys-IsIndex [] = unfold indexed_keys in tt
indexed_keys-IsIndex (key ∷ keys) = elim (Option-cases (parse_array_index key)) [
  | inl e ↦ rw (indexed-other key keys e) (indexed_keys-IsIndex keys)
  | inr (n, e) ↦ rw (indexed-index key keys n e) (e, indexed_keys-IsIndex keys)
]

split_perm : (keys : List Text) → Perm (names (indexed_keys keys) ++ other_keys keys) keys
split_perm [] = unfold indexed_keys other_keys in Perm.rfl
split_perm (key ∷ keys) = elim (Option-cases (parse_array_index key)) [
  | inl e ↦
      rw (indexed-other key keys e, other-other key keys e)
        (Perm.trans (perm_middle (names (indexed_keys keys)) (other_keys keys))
          (Perm.cons key (split_perm keys)))
  | inr (n, e) ↦
      rw (indexed-index key keys n e, other-index key keys n e) (Perm.cons key (split_perm keys))
]

-- The canonical order has the same keys, each as often as before.
pub canonical_object_order-Perm : (keys : List Text) → Perm (canonical_object_order keys) keys
canonical_object_order-Perm keys = rw (canonical-sorted_order keys) (
    unfold sorted_order in
    Perm.trans
      (Perm.append_right (other_keys keys) (Perm.map (λ x. x.0) (sort_perm (indexed_keys keys))))
      (split_perm keys))

-- Behind indices that stand in front, the keys are what they are by themselves.
indexed-append :
    (xs : List (Text × ℕ)) (keys : List Text)
    → All IsIndex xs
    → indexed_keys (names xs ++ keys) ≡ xs ++ indexed_keys keys
indexed-append [] keys a = refl
indexed-append (x ∷ xs) keys (e, a) =
    indexed-index x.0 (names xs ++ keys) x.1 e ∙ ap (◌∷◌ x) (indexed-append xs keys a)

other-append :
    (xs : List (Text × ℕ)) (keys : List Text)
    → All IsIndex xs
    → other_keys (names xs ++ keys) ≡ other_keys keys
other-append [] keys a = refl
other-append (x ∷ xs) keys (e, a) =
    other-index x.0 (names xs ++ keys) x.1 e ∙ other-append xs keys a

indexed-other_keys : (keys : List Text) → indexed_keys (other_keys keys) ≡ []
indexed-other_keys [] = unfold indexed_keys other_keys in refl
indexed-other_keys (key ∷ keys) = elim (Option-cases (parse_array_index key)) [
  | inl e ↦
      rw (other-other key keys e) (indexed-other key (other_keys keys) e ∙ indexed-other_keys keys)
  | inr (n, e) ↦ rw (other-index key keys n e) (indexed-other_keys keys)
]

other-other_keys : (keys : List Text) → other_keys (other_keys keys) ≡ other_keys keys
other-other_keys [] = unfold other_keys in refl
other-other_keys (key ∷ keys) = elim (Option-cases (parse_array_index key)) [
  | inl e ↦
      rw (other-other key keys e)
        (other-other key (other_keys keys) e ∙ ap (◌∷◌ key) (other-other_keys keys))
  | inr (n, e) ↦ rw (other-index key keys n e) (other-other_keys keys)
]

sort-IsIndex : (keys : List Text) → All IsIndex (sort_indexed (indexed_keys keys))
sort-IsIndex keys = sort_indexed-All IsIndex (indexed_keys keys) (indexed_keys-IsIndex keys)

sorted_order_parts :
    (keys : List Text)
    → sorted_order keys ≡ names (sort_indexed (indexed_keys keys)) ++ other_keys keys
sorted_order_parts keys = unfold sorted_order in refl

indexed-sorted_order :
    (keys : List Text) → indexed_keys (sorted_order keys) ≡ sort_indexed (indexed_keys keys)
indexed-sorted_order keys =
    ap indexed_keys (sorted_order_parts keys)
    ∙ indexed-append (sort_indexed (indexed_keys keys)) (other_keys keys) (sort-IsIndex keys)
    ∙ ap (λ r. sort_indexed (indexed_keys keys) ++ r) (indexed-other_keys keys)
    ∙ append-nil (sort_indexed (indexed_keys keys))

other-sorted_order : (keys : List Text) → other_keys (sorted_order keys) ≡ other_keys keys
other-sorted_order keys =
    ap other_keys (sorted_order_parts keys)
    ∙ other-append (sort_indexed (indexed_keys keys)) (other_keys keys) (sort-IsIndex keys)
    ∙ other-other_keys keys

-- In the canonical order the array indices stand in front and go up, and the other keys follow in
-- the order in which they were.
pub canonical_object_order_lem :
    (keys : List Text)
    → (canonical_object_order keys
        ≡ names (indexed_keys (canonical_object_order keys)) ++ other_keys keys)
      × (Ascending 0 (indexed_keys (canonical_object_order keys))
          × (other_keys (canonical_object_order keys) ≡ other_keys keys))
canonical_object_order_lem keys =
    rw (canonical-sorted_order keys, indexed-sorted_order keys)
      (
        (unfold sorted_order in refl),
        (sort_indexed-Ascending (indexed_keys keys), other-sorted_order keys),
      )
