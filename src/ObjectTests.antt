-- ===== src/ObjectTests.antt =====
-- Runs of `canonicalObjectOrder`, and its theorems at concrete keys.
use jsonata_go.Prelude.{◌≤◌, ◌≡◌, ◌↔◌, refl, List, [], ◌∷◌, ◌++◌, none, some, Text, codes}
use mathlib.Core.List.{Perm}
use jsonata_go.Decimal.{decimal}
use jsonata_go.ObjectOrder.{
  parse_array_index, canonical_object_order, sorted_order, indexed_keys, other_keys,
  max_array_index,
}
use jsonata_go.ObjectOrder.Index.{parse_array_index_iff}
use jsonata_go.ObjectOrder.Sorted.{Ascending}
use jsonata_go.ObjectOrder.Order.{names, canonical-sorted_order}
use jsonata_go.ObjectOrder.Kept.{canonical_object_order-Perm, canonical_object_order_lem}

abbrev some_keys : List Text
some_keys = codes "b" ∷ codes "10" ∷ codes "01" ∷ codes "2" ∷ codes "a" ∷ []

order_runs :
    (canonical_object_order some_keys
      ≡ codes "2" ∷ codes "10" ∷ codes "b" ∷ codes "01" ∷ codes "a" ∷ [])
    × (parse_array_index (codes "4294967294") ≡ some 4294967294)
    × (parse_array_index (codes "4294967295") ≡ none)
    × (parse_array_index (codes "0") ≡ some 0)
unfolding canonical_object_order
order_runs = (refl, refl, refl, refl)

parse_array_index_iff_example :
    (parse_array_index (codes "4294967294") ≡ some 4294967294)
    ↔ ((codes "4294967294" ≡ decimal 4294967294) × (4294967294 ≤ max_array_index))
parse_array_index_iff_example = parse_array_index_iff (codes "4294967294") 4294967294

canonical-sorted_order_example : canonical_object_order some_keys ≡ sorted_order some_keys
canonical-sorted_order_example = canonical-sorted_order some_keys

canonical_object_order-Perm_example : Perm (canonical_object_order some_keys) some_keys
canonical_object_order-Perm_example = canonical_object_order-Perm some_keys

canonical_object_order_lem_example :
    (canonical_object_order some_keys
      ≡ names (indexed_keys (canonical_object_order some_keys)) ++ other_keys some_keys)
    × (Ascending 0 (indexed_keys (canonical_object_order some_keys))
        × (other_keys (canonical_object_order some_keys) ≡ other_keys some_keys))
canonical_object_order_lem_example = canonical_object_order_lem some_keys
