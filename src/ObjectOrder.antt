-- ===== src/ObjectOrder.antt =====
-- internal/value/value.go: the order of an object's keys.
-- A key is a string of bytes. `slices.SortFunc` is an insertion sort here: keys with the same index
-- are the same key, so every correct sort gives the same list. Whether a caller owns the list of keys
-- decides only if it is copied.
pub mod Index
pub mod Sorted
pub mod Order
pub mod Kept
use jsonata_go.Prelude.{
  ℕ, ◌+◌, ◌-◌, ◌*◌, ◌/◌, ◌%◌, ◌^◌, Bool, true, false, not, ◌&&◌, ◌||◌, List, [], ◌∷◌, ◌++◌, map,
  Option, none, some, Text, ltb, leb, ◌==◌, if◌then◌else◌, length, is_some,
}

-- `math.MaxUint32 - 1`
abbrev pub max_array_index : ℕ
max_array_index = 4294967294

-- The loop over the bytes; `index` is a uint64.
unfoldable pub index_loop : Text → ℕ → Option ℕ
index_loop [] index = some (index % 2 ^ 32)
index_loop (digit ∷ rest) index =
    if ltb digit b'0' || ltb b'9' digit
    then none
    else if ltb ((max_array_index - (digit - b'0')) / 10) index
    then none
    else index_loop rest ((index * 10 + (digit - b'0')) % 2 ^ 64)

unfoldable pub parse_array_index : Text → Option ℕ
unfolding index_loop
parse_array_index [] = none
parse_array_index (c ∷ cs) =
    if ltb 10 (length (c ∷ cs)) || (c == b'0' && not (length (c ∷ cs) == 1))
    then none
    else index_loop (c ∷ cs) 0

-- Whether an index stands at the wrong place: behind another key, or behind a greater index.
abbrev pub misplaced : Bool → Option ℕ → ℕ → Bool
misplaced seen_other none index = seen_other
misplaced seen_other (some previous) index = seen_other || ltb index previous

-- The first loop: the value of `canonical` behind it. `previous` is `none` where `havePrevious` is false.
unfoldable pub is_canonical : List Text → Bool → Option ℕ → Bool
unfolding parse_array_index
is_canonical [] seen_other previous = true
is_canonical (key ∷ keys) seen_other previous = elim (parse_array_index key) [
  | none ↦ is_canonical keys true previous
  | some index ↦
      not (misplaced seen_other previous index) && is_canonical keys seen_other (some index)
]

abbrev pub with_index : Text → Option ℕ → List (Text × ℕ) → List (Text × ℕ)
with_index key none rest = rest
with_index key (some index) rest = (key, index) ∷ rest

unfoldable pub indexed_keys : List Text → List (Text × ℕ)
unfolding parse_array_index
indexed_keys [] = []
indexed_keys (key ∷ keys) = with_index key (parse_array_index key) (indexed_keys keys)

unfoldable pub insert_indexed : Text × ℕ → List (Text × ℕ) → List (Text × ℕ)
insert_indexed x [] = x ∷ []
insert_indexed x (y ∷ ys) = if leb x.1 y.1 then x ∷ y ∷ ys else y ∷ insert_indexed x ys

unfoldable pub sort_indexed : List (Text × ℕ) → List (Text × ℕ)
unfolding insert_indexed
sort_indexed [] = []
sort_indexed (x ∷ xs) = insert_indexed x (sort_indexed xs)

-- The last loop: the keys that are no indices.
unfoldable pub other_keys : List Text → List Text
unfolding parse_array_index
other_keys [] = []
other_keys (key ∷ keys) =
    if is_some (parse_array_index key) then other_keys keys else key ∷ other_keys keys

unfoldable pub sorted_order : List Text → List Text
unfolding indexed_keys sort_indexed other_keys
sorted_order keys = map (λ x. x.0) (sort_indexed (indexed_keys keys)) ++ other_keys keys

unfoldable pub canonical_object_order : List Text → List Text
unfolding is_canonical sorted_order
canonical_object_order keys = if is_canonical keys false none then keys else sorted_order keys
