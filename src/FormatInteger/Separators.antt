-- ===== src/FormatInteger/Separators.antt =====
-- internal/evaluator/format_integer.go: `applyIntegerSeparators` and `mapIntegerDigits`.
-- `sort.Slice` is the insertion sort that Go uses below twelve elements; among separators at one
-- place it keeps their order.
pub mod Strip
pub mod Spaced
pub mod Regular
use jsonata_go.Prelude.{
  ℕ, zero, suc, ◌+◌, ◌-◌, Bool, true, false, not, ◌&&◌, ◌||◌, List, [], ◌∷◌, ◌++◌, map, Text, ltb,
  leb, ◌==◌, if◌then◌else◌, length, take, drop,
}
use jsonata_go.FormatInteger.Picture.{IntegerSeparator, IntegerPicture}

unfoldable pub insert_by :
    (IntegerSeparator → IntegerSeparator → Bool)
    → IntegerSeparator
    → List IntegerSeparator
    → List IntegerSeparator
insert_by less x [] = x ∷ []
insert_by less x (y ∷ ys) = if less x y then x ∷ y ∷ ys else y ∷ insert_by less x ys

unfoldable pub sort_by :
    (IntegerSeparator → IntegerSeparator → Bool)
    → List IntegerSeparator
    → List IntegerSeparator
    → List IntegerSeparator
unfolding insert_by
sort_by less sorted [] = sorted
sort_by less sorted (x ∷ xs) = sort_by less (insert_by less x sorted) xs

abbrev pub ascending : IntegerSeparator → IntegerSeparator → Bool
ascending a b = ltb a.from_right b.from_right

abbrev pub descending : IntegerSeparator → IntegerSeparator → Bool
descending a b = ltb b.from_right a.from_right

-- The loop over `insertions[1:]`, which compares with `insertions[0]` each time.
unfoldable pub is_same : IntegerSeparator → List IntegerSeparator → Bool
is_same first [] = true
is_same first (s ∷ ss) =
    if not (s.char == first.char) || not (s.from_right - first.from_right == first.from_right)
    then false
    else is_same first ss

-- Positions `position`, `position + step`, … below `size`.
unfoldable pub repeat_from : ℕ → ℕ → ℕ → ℕ → ℕ → List IntegerSeparator
repeat_from zero char step size position = []
repeat_from (suc fuel) char step size position =
    let rest = repeat_from fuel char step size (position + step) in
    if ltb position size then (record { char = char; from_right = position }) ∷ rest else []

abbrev pub last_from_right : IntegerSeparator → List IntegerSeparator → ℕ
last_from_right first [] = first.from_right
last_from_right first (s ∷ ss) = last_from_right s ss

-- `len(insertions) == 1 || insertions[0].fromRight == step` holds, since `step` is that number.
unfoldable pub extend : ℕ → List IntegerSeparator → List IntegerSeparator
unfolding is_same repeat_from
extend size [] = []
extend size (first ∷ rest) =
    if is_same first rest && ltb 0 first.from_right
    then (first ∷ rest)
      ++ repeat_from size first.char first.from_right size
          (last_from_right first rest + first.from_right)
    else first ∷ rest

-- One round of the last loop.
unfoldable pub insert_separator : IntegerSeparator → Text → Text
insert_separator s runes =
    let position = length runes - s.from_right in
    if ltb 0 position && ltb position (length runes)
    then take position runes ++ (s.char ∷ drop position runes)
    else runes

unfoldable pub insert_all : List IntegerSeparator → Text → Text
unfolding insert_separator
insert_all [] runes = runes
insert_all (s ∷ ss) runes = insert_all ss (insert_separator s runes)

unfoldable pub apply_integer_separators : Text → IntegerPicture → Text
unfolding insert_all extend sort_by
apply_integer_separators [] picture = []
apply_integer_separators (c ∷ cs) picture =
    insert_all
      (sort_by descending [] (extend (length (c ∷ cs)) (sort_by ascending [] picture.separators)))
      (c ∷ cs)

unfoldable pub map_integer_digits : ℕ → Text → Text
map_integer_digits zero_digit text =
    if zero_digit == b'0'
    then text
    else map (λ char. if leb b'0' char && leb char b'9' then zero_digit + (char - b'0') else char)
        text
