-- ===== src/GoStrings.antt =====
-- The functions of Go's `strings` package that the sources call, on texts of code points.
-- A set of characters is Go's own table and comes with the record `Unicode`.
pub mod Laws
use jsonata_go.Prelude.{
  ℕ, zero, suc, ◌-◌, Bool, true, false, not, ◌&&◌, List, [], ◌∷◌, ◌++◌, map, reverse, Option, none,
  some, Text, ◌==◌, if◌then◌else◌, length, drop,
}
use jsonata_go.Unicode.{Unicode}

-- `strings.ToUpper` and `strings.ToLower`.
abbrev pub upper_text : Unicode → Text → Text
upper_text u = map u.to_upper

abbrev pub lower_text : Unicode → Text → Text
lower_text u = map u.to_lower

unfoldable pub trim_left : Unicode → Text → Text
trim_left u [] = []
trim_left u (c ∷ cs) = if u.is_space c then trim_left u cs else c ∷ cs

unfoldable pub trim_space : Unicode → Text → Text
unfolding trim_left
trim_space u text = reverse (trim_left u (reverse (trim_left u text)))

unfoldable pub has_prefix : Text → Text → Bool
has_prefix [] text = true
has_prefix (p ∷ ps) [] = false
has_prefix (p ∷ ps) (c ∷ cs) = p == c && has_prefix ps cs

unfoldable pub has_suffix : Text → Text → Bool
unfolding has_prefix
has_suffix suffix text = has_prefix (reverse suffix) (reverse text)

-- `text[:len(text)-n]`
abbrev pub drop_last : ℕ → Text → Text
drop_last n text = reverse (drop n (reverse text))

unfoldable pub trim_suffix : Text → Text → Text
unfolding has_suffix
trim_suffix text suffix = if has_suffix suffix text then drop_last (length suffix) text else text

-- `strings.Split` at a single character. It always returns at least one part.
unfoldable pub split_from : ℕ → Text → Text → List Text
split_from sep [] part = part ∷ []
split_from sep (c ∷ cs) part = elim (c == sep) [
  | true ↦ part ∷ split_from sep cs []
  | false ↦ split_from sep cs (part ++ c ∷ [])
]

unfoldable pub split : Text → ℕ → List Text
unfolding split_from
split text sep = split_from sep text []

unfoldable pub join_behind : Text → List Text → Text
join_behind sep [] = []
join_behind sep (p ∷ ps) = sep ++ (p ++ join_behind sep ps)

unfoldable pub join : List Text → Text → Text
unfolding join_behind
join [] sep = []
join (p ∷ ps) sep = p ++ join_behind sep ps

-- `strings.ReplaceAll`; the number counts the characters of a match still to be passed over.
unfoldable pub replace_from : Text → Text → ℕ → Text → Text
replace_from old new skip [] = []
replace_from old new (suc skip) (c ∷ cs) = replace_from old new skip cs
replace_from old new zero (c ∷ cs) = elim (has_prefix old (c ∷ cs)) [
  | true ↦ new ++ replace_from old new (length old - 1) cs
  | false ↦ c ∷ replace_from old new zero cs
]

unfoldable pub replace_all : Text → Text → Text → Text
unfolding replace_from has_prefix
replace_all text old new = replace_from old new 0 text

-- What stands in a word so far is closed by a space or by the end.
abbrev close_word : Text → List Text → List Text
close_word [] ws = ws
close_word (c ∷ cs) ws = (c ∷ cs) ∷ ws

-- `strings.Fields`
unfoldable pub fields_from : Unicode → Text → Text → List Text
fields_from u [] word = close_word word []
fields_from u (c ∷ cs) word = elim (u.is_space c) [
  | true ↦ close_word word (fields_from u cs [])
  | false ↦ fields_from u cs (word ++ c ∷ [])
]

unfoldable pub fields : Unicode → Text → List Text
unfolding fields_from
fields u text = fields_from u text []

-- The text before and the text behind the last place of `sep`, found as by `strings.LastIndex`.
unfoldable pub cut_last : Text → Text → Option (Text × Text)
unfolding has_prefix
cut_last sep [] = none
cut_last sep (c ∷ cs) = elim (cut_last sep cs) [
  | some (before, behind) ↦ some (c ∷ before, behind)
  | none ↦ if has_prefix sep (c ∷ cs) then some ([], drop (length sep) (c ∷ cs)) else none
]
