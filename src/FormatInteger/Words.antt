-- ===== src/FormatInteger/Words.antt =====
-- internal/evaluator/format_integer.go: numbers in words.
use jsonata_go.Prelude.{
  ℕ, zero, suc, ◌+◌, ◌-◌, ◌/◌, ◌%◌, Bool, true, false, ◌&&◌, ◌||◌, List, [], ◌∷◌, ◌++◌, map, Option,
  none, some, Text, codes, ltb, leb, ◌==◌, ◌=ᵗ◌, if◌then◌else◌, length,
}
use jsonata_go.Prelude.Int.{ℤ, pos, abs, ltb_ℤ}
use jsonata_go.Unicode.{Unicode}
use jsonata_go.GoStrings.{upper_text, join, replace_all, cut_last, trim_suffix}

abbrev text_at : List Text → ℕ → Text
text_at [] i = []
text_at (t ∷ ts) zero = t
text_at (t ∷ ts) (suc i) = text_at ts i

abbrev pub words_under_twenty : List Text
words_under_twenty = map codes (
    "zero" ∷ "one" ∷ "two" ∷ "three" ∷ "four" ∷ "five" ∷ "six" ∷ "seven" ∷ "eight" ∷ "nine" ∷ "ten"
    ∷ "eleven" ∷ "twelve" ∷ "thirteen" ∷ "fourteen" ∷ "fifteen" ∷ "sixteen" ∷ "seventeen"
    ∷ "eighteen" ∷ "nineteen" ∷ [])

abbrev pub words_tens : List Text
words_tens = map codes (
    "" ∷ "" ∷ "twenty" ∷ "thirty" ∷ "forty" ∷ "fifty" ∷ "sixty" ∷ "seventy" ∷ "eighty" ∷ "ninety"
    ∷ [])

abbrev pub lookup_text {ℓ} : {A : Type ℓ} → Text → List (Text × A) → Option A
lookup_text key [] = none
lookup_text key ((k, v) ∷ m) = if k =ᵗ key then some v else lookup_text key m

abbrev pub ordinal_names : List (Text × Text)
ordinal_names =
    map (λ (k, v). (codes k, codes v))
      (("one", "first")
        ∷ ("two", "second")
        ∷ ("three", "third")
        ∷ ("four", "fourth")
        ∷ ("five", "fifth")
        ∷ ("six", "sixth")
        ∷ ("seven", "seventh")
        ∷ ("eight", "eighth")
        ∷ ("nine", "ninth")
        ∷ ("twelve", "twelfth")
        ∷ ("thirteen", "thirteenth")
        ∷ ("fourteen", "fourteenth")
        ∷ ("fifteen", "fifteenth")
        ∷ ("sixteen", "sixteenth")
        ∷ ("seventeen", "seventeenth")
        ∷ ("eighteen", "eighteenth")
        ∷ ("nineteen", "nineteenth")
        ∷ ("ten", "tenth")
        ∷ ("eleven", "eleventh")
        ∷ ("twenty", "twentieth")
        ∷ ("thirty", "thirtieth")
        ∷ ("forty", "fortieth")
        ∷ ("fifty", "fiftieth")
        ∷ ("sixty", "sixtieth")
        ∷ ("seventy", "seventieth")
        ∷ ("eighty", "eightieth")
        ∷ ("ninety", "ninetieth")
        ∷ [])

unfoldable pub ordinal_word : Text → Text
unfolding ◌=ᵗ◌
ordinal_word word = elim (lookup_text word ordinal_names) [
  | some replacement ↦ replacement
  | none ↦ word ++ codes "th"
]

abbrev ordinal_if : Bool → Text → Text
ordinal_if ordinal word = if ordinal then ordinal_word word else word

-- `wordsUnderThousand` below 100: the call that it makes of itself goes no deeper.
unfoldable pub words_under_hundred : ℕ → Bool → Text
unfolding ordinal_word
words_under_hundred number ordinal =
    if ltb number 20
    then ordinal_if ordinal (text_at words_under_twenty number)
    else if number % 10 == 0
    then ordinal_if ordinal (text_at words_tens (number / 10))
    else text_at words_tens (number / 10)
      ++ (codes "-" ++ ordinal_if ordinal (text_at words_under_twenty (number % 10)))

unfoldable pub words_under_thousand : ℕ → Bool → Text
unfolding words_under_hundred
words_under_thousand number ordinal =
    let prefix = text_at words_under_twenty (number / 100) ++ codes " hundred" in
    if leb 100 number
    then (if number % 100 == 0
        then (if ordinal then prefix ++ codes "th" else prefix)
        else prefix ++ (codes " and " ++ words_under_hundred (number % 100) ordinal))
    else words_under_hundred number ordinal

abbrev pub scale_names : List Text
scale_names = map codes ("thousand" ∷ "million" ∷ "billion" ∷ "trillion" ∷ [])

abbrev pub scale_bases : List Text
scale_bases = map codes ("trillion" ∷ "thousand" ∷ "million" ∷ "billion" ∷ [])

-- `strings.Repeat`
unfoldable pub repeat_text : Text → ℕ → Text
repeat_text t zero = []
repeat_text t (suc n) = t ++ repeat_text t n

unfoldable pub integer_scale_name : ℕ → Text
unfolding repeat_text
integer_scale_name group =
    if group == 0
    then []
    else if ltb group 5
    then text_at scale_names (group - 1)
    else text_at scale_bases (group % 4) ++ repeat_text (codes " trillion") (group / 4)

-- The groups of three digits, the lowest first; the number itself is fuel enough.
unfoldable pub groups_of : ℕ → ℕ → List ℕ
groups_of zero remaining = []
groups_of (suc fuel) remaining =
    let rest = groups_of fuel (remaining / 1000) in
    if ltb 0 remaining then (remaining % 1000) ∷ rest else []

-- The words of the groups from the highest down. `all_zero` says that the groups below `index` are
-- all zero, so that a group which is not is `lastGroup`.
unfoldable pub group_part : ℕ → ℕ → Bool → Bool → Text
unfolding words_under_thousand integer_scale_name
group_part group index all_zero ordinal =
    let part = words_under_thousand group (ordinal && all_zero && index == 0) in
    let scale = integer_scale_name index in
    if scale =ᵗ []
    then part
    else part ++ (codes " " ++ (if ordinal && all_zero then scale ++ codes "th" else scale))

unfoldable pub parts_of : List ℕ → ℕ → Bool → Bool → List Text
unfolding group_part
parts_of [] index all_zero ordinal = []
parts_of (g ∷ gs) index all_zero ordinal =
    parts_of gs (index + 1) (all_zero && g == 0) ordinal
    ++ (if g == 0 then [] else group_part g index all_zero ordinal ∷ [])

abbrev first_group : List ℕ → ℕ
first_group [] = 0
first_group (g ∷ gs) = g

-- A last group below 100 is joined by "and" in place of the last comma.
unfoldable pub and_for_comma : Text → Text
unfolding cut_last trim_suffix
and_for_comma text =
    let result = trim_suffix text (codes ", ") in
    elim (cut_last (codes ", ") result) [
      | some (before, behind) ↦ before ++ (codes " and " ++ behind)
      | none ↦ result
    ]

unfoldable pub integer_words_core : ℕ → Bool → Text
unfolding groups_of parts_of and_for_comma join
integer_words_core absolute ordinal =
    let groups = groups_of absolute absolute in
    let parts = parts_of groups 0 true ordinal in
    let result = join parts (codes ", ") in
    if ltb 0 (first_group groups) && ltb (first_group groups) 100 && ltb 1 (length parts)
    then and_for_comma result
    else result

unfoldable pub title_from : Unicode → Bool → Text → Text
title_from u upper_next [] = []
title_from u upper_next (c ∷ cs) =
    let letter = upper_next && u.is_letter c in
    (if letter then u.to_upper c else c)
    ∷ title_from u
        (if c == b' ' || c == b'-' || c == b',' then true else if letter then false else upper_next)
        cs

unfoldable pub title_integer_words : Unicode → Text → Text
unfolding title_from replace_all
title_integer_words u text = replace_all (title_from u true text) (codes "And") (codes "and")

abbrev pub trillion : ℕ
trillion = 1_000_000_000_000

-- The words of a positive number, which from a trillion on are those of two parts.
unfoldable pub positive_words : ℕ → Bool → Text
unfolding integer_words_core
positive_words absolute ordinal =
    let high = absolute / trillion in
    let low = absolute % trillion in
    let high_text = integer_words_core high (ordinal && low == 0) ++ codes " trillion" in
    let low_text = integer_words_core low ordinal in
    if leb trillion absolute
    then (if low == 0
        then high_text
        else if ltb low 100
        then high_text ++ (codes " and " ++ low_text)
        else high_text ++ (codes ", " ++ low_text))
    else integer_words_core absolute ordinal

abbrev pub styled : Unicode → Text → Text → Text
styled u modifier text =
    if modifier =ᵗ codes "W"
    then upper_text u text
    else if modifier =ᵗ codes "Ww"
    then title_integer_words u text
    else text

unfoldable pub integer_words : Unicode → ℤ → Text → Bool → Text
unfolding positive_words title_integer_words ◌=ᵗ◌
integer_words u number modifier ordinal =
    let words = positive_words (abs number) ordinal in
    if abs number == 0
    then codes "zero"
    else styled u modifier (if ltb_ℤ number (pos 0) then codes "minus " ++ words else words)
