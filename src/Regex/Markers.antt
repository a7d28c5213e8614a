-- ===== src/Regex/Markers.antt =====
-- internal/regex/regex.go: the patterns that RE2 may run where the case is ignored.
use jsonata_go.Prelude.{
  ℕ, Bool, true, false, not, ◌&&◌, ◌||◌, List, [], ◌∷◌, Text, codes, ltb, ◌==◌, ◌=ᵗ◌, if◌then◌else◌,
}
use jsonata_go.Regex.{contains_group, runes_from}

-- A round of the loop, with what it comes to behind the rune: in the class it was in, in a class,
-- and outside one.
abbrev pub ascii_round : Bool → ℕ → Bool → Bool → Bool → Bool
ascii_round in_class r rest inside outside =
    if ltb 0x7f r
      || ltb r 0x20
      || r == 0x7f
      || r == 92
      || (not in_class && (r == b'.' || r == b'^' || r == b'$'))
    then false
    else if r == b'['
    then (if in_class then false else inside)
    else if r == b']'
    then (if in_class then outside else false)
    else if r == b'^'
    then false
    else rest

-- The loop of `asciiRE2IgnoreCaseCompatible`.
unfoldable pub ascii_from : Bool → List ℕ → Bool
ascii_from in_class [] = not in_class
ascii_from in_class (r ∷ rs) =
    ascii_round in_class r (ascii_from in_class rs) (ascii_from true rs) (ascii_from false rs)

unfoldable pub ascii_re2_ignore_case_compatible : Text → Text → Bool
unfolding ascii_from ◌=ᵗ◌ runes_from
ascii_re2_ignore_case_compatible source flags =
    flags =ᵗ codes "i"
    && not (source =ᵗ [])
    && not (contains_group source)
    && ascii_from false (runes_from 0 source)

unfoldable pub is_ascii : Text → Bool
is_ascii [] = true
is_ascii (c ∷ cs) = ltb c 0x80 && is_ascii cs
