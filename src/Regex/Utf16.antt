-- ===== src/Regex/Utf16.antt =====
-- internal/regex/regex.go: indices in UTF-16 units and in bytes. Texts are bytes; an index below 0 is
-- treated as 0 there, and indices here are natural numbers.
pub mod Indices
pub mod Strings
use jsonata_go.Prelude.{
  ℕ, zero, suc, ◌+◌, ◌-◌, Bool, true, false, List, [], ◌∷◌, ◌++◌, Option, none, some, ◌⊎◌, inl, inr,
  Text, ltb, ◌==◌, ◌||◌, if◌then◌else◌, length, take, drop,
}
use jsonata_go.Utf8.{decode_rune}
use jsonata_go.Syntax.Quoted.{is_high, is_low, decode_units, encode_runes}
use jsonata_go.Syntax.Quoted.Surrogates.{units_of}
use jsonata_go.Regex.{runes_from}

abbrev pub unit_width : ℕ → ℕ
unit_width r = if ltb 0xffff r then 2 else 1

-- The loop of `UTF16Index`: `skip` bytes belong to the rune before, `left` bytes are to be counted.
unfoldable pub utf16_index_from : ℕ → ℕ → Text → ℕ
utf16_index_from skip left [] = 0
utf16_index_from skip zero (c ∷ cs) = 0
utf16_index_from (suc skip) (suc left) (c ∷ cs) = utf16_index_from skip left cs
utf16_index_from zero (suc left) (c ∷ cs) =
    unit_width (decode_rune (c ∷ cs)).0 + utf16_index_from ((decode_rune (c ∷ cs)).1 - 1) left cs

unfoldable pub utf16_index : Text → ℕ → ℕ
unfolding utf16_index_from
utf16_index text byte_index = utf16_index_from 0 byte_index text

-- The loop of `ByteIndexExact`, with the offset of its first byte and the units before.
unfoldable pub byte_index_from : ℕ → ℕ → ℕ → ℕ → Text → ℕ × Bool
byte_index_from index skip offset units [] = (offset, index == units)
byte_index_from index (suc skip) offset units (c ∷ cs) =
    byte_index_from index skip (offset + 1) units cs
byte_index_from index zero offset units (c ∷ cs) =
    let units' = units + unit_width (decode_rune (c ∷ cs)).0 in
    let rest = byte_index_from index ((decode_rune (c ∷ cs)).1 - 1) (offset + 1) units' cs in
    if ltb index units'
    then (offset, false)
    else if units' == index
    then (offset + (decode_rune (c ∷ cs)).1, true)
    else rest

unfoldable pub byte_index_exact : Text → ℕ → ℕ × Bool
unfolding byte_index_from
byte_index_exact text index = if index == 0 then (0, true) else byte_index_from index 0 0 0 text

unfoldable pub byte_index : Text → ℕ → ℕ
unfolding byte_index_exact
byte_index text index = (byte_index_exact text index).0

-- The table of `utf16ByteOffsets` behind its first entry; an index inside a pair has no offset.
unfoldable pub byte_offsets_from : ℕ → ℕ → Text → List (Option ℕ)
byte_offsets_from skip offset [] = []
byte_offsets_from (suc skip) offset (c ∷ cs) = byte_offsets_from skip (offset + 1) cs
byte_offsets_from zero offset (c ∷ cs) =
    let rest =
      some (offset + (decode_rune (c ∷ cs)).1)
      ∷ byte_offsets_from ((decode_rune (c ∷ cs)).1 - 1) (offset + 1) cs in
    if ltb 0xffff (decode_rune (c ∷ cs)).0 then none ∷ rest else rest

unfoldable pub utf16_byte_offsets : Text → List (Option ℕ)
unfolding byte_offsets_from
utf16_byte_offsets text = some 0 ∷ byte_offsets_from 0 0 text

unfoldable pub utf16_units : Text → List ℕ
unfolding units_of runes_from
utf16_units text = units_of (runes_from 0 text)

-- The index of the first unit that is no part of a pair and should be.
unfoldable pub first_unpaired : ℕ → List ℕ → Option ℕ
first_unpaired index [] = none
first_unpaired index (unit ∷ []) = if is_high unit || is_low unit then some index else none
first_unpaired index (unit ∷ next ∷ units) =
    let behind_pair = first_unpaired (index + 2) units in
    let behind = first_unpaired (index + 1) (next ∷ units) in
    if is_high unit
    then (if is_low next then behind_pair else some index)
    else if is_low unit
    then some index
    else behind

abbrev pub string_or_error : Option ℕ → List ℕ → Text ⊎ ℕ
string_or_error none units = inl (encode_runes (decode_units units))
string_or_error (some index) units = inr index

-- `UTF16String`: the string, or the index where its `UTF16RepresentationError` starts.
unfoldable pub utf16_string : List ℕ → Text ⊎ ℕ
unfolding first_unpaired decode_units encode_runes
utf16_string units = string_or_error (first_unpaired 0 units) units
