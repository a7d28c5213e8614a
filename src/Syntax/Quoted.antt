-- ===== src/Syntax/Quoted.antt =====
-- internal/syntax/lexer.go: the escapes of a string literal and its UTF-16 units.
-- `utf16.EncodeRune`, `utf16.Decode` and the conversion of runes to a string are Go's; `Utf8` has the
-- decoding of bytes.
pub mod Surrogates
use jsonata_go.Prelude.{
  ℕ, zero, suc, ◌+◌, ◌-◌, ◌*◌, ◌/◌, ◌%◌, Bool, true, false, not, ◌&&◌, ◌||◌, List, [], ◌∷◌, ◌++◌,
  Option, none, some, ◌>>=◌, Text, codes, leb, ltb, ◌==◌, if◌then◌else◌, length,
}
use jsonata_go.Utf8.{decode_rune, rune_error}
use jsonata_go.Syntax.{LiteralValue}

-- `utf16.EncodeRune` on a rune above 0xffff.
abbrev pub high_unit : ℕ → ℕ
high_unit r = 0xd800 + (r - 0x10000) / 1024 % 1024

abbrev pub low_unit : ℕ → ℕ
low_unit r = 0xdc00 + (r - 0x10000) % 1024

-- `appendRuneUnits`, the units behind those before.
unfoldable pub rune_units : ℕ → List ℕ
rune_units r = if leb r 0xffff then r ∷ [] else high_unit r ∷ low_unit r ∷ []

abbrev pub is_high : ℕ → Bool
is_high unit = leb 0xd800 unit && leb unit 0xdbff

abbrev pub is_low : ℕ → Bool
is_low unit = leb 0xdc00 unit && leb unit 0xdfff

unfoldable pub has_unpaired_surrogate : List ℕ → Bool
has_unpaired_surrogate [] = false
has_unpaired_surrogate (unit ∷ []) = is_high unit || is_low unit
has_unpaired_surrogate (unit ∷ next ∷ rest) =
    let unpaired = has_unpaired_surrogate (next ∷ rest) in
    let behind = has_unpaired_surrogate rest in
    if is_high unit
    then (if is_low next then behind else true)
    else if is_low unit
    then true
    else unpaired

-- `utf16.Decode`; an unpaired surrogate becomes U+FFFD.
abbrev pub joined_rune : ℕ → ℕ → ℕ
joined_rune high low = (high - 0xd800) * 1024 + (low - 0xdc00) + 0x10000

unfoldable pub decode_units : List ℕ → List ℕ
decode_units [] = []
decode_units (unit ∷ []) = if is_high unit || is_low unit then rune_error ∷ [] else unit ∷ []
decode_units (unit ∷ next ∷ rest) =
    let alone = decode_units (next ∷ rest) in
    let behind = decode_units rest in
    if is_high unit && is_low next
    then joined_rune unit next ∷ behind
    else if is_high unit || is_low unit
    then rune_error ∷ alone
    else unit ∷ alone

-- A rune as UTF-8; a surrogate or a number beyond the runes is written as U+FFFD.
abbrev encoded : ℕ → Text
encoded r =
    if ltb r 0x80
    then r ∷ []
    else if ltb r 0x800
    then (0xc0 + r / 64) ∷ (0x80 + r % 64) ∷ []
    else if ltb r 0x10000
    then (0xe0 + r / 4096) ∷ (0x80 + r / 64 % 64) ∷ (0x80 + r % 64) ∷ []
    else (0xf0 + r / 262144) ∷ (0x80 + r / 4096 % 64) ∷ (0x80 + r / 64 % 64) ∷ (0x80 + r % 64) ∷ []

abbrev pub is_scalar : ℕ → Bool
is_scalar r = ltb r 0xd800 || (leb 0xe000 r && leb r 0x10ffff)

unfoldable pub encode_rune : ℕ → Text
encode_rune r = if is_scalar r then encoded r else encoded rune_error

unfoldable pub encode_runes : List ℕ → Text
unfolding encode_rune
encode_runes [] = []
encode_runes (r ∷ rs) = encode_rune r ++ encode_runes rs

abbrev hex_digit : ℕ → Option ℕ
hex_digit c =
    if leb b'0' c && leb c b'9'
    then some (c - b'0')
    else if leb b'a' c && leb c b'f'
    then some (c - b'a' + 10)
    else if leb b'A' c && leb c b'F'
    then some (c - b'A' + 10)
    else none

-- `strconv.ParseUint` of the four bytes in front, in base 16.
unfoldable pub parse_hex : Text → Option ℕ
parse_hex (a ∷ b ∷ c ∷ d ∷ rest) = do
  h ← hex_digit a
  i ← hex_digit b
  j ← hex_digit c
  k ← hex_digit d
  some (h * 4096 + i * 256 + j * 16 + k)
parse_hex _ = none

-- The unit of an escape that is a single byte.
abbrev escaped_unit : ℕ → Option ℕ
escaped_unit c =
    if c == 92 || c == b'/' || c == 39 || c == 34
    then some c
    else if c == b'b'
    then some 8
    else if c == b'f'
    then some 12
    else if c == b'n'
    then some 10
    else if c == b'r'
    then some 13
    else if c == b't'
    then some 9
    else none

abbrev add_units : List ℕ → Option (List ℕ) → Option (List ℕ)
add_units units none = none
add_units units (some rest) = some (units ++ rest)

-- Behind a backslash: the units of the escape and the bytes that it has.
unfoldable pub escape : Text → Option (List ℕ × ℕ)
unfolding parse_hex
escape [] = none
escape (c ∷ cs) =
    if c == b'u'
    then elim (parse_hex cs) [ none ↦ none | some code ↦ some (code ∷ [], 5) ]
    else elim (escaped_unit c) [ none ↦ none | some unit ↦ some (unit ∷ [], 1) ]

-- The units of a rune of the content and its bytes. The byte of no rune is an error.
unfoldable pub plain_rune : Text → Option (List ℕ × ℕ)
unfolding decode_rune rune_units
plain_rune content =
    let (r, size) = decode_rune content in
    if r == rune_error && size == 1 then none else some (rune_units r, size - 1)

-- The loop of `decodeQuotedString`; the number counts the bytes still to be passed over.
unfoldable pub quoted_units : ℕ → Text → Option (List ℕ)
unfolding escape plain_rune
quoted_units skip [] = some []
quoted_units (suc skip) (c ∷ cs) = quoted_units skip cs
quoted_units zero (c ∷ cs) =
    let rest : ℕ → Option (List ℕ) = λ n. quoted_units n cs in
    elim (if c == 92 then escape cs else plain_rune (c ∷ cs)) [
      | none ↦ none
      | some (units, skip) ↦ add_units units (rest skip)
    ]

unfoldable pub decode_quoted_string : Text → Option LiteralValue
unfolding quoted_units has_unpaired_surrogate decode_units encode_runes
decode_quoted_string content = elim (quoted_units 0 content) [
  | none ↦ none
  | some units ↦ some (
      if has_unpaired_surrogate units
      then LiteralValue.units units
      else LiteralValue.text (encode_runes (decode_units units)))
]
