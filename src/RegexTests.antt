-- ===== src/RegexTests.antt =====
-- internal/regex/regex.go: pattern literals and indices at small inputs.
use jsonata_go.Prelude.{
  ◌≡◌, ◌↔◌, ◌∷◌, [], refl, true, false, none, some, Text, codes, ◌=ᵗ◌, ◌++◌, inl, inr, Bool,
}
use jsonata_go.Utf8.{decode_rune}
use jsonata_go.Syntax.{ErrorCode}
use jsonata_go.Syntax.Quoted.{encode_runes, encode_rune}
use jsonata_go.Regex.{
  runes_from, split_literal, split_literal_from, delimiter_unescaped, flags_allowed,
  translate_ecma_script_pattern, translate_from, translated_rune, normalize_from, compile_literal,
  re2_compatible,
}
use jsonata_go.Regex.Markers.{ascii_re2_ignore_case_compatible, ascii_from, is_ascii}
use jsonata_go.Regex.IgnoreCase.{translate-normalize-ascii}
use jsonata_go.Regex.Plain.{translate-re2_compatible}
use jsonata_go.Regex.Split.{IsLiteral, split_literal_iff}
use jsonata_go.Regex.Flags.{Allowed, flags_allowed_iff}
use jsonata_go.Regex.Utf16.{
  utf16_index, byte_index_exact, byte_offsets_from, utf16_byte_offsets, utf16_units, utf16_string,
  first_unpaired,
}
use jsonata_go.Regex.Utf16.Indices.{byte_index_exact-utf16_index}
use jsonata_go.Regex.Utf16.Strings.{utf16_string-utf16_units}

-- `a`, a rune of four bytes and one of two.
abbrev mixed : Text
mixed = codes "a" ++ (0xf0 ∷ 0x9f ∷ 0x98 ∷ 0x80 ∷ 0xc3 ∷ 0xa9 ∷ [])

abbrev engine : Text → Bool → Bool
engine pattern ignore_case = true

translates :
    translate_ecma_script_pattern (codes "^a.[.$]$") false
    ≡ codes "\\Aa[^\\r\\n\\u2028\\u2029][.$]\\z"
unfolding translate_ecma_script_pattern runes_from translate_from translated_rune encode_rune
    decode_rune
translates = refl

splits : split_literal (codes "/a\\/(b/c)d/im") ≡ some (codes "a\\/(b/c)d", codes "im")
unfolding split_literal split_literal_from delimiter_unescaped
splits = refl

normalizes :
    normalize_from 0xe000 0xe001 0 (codes "\\\\\\u017Fa\\u")
    ≡ codes "\\\\" ++ (0xee ∷ 0x80 ∷ 0x81 ∷ codes "a\\u")
unfolding normalize_from encode_rune decode_rune ◌=ᵗ◌
normalizes = refl

duplicate_flag : compile_literal engine (codes "/a/ii") ≡ some ErrorCode.s0302
unfolding compile_literal split_literal split_literal_from delimiter_unescaped flags_allowed
    runes_from decode_rune ◌=ᵗ◌
duplicate_flag = refl

empty_pattern : compile_literal engine (codes "//x") ≡ some ErrorCode.s0301
unfolding compile_literal split_literal split_literal_from delimiter_unescaped ◌=ᵗ◌
empty_pattern = refl

inside_pair : byte_index_exact mixed 2 ≡ (1, false)
unfolding byte_index_exact decode_rune
inside_pair = refl

offsets : utf16_byte_offsets mixed ≡ some 0 ∷ some 1 ∷ none ∷ some 5 ∷ some 7 ∷ []
unfolding utf16_byte_offsets byte_offsets_from decode_rune
offsets = refl

lone_high : utf16_string (0x61 ∷ 0xd83d ∷ []) ≡ inr 1
unfolding utf16_string first_unpaired
lone_high = refl

translate-re2_compatible_example :
    translate_ecma_script_pattern (codes "a(b|c)+") true ≡ codes "a(b|c)+"
unfolding re2_compatible runes_from decode_rune ◌=ᵗ◌
translate-re2_compatible_example = translate-re2_compatible (codes "a(b|c)+") [] true refl

split_literal_iff_example :
    (split_literal (codes "/a\\/(b/c)/i") ≡ some (codes "a\\/(b/c)", codes "i"))
    ↔ IsLiteral (codes "/a\\/(b/c)/i") (codes "a\\/(b/c)") (codes "i")
split_literal_iff_example = split_literal_iff (codes "/a\\/(b/c)/i") (codes "a\\/(b/c)") (codes "i")

flags_allowed_iff_example : (flags_allowed [] (codes "mi") ≡ true) ↔ Allowed (codes "mi")
flags_allowed_iff_example = flags_allowed_iff (codes "mi")

byte_index_exact-utf16_index_example : byte_index_exact mixed (utf16_index mixed 5) ≡ (5, true)
unfolding decode_rune
byte_index_exact-utf16_index_example = byte_index_exact-utf16_index mixed 5 refl

utf16_string-utf16_units_example :
    utf16_string (utf16_units mixed) ≡ inl (encode_runes (runes_from 0 mixed))
utf16_string-utf16_units_example = utf16_string-utf16_units mixed

open_class : ascii_re2_ignore_case_compatible (codes "a[b") (codes "i") ≡ false
unfolding ascii_re2_ignore_case_compatible ascii_from runes_from decode_rune ◌=ᵗ◌
open_class = refl

beyond_ascii : is_ascii mixed ≡ false
unfolding is_ascii
beyond_ascii = refl

translate-normalize-ascii_example :
    translate_ecma_script_pattern (normalize_from 0xe000 0xe001 0 (codes "k[.a-z$]+")) false
    ≡ codes "k[.a-z$]+"
unfolding ascii_re2_ignore_case_compatible ascii_from runes_from decode_rune ◌=ᵗ◌
translate-normalize-ascii_example =
    translate-normalize-ascii (codes "k[.a-z$]+") (codes "i") 0xe000 0xe001 false refl
