-- ===== src/Regex.antt =====
-- internal/regex/regex.go: the compilation of a pattern literal, up to the engines.
-- The engines are `regexp2` and Go's `regexp`: that `regexp2.Compile` takes a pattern, which is read
-- with or without `IgnoreCase`, is an argument. Texts are bytes.
pub mod Flags
pub mod IgnoreCase
pub mod Markers
pub mod Plain
pub mod First
pub mod Split
pub mod Utf16
use jsonata_go.Prelude.{
  ℕ, zero, suc, ◌+◌, ◌-◌, ◌*◌, ◌/◌, ◌%◌, Bool, true, false, not, ◌&&◌, ◌||◌, List, [], ◌∷◌, ◌++◌,
  Option, none, some, Text, codes, ltb, ◌==◌, ◌=ᵗ◌, if◌then◌else◌, length, take, drop, replicate,
}
use jsonata_go.Utf8.{decode_rune}
use jsonata_go.Syntax.{ErrorCode}
use jsonata_go.Syntax.Quoted.{encode_rune, high_unit, low_unit}

-- The runes of a string, as `range` gives them.
unfoldable pub runes_from : ℕ → Text → List ℕ
runes_from skip [] = []
runes_from (suc skip) (c ∷ cs) = runes_from skip cs
runes_from zero (c ∷ cs) = (decode_rune (c ∷ cs)).0 ∷ runes_from ((decode_rune (c ∷ cs)).1 - 1) cs

unfoldable pub delimiter_unescaped : Text → Bool
delimiter_unescaped [] = true
delimiter_unescaped (c ∷ cs) =
    let rest = delimiter_unescaped cs in if c == 92 then not rest else true

abbrev pub is_open : ℕ → Bool
is_open c = c == b'(' || c == b'[' || c == b'{'

abbrev pub is_close : ℕ → Bool
is_close c = c == b')' || c == b']' || c == b'}'

abbrev pub ends_in_backslash : Text → Bool
ends_in_backslash [] = false
ends_in_backslash (c ∷ cs) = c == 92

-- The loop of `splitLiteral`: the pattern and the flags on the two sides of the closing slash. The
-- bytes before are given the last first; `depth` is how many groups were opened and how many closed.
unfoldable pub split_literal_from : Text → ℕ × ℕ → Text → Option (Text × Text)
split_literal_from before depth [] = none
split_literal_from before (opened, closed) (c ∷ cs) =
    let counts = not (ends_in_backslash before) in
    let opened' = if counts && is_open c then opened + 1 else opened in
    let closed' = if counts && is_close c then closed + 1 else closed in
    let rest = split_literal_from (c ∷ before) (opened', closed') cs in
    if c == b'/' && opened == closed && delimiter_unescaped before
    then some ([], cs)
    else elim rest [ none ↦ none | some (pattern, flags) ↦ some (c ∷ pattern, flags) ]

unfoldable pub split_literal : Text → Option (Text × Text)
unfolding split_literal_from
split_literal [] = none
split_literal (c ∷ []) = none
split_literal (c ∷ d ∷ cs) = if c == b'/' then split_literal_from (c ∷ []) (0, 0) (d ∷ cs) else none

abbrev pub contains_rune : ℕ → List ℕ → Bool
contains_rune r [] = false
contains_rune r (x ∷ xs) = x == r || contains_rune r xs

-- The loop over the flags, with those seen: whether each is "i" or "m" and comes once.
unfoldable pub flags_allowed : List ℕ → List ℕ → Bool
flags_allowed seen [] = true
flags_allowed seen (flag ∷ flags) =
    let rest = flags_allowed (flag ∷ seen) flags in
    not (contains_rune flag seen) && (flag == b'i' || flag == b'm') && rest

abbrev hex_lower : ℕ → ℕ
hex_lower n = if ltb n 10 then b'0' + n else b'a' + (n - 10)

-- `\u%04x` of a number of 16 bits.
abbrev unicode_escape : ℕ → Text
unicode_escape unit =
    92
    ∷ b'u'
    ∷ hex_lower (unit / 4096 % 16)
    ∷ hex_lower (unit / 256 % 16)
    ∷ hex_lower (unit / 16 % 16)
    ∷ hex_lower (unit % 16)
    ∷ []

abbrev surrogate_escapes : ℕ → Text
surrogate_escapes r = unicode_escape (high_unit r) ++ unicode_escape (low_unit r)

abbrev start_of_text : Bool → Text
start_of_text multiline =
    if multiline then codes "(?:\\A|(?<=[\\r\\n\\u2028\\u2029]))" else codes "\\A"

abbrev end_of_text : Bool → Text
end_of_text multiline =
    if multiline then codes "(?:\\z|(?=[\\r\\n\\u2028\\u2029]))" else codes "\\z"

-- What a rune that is not escaped becomes.
unfoldable pub translated_rune : Bool → Bool → ℕ → Text
unfolding encode_rune
translated_rune multiline in_class r =
    if ltb 0xffff r
    then surrogate_escapes r
    else if not in_class && r == b'.'
    then codes "[^\\r\\n\\u2028\\u2029]"
    else if not in_class && r == b'^'
    then start_of_text multiline
    else if not in_class && r == b'$'
    then end_of_text multiline
    else encode_rune r

abbrev pub class_after : Bool → ℕ → Bool
class_after in_class r = if r == b'[' then true else if r == b']' then false else in_class

-- The loop of `translateECMAScriptPattern`.
unfoldable pub translate_from : Bool → Bool → Bool → List ℕ → Text
unfolding translated_rune encode_rune
translate_from multiline escaped in_class [] = if escaped then 92 ∷ [] else []
translate_from multiline escaped in_class (r ∷ rs) =
    let unescaped = translate_from multiline false in_class rs in
    let escape = translate_from multiline true in_class rs in
    let further = translate_from multiline false (class_after in_class r) rs in
    if escaped
    then ((if ltb 0xffff r then surrogate_escapes r else 92 ∷ encode_rune r) ++ unescaped)
    else if r == 92
    then escape
    else (translated_rune multiline in_class r ++ further)

unfoldable pub translate_ecma_script_pattern : Text → Bool → Text
unfolding runes_from translate_from
translate_ecma_script_pattern source multiline =
    translate_from multiline false false (runes_from 0 source)

abbrev count_backslashes : Text → ℕ
count_backslashes [] = 0
count_backslashes (c ∷ cs) = if c == 92 then suc (count_backslashes cs) else 0

-- The marker for the escape of U+017F or U+212A behind a backslash, if it stands there.
abbrev escaped_marker : ℕ → ℕ → Text → Option ℕ
escaped_marker kelvin long_s text =
    if take 5 text =ᵗ codes "u017f" || take 5 text =ᵗ codes "u017F"
    then some long_s
    else if take 5 text =ᵗ codes "u212a" || take 5 text =ᵗ codes "u212A"
    then some kelvin
    else none

abbrev marked_rune : ℕ → ℕ → ℕ → ℕ
marked_rune kelvin long_s r = if r == 0x212a then kelvin else if r == 0x017f then long_s else r

-- The loop of `normalizeLegacyIgnoreCaseSource`; the number counts the bytes to be passed over.
unfoldable pub normalize_from : ℕ → ℕ → ℕ → Text → Text
unfolding encode_rune ◌=ᵗ◌
normalize_from kelvin long_s skip [] = []
normalize_from kelvin long_s (suc skip) (c ∷ cs) = normalize_from kelvin long_s skip cs
normalize_from kelvin long_s zero (c ∷ cs) =
    let rest : ℕ → Text = λ n. normalize_from kelvin long_s n cs in
    let run = suc (count_backslashes cs) in
    let (r, size) = decode_rune (c ∷ cs) in
    if c == 92
    then (elim (escaped_marker kelvin long_s (drop (run - 1) cs)) [
      | none ↦ replicate run 92 ++ rest (run - 1)
      | some marker ↦
          if run % 2 == 1
          then replicate (run - 1) 92 ++ (encode_rune marker ++ rest (run + 4))
          else replicate run 92 ++ rest (run - 1)
    ])
    else (encode_rune (marked_rune kelvin long_s r) ++ rest (size - 1))

-- `CompileLiteral`: the code of its error, if any. That the second compilation of the same pattern
-- succeeds where the first did is what an engine without state does.
unfoldable pub compile_literal : (Text → Bool → Bool) → Text → Option ErrorCode
unfolding split_literal flags_allowed translate_ecma_script_pattern normalize_from
compile_literal engine literal = elim (split_literal literal) [
  | none ↦ some ErrorCode.s0302
  | some (source, flags) ↦
      let ignore_case = contains_rune b'i' flags in
      let normalized = if ignore_case then normalize_from 0xe000 0xe001 0 source else source in
      let pattern = translate_ecma_script_pattern normalized (contains_rune b'm' flags) in
      if source =ᵗ []
      then some ErrorCode.s0301
      else if not (flags_allowed [] (runes_from 0 flags))
      then some ErrorCode.s0302
      else if engine pattern ignore_case
      then none
      else some ErrorCode.s0302
]

abbrev pub contains_group : Text → Bool
contains_group [] = false
contains_group (c ∷ []) = false
contains_group (c ∷ d ∷ cs) = (c == b'(' && d == b'?') || contains_group (d ∷ cs)

-- A rune that both engines read alike.
abbrev pub is_plain : ℕ → Bool
is_plain r =
    not (ltb 0x7f r || (r == 92 || r == b'.' || r == b'[' || r == b']' || r == b'^' || r == b'$'))

abbrev pub all_plain : List ℕ → Bool
all_plain [] = true
all_plain (r ∷ rs) = is_plain r && all_plain rs

unfoldable pub re2_compatible : Text → Text → Bool
unfolding ◌=ᵗ◌ runes_from
re2_compatible source flags =
    flags =ᵗ [] && not (contains_group source) && all_plain (runes_from 0 source)
