-- ===== src/Regex/IgnoreCase.antt =====
-- internal/regex/regex.go: the patterns that both engines are given where the case is ignored.
use jsonata_go.Prelude.{
  right_of, ℕ, ◌-◌, ◌<◌, ◌≡◌, refl, ap, ◌∙◌, Bool, true, false, not, ◌&&◌, List, [], ◌∷◌, Text,
  ◌=ᵗ◌, codes, ◌==◌, arith,
}
use jsonata_go.Utf8.{decode_rune, decode_rune_low}
use jsonata_go.Syntax.Quoted.{encode_rune}
use jsonata_go.Regex.{
  runes_from, translated_rune, translate_from, translate_ecma_script_pattern, class_after,
  contains_group, marked_rune, normalize_from,
}
use jsonata_go.Regex.Markers.{ascii_round, ascii_from, ascii_re2_ignore_case_compatible}

round-ascii :
    (in_class : Bool) (r : ℕ) (rest inside outside : Bool)
    → ascii_round in_class r rest inside outside ≡ true
    → r < 128
round-ascii true r rest inside outside h = ground arith
round-ascii false r rest inside outside h = ground arith

round-translated :
    (multiline in_class : Bool) (r : ℕ) (rest inside outside : Bool)
    → ascii_round in_class r rest inside outside ≡ true
    → translated_rune multiline in_class r ≡ r ∷ []
unfolding translated_rune encode_rune
round-translated multiline true r rest inside outside h = ground arith
round-translated multiline false r rest inside outside h = ground arith

round-backslash :
    (in_class : Bool) (r : ℕ) (rest inside outside : Bool)
    → ascii_round in_class r rest inside outside ≡ true
    → (r == 92) ≡ false
round-backslash true r rest inside outside h = ground arith
round-backslash false r rest inside outside h = ground arith

round-class :
    (in_class : Bool) (r : ℕ) (rs : List ℕ)
    → ascii_round in_class r (ascii_from in_class rs) (ascii_from true rs) (ascii_from false rs)
      ≡ true
    → ascii_from (class_after in_class r) rs ≡ true
round-class true r rs h = ground arith
round-class false r rs h = ground arith

translate-ascii :
    (multiline in_class : Bool) (rs : List ℕ)
    → ascii_from in_class rs ≡ true
    → translate_from multiline false in_class rs ≡ rs
unfolding translate_from ascii_from
translate-ascii multiline in_class [] h = refl
translate-ascii multiline in_class (r ∷ rs) h =
    let rest = ascii_from in_class rs in
    let inside = ascii_from true rs in
    let outside = ascii_from false rs in
    rw
      (
        round-backslash in_class r rest inside outside h,
        round-translated multiline in_class r rest inside outside h,
      )
      (ap (λ xs. r ∷ xs)
        (translate-ascii multiline (class_after in_class r) rs (round-class in_class r rs h)))

marked-ascii : (kelvin long_s c : ℕ) → c < 128 → encode_rune (marked_rune kelvin long_s c) ≡ c ∷ []
unfolding encode_rune
marked-ascii kelvin long_s c h = ground arith

first-ascii :
    (in_class : Bool) (c : ℕ) (cs : Text)
    → ascii_from in_class (runes_from 0 (c ∷ cs)) ≡ true
    → (decode_rune (c ∷ cs) ≡ (c, 1))
      × (c < 128)
      × ((c == 92) ≡ false)
      × (ascii_from (class_after in_class c) (runes_from 0 cs) ≡ true)
unfolding runes_from ascii_from
first-ascii in_class c cs h = parts (decode_rune (c ∷ cs)) (decode_rune_low c cs) h
  where
    parts :
        (p : ℕ × ℕ)
        → (p.0 < 128 → p ≡ (c, 1))
        → ascii_from in_class (p.0 ∷ runes_from (p.1 - 1) cs) ≡ true
        → (p ≡ (c, 1))
          × (c < 128)
          × ((c == 92) ≡ false)
          × (ascii_from (class_after in_class c) (runes_from 0 cs) ≡ true)
    parts p low h =
        let rs = runes_from (p.1 - 1) cs in
        let rest = ascii_from in_class rs in
        let inside = ascii_from true rs in
        let outside = ascii_from false rs in
        let eq = low (round-ascii in_class p.0 rest inside outside h) in
        (
          eq,
          rw eq at (round-ascii in_class p.0 rest inside outside h),
          rw eq at (round-backslash in_class p.0 rest inside outside h),
          rw eq at (round-class in_class p.0 rs h),
        )

runes-ascii :
    (in_class : Bool) (text : Text)
    → ascii_from in_class (runes_from 0 text) ≡ true
    → runes_from 0 text ≡ text
unfolding runes_from
runes-ascii in_class [] h = refl
runes-ascii in_class (c ∷ cs) h =
    let (eq, _, _, rest) = first-ascii in_class c cs h in
    rw eq (ap (λ xs. c ∷ xs) (runes-ascii (class_after in_class c) cs rest))

normalize-ascii :
    (in_class : Bool) (kelvin long_s : ℕ) (text : Text)
    → ascii_from in_class (runes_from 0 text) ≡ true
    → normalize_from kelvin long_s 0 text ≡ text
unfolding normalize_from
normalize-ascii in_class kelvin long_s [] h = refl
normalize-ascii in_class kelvin long_s (c ∷ cs) h =
    let (eq, low, plain, rest) = first-ascii in_class c cs h in
    rw (plain, eq, marked-ascii kelvin long_s c low)
      (ap (λ xs. c ∷ xs) (normalize-ascii (class_after in_class c) kelvin long_s cs rest))

-- Where asciiRE2IgnoreCaseCompatible holds, the pattern that CompileLiteral gives to `regexp2` is the
-- source itself, whatever the two markers and the flag for lines: no marker is put in and nothing is
-- translated. RE2 gets the same source behind "(?i)".
pub translate-normalize-ascii :
    (source flags : Text) (kelvin long_s : ℕ) (multiline : Bool)
    → ascii_re2_ignore_case_compatible source flags ≡ true
    → translate_ecma_script_pattern (normalize_from kelvin long_s 0 source) multiline ≡ source
unfolding ascii_re2_ignore_case_compatible translate_ecma_script_pattern
translate-normalize-ascii source flags kelvin long_s multiline h =
    let plain =
      right_of (flags =ᵗ codes "i" && not (source =ᵗ []) && not (contains_group source))
        (ascii_from false (runes_from 0 source)) h in
    rw (normalize-ascii false kelvin long_s source plain)
      (translate-ascii multiline false (runes_from 0 source) plain ∙ runes-ascii false source plain)
