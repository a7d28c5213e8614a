-- ===== src/Regex/Plain.antt =====
-- internal/regex/regex.go: the patterns that both engines are given.
use jsonata_go.Prelude.{
  left_of, right_of, ℕ, ◌-◌, ◌<◌, ◌≡◌, refl, ap, ◌∙◌, Bool, true, false, not, ◌&&◌, List, [], ◌∷◌,
  Text, ◌=ᵗ◌, ◌==◌, arith,
}
use jsonata_go.Utf8.{decode_rune, decode_rune_low}
use jsonata_go.Syntax.Quoted.{encode_rune}
use jsonata_go.Regex.{
  runes_from, translated_rune, translate_from, translate_ecma_script_pattern, contains_group,
  is_plain, all_plain, class_after, re2_compatible,
}

translated-plain :
    (multiline : Bool) (r : ℕ) → is_plain r ≡ true → translated_rune multiline false r ≡ r ∷ []
unfolding translated_rune encode_rune
translated-plain multiline r h = ground arith

no_backslash : (r : ℕ) → is_plain r ≡ true → (r == 92) ≡ false
no_backslash r h = ground arith

opens_no_class : (r : ℕ) → is_plain r ≡ true → class_after false r ≡ false
opens_no_class r h = ground arith

translate-plain :
    (multiline : Bool) (rs : List ℕ)
    → all_plain rs ≡ true
    → translate_from multiline false false rs ≡ rs
unfolding translate_from
translate-plain multiline [] h = refl
translate-plain multiline (r ∷ rs) h =
    let plain = left_of (is_plain r) (all_plain rs) h in
    rw (no_backslash r plain, translated-plain multiline r plain, opens_no_class r plain)
      (ap (λ xs. r ∷ xs) (translate-plain multiline rs (right_of (is_plain r) (all_plain rs) h)))

plain-low : (r : ℕ) → is_plain r ≡ true → r < 128
plain-low r h = ground arith

runes-plain : (text : Text) → all_plain (runes_from 0 text) ≡ true → runes_from 0 text ≡ text
unfolding runes_from
runes-plain [] h = refl
runes-plain (c ∷ cs) h =
    let first =
      left_of (is_plain (decode_rune (c ∷ cs)).0)
        (all_plain (runes_from ((decode_rune (c ∷ cs)).1 - 1) cs)) h in
    let rest =
      right_of (is_plain (decode_rune (c ∷ cs)).0)
        (all_plain (runes_from ((decode_rune (c ∷ cs)).1 - 1) cs)) h in
    let eq = decode_rune_low c cs (plain-low (decode_rune (c ∷ cs)).0 first) in
    rw (eq) (ap (λ xs. c ∷ xs) (runes-plain cs (tr eq rest)))
  where
    tr :
        {p : ℕ × ℕ}
        → p ≡ (c, 1)
        → all_plain (runes_from (p.1 - 1) cs) ≡ true
        → all_plain (runes_from 0 cs) ≡ true
    tr e h = rw e at h

-- Where re2Compatible holds, the translation for `regexp2` is the pattern itself, whatever the flag
-- for lines: Go's `regexp`, which is given the pattern as it is written, and `regexp2` then run the
-- same pattern.
pub translate-re2_compatible :
    (source flags : Text) (multiline : Bool)
    → re2_compatible source flags ≡ true
    → translate_ecma_script_pattern source multiline ≡ source
unfolding re2_compatible translate_ecma_script_pattern
translate-re2_compatible source flags multiline h =
    let plain =
      right_of (flags =ᵗ [] && not (contains_group source)) (all_plain (runes_from 0 source)) h in
    translate-plain multiline (runes_from 0 source) plain ∙ runes-plain source plain
