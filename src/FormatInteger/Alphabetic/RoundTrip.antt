-- ===== src/FormatInteger/Alphabetic/RoundTrip.antt =====
-- internal/evaluator/format_integer.go: the letters of a number, and the number of the letters.
use mathlib.Core.List.{reverse-append, reverse-cons}
use jsonata_go.Prelude.{
  ℕ, zero, suc, ◌+◌, ◌-◌, ◌*◌, ◌/◌, ◌%◌, ◌≤◌, ◌<◌, true, [], ◌∷◌, ◌++◌, reverse, Option, none, some,
  Text, ltb, ◌≡◌, refl, sym, ap, ◌∙◌, append_assoc, append-nil, arith, All, All-append,
}
use mathlib.Core.Path.{ap₂}
use jsonata_go.Prelude.Int.{pos}
use jsonata_go.Unicode.{Unicode}
use jsonata_go.GoStrings.{upper_text, lower_text, trim_space}
use jsonata_go.GoStrings.Laws.{NoSpace, trim_space_fixed}
use jsonata_go.FormatInteger.Alphabetic.{
  alphabetic_loop, alphabetic_integer, alphabetic_scan, scan_non_empty, parse_alphabetic_integer,
}

-- The letters from the first to the last.
letters : ℕ → ℕ → Text
letters zero n = []
letters (suc fuel) zero = []
letters (suc fuel) (suc n) = letters fuel (n / 26) ++ (b'A' + n % 26) ∷ []

loop-letters :
    (fuel n : ℕ) (acc : Text) → reverse (alphabetic_loop fuel n acc) ≡ letters fuel n ++ reverse acc
unfolding alphabetic_loop letters
loop-letters zero n acc = refl
loop-letters (suc fuel) zero acc = refl
loop-letters (suc fuel) (suc n) acc =
    let letter = (b'A' + n % 26) ∷ [] in
    rw (positive, one_less)
      (loop-letters fuel (n / 26) (acc ++ letter)
        ∙ ap (λ t. letters fuel (n / 26) ++ t) (reverse-append acc letter)
        ∙ sym (append_assoc (letters fuel (n / 26)) letter (reverse acc)))
  where
    positive : ltb 0 (suc n) ≡ true
    positive = ground arith

    one_less : suc n - 1 ≡ n
    one_less = omega arith

abbrev IsLetter : ℕ → Type 0
IsLetter c = (b'A' ≤ c) × (c ≤ b'Z')

scan-concat :
    (t : Text) (acc : ℕ) (c : ℕ) {r : ℕ}
    → alphabetic_scan t acc ≡ some r
    → IsLetter c
    → alphabetic_scan (t ++ c ∷ []) acc ≡ some (r * 26 + (c - b'A' + 1))
unfolding alphabetic_scan
scan-concat [] acc c e l = ground arith
scan-concat (d ∷ t) acc c {r} e l =
    ground (arith, scan-concat t (acc * 26 + (d - b'A' + 1)) c {r = r})

scan-letters : (fuel n : ℕ) → n ≤ fuel → alphabetic_scan (letters fuel n) 0 ≡ some n
unfolding letters
scan-letters zero n h = unfold alphabetic_scan in ground arith
scan-letters (suc fuel) zero h = unfold alphabetic_scan in refl
scan-letters (suc fuel) (suc n) h =
    scan-concat (letters fuel (n / 26)) 0 (b'A' + n % 26) (scan-letters fuel (n / 26) (omega arith))
      (omega arith)
    ∙ ap some (omega arith)

alphabetic_integer-letters : (n : ℕ) → alphabetic_integer (pos n) ≡ letters n n
unfolding alphabetic_integer
alphabetic_integer-letters n = loop-letters n n [] ∙ append-nil (letters n n)

-- A number written by its last letter first.
value_back : Text → ℕ
value_back [] = 0
value_back (c ∷ cs) = value_back cs * 26 + (c - b'A' + 1)

-- Base 26 with digits 1 to 26: the letters of the value of a text are the text.
letters-value_back :
    (fuel : ℕ) (r : Text)
    → All IsLetter r
    → value_back r ≤ fuel
    → letters fuel (value_back r) ≡ reverse r
unfolding letters value_back
letters-value_back zero [] a h = refl
letters-value_back (suc fuel) [] a h = refl
letters-value_back zero (c ∷ cs) a h = absurd (omega arith)
letters-value_back (suc fuel) (c ∷ cs) (l, a) h =
    let digit : value_back cs * 26 + (c - b'A' + 1) ≡ suc (value_back cs * 26 + (c - b'A')) =
      omega arith in
    rw digit (
      ap₂ (λ t d. t ++ d ∷ [])
        (ap (letters fuel) (omega arith) ∙ letters-value_back fuel cs a (omega arith)) (omega arith)
      ∙ sym (reverse-cons c cs))

scan_sound :
    (t : Text) (before : Text) {r : ℕ}
    → All IsLetter before
    → alphabetic_scan t (value_back before) ≡ some r
    → (after : Text) × (reverse after ≡ reverse before ++ t)
      × All IsLetter after
      × (value_back after ≡ r)
unfolding alphabetic_scan value_back
scan_sound [] before a e = (before, sym (append-nil (reverse before)), a, ground arith)
scan_sound (c ∷ cs) before {r} a e =
    let (after, is, l, v) = scan_sound cs (c ∷ before) {r = r} (ground arith) (ground arith) in
    let moved =
      ap (λ t. t ++ cs) (reverse-cons c before) ∙ append_assoc (reverse before) (c ∷ []) cs in
    (after, is ∙ moved, l, v)

abbrev scanned : Text → Option ℕ
scanned [] = none
scanned (c ∷ cs) = alphabetic_scan (c ∷ cs) 0

scanned-letters : (n : ℕ) → scanned (letters (suc n) (suc n)) ≡ some (suc n)
scanned-letters n = non_empty (letters (suc n) (suc n)) (scan-letters (suc n) (suc n) (omega arith))
  where
    non_empty : (t : Text) → alphabetic_scan t 0 ≡ some (suc n) → scanned t ≡ some (suc n)
    non_empty [] e = unfold alphabetic_scan in ground arith
    non_empty (c ∷ cs) e = e

scanned_sound : (t : Text) {n : ℕ} → scanned t ≡ some n → alphabetic_integer (pos n) ≡ t
unfolding value_back
scanned_sound [] e = cc
scanned_sound (c ∷ cs) {n} e =
    let (after, is, a, v) = scan_sound (c ∷ cs) [] {r = n} tt e in
    alphabetic_integer-letters n
    ∙ rw (← v) (letters-value_back (value_back after) after a (omega arith) ∙ is)

letters-IsLetter : (fuel n : ℕ) → All IsLetter (letters fuel n)
unfolding letters
letters-IsLetter zero n = tt
letters-IsLetter (suc fuel) zero = tt
letters-IsLetter (suc fuel) (suc n) =
    All-append IsLetter (letters fuel (n / 26)) _ (letters-IsLetter fuel (n / 26)) (omega arith)

module _ (u : Unicode) where
  capital_fixed : (t : Text) → All IsLetter t → (upper_text u t ≡ t) × NoSpace u t
  capital_fixed [] a = (refl, tt)
  capital_fixed (c ∷ cs) (l, a) =
      let (e, n) = capital_fixed cs a in
      (
        ap₂ ◌∷◌ (u.to_upper_ascii c (omega arith) ∙ ground arith) e,
        (u.is_space_ascii c (omega arith) ∙ ground arith, n),
      )

  small_letter : (c : ℕ) → IsLetter c → u.to_lower c ≡ c + 32
  small_letter c l = u.to_lower_ascii c (omega arith) ∙ ground arith

  small_fixed :
      (t : Text) → All IsLetter t → (upper_text u (lower_text u t) ≡ t) × NoSpace u (lower_text u t)
  small_fixed [] a = (refl, tt)
  small_fixed (c ∷ cs) (l, a) =
      let (e, n) = small_fixed cs a in
      (
        ap₂ ◌∷◌
            (ap u.to_upper (small_letter c l)
              ∙ u.to_upper_ascii (c + 32) (omega arith)
              ∙ ground arith)
            e,
        (
          ap u.is_space (small_letter c l) ∙ u.is_space_ascii (c + 32) (omega arith) ∙ ground arith,
          n,
        ),
      )

  parse-scanned :
      (text : Text) → parse_alphabetic_integer u text ≡ scanned (upper_text u (trim_space u text))
  unfolding parse_alphabetic_integer
  parse-scanned text = by_cases (upper_text u (trim_space u text))
    where
      by_cases : (t : Text) → scan_non_empty t ≡ scanned t
      by_cases [] = refl
      by_cases (c ∷ cs) = refl

  -- A positive number is read back from its letters, in upper case (picture "A") and in lower
  -- case (picture "a").
  pub parse-alphabetic_integer :
      (n : ℕ)
      → 0 < n
      → (parse_alphabetic_integer u (alphabetic_integer (pos n)) ≡ some n)
        × (parse_alphabetic_integer u (lower_text u (alphabetic_integer (pos n))) ≡ some n)
  parse-alphabetic_integer zero h = elim h [ ]
  parse-alphabetic_integer (suc n) h =
      let t = letters (suc n) (suc n) in
      let a = letters-IsLetter (suc n) (suc n) in
      let (e, s) = capital_fixed t a in
      let (e', s') = small_fixed t a in
      rw alphabetic_integer-letters (
        parse-scanned t ∙ rw (trim_space_fixed u t s, e) (scanned-letters n),
        parse-scanned (lower_text u t)
            ∙ rw (trim_space_fixed u (lower_text u t) s', e') (scanned-letters n),
      )

  -- Whatever text is accepted, its letters in upper case are those of the result.
  pub alphabetic-parse_integer :
      (text : Text) {n : ℕ}
      → parse_alphabetic_integer u text ≡ some n
      → alphabetic_integer (pos n) ≡ upper_text u (trim_space u text)
  alphabetic-parse_integer text e = scanned_sound _ (sym (parse-scanned text) ∙ e)
