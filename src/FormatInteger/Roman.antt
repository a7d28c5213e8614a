-- ===== src/FormatInteger/Roman.antt =====
-- internal/evaluator/format_integer.go: `romanInteger` and `parseRomanInteger`.
-- A text is a list of code points. The loop over the bytes from the last to the first is a
-- recursion that reads the tail first; a byte of a longer rune is no numeral, and neither is the rune.
pub mod Scan
pub mod Canonical
use jsonata_go.Prelude.{
  ℕ, zero, suc, ◌+◌, ◌/◌, ◌%◌, ◌^◌, Bool, ◌||◌, List, [], ◌∷◌, ◌++◌, map, Option, none, some, Text,
  codes, ltb, leb, ◌==◌, ◌=ᵗ◌, if◌then◌else◌, ◌>>=◌,
}
use jsonata_go.Prelude.Int.{ℤ, pos, ◌+ℤ◌, ◌-ℤ◌, abs, ltb_ℤ}
use jsonata_go.Unicode.{Unicode, rune_len}

abbrev pub roman_values : List (ℕ × Text)
roman_values =
    (1000, codes "M")
    ∷ (900, codes "CM")
    ∷ (500, codes "D")
    ∷ (400, codes "CD")
    ∷ (100, codes "C")
    ∷ (90, codes "XC")
    ∷ (50, codes "L")
    ∷ (40, codes "XL")
    ∷ (10, codes "X")
    ∷ (9, codes "IX")
    ∷ (5, codes "V")
    ∷ (4, codes "IV")
    ∷ (1, codes "I")
    ∷ []

-- The loop on `count`.
unfoldable pub write_times : ℕ → Text → Text
write_times zero symbol = []
write_times (suc count) symbol = symbol ++ write_times count symbol

unfoldable pub roman_loop : List (ℕ × Text) → ℕ → Text
roman_loop [] remaining = []
roman_loop ((value, symbol) ∷ items) remaining =
    write_times (remaining / value) symbol ++ roman_loop items (remaining % value)

unfoldable pub roman_integer : ℤ → Text
roman_integer number =
    if ltb_ℤ number (pos 0) || leb (2 ^ 24) (abs number)
    then []
    else roman_loop roman_values (abs number)

unfoldable pub symbol_value : ℕ → Option ℕ
symbol_value c =
    if c == b'I'
    then some 1
    else if c == b'V'
    then some 5
    else if c == b'X'
    then some 10
    else if c == b'L'
    then some 50
    else if c == b'C'
    then some 100
    else if c == b'D'
    then some 500
    else if c == b'M'
    then some 1000
    else none

-- The state of the loop is `total` and `previous`.
unfoldable pub roman_step : ℕ → ℤ × ℕ → Option (ℤ × ℕ)
roman_step c (total, previous) = symbol_value c >>= λ value.
    if ltb value previous
    then some (total -ℤ pos value, previous)
    else some (total +ℤ pos value, value)

unfoldable pub roman_scan : Text → Option (ℤ × ℕ)
roman_scan [] = some (pos 0, 0)
roman_scan (c ∷ cs) = roman_scan cs >>= roman_step c

-- `len` of a string: its bytes.
unfoldable pub byte_len : Text → ℕ
byte_len [] = 0
byte_len (c ∷ cs) = rune_len c + byte_len cs

unfoldable pub parse_roman_integer : Unicode → Text → Option ℤ
parse_roman_integer u [] = some (pos 0)
parse_roman_integer u (c ∷ cs) =
    let text = map u.to_upper (c ∷ cs) in
    if ltb 100000 (byte_len (c ∷ cs))
    then none
    else roman_scan text >>= λ (total, previous).
        if roman_integer total =ᵗ text then some total else none
