-- ===== src/FormatInteger/Alphabetic.antt =====
-- internal/evaluator/format_integer.go: `alphabeticInteger` and `parseAlphabeticInteger`.
pub mod RoundTrip
use jsonata_go.Prelude.{
  ℕ, zero, suc, ◌+◌, ◌-◌, ◌*◌, ◌/◌, ◌%◌, Bool, ◌||◌, [], ◌∷◌, ◌++◌, reverse, Option, none, some,
  Text, ltb, ◌==◌, if◌then◌else◌,
}
use jsonata_go.Prelude.Int.{ℤ, pos_part}
use jsonata_go.Unicode.{Unicode}
use jsonata_go.GoStrings.{upper_text, trim_space}

-- `for remaining.Sign() > 0`; a round makes `remaining` smaller, so it is fuel enough itself.
unfoldable pub alphabetic_loop : ℕ → ℕ → Text → Text
alphabetic_loop zero remaining reversed = reversed
alphabetic_loop (suc fuel) remaining reversed =
    let rest =
      alphabetic_loop fuel ((remaining - 1) / 26)
        (reversed ++ (b'A' + (remaining - 1) % 26) ∷ []) in
    if ltb 0 remaining then rest else reversed

-- The last loop swaps the bytes from both ends: it reverses them.
unfoldable pub alphabetic_integer : ℤ → Text
unfolding alphabetic_loop
alphabetic_integer number = reverse (alphabetic_loop (pos_part number) (pos_part number) [])

unfoldable pub alphabetic_scan : Text → ℕ → Option ℕ
alphabetic_scan [] result = some result
alphabetic_scan (c ∷ cs) result =
    if ltb c b'A' || ltb b'Z' c then none else alphabetic_scan cs (result * 26 + (c - b'A' + 1))

abbrev pub scan_non_empty : Text → Option ℕ
scan_non_empty [] = none
scan_non_empty (c ∷ cs) = alphabetic_scan (c ∷ cs) 0

unfoldable pub parse_alphabetic_integer : Unicode → Text → Option ℕ
unfolding alphabetic_scan trim_space
parse_alphabetic_integer u text = scan_non_empty (upper_text u (trim_space u text))
