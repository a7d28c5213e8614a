-- ===== src/Unicode.antt =====
-- The character tables of Go's `unicode` package, which the sources call through `unicode` and
-- `strings`. They are data of the Go distribution: here a record, with what `unicode` documents for
-- ASCII. `ascii` is the table that knows no character beyond ASCII.
use jsonata_go.Prelude.{
  ℕ, ◌+◌, ◌-◌, ◌<◌, ◌≡◌, refl, Bool, ◌&&◌, ◌||◌, leb, ltb, ◌==◌, if◌then◌else◌,
}

abbrev pub within : ℕ → ℕ → ℕ → Bool
within lo hi c = leb lo c && leb c hi

abbrev pub ascii_upper : ℕ → ℕ
ascii_upper c = if within b'a' b'z' c then c - 32 else c

abbrev pub ascii_lower : ℕ → ℕ
ascii_lower c = if within b'A' b'Z' c then c + 32 else c

abbrev pub ascii_letter : ℕ → Bool
ascii_letter c = within b'a' b'z' c || within b'A' b'Z' c

abbrev pub ascii_digit : ℕ → Bool
ascii_digit c = within b'0' b'9' c

-- tab, newline, vertical tab, form feed, return, space
abbrev pub ascii_space : ℕ → Bool
ascii_space c = within 9 13 c || c == b' '

pub record Unicode : Type 0 where
  pub to_upper : ℕ → ℕ
  pub to_lower : ℕ → ℕ
  pub is_letter : ℕ → Bool
  pub is_digit : ℕ → Bool
  pub is_space : ℕ → Bool
  pub to_upper_ascii : (c : ℕ) → c < 128 → to_upper c ≡ ascii_upper c
  pub to_lower_ascii : (c : ℕ) → c < 128 → to_lower c ≡ ascii_lower c
  pub is_letter_ascii : (c : ℕ) → c < 128 → is_letter c ≡ ascii_letter c
  pub is_digit_ascii : (c : ℕ) → c < 128 → is_digit c ≡ ascii_digit c
  pub is_space_ascii : (c : ℕ) → c < 128 → is_space c ≡ ascii_space c

abbrev pub ascii : Unicode
ascii = record {
  to_upper = ascii_upper;
  to_lower = ascii_lower;
  is_letter = ascii_letter;
  is_digit = ascii_digit;
  is_space = ascii_space;
  to_upper_ascii = λ c h. refl;
  to_lower_ascii = λ c h. refl;
  is_letter_ascii = λ c h. refl;
  is_digit_ascii = λ c h. refl;
  is_space_ascii = λ c h. refl;
}

-- The number of bytes of a rune in UTF-8.
abbrev pub rune_len : ℕ → ℕ
rune_len c = if ltb c 0x80 then 1 else if ltb c 0x800 then 2 else if ltb c 0x10000 then 3 else 4
