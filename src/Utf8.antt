-- ===== src/Utf8.antt =====
-- Go's `utf8.DecodeRuneInString` on a string of bytes: the rune and its width. A byte that begins
-- no valid encoding is U+FFFD of width 1; the empty string has width 0.
use jsonata_go.Prelude.{
  ℕ, ◌+◌, ◌*◌, ◌%◌, ◌≤◌, ◌<◌, ◌≡◌, Bool, ◌&&◌, [], ◌∷◌, Text, leb, ltb, ◌==◌, if◌then◌else◌, length,
  arith,
}

abbrev pub rune_error : ℕ
rune_error = 0xfffd

abbrev pub in_range : ℕ → ℕ → ℕ → Bool
in_range lo hi b = leb lo b && leb b hi

abbrev pub invalid : ℕ × ℕ
invalid = (rune_error, 1)

-- The accepted range of the second byte depends on the first.
abbrev pub second_low : ℕ → ℕ
second_low b = if b == 0xe0 then 0xa0 else if b == 0xf0 then 0x90 else 0x80

abbrev pub second_high : ℕ → ℕ
second_high b = if b == 0xed then 0x9f else if b == 0xf4 then 0x8f else 0xbf

unfoldable pub decode_two : ℕ → Text → ℕ × ℕ
decode_two b (c ∷ cs) = if in_range 0x80 0xbf c then ((b % 32) * 64 + c % 64, 2) else invalid
decode_two b [] = invalid

unfoldable pub decode_three : ℕ → Text → ℕ × ℕ
decode_three b (c ∷ d ∷ cs) =
    if in_range (second_low b) (second_high b) c && in_range 0x80 0xbf d
    then ((b % 16) * 4096 + (c % 64) * 64 + d % 64, 3)
    else invalid
decode_three b _ = invalid

unfoldable pub decode_four : ℕ → Text → ℕ × ℕ
decode_four b (c ∷ d ∷ e ∷ cs) =
    if in_range (second_low b) (second_high b) c && in_range 0x80 0xbf d && in_range 0x80 0xbf e
    then ((b % 8) * 262144 + (c % 64) * 4096 + (d % 64) * 64 + e % 64, 4)
    else invalid
decode_four b _ = invalid

unfoldable pub decode_rune : Text → ℕ × ℕ
unfolding decode_two decode_three decode_four
decode_rune [] = (rune_error, 0)
decode_rune (b ∷ bs) =
    if ltb b 0x80
    then (b, 1)
    else if in_range 0xc2 0xdf b
    then decode_two b bs
    else if in_range 0xe0 0xef b
    then decode_three b bs
    else if in_range 0xf0 0xf4 b
    then decode_four b bs
    else invalid

-- A rune takes at least one byte, and no more than there are.
pub decode_rune_width :
    (b : ℕ) (bs : Text)
    → (1 ≤ (decode_rune (b ∷ bs)).1) × ((decode_rune (b ∷ bs)).1 ≤ length (b ∷ bs))
unfolding decode_rune
decode_rune_width b [] = ground arith
decode_rune_width b (c ∷ []) = ground arith
decode_rune_width b (c ∷ d ∷ []) = ground arith
decode_rune_width b (c ∷ d ∷ e ∷ cs) = ground arith

-- A byte below 0x80 is a rune of its own.
pub decode_rune-ascii : (b : ℕ) (bs : Text) → b < 128 → decode_rune (b ∷ bs) ≡ (b, 1)
unfolding decode_rune
decode_rune-ascii b bs h = ground arith

-- A rune of more than one byte is beyond ASCII.
pub decode_rune_wide : (bs : Text) → 1 < (decode_rune bs).1 → 128 ≤ (decode_rune bs).0
unfolding decode_rune
decode_rune_wide [] h = absurd (omega arith)
decode_rune_wide (b ∷ []) h = ground arith
decode_rune_wide (b ∷ c ∷ []) h = ground arith
decode_rune_wide (b ∷ c ∷ d ∷ []) h = ground arith
decode_rune_wide (b ∷ c ∷ d ∷ e ∷ bs) h = ground arith

-- A first byte of 0xf0 or more begins a rune of four bytes or none.
pub decode_rune-four :
    (b : ℕ) (bs : Text)
    → 0xf0 ≤ b
    → decode_rune (b ∷ bs) ≡ (if in_range 0xf0 0xf4 b then decode_four b bs else invalid)
unfolding decode_rune
decode_rune-four b bs h = ground arith

-- A byte beyond ASCII begins a rune beyond ASCII or none.
pub decode_rune_high : (b : ℕ) (bs : Text) → 128 ≤ b → 128 ≤ (decode_rune (b ∷ bs)).0
unfolding decode_rune
decode_rune_high b [] h = ground arith
decode_rune_high b (c ∷ []) h = ground arith
decode_rune_high b (c ∷ d ∷ []) h = ground arith
decode_rune_high b (c ∷ d ∷ e ∷ cs) h = ground arith

-- A rune below 0x80 is its byte.
pub decode_rune_low :
    (b : ℕ) (bs : Text) → (decode_rune (b ∷ bs)).0 < 128 → decode_rune (b ∷ bs) ≡ (b, 1)
decode_rune_low b bs low =
    decode_rune-ascii b bs (below (decode_rune (b ∷ bs)).0 low (decode_rune_high b bs))
  where
    below : (r : ℕ) → r < 128 → (128 ≤ b → 128 ≤ r) → b < 128
    below r low high = grind arith
