-- ===== src/Regex/Utf16/Indices.antt =====
-- internal/regex/regex.go: the indices of the boundaries of runes.
use jsonata_go.Prelude.{
  ℕ, zero, suc, ◌+◌, ◌-◌, ◌<◌, ◌≤◌, ◌≡◌, refl, sym, ap, ◌∙◌, Bool, true, false, [], ◌∷◌, Text, ltb,
  ◌==◌, if◌then◌else◌, arith,
}
use jsonata_go.Utf8.{decode_rune, decode_rune_width}
use jsonata_go.Regex.Utf16.{
  unit_width, utf16_index_from, utf16_index, byte_index_from, byte_index_exact,
}

-- Whether a rune begins or the text ends behind so many bytes.
abbrev pub boundary_from : ℕ → ℕ → Text → Bool
boundary_from zero zero text = true
boundary_from (suc skip) zero text = false
boundary_from skip (suc n) [] = false
boundary_from (suc skip) (suc n) (c ∷ cs) = boundary_from skip n cs
boundary_from zero (suc n) (c ∷ cs) = boundary_from ((decode_rune (c ∷ cs)).1 - 1) n cs

width_positive : (r : ℕ) → 0 < unit_width r
width_positive r = ground arith

-- No unit lies between the start of a rune and its end.
no_units :
    (skip n : ℕ) (text : Text)
    → boundary_from skip n text ≡ true
    → utf16_index_from skip n text ≡ 0
    → n ≡ skip
unfolding utf16_index_from
no_units zero zero text h e = refl
no_units (suc skip) zero text h e = cc
no_units skip (suc n) [] h e = cc
no_units (suc skip) (suc n) (c ∷ cs) h e = ap (λ k. suc k) (no_units skip n cs h e)
no_units zero (suc n) (c ∷ cs) h e = absurd (
    no_sum (unit_width (decode_rune (c ∷ cs)).0)
      (utf16_index_from ((decode_rune (c ∷ cs)).1 - 1) n cs)
      (width_positive (decode_rune (c ∷ cs)).0) e)
  where
    no_sum : (a b : ℕ) → 0 < a → a + b ≡ 0 → ⊥
    no_sum a b p e = omega arith

-- What the loop does at a rune, when its end is `units + w` and the index is `rest` further.
at_rune :
    (units w rest offset size n : ℕ) (behind : ℕ × Bool)
    → (rest ≡ 0 → size ≡ suc n)
    → (0 < rest → behind ≡ (offset + suc n, true))
    → 0 < w
    → (if ltb (units + (w + rest)) (units + w)
        then (offset, false)
        else if (units + w) == (units + (w + rest))
        then (offset + size, true)
        else behind)
      ≡ (offset + suc n, true)
at_rune units w zero offset size n behind last further p =
    rw (no_ltb, same) (ap (λ k. (offset + k, true)) (last refl))
  where
    no_ltb : ltb (units + (w + 0)) (units + w) ≡ false
    no_ltb = ground arith

    same : ((units + w) == (units + (w + 0))) ≡ true
    same = ground arith
at_rune units w (suc rest) offset size n behind last further p =
    rw (no_ltb, other) (further (omega arith))
  where
    no_ltb : ltb (units + (w + suc rest)) (units + w) ≡ false
    no_ltb = ground arith

    other : ((units + w) == (units + (w + suc rest))) ≡ false
    other = ground arith

irrefl : 0 < 0 → ⊥
irrefl p = omega arith

byte_index-boundary :
    (skip n offset units : ℕ) (text : Text)
    → boundary_from skip n text ≡ true
    → 0 < utf16_index_from skip n text
    → byte_index_from (units + utf16_index_from skip n text) skip offset units text
      ≡ (offset + n, true)
unfolding utf16_index_from byte_index_from
byte_index-boundary zero zero offset units [] h p = absurd (irrefl p)
byte_index-boundary zero zero offset units (c ∷ cs) h p = absurd (irrefl p)
byte_index-boundary (suc skip) zero offset units text h p = cc
byte_index-boundary skip (suc n) offset units [] h p = cc
byte_index-boundary (suc skip) (suc n) offset units (c ∷ cs) h p =
    byte_index-boundary skip n (offset + 1) units cs h p ∙ ap (λ k. (k, true)) (omega arith)
byte_index-boundary zero (suc n) offset units (c ∷ cs) h p =
    let w = unit_width (decode_rune (c ∷ cs)).0 in
    let size = (decode_rune (c ∷ cs)).1 in
    let rest = utf16_index_from (size - 1) n cs in
    at_rune units w rest offset size n
      (byte_index_from (units + (w + rest)) (size - 1) (offset + 1) (units + w) cs)
      (λ e. positive size n (decode_rune_width c cs).0 (no_units (size - 1) n cs h e))
      (λ q.
        rw (add_assoc units w rest, next offset n)
          (byte_index-boundary (size - 1) n (offset + 1) (units + w) cs h q))
      (width_positive (decode_rune (c ∷ cs)).0)
  where
    positive : (size n : ℕ) → 1 ≤ size → n ≡ size - 1 → size ≡ suc n
    positive size n p e = omega arith

    add_assoc : (a b c : ℕ) → a + (b + c) ≡ (a + b) + c
    add_assoc a b c = omega arith

    next : (a b : ℕ) → a + suc b ≡ (a + 1) + b
    next a b = omega arith

-- At the boundaries of runes ByteIndexExact undoes UTF16Index: where a rune begins or the text ends
-- behind n bytes, the index of n leads back to n and is exact. The text may hold bytes that are no
-- UTF-8.
pub byte_index_exact-utf16_index :
    (text : Text) (n : ℕ)
    → boundary_from 0 n text ≡ true
    → byte_index_exact text (utf16_index text n) ≡ (n, true)
unfolding byte_index_exact utf16_index
byte_index_exact-utf16_index text n h =
    at_start (utf16_index_from 0 n text) (no_units 0 n text h) (byte_index-boundary 0 n 0 0 text h)
  where
    zero_add : (k : ℕ) → 0 + k ≡ k
    zero_add k = omega arith

    not_zero : (k : ℕ) → (suc k == 0) ≡ false
    not_zero k = ground arith

    at_start :
        (index : ℕ)
        → (index ≡ 0 → n ≡ 0)
        → (0 < index → byte_index_from (0 + index) 0 0 0 text ≡ (0 + n, true))
        → (if index == 0 then (0, true) else byte_index_from index 0 0 0 text) ≡ (n, true)
    at_start zero none_left further = ap (λ k. (k, true)) (sym (none_left refl))
    at_start (suc index) none_left further =
        rw (not_zero index) (rw (zero_add (suc index), zero_add n) at (further (omega arith)))
