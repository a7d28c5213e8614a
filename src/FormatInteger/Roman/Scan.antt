-- ===== src/FormatInteger/Roman/Scan.antt =====
-- internal/evaluator/format_integer.go: what `parseRomanInteger` reads in a text of `romanInteger`.
use jsonata_go.Prelude.{
  Text, ℕ, ◌≡◌, ◌≢◌, refl, ap, ◌∙◌, zero, suc, ◌+◌, ◌*◌, ◌/◌, ◌%◌, ◌≤◌, ◌<◌, Bool, true, false,
  ◌&&◌, List, [], ◌∷◌, ◌++◌, map, Option, none, some, codes, ltb, ltb→lt, leb, leb→le, ◌==◌,
  holds_below, holds_below_sound, length, arith,
}
use jsonata_go.Prelude.Int.{ℤ, pos, negsuc, ◌+ℤ◌, ◌-ℤ◌}
use mathlib.Core.Path.{ap₂}
use jsonata_go.Unicode.{Unicode, ascii_lower}
use jsonata_go.FormatInteger.Roman.{
  roman_values, write_times, roman_loop, symbol_value, roman_step, roman_scan, byte_len,
}

-- the entries behind "M"
abbrev pub low_values : List (ℕ × Text)
low_values = elim roman_values [ [] ↦ [] | _ ∷ r ↦ r ]

abbrev pub all_upper : Text → Bool
all_upper [] = true
all_upper (c ∷ cs) = ltb c 97 && all_upper cs

abbrev reads : ℕ → Option (ℤ × ℕ) → Bool
reads n none = false
reads n (some (negsuc _, _)) = false
reads n (some (pos m, previous)) = m == n && leb previous 1000

abbrev low_check : ℕ → Bool
low_check n =
    let text = roman_loop low_values n in
    reads n (roman_scan text) && (leb (length text) 12 && all_upper text)

low_table : holds_below low_check 1000 ≡ true
unfolding holds_below roman_loop write_times roman_scan roman_step symbol_value ◌+ℤ◌ ◌-ℤ◌
low_table = refl

-- What the table says of one number: the loop behind "M" writes what the scan reads.
record LowFacts (n : ℕ) (text : Text) : Type 0 where
  previous : ℕ
  scanned : roman_scan text ≡ some (pos n, previous)
  previous_le : previous ≤ 1000
  short : length text ≤ 12
  upper : all_upper text ≡ true

reads_sound :
    (n : ℕ) (r : Option (ℤ × ℕ))
    → reads n r ≡ true
    → (previous : ℕ) × (r ≡ some (pos n, previous)) × (previous ≤ 1000)
reads_sound n none h = cc
reads_sound n (some (negsuc _, _)) h = cc
reads_sound n (some (pos m, p)) h = (p, ground arith, ground arith)

and-left : (a b : Bool) → (a && b) ≡ true → a ≡ true
and-left a b h = ground arith

and-right : (a b : Bool) → (a && b) ≡ true → b ≡ true
and-right a b h = ground arith

low-LowFacts : (n : ℕ) → n < 1000 → LowFacts n (roman_loop low_values n)
low-LowFacts n h =
    let text = roman_loop low_values n in
    let e = holds_below_sound low_check low_table h in
    let (p, s, l) = reads_sound n (roman_scan text) (and-left _ _ e) in
    let rest = and-right (reads n (roman_scan text)) _ e in
    record {
      previous = p;
      scanned = s;
      previous_le = l;
      short = leb→le _ _ (and-left (leb (length text) 12) (all_upper text) rest);
      upper = and-right (leb (length text) 12) (all_upper text) rest;
    }

scan_thousand :
    (n previous : ℕ)
    → previous ≤ 1000
    → roman_step b'M' (pos n, previous) ≡ some (pos (n + 1000), 1000)
unfolding roman_step symbol_value ◌+ℤ◌
scan_thousand n previous l = ground arith

-- Every "M" in front adds a thousand.
scan-write_times :
    (k n previous : ℕ) (text : Text)
    → roman_scan text ≡ some (pos n, previous)
    → previous ≤ 1000
    → (p : ℕ) × (roman_scan (write_times k (codes "M") ++ text) ≡ some (pos (n + k * 1000), p))
      × (p ≤ 1000)
unfolding write_times roman_scan
scan-write_times zero n previous text s l = (previous, s ∙ ground arith, l)
scan-write_times (suc k) n previous text s l =
    let (p, e, l') = scan-write_times k n previous text s l in
    (1000, rw e (scan_thousand (n + k * 1000) p l' ∙ ground arith), omega arith)

roman_loop_split :
    (n : ℕ)
    → roman_loop roman_values n
      ≡ write_times (n / 1000) (codes "M") ++ roman_loop low_values (n % 1000)
unfolding roman_loop
roman_loop_split n = refl

pub scan-roman_loop :
    (n : ℕ) → (p : ℕ) × (roman_scan (roman_loop roman_values n) ≡ some (pos n, p)) × (p ≤ 1000)
scan-roman_loop n =
    let f = low-LowFacts (n % 1000) (omega arith) in
    let (p, e, l) = scan-write_times (n / 1000) (n % 1000) f.previous _ f.scanned f.previous_le in
    (p, rw roman_loop_split (e ∙ ap (λ m. some (pos m, p)) (omega arith)), l)

thousands-all_upper :
    (k : ℕ) (text : Text)
    → all_upper text ≡ true
    → all_upper (write_times k (codes "M") ++ text) ≡ true
unfolding write_times
thousands-all_upper zero text h = h
thousands-all_upper (suc k) text h = thousands-all_upper k text h

length-thousands :
    (k : ℕ) (text : Text) → length (write_times k (codes "M") ++ text) ≡ k + length text
unfolding write_times
length-thousands zero text = omega arith
length-thousands (suc k) text = omega (arith, length-thousands k text)

pub roman_loop-all_upper : (n : ℕ) → all_upper (roman_loop roman_values n) ≡ true
roman_loop-all_upper n =
    rw roman_loop_split
      (thousands-all_upper (n / 1000) _ (low-LowFacts (n % 1000) (omega arith)).upper)

pub length-roman_loop : (n : ℕ) → length (roman_loop roman_values n) ≤ n / 1000 + 12
length-roman_loop n =
    let low = low-LowFacts (n % 1000) (omega arith) in
    rw roman_loop_split
      (omega (arith, length-thousands (n / 1000) (roman_loop low_values (n % 1000)), low.short))

module _ (u : Unicode) where
  pub map-to_upper_fixed : (t : Text) → all_upper t ≡ true → map u.to_upper t ≡ t
  map-to_upper_fixed [] h = refl
  map-to_upper_fixed (c ∷ cs) h =
      let small = ltb→lt c 97 (and-left (ltb c 97) (all_upper cs) h) in
      let fixed = u.to_upper_ascii c (omega arith) ∙ ground arith in
      ap₂ ◌∷◌ fixed (map-to_upper_fixed cs (and-right (ltb c 97) (all_upper cs) h))

  -- Lower case and back.
  pub map-to_upper-to_lower :
      (t : Text) → all_upper t ≡ true → map u.to_upper (map u.to_lower t) ≡ t
  map-to_upper-to_lower [] h = refl
  map-to_upper-to_lower (c ∷ cs) h =
      let small = ltb→lt c 97 (and-left (ltb c 97) (all_upper cs) h) in
      ap₂ ◌∷◌ (back c small) (map-to_upper-to_lower cs (and-right (ltb c 97) (all_upper cs) h))
    where
      lowered : (d : ℕ) → d < 97 → ascii_lower d < 128
      lowered d l = ground arith

      back : (d : ℕ) → d < 97 → u.to_upper (u.to_lower d) ≡ d
      back d l =
          rw (u.to_lower_ascii d (omega arith)) (u.to_upper_ascii _ (lowered d l) ∙ ground arith)

pub byte_len-all_upper : (t : Text) → all_upper t ≡ true → byte_len t ≡ length t
unfolding byte_len
byte_len-all_upper [] h = refl
byte_len-all_upper (c ∷ cs) h = ground (arith, byte_len-all_upper cs)

pub byte_len-map-to_lower :
    (u : Unicode) (t : Text) → all_upper t ≡ true → byte_len (map u.to_lower t) ≡ length t
unfolding byte_len
byte_len-map-to_lower u [] h = refl
byte_len-map-to_lower u (c ∷ cs) h =
    let small = ltb→lt c 97 (and-left (ltb c 97) (all_upper cs) h) in
    rw (u.to_lower_ascii c (omega arith))
      (ground (arith, byte_len-map-to_lower u cs (and-right (ltb c 97) (all_upper cs) h)))

pub roman_loop-ne-nil : (n : ℕ) → 0 < n → roman_loop roman_values n ≢ []
roman_loop-ne-nil n h e = let (p, s, _) = scan-roman_loop n in impossible p (rw e at s)
  where
    impossible : (p : ℕ) → roman_scan [] ≢ some (pos n, p)
    impossible p s = unfold roman_scan in ground arith
