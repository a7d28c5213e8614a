-- ===== src/ObjectOrder/Index.antt =====
-- internal/value/value.go: which keys are array indices.
use jsonata_go.Prelude.{
  ℕ, ◌+◌, ◌-◌, ◌*◌, ◌%◌, ◌^◌, ◌≤◌, ◌≡◌, ◌↔◌, sym, ap, ◌∙◌, true, [], ◌∷◌, some, Text, length, arith,
}
use jsonata_go.Decimal.{decimal, read_decimal}
use jsonata_go.Decimal.RoundTrip.{IsDecimal, read-decimal, decimal-IsDecimal}
use jsonata_go.Decimal.Canonical.{starts_well, decimal-read, starts_well-decimal, length-decimal}
use jsonata_go.ObjectOrder.{index_loop, parse_array_index, max_array_index}

-- A number that is read is no less than what was read before.
read_decimal_grows : (acc : ℕ) (t : Text) → acc ≤ read_decimal acc t
unfolding read_decimal
read_decimal_grows acc [] = omega arith
read_decimal_grows acc (c ∷ t) = omega (arith, read_decimal_grows (acc * 10 + (c - b'0')) t)

index_loop_sound :
    (t : Text) (acc n : ℕ)
    → acc ≤ max_array_index
    → index_loop t acc ≡ some n
    → (n ≡ read_decimal acc t) × (n ≤ max_array_index) × IsDecimal t
unfolding index_loop read_decimal
index_loop_sound [] acc n le h = ground arith
index_loop_sound (c ∷ t) acc n le h =
    ground (arith, index_loop_sound t ((acc * 10 + (c - b'0')) % 2 ^ 64) n)

index_loop_complete :
    (t : Text) (acc : ℕ)
    → IsDecimal t
    → read_decimal acc t ≤ max_array_index
    → index_loop t acc ≡ some (read_decimal acc t)
unfolding index_loop read_decimal
index_loop_complete [] acc d le = ground arith
index_loop_complete (c ∷ t) acc d le = ground (
  arith,
  index_loop_complete t (acc * 10 + (c - b'0')),
  read_decimal_grows (acc * 10 + (c - b'0')) t,
)

-- The first test lets through what is short enough and has no zero in front.
parse_loop :
    (t : Text) → length t ≤ 10 → starts_well t ≡ true → parse_array_index t ≡ index_loop t 0
unfolding parse_array_index
parse_loop [] le s = cc
parse_loop (c ∷ []) le s = ground arith
parse_loop (c ∷ d ∷ t) le s = ground arith

parse_passed :
    (t : Text) (n : ℕ)
    → parse_array_index t ≡ some n
    → (index_loop t 0 ≡ some n) × (starts_well t ≡ true)
unfolding parse_array_index
parse_passed [] n h = cc
parse_passed (c ∷ []) n h = ground arith
parse_passed (c ∷ d ∷ t) n h = ground arith

-- A key is an array index exactly if it is the numeral of a number up to 2 ^ 32 - 2, and it is that
-- number then.
pub parse_array_index_iff :
    (key : Text) (n : ℕ)
    → (parse_array_index key ≡ some n) ↔ ((key ≡ decimal n) × (n ≤ max_array_index))
parse_array_index_iff key n = (sound, complete)
  where
    sound : parse_array_index key ≡ some n → (key ≡ decimal n) × (n ≤ max_array_index)
    sound h =
        let (looped, s) = parse_passed key n h in
        let (e, le, d) = index_loop_sound key 0 n (omega arith) looped in
        (sym (ap decimal e ∙ decimal-read key d s), le)

    complete : (key ≡ decimal n) × (n ≤ max_array_index) → parse_array_index key ≡ some n
    complete (e, le) = rw e (
        parse_loop (decimal n) (length-decimal 9 n (omega arith)) (starts_well-decimal n)
        ∙ index_loop_complete (decimal n) 0 (decimal-IsDecimal n) (rw (read-decimal n) le)
        ∙ ap some (read-decimal n))
