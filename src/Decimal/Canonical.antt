-- ===== src/Decimal/Canonical.antt =====
-- The texts that `decimal` writes: digits without a zero in front.
use jsonata_go.Prelude.{
  Bool-cases, inl, inr, ==_iff, ltb, ltb→lt, ◌≢◌, ℕ, zero, suc, ◌+◌, ◌-◌, ◌*◌, ◌/◌, ◌%◌, ◌^◌, ◌≤◌,
  ◌<◌, ◌≡◌, refl, sym, ap, ◌∙◌, [], ◌∷◌, ◌++◌, append_assoc, append-nil, Text, length,
  length-append, arith, Bool, true, false, not, ◌==◌,
}
use jsonata_go.Decimal.{digits_of, decimal, read_decimal}
use jsonata_go.Decimal.RoundTrip.{IsDecimal, read-decimal}

digits_of_fuel : (f g n : ℕ) → n ≤ f → n ≤ g → digits_of f n ≡ digits_of g n
unfolding digits_of
digits_of_fuel zero zero n a b = refl
digits_of_fuel zero (suc g) n a b = ground arith
digits_of_fuel (suc f) zero n a b = ground arith
digits_of_fuel (suc f) (suc g) zero a b = refl
digits_of_fuel (suc f) (suc g) (suc n) a b =
    ap (λ t. t ++ (b'0' + suc n % 10) ∷ [])
      (digits_of_fuel f g (suc n / 10) (omega arith) (omega arith))

digits_of_positive : (f n : ℕ) → 0 < n → n ≤ f → digits_of f n ≡ decimal n
unfolding decimal
digits_of_positive f zero h le = elim h [ ]
digits_of_positive f (suc n) h le = ground (arith, digits_of_fuel f (suc n) (suc n))

digits_of-suc :
    (f n : ℕ) → digits_of (suc f) (suc n) ≡ digits_of f (suc n / 10) ++ (b'0' + suc n % 10) ∷ []
unfolding digits_of
digits_of-suc f n = refl

digits_of_zero : (f : ℕ) → digits_of f 0 ≡ []
unfolding digits_of
digits_of_zero zero = refl
digits_of_zero (suc f) = refl

decimal_step : (n : ℕ) → 10 ≤ n → decimal n ≡ decimal (n / 10) ++ (b'0' + n % 10) ∷ []
decimal_step zero h = elim h [ ]
decimal_step (suc n) h =
    sym (digits_of_positive (suc n) (suc n) (omega arith) (omega arith))
    ∙ digits_of-suc n n
    ∙ ap (λ t. t ++ (b'0' + suc n % 10) ∷ [])
        (digits_of_positive n (suc n / 10) (omega arith) (omega arith))

decimal_digit : (n : ℕ) → n < 10 → decimal n ≡ (b'0' + n) ∷ []
decimal_digit zero h = unfold decimal in refl
decimal_digit (suc n) h =
    sym (digits_of_positive (suc n) (suc n) (omega arith) (omega arith))
    ∙ digits_of-suc n n
    ∙ rw (q, digits_of_zero n) (ap (λ x. x ∷ []) (omega arith))
  where
    q : suc n / 10 ≡ 0
    q = omega arith

decimal_shift :
    (n c : ℕ) → 0 < n → b'0' ≤ c → c ≤ b'9' → decimal (n * 10 + (c - b'0')) ≡ decimal n ++ c ∷ []
decimal_shift n c h a b = decimal_step (n * 10 + (c - b'0')) (omega arith) ∙ rw (q, r) refl
  where
    q : (n * 10 + (c - b'0')) / 10 ≡ n
    q = omega arith

    r : b'0' + (n * 10 + (c - b'0')) % 10 ≡ c
    r = omega arith

decimal_extend :
    (n : ℕ) (t : Text) → 0 < n → IsDecimal t → decimal (read_decimal n t) ≡ decimal n ++ t
unfolding read_decimal
decimal_extend n [] h d = sym (append-nil (decimal n))
decimal_extend n (c ∷ t) h ((a, b), d) =
    decimal_extend (n * 10 + (c - b'0')) t (omega arith) d
    ∙ ap (λ s. s ++ t) (decimal_shift n c h a b)
    ∙ append_assoc (decimal n) (c ∷ []) t

-- No zero stands in front of another digit, and there is a digit.
abbrev pub starts_well : Text → Bool
starts_well [] = false
starts_well (c ∷ []) = true
starts_well (c ∷ d ∷ t) = not (c == b'0')

-- A numeral without superfluous zeros is what `decimal` writes for the number that it reads as.
pub decimal-read : (t : Text) → IsDecimal t → starts_well t ≡ true → decimal (read_decimal 0 t) ≡ t
unfolding read_decimal
decimal-read [] d s = cc
decimal-read (c ∷ []) ((a, b), d) s =
    decimal_digit (0 * 10 + (c - b'0')) (omega arith) ∙ ap (λ x. x ∷ []) (omega arith)
decimal-read (c ∷ e ∷ t) ((a, b), d) s =
    decimal_extend (0 * 10 + (c - b'0')) (e ∷ t) (ground arith) d
    ∙ ap (λ x. x ++ e ∷ t) (decimal_digit (0 * 10 + (c - b'0')) (omega arith))
    ∙ ap (λ x. x ∷ e ∷ t) (omega arith)

starts_well_append :
    (t : Text) (c : ℕ) → starts_well t ≡ true → t ≢ b'0' ∷ [] → starts_well (t ++ c ∷ []) ≡ true
starts_well_append [] c s h = cc
starts_well_append (a ∷ []) c s h = elim (Bool-cases (a == b'0')) [
  | inl e ↦ elim (h (ap (λ x. x ∷ []) ((==_iff a b'0').0 e))) [ ]
  | inr e ↦ rw e refl
]
starts_well_append (a ∷ b ∷ t) c s h = s

-- The value of a text without a digit but 0 in it; `decimal` writes it for 0 alone.
decimal-zero : (n : ℕ) → 0 < n → decimal n ≢ b'0' ∷ []
decimal-zero n h e = ground (arith, zero_value)
  where
    zero_value : n ≡ 0
    zero_value = sym (read-decimal n) ∙ ap (read_decimal 0) e ∙ (unfold read_decimal in refl)

digits_start_well : (fuel n : ℕ) → 0 < n → n ≤ fuel → starts_well (decimal n) ≡ true
digits_start_well zero n h le = ground arith
digits_start_well (suc fuel) n h le = elim (Bool-cases (ltb n 10)) [
  | inl e ↦ rw (decimal_digit n (ltb→lt n 10 e)) refl
  | inr e ↦ rw (decimal_step n (ground arith)) (
      starts_well_append (decimal (n / 10)) (b'0' + n % 10)
        (digits_start_well fuel (n / 10) (ground arith) (ground arith))
        (decimal-zero (n / 10) (ground arith)))
]

pub starts_well-decimal : (n : ℕ) → starts_well (decimal n) ≡ true
starts_well-decimal zero = unfold decimal in refl
starts_well-decimal (suc n) = digits_start_well (suc n) (suc n) (omega arith) (omega arith)

-- `decimal` writes at most `k` digits below the power.
pub length-decimal : (k n : ℕ) → n < 10 ^ suc k → length (decimal n) ≤ suc k
length-decimal zero n h = rw (decimal_digit n h) (omega arith)
length-decimal (suc k) n h = elim (Bool-cases (ltb n 10)) [
  | inl e ↦ rw (decimal_digit n (ltb→lt n 10 e)) (omega arith)
  | inr e ↦
      rw (decimal_step n (ground arith), length-append (decimal (n / 10)) ((b'0' + n % 10) ∷ []))
        (omega (arith, length-decimal k (n / 10) (omega arith)))
]
