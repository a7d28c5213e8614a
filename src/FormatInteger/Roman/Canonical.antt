-- ===== src/FormatInteger/Roman/Canonical.antt =====
-- internal/evaluator/format_integer.go: `parseRomanInteger` against `romanInteger`.
use jsonata_go.Prelude.{
  ℕ, zero, suc, ◌^◌, ◌≤◌, ◌<◌, ◌≡◌, refl, ◌∙◌, ap, sym, true, ◌≢◌, ◌↔◌, [], ◌∷◌, map, none, some,
  Text, =ᵗ_iff, =ᵗ_refl, length, arith, Option-cases, inl, inr,
}
use jsonata_go.Prelude.Int.{ℤ, pos, negsuc}
use jsonata_go.Unicode.{Unicode}
use jsonata_go.FormatInteger.Roman.{
  roman_values, write_times, roman_loop, roman_integer, roman_scan, byte_len, parse_roman_integer,
}
use jsonata_go.FormatInteger.Roman.Scan.{
  all_upper, scan-roman_loop, roman_loop-all_upper, length-roman_loop, map-to_upper_fixed,
  map-to_upper-to_lower, byte_len-all_upper, byte_len-map-to_lower, roman_loop-ne-nil,
}

roman_integer_small : (n : ℕ) → n < 2 ^ 24 → roman_integer (pos n) ≡ roman_loop roman_values n
unfolding roman_integer
roman_integer_small n h = ground arith

-- Only a positive number of at most 24 bits has a numeral.
roman_integer_range : (z : ℤ) → roman_integer z ≢ [] → (n : ℕ) × (z ≡ pos n) × (n < 2 ^ 24)
unfolding roman_integer
roman_integer_range (negsuc m) h = absurd (h (ground arith))
roman_integer_range (pos n) h = (n, refl, ground arith)

map-nil : (f : ℕ → ℕ) (t : Text) → map f t ≡ [] → t ≡ []
map-nil f [] h = refl
map-nil f (c ∷ cs) h = cc

map-ne-nil : (f : ℕ → ℕ) (t : Text) → t ≢ [] → map f t ≢ []
map-ne-nil f t ne h = ne (map-nil f t h)

module _ (u : Unicode) where
  -- The parser's answer on a text of some length, once it is in upper case.
  parse_upper :
      (text t : Text) (n : ℕ)
      → text ≢ []
      → byte_len text ≤ 100000
      → map u.to_upper text ≡ t
      → t ≡ roman_loop roman_values n
      → n < 2 ^ 24
      → parse_roman_integer u text ≡ some (pos n)
  unfolding parse_roman_integer
  parse_upper [] t n ne short e r h = absurd (ne refl)
  parse_upper (c ∷ cs) t n ne short e r h =
      let (p, s, _) = scan-roman_loop n in
      rw (e, r, s, roman_integer_small n h, =ᵗ_refl (roman_loop roman_values n)) (ground arith)

  -- A text that is accepted is, in upper case, the numeral of the result.
  parse_accepts :
      (text : Text) (z : ℤ)
      → text ≢ []
      → parse_roman_integer u text ≡ some z
      → roman_integer z ≡ map u.to_upper text
  unfolding parse_roman_integer
  parse_accepts [] z ne h = absurd (ne refl)
  parse_accepts (c ∷ cs) z ne h = elim (Option-cases (roman_scan (map u.to_upper (c ∷ cs)))) [
    | inl e ↦ absurd (no_scan e h)
    | inr ((total, p), e) ↦ checked total p e h
  ]
    where
      no_scan :
          roman_scan (map u.to_upper (c ∷ cs)) ≡ none → parse_roman_integer u (c ∷ cs) ≢ some z
      no_scan e = rw e (ground arith)

      checked :
          (total : ℤ) (p : ℕ)
          → roman_scan (map u.to_upper (c ∷ cs)) ≡ some (total, p)
          → parse_roman_integer u (c ∷ cs) ≡ some z
          → roman_integer z ≡ map u.to_upper (c ∷ cs)
      checked total p e =
          rw e (ground (arith, =ᵗ_iff (roman_integer total) (map u.to_upper (c ∷ cs))))

  -- A non-empty text of at most 100000 bytes parses to an integer exactly when the text in upper
  -- case is that integer's numeral.
  pub parse-roman_integer_iff :
      (text : Text) (z : ℤ)
      → text ≢ []
      → byte_len text ≤ 100000
      → (parse_roman_integer u text ≡ some z) ↔ (roman_integer z ≡ map u.to_upper text)
  parse-roman_integer_iff text z ne short = (parse_accepts text z ne, back)
    where
      back : roman_integer z ≡ map u.to_upper text → parse_roman_integer u text ≡ some z
      back e =
          let (n, is, small) =
            roman_integer_range z (λ empty. ne (map-nil u.to_upper text (sym e ∙ empty))) in
          let numeral = sym e ∙ ap roman_integer is ∙ roman_integer_small n small in
          parse_upper text (map u.to_upper text) n ne short refl numeral small ∙ ap some (sym is)

  -- The numeral of a number below 2 ^ 24 is read back as that number, in upper case (picture "I") and
  -- in lower case (picture "i").
  pub parse-roman_integer :
      (n : ℕ)
      → n < 2 ^ 24
      → (parse_roman_integer u (roman_integer (pos n)) ≡ some (pos n))
        × (parse_roman_integer u (map u.to_lower (roman_integer (pos n))) ≡ some (pos n))
  parse-roman_integer zero h = zero_read
    where
      zero_read :
          (parse_roman_integer u (roman_integer (pos 0)) ≡ some (pos 0))
          × (parse_roman_integer u (map u.to_lower (roman_integer (pos 0))) ≡ some (pos 0))
      zero_read = unfold parse_roman_integer roman_integer roman_loop write_times in (refl, refl)
  parse-roman_integer (suc n) h = rw (roman_integer_small (suc n) h) (upper, lower)
    where
      numeral : Text
      numeral = roman_loop roman_values (suc n)

      capital : all_upper numeral ≡ true
      capital = roman_loop-all_upper (suc n)

      written : numeral ≢ []
      written = roman_loop-ne-nil (suc n) (omega arith)

      bound : length numeral ≤ 100000
      bound = omega (arith, length-roman_loop (suc n))

      upper : parse_roman_integer u numeral ≡ some (pos (suc n))
      upper =
          parse_upper numeral numeral (suc n) written
            (rw (byte_len-all_upper numeral capital) bound) (map-to_upper_fixed u numeral capital)
            refl h

      lower : parse_roman_integer u (map u.to_lower numeral) ≡ some (pos (suc n))
      lower =
          parse_upper (map u.to_lower numeral) numeral (suc n)
            (map-ne-nil u.to_lower numeral written)
            (rw (byte_len-map-to_lower u numeral capital) bound)
            (map-to_upper-to_lower u numeral capital) refl h
