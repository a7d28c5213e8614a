-- ===== src/FormatInteger/Separators/Strip.antt =====
-- internal/evaluator/format_integer.go: the characters of a number beside its separators.
use jsonata_go.Prelude.{
  ℕ, zero, suc, ◌+◌, ◌-◌, ◌≡◌, refl, sym, ap, ◌∙◌, Bool, false, ◌&&◌, List, [], ◌∷◌, ◌++◌, Text,
  ltb, if◌then◌else◌, length, take, drop, take-append-drop, All, All-append, arith, Bool-cases, inl,
  inr,
}
use jsonata_go.FormatInteger.Picture.{IntegerSeparator, IntegerPicture}
use jsonata_go.FormatInteger.Separators.{
  insert_by, sort_by, ascending, descending, is_same, repeat_from, last_from_right, extend,
  insert_separator, insert_all, apply_integer_separators,
}

-- The characters of a text that pass a test.
abbrev pub keep : (ℕ → Bool) → Text → Text
keep p [] = []
keep p (c ∷ cs) = if p c then c ∷ keep p cs else keep p cs

keep-append : (p : ℕ → Bool) (a b : Text) → keep p (a ++ b) ≡ keep p a ++ keep p b
keep-append p [] b = refl
keep-append p (c ∷ a) b = ground (arith, keep-append p a b)

-- The separators are characters that the test refuses.
abbrev pub Refused : (ℕ → Bool) → List IntegerSeparator → Type 0
Refused p = All (λ s. p s.char ≡ false)

module _ (p : ℕ → Bool) where
  insert_by-Refused :
      (less : IntegerSeparator → IntegerSeparator → Bool) (s : IntegerSeparator)
      (ss : List IntegerSeparator)
      → p s.char ≡ false
      → Refused p ss
      → Refused p (insert_by less s ss)
  unfolding insert_by
  insert_by-Refused less s [] h a = (h, tt)
  insert_by-Refused less s (y ∷ ys) h (q, a) = ground (arith, insert_by-Refused less s ys h a)

  sort_by-Refused :
      (less : IntegerSeparator → IntegerSeparator → Bool) (sorted ss : List IntegerSeparator)
      → Refused p sorted
      → Refused p ss
      → Refused p (sort_by less sorted ss)
  unfolding sort_by
  sort_by-Refused less sorted [] h a = h
  sort_by-Refused less sorted (s ∷ ss) h (q, a) =
      sort_by-Refused less (insert_by less s sorted) ss (insert_by-Refused less s sorted q h) a

  repeat_from-Refused :
      (fuel char step size position : ℕ)
      → p char ≡ false
      → Refused p (repeat_from fuel char step size position)
  unfolding repeat_from
  repeat_from-Refused zero char step size position h = tt
  repeat_from-Refused (suc fuel) char step size position h =
      ground (arith, repeat_from-Refused fuel char step size (position + step) h)

  extend-Refused :
      (size : ℕ) (ss : List IntegerSeparator) → Refused p ss → Refused p (extend size ss)
  unfolding extend
  extend-Refused size [] a = tt
  extend-Refused size (s ∷ ss) (h, a) = elim (Bool-cases (is_same s ss && ltb 0 s.from_right)) [
    | inl e ↦ rw e (
        All-append _ (s ∷ ss) _ (h, a)
          (repeat_from-Refused size s.char s.from_right size (last_from_right s ss + s.from_right)
            h))
    | inr e ↦ rw e (h, a)
  ]

  keep-insert_separator :
      (s : IntegerSeparator) (t : Text)
      → p s.char ≡ false
      → keep p (insert_separator s t) ≡ keep p t
  unfolding insert_separator
  keep-insert_separator s t h = go (length t - s.from_right)
    where
      inserted : (n : ℕ) → keep p (take n t ++ (s.char ∷ drop n t)) ≡ keep p t
      inserted n =
          keep-append p (take n t) (s.char ∷ drop n t)
          ∙ ap (λ r. keep p (take n t) ++ r) (rw h)
          ∙ sym (keep-append p (take n t) (drop n t))
          ∙ ap (keep p) (take-append-drop n t)

      go :
          (n : ℕ)
          → keep p (if ltb 0 n && ltb n (length t) then take n t ++ (s.char ∷ drop n t) else t)
            ≡ keep p t
      go n = elim (Bool-cases (ltb 0 n && ltb n (length t))) [
        | inl e ↦ rw e (inserted n)
        | inr e ↦ rw e
      ]

  keep-insert_all :
      (ss : List IntegerSeparator) (t : Text) → Refused p ss → keep p (insert_all ss t) ≡ keep p t
  unfolding insert_all
  keep-insert_all [] t a = refl
  keep-insert_all (s ∷ ss) t (h, a) =
      keep-insert_all ss (insert_separator s t) a ∙ keep-insert_separator s t h

  -- For any test that refuses every separator of the picture, the characters that pass it are the same
  -- and in the same order with the separators as without.
  pub keep-apply_integer_separators :
      (digits : Text) (picture : IntegerPicture)
      → Refused p picture.separators
      → keep p (apply_integer_separators digits picture) ≡ keep p digits
  unfolding apply_integer_separators
  keep-apply_integer_separators [] picture a = refl
  keep-apply_integer_separators (c ∷ cs) picture a = keep-insert_all _ (c ∷ cs) (
      sort_by-Refused descending [] _ tt
        (extend-Refused (length (c ∷ cs)) _ (sort_by-Refused ascending [] picture.separators tt a)))
