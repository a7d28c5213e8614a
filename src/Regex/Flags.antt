-- ===== src/Regex/Flags.antt =====
-- internal/regex/regex.go: the flags of a pattern literal.
use jsonata_go.Prelude.{
  ℕ, ◌≡◌, ◌↔◌, ◌⊎◌, inl, inr, refl, Bool, true, not, ◌&&◌, ◌||◌, List, [], ◌∷◌, ◌==◌, left_of,
  right_of, arith,
}
use jsonata_go.Regex.{contains_rune, flags_allowed}

-- The flags that a literal may have.
pub data Allowed : List ℕ → Type 0 where
  no_flag : Allowed []
  ignore_case : Allowed (b'i' ∷ [])
  multiline : Allowed (b'm' ∷ [])
  ignore_case_first : Allowed (b'i' ∷ b'm' ∷ [])
  multiline_first : Allowed (b'm' ∷ b'i' ∷ [])

accepted_flag : ℕ → List ℕ → Bool
accepted_flag a seen = not (contains_rune a seen) && (a == b'i' || a == b'm')

accepted_flag-one : (a : ℕ) → accepted_flag a [] ≡ true → (a ≡ b'i') ⊎ (a ≡ b'm')
unfolding accepted_flag
accepted_flag-one a h = ground arith

accepted_flag-two :
    (a b : ℕ)
    → accepted_flag a [] ≡ true
    → accepted_flag b (a ∷ []) ≡ true
    → (a ≡ b'i' × b ≡ b'm') ⊎ (a ≡ b'm' × b ≡ b'i')
unfolding accepted_flag
accepted_flag-two a b ha hb = ground arith

accepted_flag-three :
    (a b c : ℕ)
    → accepted_flag a [] ≡ true
    → accepted_flag b (a ∷ []) ≡ true
    → accepted_flag c (b ∷ a ∷ []) ≡ true
    → ⊥
unfolding accepted_flag
accepted_flag-three a b c ha hb hc = ground arith

first :
    (seen : List ℕ) (a : ℕ) (rest : List ℕ)
    → flags_allowed seen (a ∷ rest) ≡ true
    → accepted_flag a seen ≡ true
unfolding flags_allowed accepted_flag
first seen a rest h = left_of (accepted_flag a seen) (flags_allowed (a ∷ seen) rest) h

others :
    (seen : List ℕ) (a : ℕ) (rest : List ℕ)
    → flags_allowed seen (a ∷ rest) ≡ true
    → flags_allowed (a ∷ seen) rest ≡ true
unfolding flags_allowed accepted_flag
others seen a rest h = right_of (accepted_flag a seen) (flags_allowed (a ∷ seen) rest) h

Allowed-one : (a : ℕ) → ((a ≡ b'i') ⊎ (a ≡ b'm')) → Allowed (a ∷ [])
Allowed-one a (inl e) = rw e ignore_case
Allowed-one a (inr e) = rw e multiline

Allowed-two : (a b : ℕ) → (a ≡ b'i' × b ≡ b'm') ⊎ (a ≡ b'm' × b ≡ b'i') → Allowed (a ∷ b ∷ [])
Allowed-two a b (inl (e, d)) = rw (e, d) ignore_case_first
Allowed-two a b (inr (e, d)) = rw (e, d) multiline_first

flags_allowed-Allowed : (flags : List ℕ) → flags_allowed [] flags ≡ true → Allowed flags
flags_allowed-Allowed [] h = no_flag
flags_allowed-Allowed (a ∷ []) h = Allowed-one a (accepted_flag-one a (first [] a [] h))
flags_allowed-Allowed (a ∷ b ∷ []) h =
    Allowed-two a b
      (accepted_flag-two a b (first [] a (b ∷ []) h) (first (a ∷ []) b [] (others [] a (b ∷ []) h)))
flags_allowed-Allowed (a ∷ b ∷ c ∷ rest) h =
    let behind = others [] a (b ∷ c ∷ rest) h in
    absurd (
      accepted_flag-three a b c (first [] a (b ∷ c ∷ rest) h) (first (a ∷ []) b (c ∷ rest) behind)
        (first (b ∷ a ∷ []) c rest (others (a ∷ []) b (c ∷ rest) behind)))

Allowed-flags_allowed : (flags : List ℕ) → Allowed flags → flags_allowed [] flags ≡ true
unfolding flags_allowed
Allowed-flags_allowed _ no_flag = refl
Allowed-flags_allowed _ ignore_case = refl
Allowed-flags_allowed _ multiline = refl
Allowed-flags_allowed _ ignore_case_first = refl
Allowed-flags_allowed _ multiline_first = refl

-- The loop over the flags accepts them exactly when they are none, one "i", one "m", or both in
-- either order.
pub flags_allowed_iff : (flags : List ℕ) → (flags_allowed [] flags ≡ true) ↔ Allowed flags
flags_allowed_iff flags = (flags_allowed-Allowed flags, Allowed-flags_allowed flags)
