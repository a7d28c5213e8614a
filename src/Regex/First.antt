-- ===== src/Regex/First.antt =====
-- internal/regex/regex.go: the first slash of a text in front of which a test holds.
use mathlib.Core.Bool.{true≢false}
use jsonata_go.Prelude.{
  ℕ, ◌≡◌, ◌↔◌, refl, sym, ap, ◌∙◌, Bool, true, false, ◌&&◌, [], ◌∷◌, ◌++◌, Text, Option, none, some,
  ◌==◌, ==_iff, if◌then◌else◌, left_of, right_of, some-injective, Bool-cases, inl, inr, arith,
}

-- What is found at a byte: the text is parted there, or the byte goes in front of what is found behind.
abbrev pub parted_at : Bool → ℕ → Text → Option (Text × Text) → Option (Text × Text)
parted_at here c cs rest =
    if here
    then some ([], cs)
    else elim rest [ none ↦ none | some (before, behind) ↦ some (c ∷ before, behind) ]

-- The bytes before the first slash that the test holds in front of, and the bytes behind it.
unfoldable pub first_slash : (Text → Bool) → Text → Option (Text × Text)
first_slash ends [] = none
first_slash ends (c ∷ cs) =
    parted_at (c == b'/' && ends []) c cs (first_slash (λ q. ends (c ∷ q)) cs)

-- The text is parted at a slash; the test holds in front of it and in front of no slash before.
pub record IsFirst (ends : Text → Bool) (text before behind : Text) : Type 0 where
  pub parts : text ≡ before ++ (b'/' ∷ behind)
  pub holds : ends before ≡ true
  pub first : (q r : Text) → before ≡ q ++ (b'/' ∷ r) → ends q ≡ false

head_of : (c d : ℕ) (cs ds : Text) → c ∷ cs ≡ d ∷ ds → c ≡ d
head_of c d cs ds h = cc

tail_of : (c d : ℕ) (cs ds : Text) → c ∷ cs ≡ d ∷ ds → cs ≡ ds
tail_of c d cs ds h = cc

no_split : (q r : Text) → [] ≡ q ++ (b'/' ∷ r) → ⊥
no_split [] r h = cc
no_split (x ∷ q) r h = cc

IsFirst-here :
    (ends : Text → Bool) (c : ℕ) (cs : Text)
    → (c == b'/' && ends []) ≡ true
    → IsFirst ends (c ∷ cs) [] cs
IsFirst-here ends c cs h = record {
  parts = ap (λ d. d ∷ cs) ((==_iff c b'/').0 (left_of (c == b'/') (ends []) h));
  holds = right_of (c == b'/') (ends []) h;
  first = λ q r e. absurd (no_split q r e);
}

not_here : (c : ℕ) (b : Bool) → (c == b'/' && b) ≡ false → c ≡ b'/' → b ≡ false
not_here c b h e = ground arith

IsFirst-further :
    (ends : Text → Bool) (c : ℕ) (cs before behind : Text)
    → (c == b'/' && ends []) ≡ false
    → IsFirst (λ q. ends (c ∷ q)) cs before behind
    → IsFirst ends (c ∷ cs) (c ∷ before) behind
IsFirst-further ends c cs before behind h f = record {
  parts = ap (λ xs. c ∷ xs) f.parts;
  holds = f.holds;
  first = λ q r e. earlier q r e;
}
  where
    earlier : (q r : Text) → c ∷ before ≡ q ++ (b'/' ∷ r) → ends q ≡ false
    earlier [] r e = not_here c (ends []) h (head_of c b'/' before r e)
    earlier (x ∷ q) r e =
        rw (← head_of c x before (q ++ (b'/' ∷ r)) e)
          (f.first q r (tail_of c x before (q ++ (b'/' ∷ r)) e))

choice :
    (ends : Text → Bool) (c : ℕ) (cs : Text) (b : Bool) (rest : Option (Text × Text))
    (before behind : Text)
    → (c == b'/' && ends []) ≡ b
    → ((q r : Text) → rest ≡ some (q, r) → IsFirst (λ q. ends (c ∷ q)) cs q r)
    → parted_at b c cs rest ≡ some (before, behind)
    → IsFirst ends (c ∷ cs) before behind
choice ends c cs true rest before behind here further h =
    rw (← ap (λ x. x.0) (some-injective h), ← ap (λ x. x.1) (some-injective h))
      (IsFirst-here ends c cs here)
choice ends c cs false none before behind here further h = cc
choice ends c cs false (some found) before behind here further h =
    rw (← ap (λ x. x.0) (some-injective h), ← ap (λ x. x.1) (some-injective h))
      (IsFirst-further ends c cs found.0 found.1 here (further found.0 found.1 refl))

first_slash-IsFirst :
    (ends : Text → Bool) (text before behind : Text)
    → first_slash ends text ≡ some (before, behind)
    → IsFirst ends text before behind
unfolding first_slash
first_slash-IsFirst ends [] before behind h = cc
first_slash-IsFirst ends (c ∷ cs) before behind h =
    choice ends c cs (c == b'/' && ends []) (first_slash (λ q. ends (c ∷ q)) cs) before behind refl
      (λ q r e. first_slash-IsFirst (λ q. ends (c ∷ q)) cs q r e) h

slash : (c : ℕ) (b : Bool) → c ≡ b'/' → b ≡ true → (c == b'/' && b) ≡ true
slash c b e h = ground arith

passed_by : (c : ℕ) (b : Bool) → (c ≡ b'/' → b ≡ false) → (c == b'/' && b) ≡ false
passed_by c true h = elim (Bool-cases (c == b'/')) [
  | inl e ↦ absurd (true≢false (h ((==_iff c b'/').0 e)))
  | inr e ↦ rw e refl
]
passed_by c false h = ground arith

IsFirst-first_slash :
    (ends : Text → Bool) (text before behind : Text)
    → IsFirst ends text before behind
    → first_slash ends text ≡ some (before, behind)
unfolding first_slash
IsFirst-first_slash ends [] before behind f = absurd (no_split before behind f.parts)
IsFirst-first_slash ends (c ∷ cs) [] behind f =
    rw (slash c (ends []) (head_of c b'/' cs behind f.parts) f.holds)
      (ap (λ r. some ([], r)) (tail_of c b'/' cs behind f.parts))
IsFirst-first_slash ends (c ∷ cs) (x ∷ before) behind f =
    rw
      (
        passed_by c (ends []) stays,
        IsFirst-first_slash (λ q. ends (c ∷ q)) cs before behind behind_c,
      )
      (ap (λ y. some (y ∷ before, behind)) same)
  where
    same : c ≡ x
    same = head_of c x cs (before ++ (b'/' ∷ behind)) f.parts

    stays : c ≡ b'/' → ends [] ≡ false
    stays e = f.first [] before (ap (λ y. y ∷ before) (sym same ∙ e))

    behind_c : IsFirst (λ q. ends (c ∷ q)) cs before behind
    behind_c = record {
      parts = tail_of c x cs (before ++ (b'/' ∷ behind)) f.parts;
      holds = rw same f.holds;
      first = λ q r e. rw same (f.first (x ∷ q) r (ap (λ ys. x ∷ ys) e));
    }

pub first_slash_iff :
    (ends : Text → Bool) (text before behind : Text)
    → (first_slash ends text ≡ some (before, behind)) ↔ IsFirst ends text before behind
first_slash_iff ends text before behind =
    (first_slash-IsFirst ends text before behind, IsFirst-first_slash ends text before behind)
