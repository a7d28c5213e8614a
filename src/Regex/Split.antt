-- ===== src/Regex/Split.antt =====
-- internal/regex/regex.go: the slash that ends a pattern literal.
use mathlib.Core.Path.{fun_ext}
use jsonata_go.Prelude.{
  ℕ, ◌+◌, ◌%◌, ◌≡◌, ◌↔◌, refl, sym, ap, ◌∙◌, Bool, true, false, not, ◌&&◌, ◌||◌, [], ◌∷◌, ◌++◌,
  Text, Option, none, some, ◌==◌, ==_iff, if◌then◌else◌, arith, Bool-cases, inl, inr,
}
use jsonata_go.Regex.{
  split_literal_from, split_literal, delimiter_unescaped, is_open, is_close, ends_in_backslash,
}
use jsonata_go.Regex.First.{first_slash, parted_at, first_slash_iff}

-- How many backslashes end a text, behind so many before it.
abbrev pub trailing : ℕ → Text → ℕ
trailing n [] = n
trailing n (c ∷ cs) = trailing (if c == 92 then n + 1 else 0) cs

abbrev pub opening : ℕ → Bool
opening c = c == b'(' || c == b'[' || c == b'{'

abbrev pub closing : ℕ → Bool
closing c = c == b')' || c == b']' || c == b'}'

-- How many bytes are of a kind and not directly behind a backslash; so many backslashes stand before.
abbrev pub marks : (ℕ → Bool) → ℕ → Text → ℕ
marks kind n [] = 0
marks kind n (c ∷ cs) =
    (if n == 0 && kind c then 1 else 0) + marks kind (if c == 92 then n + 1 else 0) cs

-- A slash behind these bytes ends the pattern: it is not escaped, and as many brackets were closed
-- as opened.
abbrev pub ends_pattern : Text → Bool
ends_pattern pattern =
    trailing 0 pattern % 2 == 0 && marks opening 0 pattern == marks closing 0 pattern

-- The backslashes in front of a text that is given the last byte first.
abbrev run : Text → ℕ
run [] = 0
run (c ∷ cs) = if c == 92 then run cs + 1 else 0

delimiter_unescaped_lem : (before : Text) → delimiter_unescaped before ≡ (run before % 2 == 0)
unfolding delimiter_unescaped
delimiter_unescaped_lem [] = ground arith
delimiter_unescaped_lem (c ∷ cs) = rw (delimiter_unescaped_lem cs) (flips (run cs) (c == 92))
  where
    flips :
        (n : ℕ) (b : Bool)
        → (if b then not (n % 2 == 0) else true) ≡ ((if b then n + 1 else 0) % 2 == 0)
    flips n true = ground arith
    flips n false = ground arith

ends_in_backslash_lem : (before : Text) → not (ends_in_backslash before) ≡ (run before == 0)
ends_in_backslash_lem [] = ground arith
ends_in_backslash_lem (c ∷ cs) = same (c == 92) (run cs)
  where
    same : (b : Bool) (n : ℕ) → not b ≡ ((if b then n + 1 else 0) == 0)
    same true n = ground arith
    same false n = ground arith

-- The test behind bytes that were read, with the brackets that were counted in them.
ends_behind : Text → ℕ × ℕ → Text → Bool
ends_behind before (opened, closed) pattern =
    trailing (run before) pattern % 2 == 0
    && (opened + marks opening (run before) pattern)
      == (closed + marks closing (run before) pattern)

counted : (a m : ℕ) (b : Bool) → a + ((if b then 1 else 0) + m) ≡ (if b then a + 1 else a) + m
counted a m true = omega arith
counted a m false = omega arith

ends_behind-step :
    (before : Text) (opened closed c : ℕ) (q : Text)
    → ends_behind before (opened, closed) (c ∷ q)
      ≡ ends_behind
          (c ∷ before)
          (
            (if not (ends_in_backslash before) && is_open c then opened + 1 else opened),
            (if not (ends_in_backslash before) && is_close c then closed + 1 else closed),
          )
          q
unfolding ends_behind
ends_behind-step before opened closed c q =
    rw
      (
        ends_in_backslash_lem before,
        counted opened (marks opening (run (c ∷ before)) q) (run before == 0 && opening c),
        counted closed (marks closing (run (c ∷ before)) q) (run before == 0 && closing c),
      )
      refl

test_order : (a b d : Bool) → (a && b && d) ≡ (a && (d && b))
test_order a b d = ground arith

same_parts :
    (b d : Bool) (c : ℕ) (cs : Text) (rest other : Option (Text × Text))
    → b ≡ d
    → rest ≡ other
    → parted_at b c cs rest ≡ parted_at d c cs other
same_parts b d c cs rest other e f = rw (e, f) refl

here_lem :
    (before : Text) (opened closed c : ℕ)
    → (c == b'/' && opened == closed && delimiter_unescaped before)
      ≡ (c == b'/' && ends_behind before (opened, closed) [])
unfolding ends_behind
here_lem before opened closed c =
    rw (delimiter_unescaped_lem before, no_more opened, no_more closed)
      (test_order (c == b'/') (opened == closed) (run before % 2 == 0))
  where
    no_more : (n : ℕ) → n + 0 ≡ n
    no_more n = omega arith

split_literal_from-first_slash :
    (before : Text) (depth : ℕ × ℕ) (text : Text)
    → split_literal_from before depth text ≡ first_slash (ends_behind before depth) text
unfolding split_literal_from first_slash
split_literal_from-first_slash before depth [] = refl
split_literal_from-first_slash before (opened, closed) (c ∷ cs) =
    let opened' = if not (ends_in_backslash before) && is_open c then opened + 1 else opened in
    let closed' = if not (ends_in_backslash before) && is_close c then closed + 1 else closed in
    same_parts _ _ c cs _ _ (here_lem before opened closed c) (
      split_literal_from-first_slash (c ∷ before) (opened', closed') cs
      ∙ ap (λ ends. first_slash ends cs)
          (fun_ext (λ q. sym (ends_behind-step before opened closed c q))))

-- The first slash is no byte of the pattern, so that the brackets are counted from none.
ends_behind-slash : (pattern : Text) → ends_behind (b'/' ∷ []) (0, 0) pattern ≡ ends_pattern pattern
unfolding ends_behind
ends_behind-slash pattern =
    rw (none_before (marks opening 0 pattern), none_before (marks closing 0 pattern)) refl
  where
    none_before : (n : ℕ) → 0 + n ≡ n
    none_before n = omega arith

split_literal-first_slash :
    (text : Text) → split_literal (b'/' ∷ text) ≡ first_slash ends_pattern text
unfolding split_literal first_slash
split_literal-first_slash [] = refl
split_literal-first_slash (c ∷ cs) =
    split_literal_from-first_slash (b'/' ∷ []) (0, 0) (c ∷ cs)
    ∙ ap (λ ends. first_slash ends (c ∷ cs)) (fun_ext ends_behind-slash)

split_literal-other : (c : ℕ) (text : Text) → (c == b'/') ≡ false → split_literal (c ∷ text) ≡ none
unfolding split_literal
split_literal-other c [] h = refl
split_literal-other c (d ∷ cs) h = rw h refl

-- What a literal must be to have this pattern and these flags: a slash, the pattern, a slash and the
-- flags, where the slash between them can end the pattern and no slash within the pattern can.
pub record IsLiteral (literal pattern flags : Text) : Type 0 where
  pub parts : literal ≡ b'/' ∷ (pattern ++ (b'/' ∷ flags))
  pub ends : ends_pattern pattern ≡ true
  pub first : (q r : Text) → pattern ≡ q ++ (b'/' ∷ r) → ends_pattern q ≡ false

behind_slash :
    (c : ℕ) (text pattern flags : Text)
    → c ≡ b'/'
    → split_literal (c ∷ text) ≡ some (pattern, flags)
    → IsLiteral (c ∷ text) pattern flags
behind_slash c text pattern flags e h =
    let found : first_slash ends_pattern text ≡ some (pattern, flags) =
      sym (split_literal-first_slash text) ∙ ap (λ d. split_literal (d ∷ text)) (sym e) ∙ h in
    let f = (first_slash_iff ends_pattern text pattern flags).0 found in
    record {
      parts = ap (λ d. d ∷ text) e ∙ ap (λ xs. b'/' ∷ xs) f.parts;
      ends = f.holds;
      first = f.first;
    }

none≢some : {x : Text × Text} → none ≡ some x → ⊥
none≢some h = cc

split_literal-IsLiteral :
    (literal pattern flags : Text)
    → split_literal literal ≡ some (pattern, flags)
    → IsLiteral literal pattern flags
unfolding split_literal
split_literal-IsLiteral [] pattern flags h = cc
split_literal-IsLiteral (c ∷ text) pattern flags h = elim (Bool-cases (c == b'/')) [
  | inl e ↦ behind_slash c text pattern flags ((==_iff c b'/').0 e) h
  | inr e ↦ absurd (none≢some (sym (split_literal-other c text e) ∙ h))
]

IsLiteral-split_literal :
    (literal pattern flags : Text)
    → IsLiteral literal pattern flags
    → split_literal literal ≡ some (pattern, flags)
IsLiteral-split_literal literal pattern flags l =
    ap split_literal l.parts
    ∙ split_literal-first_slash (pattern ++ (b'/' ∷ flags))
    ∙ (first_slash_iff ends_pattern (pattern ++ (b'/' ∷ flags)) pattern flags).1
        (record { parts = refl; holds = l.ends; first = l.first })

-- splitLiteral gives a pattern and flags exactly if the literal is a slash, the pattern, a slash and
-- the flags, and the slash between them is the first that can end a pattern: the number of
-- backslashes directly before it is even, and as many brackets ")", "]", "}" as "(", "[", "{" stand
-- before it that are not directly behind a backslash.
pub split_literal_iff :
    (literal pattern flags : Text)
    → (split_literal literal ≡ some (pattern, flags)) ↔ IsLiteral literal pattern flags
split_literal_iff literal pattern flags =
    (split_literal-IsLiteral literal pattern flags, IsLiteral-split_literal literal pattern flags)
