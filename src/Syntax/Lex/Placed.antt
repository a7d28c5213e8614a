-- ===== src/Syntax/Lex/Placed.antt =====
-- internal/syntax/lexer.go: the position of the lexer in its source.
use mathlib.Core.Bool.{true≢false}
use jsonata_go.Prelude.{
  ℕ, zero, suc, ◌+◌, ◌-◌, ◌*◌, ◌%◌, ◌≤◌, ◌<◌, ◌≡◌, refl, sym, ap, ◌∙◌, Bool, true, false, ◌&&◌,
  subst, [], ◌∷◌, Text, length, take, drop, arith, ltb, leb, leb→le, Bool-cases, inl, inr, ◌⊎◌,
  ◌==◌, if◌then◌else◌,
}
use jsonata_go.Utf8.{
  decode_rune, decode_rune_width, decode_four, invalid, in_range, second_low, second_high,
  decode_rune-four,
}
use jsonata_go.Syntax.Lex.{Lexer, onto, is_empty, lexer_on}
use jsonata_go.Syntax.Lex.Texts.{utf16_length}
use jsonata_go.Syntax.Lex.Moves.{Reached, here, further, stepped}

onto-take : (n : ℕ) (ts before : Text) → onto (onto (take n ts) before) (drop n ts) ≡ onto before ts
onto-take zero ts before = refl
onto-take (suc n) [] before = refl
onto-take (suc n) (c ∷ cs) before = onto-take n cs (c ∷ before)

-- The newlines of a text.
unfoldable pub newlines : Text → ℕ
newlines [] = 0
newlines (c ∷ cs) = if c == 10 then newlines cs + 1 else newlines cs

newlines-onto : (ts before : Text) → newlines (onto ts before) ≡ newlines ts + newlines before
unfolding newlines
newlines-onto [] before = omega arith
newlines-onto (c ∷ cs) before = ground (arith, newlines-onto cs (c ∷ before))

length-onto : (ts before : Text) → length (onto ts before) ≡ length ts + length before
length-onto [] before = omega arith
length-onto (c ∷ cs) before = omega (arith, length-onto cs (c ∷ before))

length-take-drop : (n : ℕ) (ts : Text) → length (take n ts) + length (drop n ts) ≡ length ts
length-take-drop zero ts = omega arith
length-take-drop (suc n) [] = omega arith
length-take-drop (suc n) (c ∷ cs) = omega (arith, length-take-drop n cs)

le_or_lt : (a b : ℕ) → (a ≤ b) ⊎ (b < a)
le_or_lt a b = elim (Bool-cases (leb a b)) [
  | inl e ↦ inl (leb→le a b e)
  | inr e ↦ inr (not_le a b e)
]
  where
    not_le : (a b : ℕ) → leb a b ≡ false → b < a
    not_le a b = ground arith

abbrev newline_if : Bool → ℕ
newline_if b = if b then 1 else 0

not_newline : (r : ℕ) → 128 ≤ r → newline_if (r == 10) ≡ 0
not_newline r h = ground arith

module _ (c d e f : ℕ) (cs : Text) where
  abbrev Same : Text → Type 0
  Same ts = newlines (take (decode_rune ts).1 ts) ≡ newline_if ((decode_rune ts).0 == 10)

  newlines-ascii : c < 0x80 → Same (c ∷ d ∷ e ∷ f ∷ cs)
  unfolding newlines decode_rune
  newlines-ascii h = ground arith

  newlines-two : 0x80 ≤ c → c < 0xe0 → Same (c ∷ d ∷ e ∷ f ∷ cs)
  unfolding newlines decode_rune
  newlines-two h h' = ground arith

  newlines-three : 0xe0 ≤ c → c < 0xf0 → Same (c ∷ d ∷ e ∷ f ∷ cs)
  unfolding newlines decode_rune
  newlines-three h h' = ground arith

  abbrev valid : Bool
  valid = in_range (second_low c) (second_high c) d && in_range 0x80 0xbf e && in_range 0x80 0xbf f

  abbrev joined : ℕ
  joined = (c % 8) * 262144 + (d % 64) * 4096 + (e % 64) * 64 + f % 64

  bytes_high : valid ≡ true → (128 ≤ d) × (128 ≤ e) × (128 ≤ f)
  bytes_high h = (ground arith, ground arith, ground arith)

  joined_high : in_range 0xf0 0xf4 c ≡ true → valid ≡ true → 128 ≤ joined
  joined_high h h' = ground arith

  four_valid : valid ≡ true → decode_four c (d ∷ e ∷ f ∷ cs) ≡ (joined, 4)
  unfolding decode_four
  four_valid h = rw h refl

  four_invalid : valid ≡ false → decode_four c (d ∷ e ∷ f ∷ cs) ≡ invalid
  unfolding decode_four
  four_invalid h = rw h refl

  newlines_high : 128 ≤ c → 128 ≤ d → 128 ≤ e → 128 ≤ f → newlines (c ∷ d ∷ e ∷ f ∷ []) ≡ 0
  unfolding newlines
  newlines_high hc hd he hf = ground arith

  newlines_byte : 128 ≤ c → newlines (c ∷ []) ≡ 0
  unfolding newlines
  newlines_byte hc = ground arith

  abbrev SameBy : (p : ℕ × ℕ) → Type 0
  SameBy p = newlines (take p.1 (c ∷ d ∷ e ∷ f ∷ cs)) ≡ newline_if (p.0 == 10)

  same_joined : (r : ℕ) → 128 ≤ r → newlines (c ∷ d ∷ e ∷ f ∷ []) ≡ 0 → SameBy (r, 4)
  same_joined r h e = e ∙ sym (not_newline r h)

  newlines-more : 0xf0 ≤ c → Same (c ∷ d ∷ e ∷ f ∷ cs)
  newlines-more h =
      subst SameBy (sym (decode_rune-four c (d ∷ e ∷ f ∷ cs) h))
        (chosen (in_range 0xf0 0xf4 c) refl)
    where
      chosen :
          (b : Bool)
          → in_range 0xf0 0xf4 c ≡ b
          → SameBy (if b then decode_four c (d ∷ e ∷ f ∷ cs) else invalid)
      chosen false same = newlines_byte (omega arith)
      chosen true same = elim (Bool-cases valid) [
        | inr e ↦ subst SameBy (sym (four_invalid e)) (newlines_byte (omega arith))
        | inl e ↦
            let (hd, he, hf) = bytes_high e in
            subst SameBy (sym (four_valid e))
              (same_joined joined (joined_high same e) (newlines_high (omega arith) hd he hf))
      ]

  newlines-four : Same (c ∷ d ∷ e ∷ f ∷ cs)
  newlines-four = elim (le_or_lt 0x80 c) [
    | inr low ↦ newlines-ascii low
    | inl high ↦ elim (le_or_lt 0xe0 c) [
      | inr low ↦ newlines-two high low
      | inl high' ↦ elim (le_or_lt 0xf0 c) [
        | inr low ↦ newlines-three high' low
        | inl high'' ↦ newlines-more high''
      ]
    ]
  ]

-- The bytes of a rune have a newline exactly if it is one.
newlines-rune :
    (c : ℕ) (cs : Text)
    → newlines (take (decode_rune (c ∷ cs)).1 (c ∷ cs))
      ≡ newline_if ((decode_rune (c ∷ cs)).0 == 10)
unfolding newlines decode_rune
newlines-rune c [] = ground arith
newlines-rune c (d ∷ []) = ground arith
newlines-rune c (d ∷ e ∷ []) = ground arith
newlines-rune c (d ∷ e ∷ f ∷ cs) = newlines-four c d e f cs

utf16_length-skip : (n : ℕ) (ts : Text) → utf16_length n ts ≡ utf16_length 0 (drop n ts)
unfolding utf16_length
utf16_length-skip zero ts = refl
utf16_length-skip (suc n) [] = refl
utf16_length-skip (suc n) (c ∷ cs) = utf16_length-skip n cs

drop-rune : (w c : ℕ) (cs : Text) → 1 ≤ w → drop w (c ∷ cs) ≡ drop (w - 1) cs
drop-rune zero c cs h = absurd (omega arith)
drop-rune (suc w) c cs h = ap (λ n. drop n cs) (pred w)
  where
    pred : (w : ℕ) → w ≡ suc w - 1
    pred w = omega arith

utf16_length-rune :
    (c : ℕ) (cs : Text)
    → utf16_length 0 (c ∷ cs)
      ≡ (if ltb 0xffff (decode_rune (c ∷ cs)).0 then 2 else 1)
        + utf16_length 0 (drop (decode_rune (c ∷ cs)).1 (c ∷ cs))
unfolding utf16_length
utf16_length-rune c cs = ground (
  arith,
  utf16_length-skip ((decode_rune (c ∷ cs)).1 - 1) cs
      ∙ ap (utf16_length 0)
          (sym (drop-rune (decode_rune (c ∷ cs)).1 c cs (decode_rune_width c cs).0)),
)

-- The bytes before and ahead are the source, the line counts the newlines before, and the offset is
-- the UTF-16 length of the source less that of what is ahead.
pub record Placed (source : Text) (l : Lexer) : Type 0 where
  pub whole_source : onto l.before l.ahead ≡ source
  pub lines : l.line ≡ newlines l.before + 1
  pub offsets : l.utf16 + utf16_length 0 l.ahead ≡ utf16_length 0 source

Placed-stepped :
    (source : Text) (l : Lexer)
    → is_empty l.ahead ≡ false
    → Placed source l
    → Placed source (stepped l)
Placed-stepped source l live h = record {
  whole_source = onto-take (decode_rune l.ahead).1 l.ahead l.before ∙ h.whole_source;
  lines = moved_line l.ahead live l.line l.before h.lines;
  offsets = moved_offset l.ahead live l.utf16 ∙ h.offsets;
}
  where
    moved_line :
        (ts : Text)
        → is_empty ts ≡ false
        → (line : ℕ) (before : Text) → line ≡ newlines before + 1
        → (if (decode_rune ts).0 == 10 then line + 1 else line)
          ≡ newlines (onto (take (decode_rune ts).1 ts) before) + 1
    moved_line [] live line before same = absurd (true≢false live)
    moved_line (c ∷ cs) live line before same =
        ground
          (arith, newlines-onto (take (decode_rune (c ∷ cs)).1 (c ∷ cs)) before, newlines-rune c cs)

    moved_offset :
        (ts : Text)
        → is_empty ts ≡ false
        → (offset : ℕ)
        → (if ltb 0xffff (decode_rune ts).0 then offset + 2 else offset + 1)
            + utf16_length 0 (drop (decode_rune ts).1 ts)
          ≡ offset + utf16_length 0 ts
    moved_offset [] live offset = absurd (true≢false live)
    moved_offset (c ∷ cs) live offset = ground (arith, utf16_length-rune c cs)

pub Placed-Reached :
    (source : Text) (l l' : Lexer) → Placed source l → Reached l l' → Placed source l'
Placed-Reached source l _ h here = h
Placed-Reached source l _ h (further {l'} far live) =
    Placed-stepped source l' live (Placed-Reached source l l' h far)

pub Placed-lexer_on : (source : Text) → Placed source (lexer_on source)
unfolding newlines
Placed-lexer_on source = record { whole_source = refl; lines = refl; offsets = omega arith }

length-stepped :
    (n : ℕ) (ts before : Text)
    → length (onto (take n ts) before) + length (drop n ts) ≡ length before + length ts
length-stepped n ts before = omega (arith, length-onto (take n ts) before, length-take-drop n ts)

-- The bytes before and ahead together, which no step changes.
pub total-Reached :
    {l l' : Lexer}
    → Reached l l'
    → length l'.before + length l'.ahead ≡ length l.before + length l.ahead
total-Reached here = refl
total-Reached (further {l'} far live) =
    length-stepped (decode_rune l'.ahead).1 l'.ahead l'.before ∙ total-Reached far
