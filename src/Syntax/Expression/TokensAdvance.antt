-- ===== src/Syntax/Expression/TokensAdvance.antt =====
-- internal/syntax/lexer.go: the parts of `expression` keep within their fuel, if expressions do; part.
use jsonata_go.Prelude.{
  ℕ, suc, ◌+◌, ◌≤◌, refl, Bool, true, false, List, [], ◌∷◌, none, some, arith, length, Option,
  if◌then◌else◌,
}
use jsonata_go.Syntax.{Token, Variable, ParseError, Position, Nodes, no_nodes, one_node}
use jsonata_go.Syntax.State.{
  P, Parser, Outcome, done, failed, out_of_fuel, ◌>>=◌, when◌then◌else◌, pure, fail_with,
}
use jsonata_go.Syntax.Signature.{
  read_tokens, read_to_close, signature_text, read_signature, parameters_of,
}
use jsonata_go.Syntax.Items.{optional_signature}
use jsonata_go.Syntax.Within.{
  Within, Advances, At, Live, Advances-failed, At-of, At-when, Advances-bind, At-bind,
  Advances-peek, At-take, Advances-pure,
}
use jsonata_go.Syntax.Advance.{is_op-Live}

-- What `read_tokens` leaves is no longer than what it reads.
data Leaves (n : ℕ) : Outcome (Token × List Token × List Token) → Type 0 where
  leaves :
      {last : Token} {behind ahead : List Token}
      → length ahead ≤ n
      → Leaves n (done (last, behind, ahead))
  nothing_left : {e : ParseError} → Leaves n (failed e)

Leaves-if :
    {n : ℕ} {x y : Outcome (Token × List Token × List Token)} (b : Bool)
    → Leaves n x
    → Leaves n y
    → Leaves n (if b then x else y)
Leaves-if true hx hy = hx
Leaves-if false hx hy = hy

Leaves-suc : {n : ℕ} {r : Outcome (Token × List Token × List Token)} → Leaves n r → Leaves (suc n) r
Leaves-suc (leaves h) = leaves (omega arith)
Leaves-suc nothing_left = nothing_left

read_tokens-Leaves :
    (ts behind : List Token) (depth : ℕ) → Leaves (length ts) (read_tokens depth behind ts)
unfolding read_tokens
read_tokens-Leaves [] behind depth = nothing_left
read_tokens-Leaves (t ∷ ts) behind depth =
    Leaves-if _ nothing_left
      (Leaves-if _ (leaves (omega arith)) (Leaves-suc (read_tokens-Leaves ts (t ∷ behind) _)))

read_to_close-Advances : {d n : ℕ} → Advances d n 0 read_to_close
unfolding read_to_close
read_to_close-Advances = record {
  steps = λ s e l. leaving s (read_tokens-Leaves s.ahead s.behind 1);
}
  where
    leaving :
        (s : Parser) {r : Outcome (Token × List Token × List Token)}
        → Leaves (length s.ahead) r
        → Within 0 s (elim r [
          | done (last, behind, ahead) ↦ done (last, record s { behind = behind; ahead = ahead })
          | failed e ↦ failed e
          | out_of_fuel ↦ out_of_fuel
        ])
    leaving s (leaves h) = (omega arith, refl)
    leaving s nothing_left = tt

signature_text-Advances :
    {d n : ℕ} (first last : Token) → Advances d n 0 (signature_text first last)
unfolding signature_text
signature_text-Advances first last = record { steps = λ s e l. ground arith }

read_signature-At : {d n : ℕ} {t : Token} → Live t → At t d n 0 read_signature
unfolding read_signature
read_signature-At live =
    At-bind (At-take live) (λ _ first.
      Advances-bind read_to_close-Advances (λ _ last. signature_text-Advances first last))

pub optional_signature-Advances : {d n : ℕ} → Advances d n 0 optional_signature
unfolding optional_signature
optional_signature-Advances =
    Advances-peek (λ t. At-when _ (λ h. read_signature-At (is_op-Live t _ h)) (At-of Advances-pure))

pub parameters_of-Advances :
    {d n : ℕ} (i : ℕ) (position : Position) (arguments : Nodes)
    → Advances d n 0 (parameters_of i position arguments)
unfolding parameters_of
parameters_of-Advances i position no_nodes = Advances-pure
parameters_of-Advances {d} {n} i position (one_node item rest) =
    choose _ _ (parameters_of-Advances (i + 1) position rest)
  where
    choose :
        (o : Option Variable) (e : ParseError) {m : P (List Variable)}
        → Advances d n 0 m
        → Advances {A = List Variable} d n 0
            (elim o [ none ↦ fail_with e | some v ↦ m >>= λ vs. pure (v ∷ vs) ])
    choose none e h = Advances-failed
    choose (some v) e h = Advances-bind h (λ _ vs. Advances-pure)
