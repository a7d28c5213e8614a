-- ===== src/Ancestry/Climb.antt =====
-- internal/syntax/ancestry.go: paths of names and `%`.
use jsonata_go.Prelude.{
  ◌==◌, ℕ, zero, suc, ◌+◌, ◌-◌, ◌≡◌, refl, ◌∙◌, Bool, true, false, List, [], ◌∷◌, Option, none,
  some, Text, codes, ltb, if◌then◌else◌, arith, Option-cases, Bool-cases, inl, inr, ◌>>=◌,
}
use jsonata_go.Prelude.Int.{ℤ, pos, ◌+ℤ◌, ◌-ℤ◌}
use jsonata_go.Prelude.Result.{ok}
use jsonata_go.Syntax.{Position}
use jsonata_go.Ancestry.{
  Kind, AncestryNode, ancestry_node, Steps, no_steps, add_step, no_last, focus_of, is_positive,
  seek_parent, climb_from, climb,
}
use jsonata_go.Syntax.{Node, name_node, parent_node, binary_node}
use jsonata_go.Ancestry.Parts.{plain}

-- A step of a path: a name or `%`.
pub data Move : Type 0 where
  down : Text → Position → Move
  up : Position → Move

abbrev pub step_of : Move → Node
step_of (down text position) = name_node text position
step_of (up position) = parent_node position

-- The path from a name over some moves, the last of which stands first.
abbrev pub chain : Text → Position → List Move → Node
chain text start [] = name_node text start
chain text start (m ∷ ms) = binary_node (codes ".") (chain text start ms) (step_of m) start

-- How deep a path of names and `%` ends, unless it goes above its start: a name goes down and `%` up.
abbrev pub walk : List Move → Option ℕ
walk [] = some 1
walk (down text position ∷ ms) = walk ms >>= λ depth. some (depth + 1)
walk (up position ∷ ms) = walk ms >>= λ depth. if depth == 0 then none else some (depth - 1)

-- Whether a slot of a level finds too few steps.
abbrev pub stuck : ℕ → List Move → Bool
stuck zero ms = false
stuck (suc zero) [] = false
stuck (suc (suc k)) [] = true
stuck (suc k) (down text position ∷ ms) = stuck k ms
stuck (suc k) (up position ∷ ms) = stuck (suc (suc k)) ms

pub stuck-walk : (ms : List Move) (k depth : ℕ) → walk ms ≡ some depth → stuck k ms ≡ ltb depth k
stuck-walk [] zero depth h = ground arith
stuck-walk [] (suc zero) depth h = ground arith
stuck-walk [] (suc (suc k)) depth h = ground arith
stuck-walk (m ∷ ms) zero depth h = ground arith
stuck-walk (down text position ∷ ms) (suc k) depth h = elim (Option-cases (walk ms)) [
  | inl e ↦ ground arith
  | inr (d, e) ↦ stuck-walk ms k d e ∙ ground arith
]
stuck-walk (up position ∷ ms) (suc k) depth h = elim (Option-cases (walk ms)) [
  | inl e ↦ ground arith
  | inr (d, e) ↦ stuck-walk ms (suc (suc k)) d e ∙ ground arith
]

-- The steps that the moves leave in a path.
abbrev pub Matches : Position → List Move → Steps → Type 0
Matches start [] steps = steps ≡ add_step no_steps (plain Kind.name start)
Matches start (down text position ∷ ms) steps =
    (before : Steps) × (steps ≡ add_step before (plain Kind.name position))
    × Matches start ms before
Matches start (up position ∷ ms) steps =
    (before : Steps) × (slot : ℕ) × (steps
      ≡ add_step before (ancestry_node Kind.parent position no_steps no_last (some slot) [] false))
    × Matches start ms before

climb_zero : (steps : Steps) → climb steps (pos 0) ≡ ok (pos 0, false)
unfolding climb
climb_zero no_steps = refl
climb_zero (add_step steps step) = refl

climb_plain :
    (step : AncestryNode) (steps : Steps) (level found : ℤ)
    → focus_of step ≡ false
    → seek_parent step level ≡ ok found
    → climb_from step steps level ≡ climb steps found
unfolding climb
climb_plain step no_steps level found f e = rw (e, climb_from) refl
climb_plain step (add_step steps before) level found f e =
    rw (f, e, climb_from)
      (elim (Bool-cases (is_positive found)) [ inl p ↦ rw p refl | inr p ↦ rw p refl ])

climb_from-suc :
    (step : AncestryNode) (steps : Steps) (k : ℕ)
    → climb (add_step steps step) (pos (suc k)) ≡ climb_from step steps (pos (suc k))
unfolding climb
climb_from-suc step steps k = ground arith

climb_name :
    (steps : Steps) (position : Position) (k : ℕ)
    → climb (add_step steps (plain Kind.name position)) (pos (suc k)) ≡ climb steps (pos k)
climb_name steps position k =
    climb_from-suc (plain Kind.name position) steps k
    ∙ climb_plain (plain Kind.name position) steps (pos (suc k)) (pos k) refl
        (unfold seek_parent ◌-ℤ◌ in ground arith)

climb_up :
    (steps : Steps) (position : Position) (slot k : ℕ)
    → climb
        (add_step steps (ancestry_node Kind.parent position no_steps no_last (some slot) [] false))
        (pos (suc k))
      ≡ climb steps (pos (suc (suc k)))
climb_up steps position slot k =
    climb_from-suc (ancestry_node Kind.parent position no_steps no_last (some slot) [] false) steps
      k
    ∙ climb_plain (ancestry_node Kind.parent position no_steps no_last (some slot) [] false) steps
        (pos (suc k)) (pos (suc (suc k))) refl (unfold seek_parent ◌+ℤ◌ in ground arith)

-- A slot goes through the steps without a failure, and it is left to seek if it finds too few.
pub climb_moves :
    (start : Position) (ms : List Move) (steps : Steps) (k : ℕ)
    → Matches start ms steps
    → (level : ℤ) × (climb steps (pos k) ≡ ok (level, stuck k ms))
climb_moves start ms steps zero m = (pos 0, climb_zero steps)
climb_moves start [] steps (suc zero) m =
    (pos 0, rw m (climb_name no_steps start 0 ∙ climb_zero no_steps))
climb_moves start [] steps (suc (suc k)) m =
    (pos (suc k), rw m (climb_name no_steps start (suc k) ∙ (unfold climb in ground arith)))
climb_moves start (down text position ∷ ms) steps (suc k) (before, e, m) =
    let (level, h) = climb_moves start ms before k m in
    (level, rw e (climb_name before position k ∙ h))
climb_moves start (up position ∷ ms) steps (suc k) (before, slot, e, m) =
    let (level, h) = climb_moves start ms before (suc (suc k)) m in
    (level, rw e (climb_up before position slot k ∙ h))
