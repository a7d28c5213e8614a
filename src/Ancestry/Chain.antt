-- ===== src/Ancestry/Chain.antt =====
-- internal/syntax/ancestry.go: which paths of names and `%` are accepted.
use jsonata_go.Prelude.{ℕ, ◌≡◌, false, List, [], ◌++◌, none, some, Text, is_some}
use jsonata_go.Prelude.Result.{Result, ok, err}
use jsonata_go.Ancestry.{
  Position, Kind, AncestryNode, ancestry_node, Steps, no_steps, no_last, Failure, Store,
}
use jsonata_go.Ancestry.Process.{process_ancestry, is_empty}
use jsonata_go.Ancestry.Climb.{Move, chain, walk, Matches}

-- What a path over moves becomes: its steps are the moves, and it seeks no slot exactly if the walk
-- never goes above the start.
abbrev Reaches : Text → Position → List Move → Store → Type 0
Reaches text start ms store =
    (steps : Steps) × (seeking : List ℕ) × (changed : Store) × (process_ancestry
        (chain text start ms) store
      ≡ ok (ancestry_node Kind.path start steps no_last none seeking false, changed))
    × Matches start ms steps
    × (is_empty seeking ≡ is_some (walk ms))

abbrev slot_node : Position → ℕ → AncestryNode
slot_node position slot = ancestry_node Kind.parent position no_steps no_last (some slot) [] false

abbrev sought :
    Position
    → Steps
    → List ℕ
    → Result Failure (List ℕ × Store)
    → Result Failure (AncestryNode × Store)
sought start steps seeking (err failure) = err failure
sought start steps seeking (ok (left, store)) =
    ok (ancestry_node Kind.path start steps no_last none (seeking ++ left) false, store)
