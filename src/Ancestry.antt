-- ===== src/Ancestry.antt =====
-- internal/syntax/ancestry.go: which uses of the parent operator `%` can be resolved.
-- A slot is a number of the store, which holds the levels: the Go code shares a slot by its address
-- between all the lists that seek it. A node is shared by nobody else at the time when it is
-- changed, so a change gives a new node. Steps are a list to which the last step is added, since both
-- loops go from the last step to the first. The message of an error is left out.
pub mod Parts
pub mod Process
pub mod Climb
pub mod Chain
use jsonata_go.Prelude.{
  ℕ, zero, suc, ◌+◌, Bool, true, false, ◌&&◌, ◌||◌, List, [], ◌∷◌, ◌++◌, Option, none, some, Text,
  if◌then◌else◌, length,
}
use jsonata_go.Syntax.{Position}
use jsonata_go.Prelude.Int.{ℤ, pos, ◌+ℤ◌, ◌-ℤ◌, ltb_ℤ}
use jsonata_go.Prelude.Result.{Result, ok, err}

pub data Kind : Type 0 where
  name wildcard descendant parent variable string number regex value : Kind
  path block unary function lambda transform apply bind operator : Kind
  sort condition binary : Kind

-- The fields of `ancestryNode` in the order of the source; the steps are of the same type.
mutual
  pub data AncestryNode : Type 0 where
    ancestry_node : Kind → Position → Steps → Last → Option ℕ → List ℕ → Bool → AncestryNode

  pub data Steps : Type 0 where
    no_steps : Steps
    add_step : Steps → AncestryNode → Steps

  pub data Last : Type 0 where
    no_last : Last
    last_is : AncestryNode → Last

-- An `ancestryError`, or the panic of an index that is out of range.
pub data Failure : Type 0 where
  unresolved : Kind → Position → Failure
  panic : Failure

abbrev pub kind_of : AncestryNode → Kind
kind_of (ancestry_node k position steps last slot seeking focus) = k

abbrev pub position_of : AncestryNode → Position
position_of (ancestry_node k position steps last slot seeking focus) = position

abbrev pub steps_of : AncestryNode → Steps
steps_of (ancestry_node k position steps last slot seeking focus) = steps

abbrev pub slot_of : AncestryNode → Option ℕ
slot_of (ancestry_node k position steps last slot seeking focus) = slot

abbrev pub seeking_of : AncestryNode → List ℕ
seeking_of (ancestry_node k position steps last slot seeking focus) = seeking

abbrev pub focus_of : AncestryNode → Bool
focus_of (ancestry_node k position steps last slot seeking focus) = focus

abbrev pub is_parent : Kind → Bool
is_parent parent = true
is_parent _ = false

abbrev pub is_path : Kind → Bool
is_path path = true
is_path _ = false

abbrev pub is_positive : ℤ → Bool
is_positive level = ltb_ℤ (pos 0) level

abbrev pub continue_with : Result Failure ℤ → (ℤ → Result Failure ℤ) → Result Failure ℤ
continue_with (err e) loop = err e
continue_with (ok level) loop = loop level

-- `seekParent` on the level of the slot that it is given; `seek_last` is the case of a path and
-- `seek_before` its loop.
unfoldable mutual
  pub seek_parent : AncestryNode → ℤ → Result Failure ℤ
  seek_parent (ancestry_node name position steps last slot seeking focus) level =
      ok (level -ℤ pos 1)
  seek_parent (ancestry_node wildcard position steps last slot seeking focus) level =
      ok (level -ℤ pos 1)
  seek_parent (ancestry_node parent position steps last slot seeking focus) level =
      ok (level +ℤ pos 1)
  seek_parent (ancestry_node block position steps last slot seeking focus) level =
      seek_block last level
  seek_parent (ancestry_node path position steps last slot seeking focus) level =
      seek_last steps level
  seek_parent (ancestry_node k position steps last slot seeking focus) level =
      err (unresolved k position)

  pub seek_block : Last → ℤ → Result Failure ℤ
  seek_block no_last level = ok level
  seek_block (last_is node) level = seek_parent node level

  pub seek_last : Steps → ℤ → Result Failure ℤ
  seek_last no_steps level = err panic
  seek_last (add_step steps step) level = continue_with (seek_parent step level) (seek_before steps)

  pub seek_before : Steps → ℤ → Result Failure ℤ
  seek_before no_steps level = ok level
  seek_before (add_step steps step) level = elim (is_positive level) [
    | true ↦ continue_with (seek_parent step level) (seek_before steps)
    | false ↦ ok level
  ]

-- The state of the computation is the levels of the slots.
abbrev pub Store : Type 0
Store = List ℤ

abbrev pub S : Type 0 → Type 0
S A = Store → Result Failure (A × Store)

module _ {A B : Type 0} where
  -- The first failure ends a computation.
  infixl 5 ◌>>=◌
  abbrev pub ◌>>=◌ : S A → (A → S B) → S B
  ◌>>=◌ action then_do store = elim (action store) [
    | err failure ↦ err failure
    | ok (a, changed) ↦ then_do a changed
  ]

abbrev pub pure : {A : Type 0} → A → S A
pure a store = ok (a, store)

abbrev pub level_at : ℕ → Store → ℤ
level_at slot [] = pos 0
level_at zero (level ∷ levels) = level
level_at (suc slot) (level ∷ levels) = level_at slot levels

abbrev pub set_level : ℕ → ℤ → Store → Store
set_level slot new [] = []
set_level zero new (level ∷ levels) = new ∷ levels
set_level (suc slot) new (level ∷ levels) = level ∷ set_level slot new levels

-- `&ancestorSlot{level: 1}`
abbrev pub new_slot : S ℕ
new_slot store = ok (length store, store ++ pos 1 ∷ [])

abbrev pub slot_list : Option ℕ → List ℕ
slot_list none = []
slot_list (some slot) = slot ∷ []

-- The slots that a node asks for: those it seeks, and its own if it is a `%`.
abbrev pub asked : AncestryNode → List ℕ
asked node = seeking_of node ++ (if is_parent (kind_of node) then slot_list (slot_of node) else [])

abbrev pub seek_more : List ℕ → AncestryNode → AncestryNode
seek_more slots (ancestry_node k position steps last slot seeking focus) =
    ancestry_node k position steps last slot (seeking ++ slots) focus

unfoldable pub push_ancestry : AncestryNode → AncestryNode → AncestryNode
push_ancestry result part = seek_more (asked part) result

-- The loop of `resolveAncestry` on the level of one slot: the level, and whether it ran out of steps.
-- `climb_from` has taken a step and looks at those before it: the one it will ask is the first of a
-- run of steps with a focus.
unfoldable pub climb_from : AncestryNode → Steps → ℤ → Result Failure (ℤ × Bool)
unfolding seek_parent
climb_from step no_steps level = elim (seek_parent step level) [
  | err failure ↦ err failure
  | ok found ↦ ok (found, is_positive found)
]
climb_from step (add_step steps before) level = elim (focus_of step && focus_of before) [
  | true ↦ climb_from before steps level
  | false ↦ elim (seek_parent step level) [
    | err failure ↦ err failure
    | ok found ↦ elim (is_positive found) [
      | true ↦ climb_from before steps found
      | false ↦ ok (found, false)
    ]
  ]
]

unfoldable pub climb : Steps → ℤ → Result Failure (ℤ × Bool)
unfolding climb_from
climb no_steps level = ok (level, is_positive level)
climb (add_step steps step) level =
    if is_positive level then climb_from step steps level else ok (level, false)

-- What a slot's round of the loop in `resolveAncestry` does with the level that it ends at.
abbrev pub settle :
    ℕ → S (List ℕ) → Store → Result Failure (ℤ × Bool) → Result Failure (List ℕ × Store)
settle slot others store (err failure) = err failure
settle slot others store (ok (level, is_open)) =
    (others >>= λ rest. pure (if is_open then slot ∷ rest else rest)) (set_level slot level store)

-- The loop over the slots: those that are left to seek.
unfoldable pub resolve_slots : Steps → List ℕ → S (List ℕ)
unfolding climb
resolve_slots before [] store = ok ([], store)
resolve_slots before (slot ∷ slots) store =
    settle slot (resolve_slots before slots) store (climb before (level_at slot store))

abbrev resolve_steps : AncestryNode → Steps → S AncestryNode
resolve_steps node no_steps = λ store. err panic
resolve_steps node (add_step before last) =
    resolve_slots before (asked last) >>= λ left. pure (seek_more left node)

unfoldable pub resolve_ancestry : AncestryNode → S AncestryNode
unfolding resolve_slots
resolve_ancestry node = resolve_steps node (steps_of node)

unfoldable pub as_path : AncestryNode → AncestryNode
as_path (ancestry_node path position steps last slot seeking focus) =
    ancestry_node path position steps last slot seeking focus
as_path node =
    ancestry_node path (position_of node) (add_step no_steps node) no_last none
      (if is_parent (kind_of node) then slot_list (slot_of node) else []) false

-- `lastStep`, and the change that its caller makes to it.
abbrev change_last : (AncestryNode → AncestryNode) → Steps → Steps
change_last change no_steps = no_steps
change_last change (add_step steps step) = add_step steps (change step)

unfoldable pub change_last_step : (AncestryNode → AncestryNode) → AncestryNode → AncestryNode
change_last_step change (ancestry_node path position steps last slot seeking focus) =
    ancestry_node path position (change_last change steps) last slot seeking focus
change_last_step change node = change node
