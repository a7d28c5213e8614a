-- ===== src/Ancestry/Parts.antt =====
-- internal/syntax/ancestry.go: the cases of `processAncestry`, `selectorAncestry` and
-- `binaryAncestry`, each with its calls of `processAncestry` on the parts as actions.
use jsonata_go.Prelude.{
  ℕ, Bool, true, false, ◌&&◌, ◌||◌, List, [], ◌∷◌, Option, none, some, Text, codes, ◌=ᵗ◌, ◌==◌,
  if◌then◌else◌,
}
use jsonata_go.Prelude.Int.{pos, ◌-ℤ◌, eqb_ℤ}
use jsonata_go.Prelude.Result.{ok, err}
use jsonata_go.Syntax.{Position}
use jsonata_go.Ancestry.{
  Kind, AncestryNode, ancestry_node, Steps, no_steps, add_step, no_last, last_is, panic, kind_of,
  position_of, steps_of, seeking_of, is_path, seek_parent, S, ◌>>=◌, pure, level_at, set_level,
  push_ancestry, resolve_ancestry, as_path, change_last_step,
}
use jsonata_go.Syntax.{
  TokenKind, Fields, no_fields, field, Node, absent, literal, array, object, binary_node,
  unary_node,
}

abbrev pub is_absent : Node → Bool
is_absent absent = true
is_absent _ = false

abbrev pub plain : Kind → Position → AncestryNode
plain k position = ancestry_node k position no_steps no_last none [] false

abbrev pub literal_kind : TokenKind → Kind
literal_kind TokenKind.string = Kind.string
literal_kind TokenKind.number = Kind.number
literal_kind TokenKind.regex = Kind.regex
literal_kind _ = Kind.value

-- One round of `processAncestryAll`: a node that is nil is passed over.
abbrev pub into : Node → S AncestryNode → AncestryNode → S AncestryNode
into n action result =
    if is_absent n then pure result else (action >>= λ part. pure (push_ancestry result part))

-- One round of `discardAncestry`.
abbrev pub discarding : Node → S AncestryNode → S (Unit {0})
discarding n action = if is_absent n then pure tt else (action >>= λ _. pure tt)

abbrev append_fields : Fields → Steps → Steps
append_fields no_fields steps = steps
append_fields (field text position fields) steps =
    append_fields fields (add_step steps (plain Kind.name position))

abbrev pub with_fields : Fields → Position → AncestryNode → AncestryNode
with_fields fields position base =
    ancestry_node Kind.path position (append_fields fields (steps_of (as_path base))) no_last none
      (seeking_of (as_path base)) false

abbrev pub with_last : AncestryNode → AncestryNode → AncestryNode
with_last part (ancestry_node k position steps last slot seeking focus) =
    ancestry_node k position steps (last_is part) slot seeking focus

abbrev is_number_literal : Node → Bool
is_number_literal (literal TokenKind.number val position) = true
is_number_literal _ = false

-- The case of Unary.
abbrev pub unary_ancestry : Text → Node → Position → S AncestryNode → S AncestryNode
unary_ancestry op operand position action =
    if is_number_literal operand && op =ᵗ codes "-"
    then pure (plain Kind.number position)
    else into operand action (plain Kind.unary position)

-- `lastStep(n)`
abbrev last_of : Steps → Option AncestryNode
last_of no_steps = none
last_of (add_step steps step) = some step

unfoldable pub last_step : AncestryNode → Option AncestryNode
last_step n = if is_path (kind_of n) then last_of (steps_of n) else some n

-- The loop over the slots that a predicate seeks.
unfoldable pub seek_slots : AncestryNode → List ℕ → S (Unit {0})
unfolding seek_parent
seek_slots step [] store = ok (tt, store)
seek_slots step (slot ∷ slots) store = elim (eqb_ℤ (level_at slot store) (pos 1)) [
  | true ↦ elim (seek_parent step (level_at slot store)) [
    | err failure ↦ err failure
    | ok level ↦ seek_slots step slots (set_level slot level store)
  ]
  | false ↦ seek_slots step slots (set_level slot (level_at slot store -ℤ pos 1) store)
]

abbrev seek_last_step : Option AncestryNode → List ℕ → S (Unit {0})
seek_last_step none slots = λ store. err panic
seek_last_step (some step) slots = seek_slots step slots

unfoldable pub selector_ancestry : Node → S AncestryNode → S AncestryNode → S AncestryNode
unfolding last_step seek_slots push_ancestry change_last_step
selector_ancestry index base_action index_action = base_action >>= λ result.
    if is_absent index
    then pure result
    else (index_action >>= λ predicate.
        seek_last_step (last_step result) (seeking_of predicate) >>= λ _.
        pure (change_last_step (λ step. push_ancestry step predicate) result))

abbrev set_focus : AncestryNode → AncestryNode
set_focus (ancestry_node k position steps last slot seeking focus) =
    ancestry_node k position steps last slot seeking true

abbrev add_last : AncestryNode → AncestryNode → AncestryNode
add_last step (ancestry_node k position steps last slot seeking focus) =
    ancestry_node k position (add_step steps step) last slot seeking focus

abbrev append_steps : Steps → Steps → Steps
append_steps before no_steps = before
append_steps before (add_step steps step) = add_step (append_steps before steps) step

abbrev with_steps : Steps → AncestryNode → AncestryNode
with_steps more (ancestry_node k position steps last slot seeking focus) =
    ancestry_node k position (append_steps steps more) last slot seeking focus

abbrev named_string : AncestryNode → AncestryNode
named_string (ancestry_node Kind.string position steps last slot seeking focus) =
    ancestry_node Kind.name position steps last slot seeking focus
named_string n = n

-- Whether the right side is an object that groups: it stands where the operator stands.
abbrev pub groups : Node → Position → Bool
groups (object pairs at) position = at.offset == position.offset
groups _ position = false

abbrev is_nested_path : Node → Bool
is_nested_path (binary_node op left right position) = op =ᵗ codes "."
is_nested_path _ = false

abbrev wrapped : Node → AncestryNode → AncestryNode
wrapped right part =
    if is_nested_path right
    then push_ancestry
        (ancestry_node Kind.block (position_of part) no_steps (last_is part) none [] false) part
    else part

abbrev extended : AncestryNode → AncestryNode → AncestryNode
extended result part =
    if is_path (kind_of part)
    then with_steps (steps_of part) result
    else add_last (named_string part) result

unfoldable pub path_ancestry :
    Node → Position → S AncestryNode → S AncestryNode → S (Unit {0}) → S AncestryNode
unfolding as_path push_ancestry resolve_ancestry ◌=ᵗ◌
path_ancestry right position left_action right_action discard_pairs = left_action >>= λ left.
    if groups right position
    then (discard_pairs >>= λ _. pure (as_path left))
    else (right_action >>= λ part. resolve_ancestry (extended (as_path left) (wrapped right part)))

abbrev pub is_order : Text → Bool
is_order op = op =ᵗ codes "<" || op =ᵗ codes ">"

-- Whether the terms of `^` are read off the right side, or it is the one term itself.
abbrev has_terms : Node → Bool
has_terms (array items flatten position) = true
has_terms (unary_node op operand position) = is_order op
has_terms _ = false

abbrev sort_ancestry :
    Node
    → Position
    → S AncestryNode
    → S AncestryNode
    → (AncestryNode → S AncestryNode)
    → S AncestryNode
sort_ancestry right position left_action right_action terms = left_action >>= λ left.
    (if has_terms right
      then terms (plain Kind.sort position)
      else into right right_action (plain Kind.sort position))
    >>= λ sort_step. resolve_ancestry (add_last sort_step (as_path left))

abbrev both_sides : Kind → Node → Node → Position → S AncestryNode → S AncestryNode → S AncestryNode
both_sides k left right position left_action right_action =
    into left left_action (plain k position) >>= into right right_action

unfoldable pub binary_ancestry :
    Text
    → Node
    → Node
    → Position
    → S AncestryNode
    → S AncestryNode
    → (AncestryNode → S AncestryNode)
    → S (Unit {0})
    → S AncestryNode
unfolding path_ancestry change_last_step as_path push_ancestry resolve_ancestry ◌=ᵗ◌
binary_ancestry op left right position left_action right_action terms discard_pairs =
    if op =ᵗ codes "."
    then path_ancestry right position left_action right_action discard_pairs
    else if op =ᵗ codes "@"
    then (left_action >>= λ result. pure (change_last_step set_focus result))
    else if op =ᵗ codes "#"
    then (left_action >>= λ result. pure (as_path result))
    else if op =ᵗ codes "^"
    then sort_ancestry right position left_action right_action terms
    else if op =ᵗ codes "?" || op =ᵗ codes "?:" || op =ᵗ codes "??"
    then both_sides Kind.condition left right position left_action right_action
    else both_sides Kind.binary left right position left_action right_action
