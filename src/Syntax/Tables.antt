-- ===== src/Syntax/Tables.antt =====
-- internal/syntax/lexer.go: the table of operators, and what the parser asks of expressions.
use jsonata_go.Prelude.{
  ℕ, Bool, true, false, not, ◌&&◌, ◌||◌, [], Option, none, some, Text, codes, ◌=ᵗ◌, if◌then◌else◌,
}
use jsonata_go.Syntax.{
  Position, VariableKind, Node, absent, literal, variable_node, array, block_node, object,
  binary_node, bind_node, apply_node, unary_node, selector, parent_node, call, lambda_node, Nodes,
  no_nodes, one_node, Pairs, no_pairs, pair,
}

-- The binding power, and whether the operator groups to the right. `none` is a power of -1.
unfoldable pub precedence : Text → Option (ℕ × Bool)
unfolding ◌=ᵗ◌
precedence op =
    if op =ᵗ codes ";"
    then some (1, false)
    else if op =ᵗ codes ":="
    then some (1, true)
    else if op =ᵗ codes "?" || op =ᵗ codes "?:"
    then some (2, true)
    else if op =ᵗ codes "??"
    then some (3, true)
    else if op =ᵗ codes "or"
    then some (5, false)
    else if op =ᵗ codes "and"
    then some (6, false)
    else if op =ᵗ codes "="
        || op =ᵗ codes "!="
        || op =ᵗ codes "<"
        || op =ᵗ codes "<="
        || op =ᵗ codes ">"
        || op =ᵗ codes ">="
        || op =ᵗ codes "in"
        || op =ᵗ codes "~>"
    then some (7, false)
    else if op =ᵗ codes "&"
    then some (8, false)
    else if op =ᵗ codes ".."
    then some (9, false)
    else if op =ᵗ codes "+" || op =ᵗ codes "-"
    then some (10, false)
    else if op =ᵗ codes "*" || op =ᵗ codes "/" || op =ᵗ codes "%"
    then some (11, false)
    else if op =ᵗ codes "^"
    then some (12, true)
    else if op =ᵗ codes "@"
    then some (13, false)
    else none

unfoldable pub variable_kind : Text → VariableKind
unfolding ◌=ᵗ◌
variable_kind name =
    if name =ᵗ codes "$"
    then VariableKind.focus
    else if name =ᵗ codes "$$"
    then VariableKind.root
    else VariableKind.named

-- `variableNode`
abbrev pub variable_named : Text → Position → Node
variable_named name position =
    variable_node (record { name = name; kind = variable_kind name; position = position })

abbrev pub is_named : VariableKind → Bool
is_named VariableKind.named = true
is_named _ = false

unfoldable pub assignable : Node → Bool
unfolding ◌=ᵗ◌
assignable (variable_node v) = is_named v.kind && not (v.name =ᵗ [])
assignable _ = false

unfoldable pub binds_path_variable : Node → Bool
unfolding ◌=ᵗ◌
binds_path_variable (binary_node op left right position) =
    if op =ᵗ codes "@" || op =ᵗ codes "#"
    then true
    else if op =ᵗ codes "." || op =ᵗ codes "^"
    then binds_path_variable right || binds_path_variable left
    else false
binds_path_variable (selector base index position) = binds_path_variable base
binds_path_variable _ = false

abbrev pub is_object : Node → Bool
is_object (object pairs position) = true
is_object _ = false

unfoldable pub grouping_step : Node → Bool
unfolding ◌=ᵗ◌
grouping_step (binary_node op left right position) =
    if op =ᵗ codes "."
    then is_object right || (grouping_step left || grouping_step right)
    else false
grouping_step _ = false

abbrev pub is_absent : Node → Bool
is_absent absent = true
is_absent _ = false

abbrev pub is_literal : Node → Bool
is_literal (literal kind val position) = true
is_literal _ = false

-- `containsParent`
unfoldable mutual
  pub contains_parent : Node → Bool
  contains_parent (parent_node position) = true
  contains_parent (binary_node op left right position) =
      contains_parent left || contains_parent right
  contains_parent (selector base index position) = contains_parent base || contains_parent index
  contains_parent (array items flatten position) = contains_parent_nodes items
  contains_parent (block_node items position) = contains_parent_nodes items
  contains_parent (object pairs position) = contains_parent_pairs pairs
  contains_parent (unary_node op operand position) = contains_parent operand
  contains_parent (call function arguments partial grouped position) =
      contains_parent function || contains_parent_nodes arguments
  contains_parent (lambda_node params signature body position) = contains_parent body
  contains_parent (apply_node left right position) = contains_parent left || contains_parent right
  contains_parent (bind_node variable bound position) = contains_parent bound
  contains_parent _ = false

  pub contains_parent_nodes : Nodes → Bool
  contains_parent_nodes no_nodes = false
  contains_parent_nodes (one_node n rest) = contains_parent n || contains_parent_nodes rest

  pub contains_parent_pairs : Pairs → Bool
  contains_parent_pairs no_pairs = false
  contains_parent_pairs (pair text key val position rest) =
      (contains_parent key || contains_parent val) || contains_parent_pairs rest
