-- ===== src/Ancestry/Process.antt =====
-- internal/syntax/ancestry.go: `processAncestry` and `checkAncestry`.
use jsonata_go.Prelude.{
  ℕ, ◌+◌, Bool, true, false, not, ◌||◌, List, [], ◌∷◌, none, some, ◌=ᵗ◌, if◌then◌else◌,
}
use jsonata_go.Prelude.Result.{Result, ok, err}
use jsonata_go.Syntax.{no_position, Position}
use jsonata_go.Ancestry.{
  Kind, AncestryNode, ancestry_node, no_steps, add_step, no_last, Failure, unresolved, panic,
  kind_of, position_of, seeking_of, is_parent, Store, S, ◌>>=◌, pure, new_slot, push_ancestry,
  as_path,
}
use jsonata_go.Syntax.{
  Node, absent, literal, name_node, variable_node, path_node, array, block_node, object,
  binary_node, bind_node, apply_node, unary_node, selector, wildcard_node, parent_node,
  transform_node, call, placeholder, lambda_node, Nodes, no_nodes, one_node, Pairs, no_pairs, pair,
}
use jsonata_go.Ancestry.Parts.{
  plain, literal_kind, into, discarding, with_fields, with_last, unary_ancestry, selector_ancestry,
  is_order, binary_ancestry,
}

-- `processAncestry`; the lists of its parts are gone through by the functions behind it. The object
-- of a path that groups is only discarded, and so are the parts of a call that are not arguments.
unfoldable mutual
  unfolding selector_ancestry binary_ancestry push_ancestry as_path ◌=ᵗ◌

  pub process_ancestry : Node → S AncestryNode
  process_ancestry absent = pure (plain Kind.operator no_position)
  process_ancestry (literal k val position) = pure (plain (literal_kind k) position)
  process_ancestry (name_node text position) = pure (
      ancestry_node Kind.path position (add_step no_steps (plain Kind.name position)) no_last none
        [] false)
  process_ancestry (variable_node variable) = pure (plain Kind.variable variable.position)
  process_ancestry (path_node base fields position) =
      process_ancestry base >>= λ part. pure (with_fields fields position part)
  process_ancestry (array items flatten position) = process_all items (plain Kind.unary position)
  process_ancestry (block_node items position) = process_block items (plain Kind.block position)
  process_ancestry (object pairs position) = process_pairs pairs (plain Kind.unary position)
  process_ancestry (binary_node op left right position) =
      binary_ancestry op left right position (process_ancestry left) (process_ancestry right)
        (process_terms_of right) (discard_pairs_of right)
  process_ancestry (bind_node variable bound position) =
      into bound (process_ancestry bound) (plain Kind.bind position)
  process_ancestry (apply_node left right position) =
      discarding left (process_ancestry left) >>= λ _.
      discarding right (process_ancestry right) >>= λ _. pure (plain Kind.apply position)
  process_ancestry (unary_node op operand position) =
      unary_ancestry op operand position (process_ancestry operand)
  process_ancestry (selector base index position) =
      selector_ancestry index (process_ancestry base) (process_ancestry index)
  process_ancestry (wildcard_node recursive position) =
      pure (plain (if recursive then Kind.descendant else Kind.wildcard) position)
  process_ancestry (parent_node position) = new_slot >>= λ slot.
      pure (ancestry_node Kind.parent position no_steps no_last (some slot) [] false)
  process_ancestry (transform_node path update delete position) =
      discarding path (process_ancestry path) >>= λ _.
      discarding update (process_ancestry update) >>= λ _.
      discarding delete (process_ancestry delete) >>= λ _. pure (plain Kind.transform position)
  process_ancestry (call function arguments partial grouped position) =
      process_all arguments (plain Kind.function position) >>= λ result.
      discarding function (process_ancestry function) >>= λ _. pure result
  process_ancestry (placeholder position) = pure (plain Kind.operator no_position)
  process_ancestry (lambda_node params signature body position) =
      discarding body (process_ancestry body) >>= λ _. pure (plain Kind.lambda position)

  pub process_all : Nodes → AncestryNode → S AncestryNode
  process_all no_nodes result = pure result
  process_all (one_node n rest) result = into n (process_ancestry n) result >>= process_all rest

  pub process_block : Nodes → AncestryNode → S AncestryNode
  process_block no_nodes result = pure result
  process_block (one_node n rest) result =
      process_ancestry n >>= λ part. process_block rest (with_last part (push_ancestry result part))

  pub process_pairs : Pairs → AncestryNode → S AncestryNode
  process_pairs no_pairs result = pure result
  process_pairs (pair text key val at rest) result =
      into key (process_ancestry key) result >>= λ keyed.
      into val (process_ancestry val) keyed >>= process_pairs rest

  pub process_terms_of : Node → AncestryNode → S AncestryNode
  process_terms_of (array items flatten position) result = process_terms items result
  process_terms_of (unary_node op operand position) result =
      into operand (process_ancestry operand) result
  process_terms_of _ result = pure result

  pub process_terms : Nodes → AncestryNode → S AncestryNode
  process_terms no_nodes result = pure result
  process_terms (one_node (unary_node op operand position) rest) result =
      (if is_order op
        then into operand (process_ancestry operand) result
        else into (unary_node op operand position)
            (unary_ancestry op operand position (process_ancestry operand)) result)
      >>= process_terms rest
  process_terms (one_node n rest) result = into n (process_ancestry n) result >>= process_terms rest

  pub discard_pairs_of : Node → S (Unit {0})
  discard_pairs_of (object pairs position) = discard_pairs pairs
  discard_pairs_of _ = pure tt

  pub discard_pairs : Pairs → S (Unit {0})
  discard_pairs no_pairs = pure tt
  discard_pairs (pair text key val at rest) = discarding key (process_ancestry key) >>= λ _.
      discarding val (process_ancestry val) >>= λ _. discard_pairs rest

-- No error, a ParseError S0217 with the kind as its token and its position, or the panic.
pub data Verdict : Type 0 where
  accepted : Verdict
  rejected : Kind → ℕ → Verdict
  panics : Verdict

abbrev pub rejected_at : Kind → Position → Verdict
rejected_at k position = rejected k (position.offset + 1)

abbrev pub is_empty : List ℕ → Bool
is_empty [] = true
is_empty (x ∷ xs) = false

abbrev pub verdict : Result Failure (AncestryNode × Store) → Verdict
verdict (err panic) = panics
verdict (err (unresolved k position)) = rejected_at k position
verdict (ok (result, store)) =
    if is_parent (kind_of result) || not (is_empty (seeking_of result))
    then rejected_at (kind_of result) (position_of result)
    else accepted

unfoldable pub check_ancestry : Node → Verdict
unfolding process_ancestry
check_ancestry n = verdict (process_ancestry n [])
