-- ===== src/Syntax.antt =====
-- internal/syntax/lexer.go: tokens, expressions and errors.
-- A token's number as a float64, which the lexer keeps so as not to convert it again, and the compiled
-- pattern of a regular expression are left out, and so are the messages of errors. A nil Node is
-- `absent`. The items of a slice of nodes are of the types `Nodes` and `Pairs`.
pub mod State
pub mod Tables
pub mod Signature
pub mod Within
pub mod Advance
pub mod Quoted
pub mod Lex
pub mod Items
pub mod Postfix
pub mod Prefix
pub mod Expression
use jsonata_go.Prelude.{ℕ, ◌+◌, Bool, true, false, List, [], ◌∷◌, Text}

pub record Position : Type 0 where
  pub offset : ℕ
  pub byte : ℕ
  pub line : ℕ
  pub column : ℕ

-- The position of a node or token that has none.
abbrev pub no_position : Position
no_position = record { offset = 0; byte = 0; line = 0; column = 0 }

-- `True`, `False` and `Null` are the three words; `Invalid` is no token's kind.
pub data TokenKind : Type 0 where
  eof identifier string number regex true_word false_word null_word operator : TokenKind
  lbracket rbracket lbrace rbrace lparen rparen comma colon semicolon dollar : TokenKind

-- The value of a literal: a string, the units of one with an unpaired surrogate, a truth value, nil.
pub data LiteralValue : Type 0 where
  text : Text → LiteralValue
  units : List ℕ → LiteralValue
  truth : Bool → LiteralValue
  nothing : LiteralValue

-- The value is that of a string token.
pub record Token : Type 0 where
  pub kind : TokenKind
  pub text : Text
  pub position : Position
  pub value : LiteralValue

-- The codes that lexer and parser report.
pub data ErrorCode : Type 0 where
  s0101 s0102 s0103 s0104 s0105 s0106 s0201 s0202 s0203 s0204 s0207 s0208 s0209 : ErrorCode
  s0210 s0211 s0212 s0213 s0214 s0215 s0216 s0217 s0301 s0302 s0401 s0402 s1001 : ErrorCode

pub record ParseError : Type 0 where
  pub code : ErrorCode
  pub token : Text
  pub value : Text
  pub position : ℕ

pub data VariableKind : Type 0 where
  named focus root : VariableKind

pub record Variable : Type 0 where
  pub name : Text
  pub kind : VariableKind
  pub position : Position

-- The fields of a Path, each a name and its position.
pub data Fields : Type 0 where
  no_fields : Fields
  field : Text → Position → Fields → Fields

mutual
  pub data Node : Type 0 where
    absent : Node
    literal : TokenKind → LiteralValue → Position → Node
    name_node : Text → Position → Node
    variable_node : Variable → Node
    path_node : Node → Fields → Position → Node
    array : Nodes → Bool → Position → Node
    block_node : Nodes → Position → Node
    object : Pairs → Position → Node
    binary_node : Text → Node → Node → Position → Node
    bind_node : Variable → Node → Position → Node
    apply_node : Node → Node → Position → Node
    unary_node : Text → Node → Position → Node
    selector : Node → Node → Position → Node
    wildcard_node : Bool → Position → Node
    parent_node : Position → Node
    transform_node : Node → Node → Node → Position → Node
    call : Node → Nodes → Bool → Bool → Position → Node
    placeholder : Position → Node
    lambda_node : List Variable → Text → Node → Position → Node

  pub data Nodes : Type 0 where
    no_nodes : Nodes
    one_node : Node → Nodes → Nodes

  -- A pair has its key as a name, or as an expression.
  pub data Pairs : Type 0 where
    no_pairs : Pairs
    pair : Text → Node → Node → Position → Pairs → Pairs

-- `append(items, item)`
abbrev pub add_node : Nodes → Node → Nodes
add_node no_nodes n = one_node n no_nodes
add_node (one_node m ms) n = one_node m (add_node ms n)

abbrev pub add_pair : Pairs → Text → Node → Node → Position → Pairs
add_pair no_pairs key key_expr val position = pair key key_expr val position no_pairs
add_pair (pair k e v p rest) key key_expr val position =
    pair k e v p (add_pair rest key key_expr val position)
