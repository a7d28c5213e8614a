-- ===== src/Lib.antt =====
-- Verification library of jsonata-go, an implementation of JSONata in Go.
--
-- Parts of the program and how they interact. A JSONata text is read by a lexer and a parser
-- (`internal/syntax`, and `jparse` for programs that import the older package), and an evaluator
-- (`internal/evaluator`) runs the tree on a value (`internal/value`). Every step of the evaluator asks
-- the limits of `internal/evaluator/runtime.go` first, and builtins such as `$formatInteger` are called
-- from a table. The library models these parts:
-- * `Lexer` and its children: the lexer of `jparse/lexer.go`. The state is the struct `lexer`; a
--   method is an action on it that may panic. `next` and every scanner are there, under their names.
-- * `Runtime` and its children: `internal/evaluator/runtime.go`. The state is `evalRuntime`; clock and
--   context are read from an environment that each call takes.
-- * `FormatInteger` and its children: `internal/evaluator/format_integer.go`, from the picture to
--   digits, separators, letters, Roman numerals and words, and back, and the two builtins on top.
-- * `ObjectOrder` and its children: `canonicalObjectOrder` and `parseArrayIndex` of
--   `internal/value/value.go`, the order in which every object lists its keys.
-- * `Ancestry` and its children: `internal/syntax/ancestry.go`, which the parser calls on a finished
--   expression to accept or reject its uses of `%`. The levels of the slots
--   are a store.
-- * `Syntax` and its children: `internal/syntax/lexer.go`, the tokens, the tree and the parser. The
--   state is the tokens on the two sides of the index, the depth and the source. `Syntax.Items`,
--   `Syntax.Postfix`, `Syntax.Prefix` and `Syntax.Expression` take the parser of expressions as an
--   argument, and `expression` passes itself; `Parsing` is `Parse`, which ends with the check of
--   `Ancestry`. `Syntax.Lex` is the lexer, with the bytes on the two sides of its position, and
--   `Syntax.Quoted` the escapes of strings. `Precedence` is the independent description of operators by ranks.
-- * `Regex` and its children: `internal/regex/regex.go`, the compilation of a pattern literal up to the
--   engines, which is what `Syntax.Lex` takes as its argument `compile`, and the conversions between
--   indices in bytes and in UTF-16 units. That `regexp2` takes a pattern is an argument.
-- * `Prelude` is shared notation; `Unicode`, `GoStrings`, `Decimal` and `Utf8` are what the sources
--   use of Go's `unicode`, `strings`, `math/big` and `unicode/utf8`. The tables of `unicode` are a
--   record of which only the ASCII part is fixed; `Unicode.ascii` is one that has no more than that.
-- `LexerTests`, `RuntimeTests`, `FormatTests`, `ObjectTests`, `AncestryTests`, `SyntaxTests`, `ScanTests` and
-- `RegexTests` run the definitions at concrete inputs.
--
-- Bounds and fuel. A loop of the lexer takes a byte in each round but the last, so its fuel is the
-- number of bytes and one; running out of it has the outcome of a panic, so that a result speaks against
-- both. Numbers of `big.Int` are not bounded; `alphabeticInteger` and the groups of three digits run on
-- the number itself as fuel, which each round makes smaller. Depths and budgets are `int` and stay
-- within the options; lengths of texts are `int` and are taken not to overflow. `parseArrayIndex`
-- computes modulo 2 ^ 64 and 2 ^ 32 as its types do. The recursion of `expression` has its limit of 512
-- levels and one as fuel, and a loop of the parser the number of tokens ahead and one; the loops of `Syntax.Lex` have the number
-- of bytes ahead and one. Whether a number fits a float64 is decided in whole numbers.
--
-- Not modelled: float64 (an argument that is a number enters as its sign and magnitude, and a result
-- that leaves as a float is the integer before the conversion), messages of errors, and the parts
-- of the program that the list above does not name: the
-- evaluator and its other builtins, the matching of regular expressions, and the conversion of values.
pub mod Prelude
pub mod Unicode
pub mod GoStrings
pub mod Decimal
pub mod Utf8
pub mod Runtime
pub mod Lexer
pub mod ObjectOrder
pub mod Syntax
pub mod Regex
pub mod Ancestry
pub mod Parsing
pub mod Precedence
mod LexerTests
mod RuntimeTests
mod SyntaxTests
mod ScanTests
mod RegexTests
mod FormatTests
mod ObjectTests
mod AncestryTests
pub mod FormatInteger
