-- ===== src/FormatInteger.antt =====
-- internal/evaluator/format_integer.go: `$formatInteger` and `$parseInteger`.
pub mod Roman
pub mod Alphabetic
pub mod Picture
pub mod Separators
pub mod Words
pub mod ParseWords
pub mod Builtins
pub mod Reading
pub mod Digits
