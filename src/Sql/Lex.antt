-- ===== src/Sql/Lex.antt =====
-- The lexer of internal/sqltext/sql.go. The index `i` is kept as the text `s[i:]` that is left, and
-- a slice `s[start:i]` is cut by the lengths of the two texts.
pub mod Scan
pub mod Step
pub mod Cases
pub mod Lengths
pub mod Progress
pub mod Extents
pub mod Pieces
pub mod Ends
pub mod Tokens
pub mod Brackets
pub mod Balance
pub mod Opaque
pub use Scan.{Token}
