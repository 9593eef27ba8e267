-- ===== src/Sql.antt =====
-- internal/sqltext: the bounded SQL lexer, the descriptions that are made from its tokens, and the
-- lexical framing of statements in a trace.
pub mod Lex
pub mod Describe
pub mod Framing
mod Tests
