-- ===== src/Sql/Lex/Tokens.antt =====
-- The tokens of `lex` (internal/sqltext/sql.go) and the pieces of the statement that they stand for.
use firebirdsql_otel.Common.{ℕ, ◌≤◌, ◌<◌, List, ◌∷◌, length}
use firebirdsql_otel.Text.{Bytes, Platform, decode_rune}
use firebirdsql_otel.Sql.Lex.Scan.{Token}
use firebirdsql_otel.Sql.Lex.Step.{LexState, max_tokens}
use firebirdsql_otel.Sql.Lex.Pieces.{Reads}

-- What the lexer has read and emitted at any point, and how much of it.
module _ (p : Platform) (text : Bytes) where
  abbrev Emitted : LexState → Type 0
  Emitted st = Reads p text st.out st.rest × (length st.out ≤ max_tokens)

module _ (p : Platform) (text : Bytes) (c : ℕ) (s : Bytes) (out : List Token) (ds : List ℕ)
    (reads : Reads p text out (c ∷ s)) (few : length out < max_tokens) where
  abbrev here : LexState
  here = record { rest = c ∷ s; out = out; delimiters = ds }

  abbrev first : ℕ
  first = (decode_rune (c ∷ s)).rune
