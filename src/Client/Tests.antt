-- ===== src/Client/Tests.antt =====
-- A query that falls back to a prepared statement, and the theorem of the tokens at it.
use firebirdsql_otel.Common.{◌≡◌, refl, true, false, none, List, [], ◌∷◌, arith}
use firebirdsql_otel.Text.{codes}
use firebirdsql_otel.Client.{
  registered, completed, bound, Conn, Marker, read, end_of_rows, Call, executing, preparing,
  executing_statement, calls,
}
use firebirdsql_otel.Client.Accounts.{is_registered, IsAccounted}
use firebirdsql_otel.Client.Tokens.{calls-IsAccounted}

abbrev fresh : Conn
fresh = record {
  traced = true;
  marks = true;
  server_rows = 0;
  server_token = [];
  fallback_token = [];
  fallback_query = none;
  statements = [];
  log = [];
}

abbrev marked : Marker
marked = read true end_of_rows true true

-- The connection refuses the query, database/sql prepares it and runs the statement.
abbrev fallback : List Call
fallback =
    executing (codes "0a") (codes "Q") marked true
      (record { skipped = true; failed = true; recording = true }) false
    ∷ preparing (codes "Q") false
    ∷ executing_statement 0 (codes "0b") marked true
        (record { skipped = false; failed = false; recording = true }) true
    ∷ []

fallback_log :
    (calls fallback fresh).log
    ≡ bound (codes "0a") ∷ completed (codes "0a") ∷ registered (codes "0a") ∷ []
unfolding calls
fallback_log = refl

fresh-IsAccounted : IsAccounted [] fresh
unfolding IsAccounted is_registered
fresh-IsAccounted = (refl, λ t. ground arith)

calls-IsAccounted_example : IsAccounted [] (calls fallback fresh)
calls-IsAccounted_example = calls-IsAccounted fallback fresh fresh-IsAccounted
