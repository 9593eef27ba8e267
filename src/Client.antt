-- ===== src/Client.antt =====
-- The tokens of the server trace in the client wrappers: the marker query of server_scope.go, the
-- fallback of database/sql from a connection to a prepared statement (client.go), and the token's
-- end in telemetry.go. database/sql calls a connection and its statements one at a time. What the
-- driver and the trace runtime answer comes with each call; a token is "" where there is none.
pub mod Accounts
pub mod Tokens
mod Tests
use firebirdsql_otel.Common.{
  ℕ, zero, suc, ◌+◌, ◌-◌, Bool, true, false, ◌&&◌, ◌||◌, not, Option, none, some, List, [], ◌∷◌,
  ltb, if◌then◌else◌,
}
use firebirdsql_otel.Text.{Bytes, Platform, equal, is_empty}

-- A call of `ServerTrace`; Register is one where it returns a token.
pub data TokenCall : Type 0 where
  registered completed bound discarded : Bytes → TokenCall

-- `connState` and the tokens of its open statements. `fallback_query` is none where it is the zero
-- array; `log` has the calls of `ServerTrace`, the last one first.
pub record Conn : Type 0 where
  pub traced : Bool
  pub marks : Bool
  pub server_rows : ℕ
  pub server_token : Bytes
  pub fallback_token : Bytes
  pub fallback_query : Option Bytes
  pub statements : List Bytes
  pub log : List TokenCall

-- The fields of `operation` that the tokens depend on.
pub record Operation : Type 0 where
  pub enabled : Bool
  pub fallback : Bool
  pub server_token : Bytes

-- The second `Next` of the marker query.
pub data Second : Type 0 where
  another_row end_of_rows next_failed : Second

-- How the marker query goes.
pub data Marker : Type 0 where
  no_prepare prepare_failed not_queryable query_failed no_rows : Marker
  read : (first : Bool) (second : Second) (rows_closed stmt_closed : Bool) → Marker

-- How the call of the driver ends: `err == driver.ErrSkip`, `err != nil`, and `span.IsRecording()`.
pub record Reply : Type 0 where
  pub skipped : Bool
  pub failed : Bool
  pub recording : Bool

abbrev second_ok : Second → Bool
second_ok another_row = true
second_ok end_of_rows = true
second_ok next_failed = false

-- Whether no error of the marker query is left.
unfoldable pub marker_ok : Marker → Bool
marker_ok (read first second rows_closed stmt_closed) =
    first && second_ok second && rows_closed && stmt_closed
marker_ok _ = false

abbrev pub is_prepared : Marker → Bool
is_prepared no_prepare = false
is_prepared _ = true

-- `s.Discard(token)`
abbrev pub discard : Bytes → Conn → Conn
discard token c = record c { log = discarded token ∷ c.log }

abbrev pub discard_unless : Bool → Bytes → Conn → Conn
discard_unless skip token c = if skip then c else discard token c

abbrev pub complete : Bytes → Conn → Conn
complete token c = if c.marks then record c { log = completed token ∷ c.log } else c

-- The marker query for the token that Register returned.
unfoldable pub mark : Bytes → Marker → Operation → Conn → Conn × Operation
unfolding marker_ok
mark token m op c =
    let c' : Conn = record c { log = registered token ∷ c.log } in
    let done = complete token c' in
    if not (is_prepared m) || is_empty token
    then (c, op)
    else if marker_ok m
    then (record done { server_token = token }, record op { server_token = token })
    else (discard token c', op)

-- `connState.serverScope`
unfoldable pub server_scope : Bytes → Marker → Operation → Conn → Conn × Operation
unfolding mark equal
server_scope token m op c =
    let stale = c.fallback_token in
    let c' : Conn = record c { fallback_token = [] } in
    let current = c.server_token in
    let settled = discard_unless (is_empty stale) stale c' in
    if not c.traced
    then (c, op)
    else if ltb 0 c.server_rows
    then (discard_unless (is_empty stale || equal stale current) stale (discard current c'), op)
    else if not op.enabled
    then (settled, op)
    else mark token m op settled

-- `preserveFallbackToken`, with the digest of the query
unfoldable pub preserve_fallback : Bytes → Reply → Operation → Conn → Conn × Operation
unfolding equal
preserve_fallback digest reply op c =
    let token = op.server_token in
    let stale = c.fallback_token in
    let kept : Conn = record c { fallback_token = token; fallback_query = some digest } in
    if not reply.skipped || is_empty token then (c, op) else (
      discard_unless (is_empty stale || equal stale token) stale kept,
      record op { server_token = [] },
    )

-- What `telemetry.finish` does with the token.
unfoldable pub finish_token : Reply → Operation → Conn → Conn
finish_token reply op c =
    let token = op.server_token in
    let tied : Conn = record c { log = bound token ∷ c.log } in
    if op.fallback && reply.skipped
    then discard_unless (is_empty token) token c
    else if not op.enabled
    then c
    else if is_empty token
    then c
    else if not reply.failed && reply.recording
    then tied
    else discard token c

-- `discardFallbackToken`
unfoldable pub discard_fallback : Conn → Conn
discard_fallback c =
    let token = c.fallback_token in
    let c' : Conn = record c { fallback_token = []; fallback_query = none } in
    if not c.traced then c else discard_unless (is_empty token) token c'

abbrev same_query : Bytes → Option Bytes → Bool
same_query digest none = false
same_query digest (some q) = equal q digest

-- `takeFallbackToken`
unfoldable pub take_fallback : Bytes → Conn → Conn × Bytes
unfolding equal
take_fallback digest c =
    let token = c.fallback_token in
    let c' : Conn = record c { fallback_token = []; fallback_query = none } in
    if not c.traced
    then (c, [])
    else if not (is_empty token) && not (same_query digest c.fallback_query)
    then (discard token c', [])
    else (c', token)

-- `stmtState.serverScope`, with the token of the statement, which it gives up
unfoldable pub stmt_scope : Bytes → Bytes → Marker → Operation → Conn → Conn × Operation
unfolding server_scope
stmt_scope own token m op c =
    if not (is_empty own)
    then (if op.enabled then (c, record op { server_token = own }) else (discard own c, op))
    else server_scope token m op c

-- `discardServerToken`
unfoldable pub discard_server_token : Bytes → Conn → Conn
discard_server_token own c = if not (is_empty own) && c.traced then discard own c else c

-- The token of a statement, which it gives up, and what the others keep.
unfoldable pub take_statement : ℕ → List Bytes → Bytes × List Bytes
take_statement i [] = ([], [])
take_statement zero (t ∷ ts) = (t, [] ∷ ts)
take_statement (suc i) (t ∷ ts) = let (own, rest) = take_statement i ts in (own, t ∷ rest)

-- `serverRows++` in `queryResult`
abbrev pub open_rows : Bool → Conn → Conn
open_rows rows c = if rows && c.traced then record c { server_rows = suc c.server_rows } else c

-- A call of database/sql, with the token that Register returns, the digest of the query, the marker
-- query, `op.enabled`, the reply, and whether rows come back.
pub data Call : Type 0 where
  executing : Bytes → Bytes → Marker → Bool → Reply → Bool → Call
  preparing : Bytes → Bool → Call
  executing_statement : ℕ → Bytes → Marker → Bool → Reply → Bool → Call
  closing_statement : ℕ → Call
  releasing_rows : Call
  closing : Call

abbrev operation : Bool → Bool → Operation
operation enabled fallback = record { enabled = enabled; fallback = fallback; server_token = [] }

-- Exec, ExecContext, Query, QueryContext, prepare and Close of `connState`, and those of `stmtState`.
unfoldable pub call : Call → Conn → Conn
unfolding server_scope preserve_fallback finish_token discard_fallback take_fallback stmt_scope
    discard_server_token take_statement
call (executing token digest m enabled reply rows) c =
    let (c', op) = server_scope token m (operation enabled true) c in
    let (c'', op') = preserve_fallback digest reply op c' in
    finish_token reply op' (open_rows rows c'')
call (preparing digest failed) c =
    let (c', token) = take_fallback digest c in
    if failed then discard_fallback c else record c' { statements = token ∷ c'.statements }
call (executing_statement i token m enabled reply rows) c =
    let (own, rest) = take_statement i c.statements in
    let (c', op) =
      stmt_scope own token m (operation enabled false) (record c { statements = rest }) in
    finish_token reply op (open_rows rows c')
call (closing_statement i) c =
    let (own, rest) = take_statement i c.statements in
    discard_server_token own (record c { statements = rest })
call releasing_rows c = record c { server_rows = c.server_rows - 1 }
call closing c = discard_fallback c

unfoldable pub calls : List Call → Conn → Conn
unfolding call
calls [] c = c
calls (x ∷ xs) c = calls xs (call x c)
