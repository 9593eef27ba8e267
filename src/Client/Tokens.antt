-- ===== src/Client/Tokens.antt =====
-- The calls of the client wrappers and the accounts of their tokens (server_scope.go, client.go,
-- telemetry.go).
use firebirdsql_otel.Common.{
  ℕ, zero, suc, ◌≡◌, refl, ap, Bool, true, false, ◌&&◌, ◌||◌, not, none, some, List, [], ◌∷◌, ltb,
  if_rule, arith,
}
use firebirdsql_otel.Text.{Bytes, equal, equal_iff, is_empty}
use firebirdsql_otel.Client.{
  registered, Conn, Operation, Marker, Reply, marker_ok, is_prepared, discard, discard_unless, mark,
  server_scope, preserve_fallback, finish_token, discard_fallback, take_fallback, same_query,
  stmt_scope, discard_server_token, take_statement, open_rows, Call, executing, preparing,
  executing_statement, closing_statement, releasing_rows, closing, call, calls,
}
use firebirdsql_otel.Client.Accounts.{
  is_registered, is_settled, is_held, IsAccounted, discard-IsAccounted, settle-IsAccounted,
  empty-IsAccounted, discard_unless-IsAccounted, same-IsAccounted, bound-IsAccounted,
  widen-IsAccounted, take-IsAccounted,
}

-- An operation that is not enabled has no token.
abbrev IsTokenless : Operation → Type 0
IsTokenless op = (op.enabled || is_empty op.server_token) ≡ true

abbrev IsScoped : Conn × Operation → Type 0
IsScoped (c, op) = IsAccounted op.server_token c × IsTokenless op

open-IsAccounted :
    (rows : Bool) (x : Bytes) (c : Conn) → IsAccounted x c → IsAccounted x (open_rows rows c)
unfolding IsAccounted
open-IsAccounted rows x c h = if_rule (IsAccounted x) (rows && c.traced) (λ _. h) λ _. h

-- Register returns a token, and the marker query is complete or the token is discarded.
mark-IsScoped :
    (token : Bytes) (m : Marker) (op : Operation) (c : Conn)
    → IsAccounted [] c
    → op.server_token ≡ []
    → op.enabled ≡ true
    → IsScoped (mark token m op c)
unfolding mark IsAccounted is_registered is_settled
mark-IsScoped token m op c (n, h) e on =
    let c' : Conn = record c { log = registered token ∷ c.log } in
    let start : IsAccounted token c' = (n, λ t. ground (arith, h t)) in
    let none_held : IsAccounted op.server_token c = (n, λ t. ground (arith, h t)) in
    if_rule IsScoped (not (is_prepared m) || is_empty token) (λ _. (none_held, ground (arith, on)))
      λ _.
        if_rule IsScoped (marker_ok m)
          (λ _. (
            if_rule (λ (d : Conn). IsAccounted token (record d { server_token = token })) c.marks
                (λ _. (n, start.1)) (λ _. (n, start.1)),
            ground (arith, on),
          ))
          λ _.
            let (n', h') = settle-IsAccounted token c' start in
            ((n', λ t. ground (arith, h' t)), ground (arith, on))

server_scope-IsScoped :
    (token : Bytes) (m : Marker) (op : Operation) (c : Conn)
    → IsAccounted [] c
    → op.server_token ≡ []
    → IsScoped (server_scope token m op c)
unfolding server_scope
server_scope-IsScoped token m op c h e =
    let stale = c.fallback_token in
    let current = c.server_token in
    let c' : Conn = record c { fallback_token = [] } in
    let taken : IsAccounted stale c' = take-IsAccounted c h in
    let settled : IsAccounted [] (discard_unless (is_empty stale) stale c') =
      discard_unless-IsAccounted stale c' taken in
    let idle : IsTokenless op = ground (arith, e) in
    let wide : (d : Conn) → IsAccounted [] d → IsScoped (d, op) =
      λ d a. (widen-IsAccounted op.server_token d a, idle) in
    let Q : Conn → Type 0 = IsAccounted [] in
    let suspended : Q
        (discard_unless (is_empty stale || equal stale current) stale (discard current c')) =
      if_rule Q (is_empty stale || equal stale current)
        (λ e'.
          if_rule (λ (b : Bool). Q (discard current c')) (is_empty stale) {x = true} {y = true}
            (λ z.
              empty-IsAccounted stale (discard current c') z
                (discard-IsAccounted stale current c' taken))
            λ z. same-IsAccounted stale current c' (ground (arith, e', z)) taken)
        λ _.
          settle-IsAccounted stale (discard current c')
            (discard-IsAccounted stale current c' taken) in
    if_rule IsScoped (not c.traced) (λ _. wide c h)
      λ _.
        if_rule IsScoped (ltb 0 c.server_rows) (λ _. wide _ suspended)
          λ _.
            if_rule IsScoped (not op.enabled) (λ _. wide _ settled)
              λ on.
                mark-IsScoped token m op (discard_unless (is_empty stale) stale c') settled e
                  (ground (arith, on))

preserve_fallback-IsScoped :
    (digest : Bytes) (reply : Reply) (op : Operation) (c : Conn)
    → IsScoped (c, op)
    → IsScoped (preserve_fallback digest reply op c)
unfolding preserve_fallback IsAccounted is_registered is_settled
preserve_fallback-IsScoped digest reply op c ((n, h), o) =
    let token = op.server_token in
    let stale = c.fallback_token in
    let kept : Conn = record c { fallback_token = token; fallback_query = some digest } in
    let swapped : IsAccounted stale kept = (n, λ t. ground (arith, h t)) in
    let Q : Conn → Type 0 = IsAccounted [] in
    if_rule IsScoped (not reply.skipped || is_empty token) (λ _. ((n, h), o))
      λ _. (
        if_rule Q (is_empty stale || equal stale token)
            (λ e.
              if_rule (λ (b : Bool). Q kept) (is_empty stale) {x = true} {y = true}
                (λ z. empty-IsAccounted stale kept z swapped)
                λ z. (
                  n,
                  λ t.
                      ground (
                        arith,
                        h t,
                        ap (equal t) ((equal_iff stale token).0 (ground (arith, e, z))),
                      ),
                ))
            (λ _. settle-IsAccounted stale kept swapped),
        ground arith,
      )

finish_token-IsAccounted :
    (reply : Reply) (op : Operation) (c : Conn)
    → IsScoped (c, op)
    → IsAccounted [] (finish_token reply op c)
unfolding finish_token
finish_token-IsAccounted reply op c (h, o) =
    let token = op.server_token in
    let Q : Conn → Type 0 = IsAccounted [] in
    if_rule Q (op.fallback && reply.skipped) (λ _. discard_unless-IsAccounted token c h)
      λ _.
        if_rule Q (not op.enabled) (λ e. empty-IsAccounted token c (ground (arith, e, o)) h)
          λ _.
            if_rule Q (is_empty token) (λ e. empty-IsAccounted token c e h)
              λ _.
                if_rule Q (not reply.failed && reply.recording) (λ _. bound-IsAccounted token c h)
                  λ _. settle-IsAccounted token c h

discard_fallback-IsAccounted : (c : Conn) → IsAccounted [] c → IsAccounted [] (discard_fallback c)
unfolding discard_fallback IsAccounted
discard_fallback-IsAccounted c h =
    let Q : Conn → Type 0 = IsAccounted [] in
    let c' : Conn = record c { fallback_token = []; fallback_query = none } in
    if_rule Q (not c.traced) (λ _. h)
      λ _. discard_unless-IsAccounted c.fallback_token c' (take-IsAccounted c h)

take_fallback-IsAccounted :
    (digest : Bytes) (c : Conn)
    → IsAccounted [] c
    → IsAccounted (take_fallback digest c).1 (take_fallback digest c).0
unfolding take_fallback IsAccounted
take_fallback-IsAccounted digest c h =
    let Q : Conn × Bytes → Type 0 = λ x. IsAccounted x.1 x.0 in
    let token = c.fallback_token in
    let c' : Conn = record c { fallback_token = []; fallback_query = none } in
    let taken : IsAccounted token c' = take-IsAccounted c h in
    if_rule Q (not c.traced) (λ _. h)
      λ _.
        if_rule Q (not (is_empty token) && not (same_query digest c.fallback_query))
          (λ _. settle-IsAccounted token c' taken) λ _. taken

-- The token of a statement is taken from it.
take_statement-IsHeld :
    (t : Bytes) (i : ℕ) (ts : List Bytes)
    → (not (is_held t ts) || is_held t (take_statement i ts).1 || equal t (take_statement i ts).0)
      ≡ true
unfolding take_statement is_held
take_statement-IsHeld t i [] = refl
take_statement-IsHeld t zero (k ∷ ts) = ground arith
take_statement-IsHeld t (suc i) (k ∷ ts) = ground (arith, take_statement-IsHeld t i ts)

statement-IsAccounted :
    (i : ℕ) (c : Conn)
    → IsAccounted [] c
    → IsAccounted
        (take_statement i c.statements).0
        (record c { statements = (take_statement i c.statements).1 })
unfolding IsAccounted
statement-IsAccounted i c (n, h) =
    (n, λ t. ground (arith, h t, take_statement-IsHeld t i c.statements))

stmt_scope-IsScoped :
    (own token : Bytes) (m : Marker) (op : Operation) (c : Conn)
    → IsAccounted own c
    → op.server_token ≡ []
    → IsScoped (stmt_scope own token m op c)
unfolding stmt_scope
stmt_scope-IsScoped own token m op c h e =
    if_rule IsScoped (not (is_empty own))
      (λ _.
        if_rule IsScoped op.enabled (λ on. (h, ground (arith, on)))
          λ _.
            (widen-IsAccounted op.server_token _ (settle-IsAccounted own c h), ground (arith, e)))
      λ z. server_scope-IsScoped token m op c (empty-IsAccounted own c (ground (arith, z)) h) e

discard_server_token-IsAccounted :
    (own : Bytes) (c : Conn) → IsAccounted own c → IsAccounted [] (discard_server_token own c)
unfolding discard_server_token IsAccounted
discard_server_token-IsAccounted own c h =
    if_rule (IsAccounted []) (not (is_empty own) && c.traced) (λ _. settle-IsAccounted own c h)
      λ z. empty-IsAccounted own c (ground (arith, z, h.0)) h

-- A new statement holds the token.
prepared-IsAccounted :
    (x : Bytes) (c : Conn)
    → IsAccounted x c
    → IsAccounted [] (record c { statements = x ∷ c.statements })
unfolding IsAccounted is_held
prepared-IsAccounted x c (n, h) = (n, λ t. ground (arith, h t))

call-IsAccounted : (x : Call) (c : Conn) → IsAccounted [] c → IsAccounted [] (call x c)
unfolding call IsAccounted
call-IsAccounted (executing token digest m enabled reply rows) c h =
    let op : Operation = record { enabled = enabled; fallback = true; server_token = [] } in
    let scoped = server_scope-IsScoped token m op c h refl in
    let (a, o) = preserve_fallback-IsScoped digest reply _ _ scoped in
    finish_token-IsAccounted reply _ _ (open-IsAccounted rows _ _ a, o)
call-IsAccounted (preparing digest failed) c h =
    if_rule (IsAccounted []) failed (λ _. discard_fallback-IsAccounted c h)
      λ _.
        prepared-IsAccounted (take_fallback digest c).1 (take_fallback digest c).0
          (take_fallback-IsAccounted digest c h)
call-IsAccounted (executing_statement i token m enabled reply rows) c h =
    let op : Operation = record { enabled = enabled; fallback = false; server_token = [] } in
    let (own, rest) = take_statement i c.statements in
    let (a, o) =
      stmt_scope-IsScoped own token m op (record c { statements = rest })
        (statement-IsAccounted i c h) refl in
    finish_token-IsAccounted reply _ _ (open-IsAccounted rows _ _ a, o)
call-IsAccounted (closing_statement i) c h =
    discard_server_token-IsAccounted (take_statement i c.statements).0
      (record c { statements = (take_statement i c.statements).1 }) (statement-IsAccounted i c h)
call-IsAccounted releasing_rows c h = h
call-IsAccounted closing c h = discard_fallback-IsAccounted c h

-- Whatever calls database/sql makes on a connection and its statements, and however they and their
-- marker queries end, where tokens were accounted for they are so still: every token that Register
-- returned was bound to a span or discarded, or it is the fallback token or that of a statement.
pub calls-IsAccounted : (xs : List Call) (c : Conn) → IsAccounted [] c → IsAccounted [] (calls xs c)
unfolding calls
calls-IsAccounted [] c h = h
calls-IsAccounted (x ∷ xs) c h = calls-IsAccounted xs (call x c) (call-IsAccounted x c h)
