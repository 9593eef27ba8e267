-- ===== src/Monitoring/Complete.antt =====
-- The rows of a snapshot and the rows of the database (monitoring/reader.go).
use firebirdsql_otel.Common.{
  ℕ, ◌≡◌, refl, false, ◌&&◌, ◌||◌, not, none, some, List, map, if_rule, option_rule, arith,
}
use firebirdsql_otel.Common.Int.{same_int}
use firebirdsql_otel.Text.{is_empty}
use firebirdsql_otel.Monitoring.{
  Scope, Correlation, Snapshot, Reply, scan, Database, Visible, found, no_rows, query_failed,
  is_positive, is_negative, trim_call, trim_compiled, trim_table, Outcome, empty,
  target_not_visible, database_error, read_tables, read_compiled, read_calls, read_statements,
  read_visible, read,
}
use firebirdsql_otel.Monitoring.Bounds.{scan-map}

-- The rows of a reply, all of them read, as they are kept.
pub IsEvery : {A : Type 0} → (A → A) → Reply A → List A → Type 0
IsEvery {A} f r xs = (raw : List A) × (r.rows ≡ some (map some raw)) × (xs ≡ map f raw)

pub record IsComplete (d : Database) (out : Snapshot) : Type 0 where
  statements : d.statements.rows ≡ some (map some out.statements)
  calls : IsEvery trim_call d.calls out.calls
  compiled : IsEvery trim_compiled d.compiled out.compiled
  tables : IsEvery trim_table d.tables out.tables

-- What an outcome shows where it is no error and nothing is truncated.
abbrev Shows : (Snapshot → Type 0) → Outcome → Type 0
Shows P (out, failure) = failure ≡ none → out.truncated ≡ false → P out

scan-IsEvery :
    {A : Type 0} (m : ℕ) (f : A → A) (r : Reply A)
    → (scan m r).failed ≡ false
    → (scan m r).more ≡ false
    → IsEvery f r (map f (scan m r).rows)
unfolding IsEvery
scan-IsEvery m f r h k = ((scan m r).rows, scan-map m r h k, refl)

read_tables-IsComplete :
    (m : ℕ) (d : Database) (out : Snapshot)
    → (out.truncated ≡ false
        → (d.statements.rows ≡ some (map some out.statements))
          × IsEvery trim_call d.calls out.calls
          × IsEvery trim_compiled d.compiled out.compiled)
    → Shows (IsComplete d) (read_tables m d out)
unfolding read_tables
read_tables-IsComplete m d out h =
    let s = scan m d.tables in
    if_rule (Shows (IsComplete d)) (s.failed || not d.commits) (λ _ e t. absurd (ground (arith, e)))
      λ ok e t.
        let (a, b, c) = h (ground (arith, t)) in
        record {
          statements = a;
          calls = b;
          compiled = c;
          tables = scan-IsEvery m trim_table d.tables (ground (arith, ok)) (ground (arith, t));
        }

read_compiled-IsComplete :
    (m : ℕ) (d : Database) (out : Snapshot)
    → (out.truncated ≡ false
        → (d.statements.rows ≡ some (map some out.statements))
          × IsEvery trim_call d.calls out.calls)
    → Shows (IsComplete d) (read_compiled m d out)
unfolding read_compiled
read_compiled-IsComplete m d out h =
    let s = scan m d.compiled in
    if_rule (Shows (IsComplete d)) s.failed (λ _ e t. absurd (ground (arith, e)))
      λ ok.
        read_tables-IsComplete m d
          (record out { compiled = map trim_compiled s.rows; truncated = out.truncated || s.more })
          λ t.
            let (a, b) = h (ground (arith, t)) in
            (a, b, scan-IsEvery m trim_compiled d.compiled ok (ground (arith, t)))

read_calls-IsComplete :
    (m : ℕ) (d : Database) (out : Snapshot)
    → (out.truncated ≡ false → d.statements.rows ≡ some (map some out.statements))
    → Shows (IsComplete d) (read_calls m d out)
unfolding read_calls
read_calls-IsComplete m d out h =
    let s = scan m d.calls in
    if_rule (Shows (IsComplete d)) s.failed (λ _ e t. absurd (ground (arith, e)))
      λ ok.
        read_compiled-IsComplete m d
          (record out { calls = map trim_call s.rows; truncated = out.truncated || s.more })
          λ t. (h (ground (arith, t)), scan-IsEvery m trim_call d.calls ok (ground (arith, t)))

read_statements-IsComplete :
    (m : ℕ) (d : Database) (out : Snapshot) → Shows (IsComplete d) (read_statements m d out)
unfolding read_statements
read_statements-IsComplete m d out =
    let s = scan m d.statements in
    let P = Shows (IsComplete d) in
    if_rule P s.failed (λ _ e t. absurd (ground (arith, e)))
      λ ok.
        if_rule P (is_positive out.scope.statement_id && is_empty s.rows)
          (λ _ e t. absurd (ground (arith, e)))
          λ _.
            read_calls-IsComplete m d
              (record out { statements = s.rows; truncated = out.truncated || s.more })
              λ t. scan-map m d.statements ok (ground (arith, t))

read_visible-IsComplete :
    (m : ℕ) (d : Database) (v : Visible) (out : Snapshot)
    → Shows (IsComplete d) (elim v as (λ _. Outcome) [
      | found ↦ read_statements m d out
      | no_rows ↦ (record out { correlation = Correlation.unmatched }, some target_not_visible)
      | query_failed ↦ (record out { correlation = Correlation.unmatched }, some database_error)
    ])
read_visible-IsComplete m d found out = read_statements-IsComplete m d out
read_visible-IsComplete m d no_rows out = λ e t. absurd (ground (arith, e))
read_visible-IsComplete m d query_failed out = λ e t. absurd (ground (arith, e))

-- A snapshot that `Read` returns without an error and not as truncated has every row that the database
-- gave: the statements as they are, the calls, compiled statements and tables with their names trimmed.
pub read-IsComplete :
    (m : ℕ) (scope : Scope) (d : Database)
    → (read m scope d).1 ≡ none
    → (read m scope d).0.truncated ≡ false
    → IsComplete d (read m scope d).0
unfolding read read_visible
read-IsComplete m scope d =
    let P = Shows (IsComplete d) in
    if_rule P (not (is_positive scope.attachment_id) || is_negative scope.statement_id)
      (λ _ e t. absurd (ground (arith, e)))
      λ _.
        if_rule P (not d.connects || not d.begins) (λ _ e t. absurd (ground (arith, e)))
          λ _.
            option_rule P d.own (λ _ e t. absurd (ground (arith, e)))
              λ own _.
                if_rule P (same_int own scope.attachment_id) (λ _ e t. absurd (ground (arith, e)))
                  λ _. read_visible-IsComplete m d d.visible (empty scope)
