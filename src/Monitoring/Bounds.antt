-- ===== src/Monitoring/Bounds.antt =====
-- The rows of a snapshot and the bound of the reader (monitoring/reader.go).
use firebirdsql_otel.Common.{
  ℕ, zero, suc, ◌≤◌, ◌≡◌, refl, ap, ◌∙◌, Bool, false, ◌&&◌, ◌||◌, not, Option, none, some, List, [],
  ◌∷◌, map, length, if_rule, option_rule, arith,
}
use firebirdsql_otel.Common.Int.{same_int}
use firebirdsql_otel.Text.{is_empty}
use firebirdsql_otel.Monitoring.{
  Scope, Snapshot, Reply, Scanned, scan_loop, scan, Database, Visible, found, no_rows, query_failed,
  is_positive, is_negative, trim_call, trim_compiled, trim_table, Outcome, Correlation,
  target_not_visible, database_error, empty, read_tables, read_compiled, read_calls,
  read_statements, read_visible, read,
}

length-map : {A B : Type 0} (f : A → B) (xs : List A) → length (map f xs) ≡ length xs
length-map f [] = refl
length-map f (x ∷ xs) = ap suc (length-map f xs)

length-scan_loop :
    {A : Type 0} (m : ℕ) (bad : Bool) (rs : List (Option A)) → length (scan_loop m bad rs).rows ≤ m
unfolding scan_loop
length-scan_loop m bad [] = omega arith
length-scan_loop zero bad (r ∷ rs) = omega arith
length-scan_loop (suc m) bad (none ∷ rs) = omega arith
length-scan_loop (suc m) bad (some x ∷ rs) = omega (arith, length-scan_loop m bad rs)

length-scan : {A : Type 0} (m : ℕ) (r : Reply A) → length (scan m r).rows ≤ m
unfolding scan
length-scan {A} m r =
    option_rule (λ (s : Scanned A). length s.rows ≤ m) r.rows (λ _. omega arith)
      λ rows _. length-scan_loop m r.ends_badly rows

scan_loop-map :
    {A : Type 0} (m : ℕ) (bad : Bool) (rs : List (Option A))
    → (scan_loop m bad rs).failed ≡ false
    → (scan_loop m bad rs).more ≡ false
    → rs ≡ map some (scan_loop m bad rs).rows
unfolding scan_loop
scan_loop-map m bad [] h k = refl
scan_loop-map zero bad (r ∷ rs) h k = ground arith
scan_loop-map (suc m) bad (none ∷ rs) h k = ground arith
scan_loop-map (suc m) bad (some x ∷ rs) h k = ap (◌∷◌ (some x)) (scan_loop-map m bad rs h k)

-- A scan that fails not and leaves no row has them all.
pub scan-map :
    {A : Type 0} (m : ℕ) (r : Reply A)
    → (scan m r).failed ≡ false
    → (scan m r).more ≡ false
    → r.rows ≡ some (map some (scan m r).rows)
unfolding scan
scan-map {A} m r h k =
    let P : Scanned A → Type 0 =
      λ s. s.failed ≡ false → s.more ≡ false → r.rows ≡ some (map some s.rows) in
    option_rule P r.rows (λ _ f g. ground arith)
      (λ rows e f g. e ∙ ap some (scan_loop-map m r.ends_badly rows f g)) h k

-- Every list of the snapshot is within the bound.
pub record IsBounded (m : ℕ) (out : Snapshot) : Type 0 where
  statements : length out.statements ≤ m
  calls : length out.calls ≤ m
  compiled : length out.compiled ≤ m
  tables : length out.tables ≤ m

empty-IsBounded : (m : ℕ) (scope : Scope) → IsBounded m (empty scope)
empty-IsBounded m scope = record {
  statements = omega arith;
  calls = omega arith;
  compiled = omega arith;
  tables = omega arith;
}

read_tables-IsBounded :
    (m : ℕ) (d : Database) (out : Snapshot) → IsBounded m out → IsBounded m (read_tables m d out).0
unfolding read_tables
read_tables-IsBounded m d out b =
    let s = scan m d.tables in
    let out' : Snapshot = record out {
      tables = map trim_table s.rows;
      truncated = out.truncated || s.more;
    } in
    let b' : IsBounded m out' = record {
      statements = b.statements;
      calls = b.calls;
      compiled = b.compiled;
      tables = omega (arith, length-map trim_table s.rows, length-scan m d.tables);
    } in
    if_rule (λ (x : Outcome). IsBounded m x.0) (s.failed || not d.commits) (λ _. b') λ _. b'

read_compiled-IsBounded :
    (m : ℕ) (d : Database) (out : Snapshot)
    → IsBounded m out
    → IsBounded m (read_compiled m d out).0
unfolding read_compiled
read_compiled-IsBounded m d out b =
    let s = scan m d.compiled in
    let out' : Snapshot = record out {
      compiled = map trim_compiled s.rows;
      truncated = out.truncated || s.more;
    } in
    let b' : IsBounded m out' = record {
      statements = b.statements;
      calls = b.calls;
      compiled = omega (arith, length-map trim_compiled s.rows, length-scan m d.compiled);
      tables = b.tables;
    } in
    if_rule (λ (x : Outcome). IsBounded m x.0) s.failed (λ _. b')
      λ _. read_tables-IsBounded m d out' b'

read_calls-IsBounded :
    (m : ℕ) (d : Database) (out : Snapshot) → IsBounded m out → IsBounded m (read_calls m d out).0
unfolding read_calls
read_calls-IsBounded m d out b =
    let s = scan m d.calls in
    let out' : Snapshot = record out {
      calls = map trim_call s.rows;
      truncated = out.truncated || s.more;
    } in
    let b' : IsBounded m out' = record {
      statements = b.statements;
      calls = omega (arith, length-map trim_call s.rows, length-scan m d.calls);
      compiled = b.compiled;
      tables = b.tables;
    } in
    if_rule (λ (x : Outcome). IsBounded m x.0) s.failed (λ _. b')
      λ _. read_compiled-IsBounded m d out' b'

read_statements-IsBounded :
    (m : ℕ) (d : Database) (out : Snapshot)
    → IsBounded m out
    → IsBounded m (read_statements m d out).0
unfolding read_statements
read_statements-IsBounded m d out b =
    let s = scan m d.statements in
    let out' : Snapshot = record out { statements = s.rows; truncated = out.truncated || s.more } in
    let b' : IsBounded m out' = record {
      statements = length-scan m d.statements;
      calls = b.calls;
      compiled = b.compiled;
      tables = b.tables;
    } in
    let P : Outcome → Type 0 = λ x. IsBounded m x.0 in
    if_rule P s.failed (λ _. b')
      λ _.
        if_rule P (is_positive out.scope.statement_id && is_empty s.rows)
          (λ _. record {
            statements = b'.statements;
            calls = b'.calls;
            compiled = b'.compiled;
            tables = b'.tables;
          })
          λ _. read_calls-IsBounded m d out' b'

read_visible-IsBounded :
    (m : ℕ) (d : Database) (v : Visible) (out : Snapshot)
    → IsBounded m out
    → IsBounded m
        (elim v as (λ _. Outcome) [
          | found ↦ read_statements m d out
          | no_rows ↦ (record out { correlation = Correlation.unmatched }, some target_not_visible)
          | query_failed ↦ (record out { correlation = Correlation.unmatched }, some database_error)
        ]).0
read_visible-IsBounded m d found out b = read_statements-IsBounded m d out b
read_visible-IsBounded m d no_rows out b = record {
  statements = b.statements;
  calls = b.calls;
  compiled = b.compiled;
  tables = b.tables;
}
read_visible-IsBounded m d query_failed out b = record {
  statements = b.statements;
  calls = b.calls;
  compiled = b.compiled;
  tables = b.tables;
}

-- Whatever the database answers, with an error or without, `Read` of a reader for m rows returns at most
-- m statements, m calls, m compiled statements and m tables.
pub read-IsBounded : (m : ℕ) (scope : Scope) (d : Database) → IsBounded m (read m scope d).0
unfolding read read_visible
read-IsBounded m scope d =
    let P : Outcome → Type 0 = λ x. IsBounded m x.0 in
    let b = empty-IsBounded m scope in
    if_rule P (not (is_positive scope.attachment_id) || is_negative scope.statement_id) (λ _. b)
      λ _.
        if_rule P (not d.connects || not d.begins) (λ _. b)
          λ _.
            option_rule P d.own (λ _. b)
              λ own _.
                if_rule P (same_int own scope.attachment_id) (λ _. b)
                  λ _. read_visible-IsBounded m d d.visible (empty scope) b
