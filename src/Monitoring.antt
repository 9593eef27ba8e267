-- ===== src/Monitoring.antt =====
-- The snapshots of monitoring/reader.go: `New`, `Read` and `scan`. What the database answers to each
-- query of the transaction is an argument, a row that `Scan` refuses is none. The texts of the
-- queries and the time of the snapshot are left out.
pub mod Bounds
pub mod Complete
mod Tests
use firebirdsql_otel.Common.{
  ℕ, zero, suc, Bool, true, false, ◌&&◌, ◌||◌, not, Option, none, some, List, [], ◌∷◌, map, length,
  leb, ltb, ◌==◌, within, if◌then◌else◌,
}
use firebirdsql_otel.Common.Int.{ℤ, pos, negsuc, same_int}
use firebirdsql_otel.Text.{Bytes, is_empty}
use firebirdsql_otel.Plan.{trim_right}

pub record Scope : Type 0 where
  pub attachment_id : ℤ
  pub statement_id : ℤ

pub record Statement : Type 0 where
  pub id : ℤ
  pub attachment_id : ℤ
  pub transaction_id : Option ℤ
  pub state : ℤ
  pub compiled_id : Option ℤ

pub record Call : Type 0 where
  pub id : ℤ
  pub statement_id : ℤ
  pub caller_id : Option ℤ
  pub name : Bytes
  pub package_name : Bytes
  pub object_type : Option ℤ
  pub line : Option ℤ
  pub column : Option ℤ

pub record CompiledStatement : Type 0 where
  pub id : ℤ
  pub name : Bytes
  pub package_name : Bytes
  pub object_type : Option ℤ

pub record TableStats : Type 0 where
  pub table : Bytes
  pub stat_group : ℤ
  pub seq_reads : ℤ
  pub index_reads : ℤ
  pub inserts : ℤ
  pub updates : ℤ
  pub deletes : ℤ

pub data Correlation : Type 0 where
  scoped unmatched : Correlation

pub record Snapshot : Type 0 where
  pub correlation : Correlation
  pub scope : Scope
  pub statements : List Statement
  pub calls : List Call
  pub compiled : List CompiledStatement
  pub tables : List TableStats
  pub truncated : Bool

pub data Failure : Type 0 where
  no_scope own_attachment target_not_visible statement_not_visible database_error : Failure

-- `New`: the bound of the rows, none where it is refused.
unfoldable pub new : Bool → ℤ → Option ℕ
new has_pool (negsuc n) = none
new has_pool (pos max_rows) =
    let m = if max_rows == 0 then 128 else max_rows in
    if not has_pool || not (within 1 4096 m) then none else some m

-- The rows of a query, or none where it fails; then whether `rows.Err` or `rows.Close` fail.
pub record Reply (A : Type 0) : Type 0 where
  pub rows : Option (List (Option A))
  pub ends_badly : Bool

-- The rows that were visited, whether there were more, and whether an error is returned.
pub record Scanned (A : Type 0) : Type 0 where
  pub rows : List A
  pub more : Bool
  pub failed : Bool

-- The loop of `scan`, with the number of rows that are still taken.
unfoldable pub scan_loop : {A : Type 0} → ℕ → Bool → List (Option A) → Scanned A
scan_loop m bad [] = record { rows = []; more = false; failed = bad }
scan_loop zero bad (r ∷ rs) = record { rows = []; more = true; failed = bad }
scan_loop (suc m) bad (none ∷ rs) = record { rows = []; more = false; failed = true }
scan_loop (suc m) bad (some x ∷ rs) = let s = scan_loop m bad rs in record s { rows = x ∷ s.rows }

-- `scan`
unfoldable pub scan : {A : Type 0} → ℕ → Reply A → Scanned A
unfolding scan_loop
scan {A = A} m r = elim r.rows as (λ _. Scanned A) [
  | none ↦ record { rows = []; more = false; failed = true }
  | some rows ↦ scan_loop m r.ends_badly rows
]

pub data Visible : Type 0 where
  found no_rows query_failed : Visible

-- What the database answers.
pub record Database : Type 0 where
  pub connects : Bool
  pub begins : Bool
  pub own : Option ℤ
  pub visible : Visible
  pub statements : Reply Statement
  pub calls : Reply Call
  pub compiled : Reply CompiledStatement
  pub tables : Reply TableStats
  pub commits : Bool

abbrev pub is_positive : ℤ → Bool
is_positive (pos zero) = false
is_positive (pos (suc n)) = true
is_positive (negsuc n) = false

abbrev pub is_negative : ℤ → Bool
is_negative (pos n) = false
is_negative (negsuc n) = true

-- `strings.TrimRight(s, " ")`
abbrev pub trim : Bytes → Bytes
trim s = trim_right (λ c. c == b' ') s

abbrev pub trim_call : Call → Call
trim_call x = record x { name = trim x.name; package_name = trim x.package_name }

abbrev pub trim_compiled : CompiledStatement → CompiledStatement
trim_compiled x = record x { name = trim x.name; package_name = trim x.package_name }

abbrev pub trim_table : TableStats → TableStats
trim_table x = record x { table = trim x.table }

abbrev pub empty : Scope → Snapshot
empty scope = record {
  correlation = scoped;
  scope = scope;
  statements = [];
  calls = [];
  compiled = [];
  tables = [];
  truncated = false;
}

abbrev pub Outcome : Type 0
Outcome = Snapshot × Option Failure

-- The rest of `Read`, from each of its queries on.
unfoldable pub read_tables : ℕ → Database → Snapshot → Outcome
unfolding scan
read_tables m d out =
    let s = scan m d.tables in
    let out' : Snapshot = record out {
      tables = map trim_table s.rows;
      truncated = out.truncated || s.more;
    } in
    if s.failed || not d.commits then (out', some database_error) else (out', none)

unfoldable pub read_compiled : ℕ → Database → Snapshot → Outcome
unfolding scan read_tables
read_compiled m d out =
    let s = scan m d.compiled in
    let out' : Snapshot = record out {
      compiled = map trim_compiled s.rows;
      truncated = out.truncated || s.more;
    } in
    if s.failed then (out', some database_error) else read_tables m d out'

unfoldable pub read_calls : ℕ → Database → Snapshot → Outcome
unfolding scan read_compiled
read_calls m d out =
    let s = scan m d.calls in
    let out' : Snapshot = record out {
      calls = map trim_call s.rows;
      truncated = out.truncated || s.more;
    } in
    if s.failed then (out', some database_error) else read_compiled m d out'

unfoldable pub read_statements : ℕ → Database → Snapshot → Outcome
unfolding scan read_calls
read_statements m d out =
    let s = scan m d.statements in
    let out' : Snapshot = record out { statements = s.rows; truncated = out.truncated || s.more } in
    if s.failed
    then (out', some database_error)
    else if is_positive out.scope.statement_id && is_empty s.rows
    then (record out' { correlation = unmatched }, some statement_not_visible)
    else read_calls m d out'

unfoldable pub read_visible : ℕ → Database → Snapshot → Outcome
unfolding read_statements
read_visible m d out = elim d.visible as (λ _. Outcome) [
  | found ↦ read_statements m d out
  | no_rows ↦ (record out { correlation = unmatched }, some target_not_visible)
  | query_failed ↦ (record out { correlation = unmatched }, some database_error)
]

-- `Read`
unfoldable pub read : ℕ → Scope → Database → Outcome
unfolding read_visible
read m scope d =
    let out = empty scope in
    if not (is_positive scope.attachment_id) || is_negative scope.statement_id
    then (out, some no_scope)
    else if not d.connects || not d.begins
    then (out, some database_error)
    else elim d.own as (λ _. Outcome) [
      | none ↦ (out, some database_error)
      | some own ↦
          if same_int own scope.attachment_id
          then (out, some own_attachment)
          else read_visible m d out
    ]
