-- ===== src/Trace/Event.antt =====
-- The data of the trace parser (internal/traceparse/parser.go). The fixed words that `Kind`,
-- `Phase`, `Correlation` and `PlanFormat` hold are constructors. An `int64` that is read from a run of
-- digits is not negative, and is a natural number here; the counters of a table may have a sign.
use firebirdsql_otel.Common.{ℕ, Bool, true, false, Option, none, List, []}
use firebirdsql_otel.Common.Int.{ℤ}
use firebirdsql_otel.Text.{Bytes, codes}
use firebirdsql_otel.Trace.Stacks.{Stacks, Kind, gap}

pub record Table : Type 0 where
  pub name : Bytes
  pub natural : ℤ
  pub index : ℤ
  pub update : ℤ
  pub insert : ℤ
  pub delete : ℤ
  pub backout : ℤ
  pub purge : ℤ
  pub expunge : ℤ

pub data Phase : Type 0 where
  no_phase start finish trace_init trace_fini ready : Phase

pub data Correlation : Type 0 where
  heuristic unmatched : Correlation

pub data PlanFormat : Type 0 where
  no_format classic explained : PlanFormat

pub record Event : Type 0 where
  pub scope_token : Bytes
  pub source : Bytes
  pub correlation : Correlation
  pub kind : Kind
  pub phase : Phase
  pub name : Bytes
  pub sql : Bytes
  pub plan : Bytes
  pub plan_format : PlanFormat
  pub timestamp : Bytes
  pub attachment_id : ℕ
  pub transaction_id : ℕ
  pub statement_id : ℕ
  pub sequence : ℕ
  pub parent_sequence : ℕ
  pub duration_ms : ℕ
  pub reads : ℕ
  pub writes : ℕ
  pub fetches : ℕ
  pub marks : ℕ
  pub tables : List Table
  pub incomplete : Bool

-- An event with the fields that are not given at their zero values.
abbrev pub new_event : Correlation → Kind → Phase → Bytes → Bool → Event
new_event correlation kind phase timestamp incomplete = record {
  scope_token = [];
  source = codes "trace";
  correlation = correlation;
  kind = kind;
  phase = phase;
  name = [];
  sql = [];
  plan = [];
  plan_format = no_format;
  timestamp = timestamp;
  attachment_id = 0;
  transaction_id = 0;
  statement_id = 0;
  sequence = 0;
  parent_sequence = 0;
  duration_ms = 0;
  reads = 0;
  writes = 0;
  fetches = 0;
  marks = 0;
  tables = [];
  incomplete = incomplete;
}

pub record Parser : Type 0 where
  pub line : Bytes
  pub skip_line : Bool
  pub current : Option Event
  pub sql : Bytes
  pub collect_sql : Bool
  pub sql_separated : Bool
  pub metadata_header : Bool
  pub plan_section : Bool
  pub performance_section : Bool
  pub table_width : ℕ
  pub record_bytes : ℕ
  pub sequence : ℕ
  pub stacks : Stacks
  pub incomplete : Bool
  pub stack_overflow : Bool

-- `New`
unfoldable pub new : Parser
new = record {
  line = [];
  skip_line = false;
  current = none;
  sql = [];
  collect_sql = false;
  sql_separated = false;
  metadata_header = false;
  plan_section = false;
  performance_section = false;
  table_width = 0;
  record_bytes = 0;
  sequence = 0;
  stacks = [];
  incomplete = false;
  stack_overflow = false;
}

abbrev pub gap_event : Event
gap_event = new_event unmatched gap no_phase [] true

-- `Gap`: the state behind it; the event that it returns is `gap_event`.
unfoldable pub gap_state : Parser → Parser
gap_state p = record p {
  incomplete = true;
  stacks = [];
  current = none;
  sql = [];
  collect_sql = false;
  sql_separated = false;
}
