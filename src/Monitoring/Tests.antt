-- ===== src/Monitoring/Tests.antt =====
-- A snapshot of one statement, and the theorems of monitoring/reader.go at it.
use firebirdsql_otel.Common.{◌≡◌, refl, true, false, none, some, [], ◌∷◌}
use firebirdsql_otel.Common.Int.{pos}
use firebirdsql_otel.Text.{codes}
use firebirdsql_otel.Monitoring.{Scope, Statement, TableStats, Reply, found, Database, read}
use firebirdsql_otel.Monitoring.Bounds.{IsBounded, read-IsBounded}
use firebirdsql_otel.Monitoring.Complete.{IsComplete, read-IsComplete}

abbrev scope : Scope
scope = record { attachment_id = pos 3; statement_id = pos 0 }

abbrev running : Statement
running = record {
  id = pos 8;
  attachment_id = pos 3;
  transaction_id = none;
  state = pos 1;
  compiled_id = none;
}

abbrev table : TableStats
table = record {
  table = codes "T  ";
  stat_group = pos 1;
  seq_reads = pos 4;
  index_reads = pos 0;
  inserts = pos 0;
  updates = pos 0;
  deletes = pos 0;
}

abbrev nothing : {A : Type 0} → Reply A
nothing = record { rows = some []; ends_badly = false }

abbrev database : Database
database = record {
  connects = true;
  begins = true;
  own = some (pos 4);
  visible = found;
  statements = record { rows = some (some running ∷ []); ends_badly = false };
  calls = nothing;
  compiled = nothing;
  tables = record { rows = some (some table ∷ []); ends_badly = false };
  commits = true;
}

read-IsBounded_example : IsBounded 2 (read 2 scope database).0
read-IsBounded_example = read-IsBounded 2 scope database

no_error : (read 2 scope database).1 ≡ none
unfolding read
no_error = refl

not_truncated : (read 2 scope database).0.truncated ≡ false
unfolding read
not_truncated = refl

read-IsComplete_example : IsComplete database (read 2 scope database).0
read-IsComplete_example = read-IsComplete 2 scope database no_error not_truncated
