-- ===== src/Metadata/Tests.antt =====
-- A procedure with one dependency, the interleaving of a read with `Invalidate`, and the theorems of
-- metadata/reader.go at them.
use firebirdsql_otel.Common.{true, false, some, [], ◌∷◌}
use firebirdsql_otel.Common.Int.{pos}
use firebirdsql_otel.Text.{codes}
use firebirdsql_otel.Metadata.{Object, Edge, dependency, object_scope, Graph, Limits, Row}
use firebirdsql_otel.Metadata.Reading.{Transaction}
use firebirdsql_otel.Metadata.Cache.{Reader, Ticket, keep, System, end_read}

abbrev limits : Limits
limits = record { ttl = 60; max_entries = 2; max_nodes = 8; max_depth = 3 }

abbrev root : Object
root = record { name = codes "P"; kind = pos 5; package_name = [] }

abbrev row : Row
row = record { name = codes "T  "; kind = pos 0; field = codes "A"; package_name = [] }

-- Every object depends on the table T.
abbrev transaction : Transaction
transaction = record {
  begins = true;
  commits = true;
  database = λ _ _. record { rows = some (some row ∷ []); ends_badly = false };
}

abbrev table : Object
table = record { name = codes "T"; kind = pos 0; package_name = [] }

abbrev link : Object → Edge
link o = record { from = o; to = table; field = codes "A"; kind = dependency }

abbrev whole : Graph
whole = record {
  scope = object_scope;
  root = root;
  nodes = root ∷ table ∷ [];
  edges = link root ∷ link table ∷ [];
  truncated = false;
}

abbrev graph : Graph
graph = record {
  scope = object_scope;
  root = root;
  nodes = root ∷ [];
  edges = [];
  truncated = false;
}

abbrev before : Reader
before = record { version = codes "1"; cache = []; generation = 0 }

abbrev after : Reader
after = record { version = codes "2"; cache = []; generation = 1 }

abbrev ticket : Ticket
ticket = record { key = record { version = codes "1"; root = root }; generation = 0 }

-- The read began in front of `Invalidate` and commits behind it.
abbrev late : System
late = record (end_read 0 (record { reader = after; reads = ticket ∷ [] })) {
  reader = keep limits 7 ticket graph after;
}
