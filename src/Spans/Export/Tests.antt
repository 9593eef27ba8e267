-- ===== src/Spans/Export/Tests.antt =====
-- A statement that runs a procedure, and the theorem of `exportTree` (trace/spans.go) at it.
use firebirdsql_otel.Common.{
  ℕ, ◌≤◌, ◌≡◌, refl, true, false, Option, none, some, [], ◌∷◌, length, map,
}
use firebirdsql_otel.Text.{Bytes, codes}
use firebirdsql_otel.Trace.Stacks.{Kind, statement, procedure}
use firebirdsql_otel.Trace.Event.{new_event, start, finish, heuristic}
use firebirdsql_otel.Spans.{Contexts}
use firebirdsql_otel.Spans.Collect.{Node, Tree}
use firebirdsql_otel.Spans.Export.{max_spans, export_tree}
use firebirdsql_otel.Spans.Export.Parents.{IsForest, export_tree-IsForest}

-- a span context is a number, that of a started span the sequence of its event
abbrev contexts : Contexts
contexts = record { SpanContext = ℕ; is_valid = λ _. true; is_sampled = λ _. true }

abbrev node : Kind → ℕ → ℕ → Node
node kind sequence parent = record {
  start = record (new_event heuristic kind start [] false) {
    sequence = sequence;
    parent_sequence = parent;
  };
  finish = some (record (new_event heuristic kind finish [] false) { sequence = sequence });
}

abbrev tree : Tree contexts
tree = record {
  id = 0;
  token = codes "0a";
  scope = record { parent = some 100; registered = 5; marker_completed = none };
  anchor = 7;
  nodes = node statement 1 0 ∷ node procedure 2 1 ∷ [];
  complete = true;
  omitted = false;
  live = false;
  exports = 1;
}

abbrev parse_time : Bytes → Option ℕ
parse_time s = some 7

abbrev context_of : Option ℕ → Node → ℕ
context_of parent n = n.start.sequence

both :
    map (λ s. s.parent) (export_tree {o = contexts} parse_time context_of false tree).spans
    ≡ some 1 ∷ some 100 ∷ []
unfolding export_tree
both = refl

export_tree-IsForest_example :
    (length (export_tree {o = contexts} parse_time context_of false tree).spans ≤ max_spans)
    × IsForest (some 100) (export_tree {o = contexts} parse_time context_of false tree).spans
export_tree-IsForest_example = export_tree-IsForest parse_time context_of false tree
