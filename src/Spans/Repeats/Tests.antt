-- ===== src/Spans/Repeats/Tests.antt =====
-- Three calls of one procedure, and the theorem of `repeatedLeaves` (trace/spans.go) at them.
use firebirdsql_otel.Common.{ℕ, ◌≡◌, refl, Bool, true, false, Option, none, some, [], ◌∷◌, All}
use firebirdsql_otel.Text.{Bytes, codes}
use firebirdsql_otel.Trace.Stacks.{Kind, statement, procedure}
use firebirdsql_otel.Trace.Event.{new_event, start, finish, heuristic}
use firebirdsql_otel.Spans.{Contexts}
use firebirdsql_otel.Spans.Collect.{Node, Tree}
use firebirdsql_otel.Spans.Repeats.{rest_of, repeated_leaves}
use firebirdsql_otel.Spans.Repeats.Leaves.{HasLeaf, repeated_leaves-HasLeaf}

abbrev contexts : Contexts
contexts = record { SpanContext = Bool; is_valid = λ _. true; is_sampled = λ b. b }

abbrev node : Kind → ℕ → ℕ → Node
node kind sequence parent = record {
  start = record (new_event heuristic kind start [] false) {
    sequence = sequence;
    parent_sequence = parent;
  };
  finish = some (record (new_event heuristic kind finish [] false) { sequence = sequence });
}

abbrev tree : Tree contexts
tree = record {
  id = 0;
  token = codes "0a";
  scope = record { parent = some true; registered = 5; marker_completed = none };
  anchor = 7;
  nodes = node statement 1 0 ∷ node procedure 2 1 ∷ node procedure 3 1 ∷ node procedure 4 1 ∷ [];
  complete = true;
  omitted = false;
  live = false;
  exports = 1;
}

abbrev parse_time : Bytes → Option ℕ
parse_time s = some 7

three : (repeated_leaves parse_time true tree).0 ≡ 2 ∷ 3 ∷ 4 ∷ []
unfolding repeated_leaves
three = refl

repeated_leaves-HasLeaf_example :
    All
      (HasLeaf parse_time tree.nodes (rest_of tree.nodes))
      (repeated_leaves parse_time true tree).0
repeated_leaves-HasLeaf_example = repeated_leaves-HasLeaf parse_time true tree
