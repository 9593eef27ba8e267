-- ===== src/Spans/Collect/Tests.antt =====
-- One statement of one attachment, from its marker to its export, and the theorems of `consume`
-- (trace/spans.go) at it.
use firebirdsql_otel.Common.{
  ℕ, ◌-◌, ◌≤◌, ◌≡◌, refl, Bool, true, false, Option, some, none, List, [], ◌∷◌, ◌++◌, arith,
}
use firebirdsql_otel.Text.{Bytes, codes}
use firebirdsql_otel.Trace.Stacks.{statement}
use firebirdsql_otel.Trace.Event.{Event, new_event, start, finish, heuristic}
use firebirdsql_otel.Spans.{Contexts, Scope, find_scope, second}
use firebirdsql_otel.Spans.Bounds.{binding}
use firebirdsql_otel.Spans.Collect.{Tree, Collector}
use firebirdsql_otel.Spans.Collect.Run.{Input, calling, received, run}
use firebirdsql_otel.Spans.Collect.Sampled.{IsAdmitted}
use firebirdsql_otel.Spans.Collect.Invariant.{IsWell}
use firebirdsql_otel.Spans.Collect.Receive.{run-IsWell}
use firebirdsql_otel.Spans.Collect.Exports.{done, run-done}
use firebirdsql_otel.Spans.Collect.Counts.{running, counted}
use firebirdsql_otel.Spans.Collect.Active.{IsCounted, run-IsCounted}

-- a span context is its sampling decision
abbrev contexts : Contexts
contexts = record { SpanContext = Bool; is_valid = λ _. true; is_sampled = λ b. b }

abbrev waiting : Scope contexts
waiting = record { parent = none; registered = 5; marker_completed = none }

abbrev empty : Collector contexts
empty = record {
  collapse = false;
  heap = [];
  books = record {
    runtime = record {
      max_pending = 2;
      retention = second;
      running = true;
      registrations = (codes "0a", waiting) ∷ [];
    };
    pending = [];
    frames = [];
    active = [];
    active_by_attachment = [];
    dropped = [];
  };
  ending = none;
}

abbrev parse_time : Bytes → Option ℕ
parse_time s = some 7

abbrev marker : Event
marker = record (new_event heuristic statement finish [] false) {
  scope_token = codes "0a";
  sequence = 1;
  attachment_id = 3;
}

abbrev opened : Event
opened = record (new_event heuristic statement start [] false) { sequence = 2; attachment_id = 3 }

abbrev ended : Event
ended = record (new_event heuristic statement finish [] false) { sequence = 2; attachment_id = 3 }

abbrev inputs : List (Input contexts)
inputs = received 10 marker ∷ received 11 opened ∷ received 12 ended ∷ []

abbrev tree : Tree contexts
tree = record {
  id = 0;
  token = codes "0a";
  scope = waiting;
  anchor = 7;
  nodes = record { start = opened; finish = some ended } ∷ [];
  complete = true;
  omitted = false;
  live = true;
  exports = 0;
}

after_inputs : (run parse_time inputs empty).heap ≡ tree ∷ []
unfolding run find_scope
after_inputs = refl

empty-IsWell : IsWell 2 empty
unfolding IsWell IsAdmitted
empty-IsWell =
    (tt, record { kept = (refl, (refl, tt)); framed = omega arith; marked = omega arith })

run-IsWell_example : IsWell 2 (run parse_time inputs empty)
run-IsWell_example = run-IsWell parse_time 2 inputs empty empty-IsWell

empty-IsCounted : IsCounted empty.books
unfolding IsCounted running counted
empty-IsCounted a = omega arith

run-IsCounted_example : IsCounted (run parse_time inputs empty).books
run-IsCounted_example = run-IsCounted parse_time inputs empty empty-IsCounted

waiting_found :
    find_scope (codes "0a") (run parse_time inputs empty).books.runtime.registrations ≡ some waiting
unfolding run find_scope
waiting_found = refl

fresh : 13 - waiting.registered ≤ (run parse_time inputs empty).books.runtime.retention
unfolding run find_scope
fresh = omega arith

run-done_example :
    (ts : List (Tree contexts)) × (us : List (Tree contexts)) × ((run parse_time
        (calling (binding (codes "0a") true) ∷ Input.bound 13 ∷ [])
        (run parse_time inputs empty)).heap
      ≡ ts ++ done tree (record waiting { parent = some true }) ∷ us)
run-done_example =
    run-done parse_time 13 true tree waiting [] [] (run parse_time inputs empty) after_inputs tt
      refl waiting_found refl fresh
