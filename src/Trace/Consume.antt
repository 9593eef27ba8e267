-- ===== src/Trace/Consume.antt =====
-- `consume`, `Feed`, `Flush` and `FlushFinished` (internal/traceparse/parser.go): the lines of a
-- Trace, the records they make up and the events that leave the parser.
use firebirdsql_otel.Common.{
  ℕ, ◌+◌, ◌%◌, Bool, true, false, ◌&&◌, ◌||◌, not, Option, none, some, List, [], ◌∷◌, ◌++◌, length,
  take, drop, leb, ltb, ◌==◌, within, if◌then◌else◌,
}
use firebirdsql_otel.Text.{Bytes, codes, equal, has_prefix, is_empty, trim_space, Platform}
use firebirdsql_otel.Sql.Describe.{one_of, leading_operation}
use firebirdsql_otel.Sql.Framing.{lexically_complete, statement_may_end}
use firebirdsql_otel.Trace.Stacks.{Kind, statement, procedure, function, trigger, lifecycle}
use firebirdsql_otel.Trace.Event.{
  Phase, start, finish, trace_init, trace_fini, heuristic, Event, Parser, new_event, gap_event,
  gap_state,
}
use firebirdsql_otel.Trace.Patterns.{Groups, header, counts_records, parse_digits, is_match}
use firebirdsql_otel.Trace.Rows.{parameter_metadata, performance_line}
use firebirdsql_otel.Trace.Body.{max_record, Result, gap, consume_body}
use firebirdsql_otel.Trace.Correlate.{finish_record}

-- The call also returns the events that came before.
abbrev pub behind : List Event → Result → Result
behind out r = (r.0, out ++ r.1)

abbrev pub to_list : Option Event → List Event
to_list none = []
to_list (some e) = e ∷ []

-- `if p.stackOverflow { p.stackOverflow = false; out = append(out, p.Gap()) }`
unfoldable pub report_overflow : Parser → Result
report_overflow p = if p.stack_overflow then gap (record p { stack_overflow = false }) else (p, [])

-- The kind and the phase of a header, none for an event that is not supported.
unfoldable pub kind_and_phase : Bytes → Option (Kind × Phase)
unfolding equal
kind_and_phase s =
    if equal s (codes "EXECUTE_STATEMENT_START")
    then some (statement, start)
    else if equal s (codes "EXECUTE_STATEMENT_FINISH")
    then some (statement, finish)
    else if equal s (codes "EXECUTE_PROCEDURE_START")
    then some (procedure, start)
    else if equal s (codes "EXECUTE_PROCEDURE_FINISH")
    then some (procedure, finish)
    else if equal s (codes "EXECUTE_FUNCTION_START")
    then some (function, start)
    else if equal s (codes "EXECUTE_FUNCTION_FINISH")
    then some (function, finish)
    else if equal s (codes "EXECUTE_TRIGGER_START")
    then some (trigger, start)
    else if equal s (codes "EXECUTE_TRIGGER_FINISH")
    then some (trigger, finish)
    else if equal s (codes "TRACE_INIT")
    then some (lifecycle, trace_init)
    else if equal s (codes "TRACE_FINI")
    then some (lifecycle, trace_fini)
    else none

field_at : Bytes → ℕ → ℕ → ℕ
field_at s from n = parse_digits (take n (drop from s))

abbrev leap_year : ℕ → Bool
leap_year y = y % 4 == 0 && (not (y % 100 == 0) || y % 400 == 0)

abbrev days_in : ℕ → ℕ → ℕ
days_in m y =
    if m == 2
    then (if leap_year y then 29 else 28)
    else if m == 4 || (m == 6 || (m == 9 || m == 11))
    then 30
    else 31

-- `time.Parse("2006-01-02T15:04:05.999999999", s)` succeeds on a text of the form that the header
-- has: a date and a time in range. Of the digits of a second's fraction it takes any number.
unfoldable pub is_timestamp : Bytes → Bool
unfolding field_at parse_digits
is_timestamp s =
    let month = field_at s 5 2 in
    within 1 12 month
    && (within 1 (days_in month (field_at s 0 4)) (field_at s 8 2)
        && (ltb (field_at s 11 2) 24 && (ltb (field_at s 14 2) 60 && ltb (field_at s 17 2) 60)))

-- A parser behind a gap that the header is the reason of.
abbrev named_gap : Parser → Bytes → Result
named_gap p name = (gap_state p, record gap_event { name = name } ∷ [])

open_record : Parser → Bytes → Option (Kind × Phase) → Result
unfolding is_timestamp
open_record p timestamp none = named_gap p (codes "unsupported_event")
open_record p timestamp (some (kind, phase)) =
    if is_timestamp timestamp
    then (
      record p {
        current = some (new_event heuristic kind phase timestamp p.incomplete);
        record_bytes = 0;
        table_width = 0;
        metadata_header = true;
        plan_section = false;
        performance_section = false;
      },
      [],
    )
    else named_gap p (codes "invalid_timestamp")

abbrev with_current : Parser → Event → Parser
with_current p e = record p { current = some e }

module _ (u : Platform) where
  -- `if m := header.FindStringSubmatch(line); m != nil`
  unfoldable pub consume_header : Parser → Groups → Result
  unfolding finish_record report_overflow open_record kind_and_phase
  consume_header p m =
      let (q, e) = finish_record u p in
      let r = report_overflow q in
      behind (to_list e ++ r.1) (open_record r.0 m.first (kind_and_phase (trim_space m.second)))

  is_complete : Bytes → Bool
  unfolding lexically_complete
  is_complete s = elim (lexically_complete u s) as (λ _. Bool) [ none ↦ false | some b ↦ b ]

  may_end : Bytes → Bool
  unfolding statement_may_end
  may_end s = elim (statement_may_end u s) as (λ _. Bool) [ none ↦ false | some b ↦ b ]

  -- `terminalPerformanceOperation`
  unfoldable pub terminal_performance_operation : Bytes → Bool
  terminal_performance_operation raw =
      one_of
        (codes "CREATE"
          ∷ codes "ALTER"
          ∷ codes "DROP"
          ∷ codes "RECREATE"
          ∷ codes "DECLARE"
          ∷ codes "GRANT"
          ∷ codes "REVOKE"
          ∷ codes "COMMENT"
          ∷ codes "COMMIT"
          ∷ codes "ROLLBACK"
          ∷ codes "SAVEPOINT"
          ∷ codes "RELEASE"
          ∷ codes "SET"
          ∷ codes "EXECUTE BLOCK"
          ∷ codes "EXECUTE PROCEDURE"
          ∷ [])
        (leading_operation u raw)

  -- Whether a line closes the SQL at hand.
  unfoldable pub is_boundary : Parser → Bytes → Bool
  unfolding is_complete may_end
  is_boundary p line =
      let trim = trim_space line in
      let ends = is_complete p.sql && may_end p.sql in
      is_match (header line)
      || (has_prefix (codes "^^^") trim
          || ((ends
                && ((p.sql_separated
                      && (parameter_metadata u line || equal trim (codes "returns:")))
                    || counts_records trim))
              || (ends
                  && (is_match (performance_line trim) && terminal_performance_operation p.sql))))

  -- The line is a line of the SQL at hand.
  unfoldable pub collect_line : Parser → Bytes → Result
  unfolding is_complete
  collect_line p line =
      let size = p.record_bytes + length line + 1 in
      let counted = record p { record_bytes = size } in
      if not (leb size max_record) || not (leb (length p.sql + length line + 1) max_record)
      then gap counted
      else (
        record counted {
          sql = p.sql ++ (line ++ b'\n' ∷ []);
          sql_separated = is_empty (trim_space line) && is_complete p.sql;
        },
        [],
      )

  -- The line is read as a line of a record.
  consume_record : Parser → Bytes → Option Event → Result
  unfolding consume_body
  consume_record p line none = (p, [])
  consume_record p line (some e) =
      let size = p.record_bytes + length line + 1 in
      let counted = record p { record_bytes = size } in
      if not (leb size max_record) then gap counted else consume_body u counted e line

  consume_outside : Parser → Bytes → Option Groups → Result
  unfolding consume_record consume_header
  consume_outside p line (some m) = consume_header p m
  consume_outside p line none = consume_record p line p.current

  -- `consume`
  unfoldable pub consume : Parser → Bytes → Result
  unfolding consume_outside is_boundary collect_line is_complete
  consume p line =
      if p.collect_sql
      then (if not (is_boundary p line) || not (is_complete p.sql)
          then collect_line p line
          else consume_outside (record p { collect_sql = false; sql_separated = false }) line
              (header line))
      else consume_outside p line (header line)
