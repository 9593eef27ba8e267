-- ===== src/Trace/Body.antt =====
-- The lines of a record behind its header (`consume` in internal/traceparse/parser.go). Each part
-- returns none where its condition does not hold, and the next part is tried.
use firebirdsql_otel.Common.{
  ℕ, ◌+◌, Bool, true, false, ◌&&◌, ◌||◌, not, Option, none, some, List, [], ◌∷◌, ◌++◌, length, drop,
  leb, ltb, ◌==◌, if◌then◌else◌,
}
use firebirdsql_otel.Common.Int.{pos}
use firebirdsql_otel.Text.{
  Bytes, codes, equal, has_prefix, trim_suffix, index, is_empty, trim_space, Platform,
}
use firebirdsql_otel.Sql.Describe.{max_output, analyze_unknown_dialect}
use firebirdsql_otel.Sql.Describe.Names.{identifier}
use firebirdsql_otel.Trace.Stacks.{Kind, statement, procedure, function, trigger}
use firebirdsql_otel.Trace.Event.{
  PlanFormat, classic, explained, no_format, Event, Parser, Table, gap_event, gap_state,
}
use firebirdsql_otel.Trace.Patterns.{
  Groups, attachment_line, transaction_line, statement_line, counts_records, parse_digits, Counter,
  ms, reads, writes, fetches, marks,
}
use firebirdsql_otel.Trace.Rows.{
  parameter_metadata, trigger_name, performance_line, explained_plan_line,
}
use firebirdsql_otel.Trace.Counters.{table_counter_row}
use firebirdsql_otel.Trace.Correlate.{same_kind}

-- MaxRecord
abbrev pub max_record : ℕ
max_record = 65536

-- What a call leaves: the parser and the events that it returns.
abbrev pub Result : Type 0
Result = Parser × List Event

abbrev pub gap : Parser → Result
gap p = (gap_state p, gap_event ∷ [])

-- The line changes the event at hand, and the call returns nothing.
abbrev updated : Parser → Event → Result
updated p e = (record p { current = some e }, [])

abbrev or_else : Option Result → Result → Result
or_else none r = r
or_else (some r) _ = r

abbrev when : Bool → Result → Option Result
when b r = if b then some r else none

attachment_part : Parser → Event → Option Groups → Option Result
attachment_part p e none = none
attachment_part p e (some m) =
    when (p.metadata_header && (not p.collect_sql && e.attachment_id == 0))
      (updated p (record e { attachment_id = parse_digits m.first }))

transaction_part : Parser → Event → Option Groups → Option Result
transaction_part p e none = none
transaction_part p e (some m) =
    when
      (p.metadata_header
        && (not p.collect_sql && (not (e.attachment_id == 0) && e.transaction_id == 0)))
      (updated p (record e { transaction_id = parse_digits m.first }))

statement_part : Parser → Event → Option Groups → Option Result
statement_part p e none = none
statement_part p e (some m) = when (p.metadata_header && same_kind e.kind statement) (
    updated (record p { metadata_header = false })
      (record e { statement_id = parse_digits m.first }))

module _ (u : Platform) where
  named : Event → Bytes → Event
  unfolding identifier
  named e name =
      if identifier u name then record e { name = name } else record e { incomplete = true }

  -- A line with the label of the kind of the event.
  label_part : Parser → Event → Bytes → Bytes → Kind → Option Result
  unfolding named trim_suffix trigger_name has_prefix
  label_part p e trim label kind =
      let rest = trim_suffix (codes ":") (drop (length label) trim) in
      let name = if same_kind kind trigger then trigger_name false rest else rest in
      when (p.metadata_header && (has_prefix label trim && same_kind kind e.kind))
        (updated (record p { metadata_header = false; collect_sql = false }) (named e name))

  -- The lines that open and close the sections of a record.
  section_part : Parser → Bytes → Option Result
  unfolding has_prefix
  section_part p trim =
      if has_prefix (codes "---") trim
      then some
          (record p { collect_sql = true; sql_separated = false; metadata_header = false }, [])
      else if has_prefix (codes "^^^") trim
      then some (record p { plan_section = true }, [])
      else when (is_empty trim) (record p { collect_sql = false; plan_section = false }, [])

  add_plan : Event → Bytes → Event
  add_plan e text =
      if is_empty e.plan
      then record e { plan = text; plan_format = classic }
      else if leb (length e.plan + 1 + length text) max_output
      then record e { plan = e.plan ++ (b'\n' ∷ text); plan_format = classic }
      else record e { plan_format = classic; incomplete = true }

  classic_part : Parser → Event → Bytes → Option Result
  unfolding add_plan has_prefix
  classic_part p e trim =
      let d = analyze_unknown_dialect u trim (pos 0) (pos 0) in
      when (p.plan_section && has_prefix (codes "PLAN ") trim) (
        updated (record p { collect_sql = false })
          (if d.valid && not (is_empty d.text)
            then add_plan e d.text
            else record e { incomplete = true }))

  abbrev is_explained : PlanFormat → Bool
  is_explained explained = true
  is_explained _ = false

  drop_plan : Parser → Event → Result
  drop_plan p e =
      updated (record p { plan_section = false })
        (record e { plan = []; plan_format = no_format; incomplete = true })

  explain : Parser → Event → Option Bytes → Result
  unfolding drop_plan
  explain p e none = drop_plan p e
  explain p e (some safe) =
      if leb (length e.plan + length safe + 1) max_output
      then updated p (record e {
        plan = if is_empty e.plan then safe else e.plan ++ (b'\n' ∷ safe);
        plan_format = explained;
      })
      else drop_plan p e

  explained_part : Parser → Event → Bytes → Option Result
  unfolding explain
  explained_part p e line =
      when
        (p.plan_section
          && (equal (trim_space line) (codes "Select Expression") || is_explained e.plan_format))
        (explain p e (explained_plan_line u line (is_empty e.plan)))

  -- The head of the table of counters: `strings.Contains` and `strings.Index`.
  head_at : Parser → Option ℕ → Option ℕ → Option Result
  head_at p (some _) (some width) = some (record p { table_width = width; collect_sql = false }, [])
  head_at p _ _ = none

  table_head_part : Parser → Bytes → Option Result
  unfolding head_at has_prefix index
  table_head_part p line =
      let found =
        head_at p (index (codes "   Natural     Index") line) (index (codes "   Natural") line) in
      if p.performance_section && has_prefix (codes "Table") line then found else none

  add_table : Event → Option Table → Event
  add_table e none = record e { incomplete = true }
  add_table e (some t) =
      if ltb (length e.tables) 64
      then record e { tables = e.tables ++ t ∷ [] }
      else record e { incomplete = true }

  table_part : Parser → Event → Bytes → Option Result
  unfolding add_table has_prefix
  table_part p e line =
      when
        (leb 32 p.table_width
          && (leb (p.table_width + 80) (length line) && not (has_prefix (codes "***") line)))
        (updated p (add_table e (table_counter_row line p.table_width)))

  discarded_part : Parser → Bytes → Option Result
  discarded_part p line =
      let trim = trim_space line in
      when (parameter_metadata u line || (equal trim (codes "returns:") || counts_records trim))
        (record p { collect_sql = false; plan_section = false }, [])

  set_counter : Event → Counter × ℕ → Event
  set_counter e (ms, v) = record e { duration_ms = v }
  set_counter e (reads, v) = record e { reads = v }
  set_counter e (writes, v) = record e { writes = v }
  set_counter e (fetches, v) = record e { fetches = v }
  set_counter e (marks, v) = record e { marks = v }

  set_counters : Event → List (Counter × ℕ) → Event
  unfolding set_counter
  set_counters e [] = e
  set_counters e (c ∷ cs) = set_counters (set_counter e c) cs

  performance_part : Parser → Event → Option (List (Counter × ℕ)) → Option Result
  unfolding set_counters
  performance_part p e none = none
  performance_part p e (some cs) = some (
      updated (record p { performance_section = true; plan_section = false; collect_sql = false })
        (set_counters e cs))

  -- A line that no part above takes.
  last_part : Parser → Bytes → Result
  last_part p line =
      if p.collect_sql
      then (if leb (length p.sql + length line + 1) max_record
          then (record p { sql = p.sql ++ (line ++ b'\n' ∷ []) }, [])
          else gap p)
      else (p, [])

  -- The parts of `consume` behind `e := p.current`.
  unfoldable pub consume_body : Parser → Event → Bytes → Result
  unfolding attachment_part transaction_part statement_part label_part section_part classic_part
      explained_part table_head_part table_part discarded_part performance_part last_part trim_space
  consume_body p e line =
      let trim = trim_space line in
      or_else (attachment_part p e (attachment_line line)) (
        or_else (transaction_part p e (transaction_line line)) (
          or_else (statement_part p e (statement_line trim)) (
            or_else (label_part p e trim (codes "Procedure ") procedure) (
              or_else (label_part p e trim (codes "Function ") function) (
                or_else (label_part p e trim (codes "Trigger ") trigger) (
                  or_else (section_part p trim) (
                    or_else (classic_part p e trim) (
                      or_else (explained_part p e line) (
                        or_else (table_head_part p line) (
                          or_else (table_part p e line) (
                            or_else (discarded_part p line) (
                              or_else (performance_part p e (performance_line trim))
                                (last_part p line)))))))))))))
