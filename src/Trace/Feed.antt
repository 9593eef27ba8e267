-- ===== src/Trace/Feed.antt =====
-- `Feed`, `Flush` and `FlushFinished` (internal/traceparse/parser.go): what the parser does with
-- the chunks of a stream, at its end, and while it is idle.
pub mod Lines
pub mod Chunks
use mathlib.Core.Option
use firebirdsql_otel.Common.{
  ℕ, zero, suc, ◌+◌, ◌-◌, Bool, true, false, ◌&&◌, ◌||◌, not, Option, none, some, List, [], ◌∷◌,
  ◌++◌, length, take, drop, leb, ltb, ◌==◌, if◌then◌else◌,
}
use firebirdsql_otel.Text.{Bytes, trim_suffix, index_byte, is_empty, Platform}
use firebirdsql_otel.Trace.Stacks.{Kind, lifecycle}
use firebirdsql_otel.Trace.Event.{
  Phase, finish, trace_init, trace_fini, Event, Parser, gap_event, gap_state,
}
use firebirdsql_otel.Trace.Body.{max_record, Result, gap}
use firebirdsql_otel.Trace.Consume.{behind, to_list, report_overflow, consume}
use firebirdsql_otel.Trace.Correlate.{same_kind, finish_record}

abbrev is_trace_init : Phase → Bool
is_trace_init trace_init = true
is_trace_init _ = false

abbrev is_trace_fini : Phase → Bool
is_trace_fini trace_fini = true
is_trace_fini _ = false

abbrev is_finish : Phase → Bool
is_finish finish = true
is_finish _ = false

module _ (u : Platform) where
  -- A chunk continues the line at hand.
  unfoldable pub extend_line : Parser → Bytes → Result
  extend_line p piece =
      if p.skip_line
      then (p, [])
      else if not (leb (length p.line + length piece) max_record)
      then (record (gap_state p) { line = []; skip_line = true }, gap_event ∷ [])
      else (record p { line = p.line ++ piece }, [])

  -- A line feed ends the line at hand.
  unfoldable pub end_line : Parser → Result
  unfolding consume trim_suffix
  end_line p =
      let r = if p.skip_line then (p, []) else consume u p (trim_suffix (0x0D ∷ []) p.line) in
      (record r.0 { line = []; skip_line = false }, r.1)

  -- A round of `Feed`: the piece in front of the line feed, if there is one, and what is left.
  unfoldable pub feed_round :
      (Parser → Bytes → Option Result) → Parser → Bytes → Option ℕ → Option Result
  feed_round again p chunk none = some (extend_line p chunk)
  feed_round again p chunk (some i) =
      let r = extend_line p (take i chunk) in
      let s = end_line r.0 in Option.map (behind (r.1 ++ s.1)) (again s.0 (drop (suc i) chunk))

  unfoldable pub feed_loop : ℕ → Parser → Bytes → Option Result
  unfolding feed_round index_byte
  feed_loop fuel p [] = some (p, [])
  feed_loop zero p (c ∷ chunk) = none
  feed_loop (suc fuel) p (c ∷ chunk) =
      feed_round (feed_loop fuel) p (c ∷ chunk) (index_byte b'\n' (c ∷ chunk))

  -- `Feed`
  unfoldable pub feed : Parser → Bytes → Option Result
  unfolding feed_loop
  feed p chunk = feed_loop (length chunk) p chunk

  flush_line : Parser → Result
  unfolding consume
  flush_line p =
      let r = if not (is_empty p.line) && not p.skip_line then consume u p p.line else (p, []) in
      (record r.0 { line = [] }, r.1)

  -- An event that the end of the stream cuts off.
  cut_off : Event → Event
  cut_off e =
      if not (same_kind e.kind lifecycle) || not (is_trace_fini e.phase)
      then record e { incomplete = true }
      else e

  cut_off_all : List Event → List Event
  unfolding cut_off
  cut_off_all [] = []
  cut_off_all (e ∷ es) = cut_off e ∷ cut_off_all es

  -- `if len(p.stacks) > 0`
  report_open : Parser → Result
  report_open p = if is_empty p.stacks then (p, []) else gap p

  -- `Flush`
  unfoldable pub flush : Parser → Result
  unfolding flush_line cut_off_all report_open report_overflow finish_record
  flush p =
      let r = flush_line p in
      let (q, e) = finish_record u r.0 in
      let s = report_overflow q in
      behind (r.1 ++ (cut_off_all (to_list e) ++ s.1)) (report_open s.0)

  -- The current record is released as it is, or as incomplete with the overflow reported.
  release_init : Parser → Result
  unfolding finish_record
  release_init p = let (q, e) = finish_record u p in (q, to_list e)

  incomplete_all : List Event → List Event
  incomplete_all [] = []
  incomplete_all (e ∷ es) = record e { incomplete = true } ∷ incomplete_all es

  release_finished : Parser → Result
  unfolding finish_record report_overflow incomplete_all
  release_finished p =
      let (q, e) = finish_record u p in behind (incomplete_all (to_list e)) (report_overflow q)

  flush_current : Parser → Option Event → Result
  unfolding release_init release_finished
  flush_current p none = (p, [])
  flush_current p (some e) =
      if not (is_empty p.line) || p.collect_sql
      then (p, [])
      else if same_kind e.kind lifecycle && is_trace_init e.phase
      then release_init p
      else if not (is_finish e.phase) || not p.performance_section
      then (p, [])
      else release_finished p

  -- `FlushFinished`
  unfoldable pub flush_finished : Parser → Result
  unfolding flush_current
  flush_finished p = flush_current p p.current
