-- ===== src/Trace/Correlate.antt =====
-- `finish` (internal/traceparse/parser.go): the record at hand is closed, its SQL is described, and
-- it is correlated with the records before it by the stack of its attachment and transaction.
pub mod Bounds
pub mod Lookups
pub mod Pairing
pub mod Isolation
use firebirdsql_otel.Common.{
  ℕ, zero, suc, ◌+◌, ◌%◌, ◌^◌, Bool, true, false, not, ◌&&◌, ◌||◌, Option, none, some, List, [],
  ◌∷◌, length, take, drop, leb, ◌==◌, within, if◌then◌else◌,
}
use firebirdsql_otel.Common.Int.{pos}
use firebirdsql_otel.Text.{
  Bytes, codes, Platform, equal, has_prefix, is_empty, is_ascii_digit, trim_space,
}
use firebirdsql_otel.Sql.Describe.{Description, analyze_unknown_dialect}
use firebirdsql_otel.Sql.Framing.{has_terminal_ellipsis}
use firebirdsql_otel.Trace.Stacks.{
  Kind, statement, procedure, function, trigger, lifecycle, gap, Frame, Key, Stacks, lookup, insert,
  delete,
}
use firebirdsql_otel.Trace.Event.{
  Phase, no_phase, start, finish, trace_init, trace_fini, heuristic, unmatched, Event, Parser,
}

-- MaxScopes and MaxDepth
abbrev pub max_scopes : ℕ
max_scopes = 64

abbrev pub max_depth : ℕ
max_depth = 64

abbrev pub same_kind : Kind → Kind → Bool
same_kind statement statement = true
same_kind procedure procedure = true
same_kind function function = true
same_kind trigger trigger = true
same_kind lifecycle lifecycle = true
same_kind gap gap = true
same_kind _ _ = false

abbrev pub is_start : Phase → Bool
is_start start = true
is_start _ = false

all_hex : Bytes → Bool
all_hex [] = true
all_hex (c ∷ s) = (is_ascii_digit c || within b'a' b'f' c) && all_hex s

abbrev pub marker_prefix : Bytes
marker_prefix = codes "SELECT 1 FROM RDB$DATABASE /*firebirdotel_scope:"

-- `scopeMarker.FindStringSubmatch(s)`: the prefix, 32 hexadecimal digits and the end of a comment.
unfoldable pub scope_marker : Bytes → Option Bytes
unfolding has_prefix equal all_hex
scope_marker s =
    let token = take 32 (drop (length marker_prefix) s) in
    if has_prefix marker_prefix s
      && length token == 32
      && all_hex token
      && equal (drop (length marker_prefix + 32) s) (codes "*/")
    then some token
    else none

module _ (p : Platform) where
  -- `if m := scopeMarker…; e.Kind == "statement" && m != nil`
  unfoldable pub mark_scope : Bytes → Event → Event
  mark_scope raw e = elim (scope_marker (trim_space raw)) [
    | none ↦ e
    | some token ↦ if same_kind e.kind statement then record e { scope_token = token } else e
  ]

  unfoldable pub describe_sql : Bytes → Event → Event
  describe_sql raw e =
      let d = analyze_unknown_dialect p raw (pos 0) (pos 0) in
      record e {
        sql = d.text;
        name = if same_kind e.kind statement then d.summary else e.name;
        incomplete =
            e.incomplete || (not d.valid || (not (is_empty (trim_space raw)) && is_empty d.text));
      }

  -- `if p.sql.Len() > 0`
  unfoldable pub annotate : Bytes → Event → Event
  annotate raw e =
      if is_empty raw
      then e
      else (let marked = mark_scope raw e in
          if has_terminal_ellipsis p raw
          then record marked { incomplete = true }
          else describe_sql raw marked)

abbrev pub event_key : Event → Key
event_key e = record { attachment = e.attachment_id; transaction = e.transaction_id }

unfoldable pub top_sequence : List Frame → ℕ
top_sequence [] = 0
top_sequence (f ∷ fs) = f.sequence

-- `p.sequence++` on a uint64
unfoldable pub next_sequence : Parser → ℕ
next_sequence p = (p.sequence + 1) % 2 ^ 64

-- What the end of `finish` does on every path that reaches it.
abbrev pub settle : Parser → Event → Parser × Event
settle p e = (p, record e { incomplete = e.incomplete || p.incomplete })

-- A start is pushed on its stack.
unfoldable pub push_start : Parser → Event → List Frame → Parser × Event
push_start p e stack =
    let n = next_sequence p in
    let started = record e { sequence = n; parent_sequence = top_sequence stack } in
    let frame : Frame = record {
      kind = e.kind;
      name = e.name;
      sequence = n;
      statement = e.statement_id;
    } in
    settle (record p { sequence = n; stacks = insert (event_key e) (frame ∷ stack) p.stacks })
      started

-- A new scope, or a deeper frame, beyond the bounds drops all that is open.
unfoldable pub on_start : Parser → Event → Parser × Event
on_start p e =
    let stack = lookup (event_key e) p.stacks in
    if (leb max_scopes (length p.stacks) && is_empty stack) || leb max_depth (length stack)
    then push_start (record p { incomplete = true; stacks = []; stack_overflow = true })
        (record e { incomplete = true }) []
    else push_start p e stack

abbrev pub mismatch : Event → Event
mismatch e = record e { incomplete = true; correlation = unmatched }

unfoldable pub matches_frame : Frame → Event → Bool
unfolding equal
matches_frame f e = same_kind f.kind e.kind && equal f.name e.name && f.statement == e.statement_id

-- The frame that is finished is taken off, and an empty stack is deleted.
unfoldable pub pop_frame : Parser → Event → Frame → List Frame → Parser × Event
pop_frame p e last [] =
    settle (record p { stacks = delete (event_key e) p.stacks })
      (record e { sequence = last.sequence })
pop_frame p e last (f ∷ fs) =
    settle (record p { stacks = insert (event_key e) (f ∷ fs) p.stacks })
      (record e { sequence = last.sequence; parent_sequence = f.sequence })

unfoldable pub on_finish : Parser → Event → List Frame → Parser × Event
on_finish p e [] = settle (record p { incomplete = true }) (mismatch e)
on_finish p e (last ∷ others) =
    if matches_frame last e
    then pop_frame p e last others
    else settle (record p { incomplete = true; stacks = delete (event_key e) p.stacks })
        (mismatch e)

-- The part of `finish` behind the description of the SQL.
unfoldable pub correlate : Parser → Event → Parser × Event
correlate p e =
    if same_kind e.kind lifecycle
    then (p, record e { correlation = unmatched })
    else if e.attachment_id == 0 || e.transaction_id == 0
    then (p, mismatch e)
    else if same_kind e.kind statement && e.statement_id == 0
    then (record p { incomplete = true; stacks = delete (event_key e) p.stacks }, mismatch e)
    else if is_start e.phase
    then on_start p e
    else on_finish p e (lookup (event_key e) p.stacks)

module _ (u : Platform) where
  finish_event : Parser → Option Event → Parser × Option Event
  finish_event p none = (p, none)
  finish_event p (some e) =
      let closed = record p { current = none; sql = []; collect_sql = false } in
      let (p', e') = correlate closed (annotate u p.sql e) in (p', some e')

  -- `finish`
  unfoldable pub finish_record : Parser → Parser × Option Event
  unfolding finish_event
  finish_record p = finish_event p p.current
