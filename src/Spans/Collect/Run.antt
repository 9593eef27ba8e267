-- ===== src/Spans/Collect/Run.antt =====
-- `consume` (trace/spans.go) over a sequence of inputs, with the calls of the driver between them.
use firebirdsql_otel.Common.{
  ℕ, Bool, true, false, ◌&&◌, ◌||◌, not, Option, none, some, List, [], ◌∷◌, length, ltb, ◌==◌,
  if◌then◌else◌, remove_key, put_key,
}
use firebirdsql_otel.Text.{Bytes, is_empty}
use firebirdsql_otel.Trace.Stacks.{gap}
use firebirdsql_otel.Trace.Event.{Event}
use firebirdsql_otel.Trace.Correlate.{same_kind, is_start}
use firebirdsql_otel.Spans.{Contexts, SpanRuntime, discard, lookup_scope}
use firebirdsql_otel.Spans.Bounds.{Call, call}
use firebirdsql_otel.Spans.Collect.{
  stream_end, wait_failed, unexpected_end, expected_end, gap_seen, unmatched_marker,
  unmatched_event, Marker, Collector, drop_tree, each_tree, invalidate, invalidate_attachment,
  flush,
}
use firebirdsql_otel.Spans.Collect.Step.{is_unmatched, is_finish, is_execution, on_start, on_finish}

-- What happens next: a call of the driver, or a round of the loop at a time.
pub data Input (o : Contexts) : Type 0 where
  calling : Call o → Input o
  bound tick : ℕ → Input o
  closed : ℕ → Bool → Bool → Input o
  received : ℕ → Event → Input o

abbrev pub is_some {ℓ} : {A : Type ℓ} → Option A → Bool
is_some none = false
is_some (some a) = true

module _ {o : Contexts} where
  -- The loop over `pending` at a tick.
  unfoldable pub expire_pending :
      ℕ → List (ℕ × Marker) → SpanRuntime o → List (ℕ × Marker) × SpanRuntime o
  unfolding lookup_scope
  expire_pending now [] r = ([], r)
  expire_pending now ((k, p) ∷ m) r =
      let (r', found) = lookup_scope r p.token now in
      let (rest, r'') = expire_pending now m r' in
      (if is_some found then (k, p) ∷ rest else rest, r'')

  unfoldable pub on_tick : ℕ → Collector o → Collector o
  unfolding flush expire_pending
  on_tick now c =
      let c' = flush now c in
      let (pending, r) = expire_pending now c'.books.pending c'.books.runtime in
      record c' { books = record c'.books { pending = pending; runtime = r } }

  -- The stream of events is closed; the tests say whether `Wait` fails and whether `Shutdown` has begun.
  unfoldable pub on_closed : ℕ → Bool → Bool → Collector o → Collector o
  unfolding flush each_tree drop_tree
  on_closed now failed stopping c =
      let c' = flush now c in
      let (ts, b) = each_tree (drop_tree stream_end) c'.heap c'.books in
      record c' {
        heap = ts;
        books = record b { runtime = record b.runtime { running = false; registrations = [] } };
        ending =
            some
              (if failed then wait_failed else if stopping then expected_end else unexpected_end);
      }

  -- time.Parse with the layout of a record's time, as nanoseconds
  module _ (parse_time : Bytes → Option ℕ) where
    -- `e.ScopeToken != ""`
    unfoldable pub on_marker : ℕ → Event → Collector o → Collector o
    unfolding discard invalidate_attachment remove_key put_key lookup_scope
    on_marker now e c =
        let unregistered : Collector o = record c {
          books = record c.books { runtime = discard c.books.runtime e.scope_token };
        } in
        let pending = remove_key e.attachment_id c.books.pending in
        let (r, found) = lookup_scope c.books.runtime e.scope_token now in
        let with_pending : List (ℕ × Marker) → Collector o =
          λ m. record c { books = record c.books { pending = m; runtime = r } } in
        if not (is_finish e.phase)
        then c
        else if e.sequence == 0 || is_unmatched e.correlation
        then invalidate_attachment e.attachment_id unmatched_marker unregistered
        else elim (parse_time e.timestamp) as (λ _. Collector o) [
          | none ↦ with_pending pending
          | some anchor ↦
              if is_some found
                && ltb 0 e.attachment_id
                && ltb (length pending) c.books.runtime.max_pending
              then with_pending (
                  put_key e.attachment_id (record { token = e.scope_token; anchor = anchor })
                    pending)
              else with_pending pending
        ]

    -- The events of the stream.
    unfoldable pub on_event : ℕ → Event → Collector o → Collector o
    unfolding invalidate invalidate_attachment on_marker on_start on_finish
    on_event now e c =
        if same_kind e.kind gap
        then invalidate gap_seen c
        else if not (is_empty e.scope_token)
        then on_marker now e c
        else if e.sequence == 0
        then (if e.incomplete && is_execution e.kind
            then invalidate_attachment e.attachment_id unmatched_event c
            else c)
        else if is_start e.phase
        then on_start now e c
        else if is_finish e.phase
        then on_finish now e c
        else c

    unfoldable pub input : Input o → Collector o → Collector o
    unfolding flush on_tick on_closed on_event
    input (calling k) c = record c { books = record c.books { runtime = call c.books.runtime k } }
    input (bound now) c = flush now c
    input (tick now) c = on_tick now c
    input (closed now failed stopping) c = on_closed now failed stopping c
    input (received now e) c = on_event now e c

    unfoldable pub run : List (Input o) → Collector o → Collector o
    unfolding input
    run [] c = c
    run (x ∷ xs) c = run xs (input x c)
