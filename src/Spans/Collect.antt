-- ===== src/Spans/Collect.antt =====
-- The goroutine that collects the trees of server executions (trace/spans.go): `serverNode`,
-- `serverTree`, the variables of `consume`, and its closures `drop`, `invalidate`,
-- `invalidateAttachment` and `flush`. A pointer to a tree is its number; a tree that `trees` does not
-- hold any more stays here, since `frames` may still point at it. `exports` counts the calls of
-- `exportTree` with a tree. A range over a Go map runs in the order of the list. The clock is read
-- once per step.
pub mod Step
pub mod Run
mod Sampled
mod Trees
pub mod Invariant
mod Starting
pub mod Receive
pub mod Exports
mod Counts
pub mod Active
mod Tests
use firebirdsql_otel.Common.{
  ℕ, zero, suc, Bool, true, false, ◌&&◌, ◌||◌, not, Option, none, some, List, [], ◌∷◌, ◌++◌, ◌==◌,
  if◌then◌else◌, find_key, remove_key, remove_values,
}
use firebirdsql_otel.Text.{Bytes}
use firebirdsql_otel.Trace.Event.{Event}
use firebirdsql_otel.Spans.{Contexts, Scope, SpanRuntime, discard, lookup_scope}

-- `complete` and `finish` are set together.
pub record Node : Type 0 where
  pub start : Event
  pub finish : Option Event

-- `bySequence` maps a sequence to the last node that starts with it.
pub record Tree (o : Contexts) : Type 0 where
  pub id : ℕ
  pub token : Bytes
  pub scope : Scope o
  pub anchor : ℕ
  pub nodes : List Node
  pub complete : Bool
  pub omitted : Bool
  pub live : Bool
  pub exports : ℕ

pub data Reason : Type 0 where
  expired_or_ambiguous stream_end gap_seen unmatched_marker unmatched_event overflow : Reason

-- A marker that is complete, with the time of its record.
pub record Marker : Type 0 where
  pub token : Bytes
  pub anchor : ℕ

-- The variables of `consume`, but for the trees. `dropped` is what was added to the counter.
pub record Books (o : Contexts) : Type 0 where
  pub runtime : SpanRuntime o
  pub pending : List (ℕ × Marker)
  pub frames : List (ℕ × ℕ)
  pub active : List (ℕ × ℕ)
  pub active_by_attachment : List (ℕ × ℕ)
  pub dropped : List Reason

-- What `s.err` is when the stream of events has ended: the error of the collector's `Wait`, the error
-- of an unexpected end, or none.
pub data Ending : Type 0 where
  wait_failed unexpected_end expected_end : Ending

pub record Collector (o : Contexts) : Type 0 where
  pub collapse : Bool
  pub heap : List (Tree o)
  pub books : Books o
  pub ending : Option Ending

-- `tree.nodes[0].start.AttachmentID == attachmentID`; the index is out of range at none.
unfoldable pub is_root_of : ℕ → List Node → Option Bool
is_root_of attachment [] = none
is_root_of attachment (n ∷ ns) = some (n.start.attachment_id == attachment)

-- `for seq := range tree.bySequence { delete(frames, seq) }`
unfoldable pub remove_nodes : List Node → List (ℕ × ℕ) → List (ℕ × ℕ)
unfolding remove_key
remove_nodes [] m = m
remove_nodes (n ∷ ns) m = remove_nodes ns (remove_key n.start.sequence m)

module _ {o : Contexts} where
  -- `drop`
  unfoldable pub drop_tree : Reason → Tree o → Books o → Tree o × Books o
  unfolding remove_values discard
  drop_tree reason t b = (
    record t { live = false },
    record b {
      frames = remove_values (λ owner. owner == t.id) b.frames;
      runtime = discard b.runtime t.token;
      dropped = reason ∷ b.dropped;
    },
  )

  -- `for tree := range trees`
  unfoldable pub each_tree :
      (Tree o → Books o → Tree o × Books o) → List (Tree o) → Books o → List (Tree o) × Books o
  each_tree f [] b = ([], b)
  each_tree f (t ∷ ts) b =
      let (t', b') = if t.live then f t b else (t, b) in
      let (ts', b'') = each_tree f ts b' in (t' ∷ ts', b'')

  -- `for _, p := range pending { s.Discard(p.token) }`
  unfoldable pub discard_pending : List (ℕ × Marker) → SpanRuntime o → SpanRuntime o
  unfolding discard
  discard_pending [] r = r
  discard_pending ((k, p) ∷ m) r = discard_pending m (discard r p.token)

  -- `invalidate`
  unfoldable pub invalidate : Reason → Collector o → Collector o
  unfolding each_tree drop_tree discard_pending
  invalidate reason c =
      let (ts, b) = each_tree (drop_tree reason) c.heap c.books in
      record c {
        heap = ts;
        books = record b {
          runtime = discard_pending b.pending b.runtime;
          pending = [];
          active = [];
          active_by_attachment = [];
        };
      }

  abbrev pub drop_at : Reason → ℕ → Tree o → Books o → Tree o × Books o
  drop_at reason attachment t b = elim (is_root_of attachment t.nodes) as (λ _. Tree o × Books o) [
    | none ↦ (t, b)
    | some here ↦ if here then drop_tree reason t b else (t, b)
  ]

  abbrev pub discard_found : Option Marker → SpanRuntime o → SpanRuntime o
  discard_found none r = r
  discard_found (some p) r = discard r p.token

  -- `invalidateAttachment`
  unfoldable pub invalidate_attachment : ℕ → Reason → Collector o → Collector o
  unfolding each_tree drop_tree is_root_of find_key remove_key remove_values discard invalidate
  invalidate_attachment attachment reason c =
      let (ts, b) = each_tree (drop_at reason attachment) c.heap c.books in
      if attachment == 0 then invalidate reason c else record c {
        heap = ts;
        books = record b {
          runtime = discard_found (find_key attachment b.pending) b.runtime;
          pending = remove_key attachment b.pending;
          active = remove_values (λ a. a == attachment) b.active;
          active_by_attachment = remove_key attachment b.active_by_attachment;
        };
      }

  abbrev pub has_valid_parent : Scope o → Bool
  has_valid_parent sc = elim sc.parent as (λ _. Bool) [ none ↦ false | some p ↦ o.is_valid p ]

  -- `tree.scope = sc`, the call of `exportTree` and what follows it.
  unfoldable pub export_found : Scope o → Tree o → Books o → Tree o × Books o
  unfolding remove_nodes discard
  export_found sc t b = (
    record t { scope = sc; exports = suc t.exports; live = false },
    record b { frames = remove_nodes t.nodes b.frames; runtime = discard b.runtime t.token },
  )

  -- The body of the loop of `flush`.
  unfoldable pub flush_tree : ℕ → Tree o → Books o → Tree o × Books o
  unfolding lookup_scope drop_tree export_found
  flush_tree now t b =
      let (r, found) = lookup_scope b.runtime t.token now in
      let b' : Books o = record b { runtime = r } in
      elim found as (λ _. Tree o × Books o) [
        | none ↦ drop_tree expired_or_ambiguous t b'
        | some sc ↦ if t.complete && has_valid_parent sc then export_found sc t b' else (t, b')
      ]

  -- `flush`
  unfoldable pub flush : ℕ → Collector o → Collector o
  unfolding each_tree flush_tree
  flush now c =
      let (ts, b) = each_tree (flush_tree now) c.heap c.books in record c { heap = ts; books = b }
