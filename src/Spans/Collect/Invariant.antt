-- ===== src/Spans/Collect/Invariant.antt =====
-- The well-formed variables of `consume` (trace/spans.go) through its closures and its timers.
use firebirdsql_otel.Common.{
  Bool, ℕ, ◌≤◌, Option, none, some, List, [], ◌∷◌, length, ◌==◌, All, if_rule, arith,
  length-remove_key, find_key,
}
use firebirdsql_otel.Spans.{Contexts, SpanRuntime, lookup_scope}
use firebirdsql_otel.Spans.Collect.{
  Reason, stream_end, Marker, Collector, drop_tree, drop_at, discard_found, each_tree, flush_tree,
  flush, invalidate, invalidate_attachment,
}
use firebirdsql_otel.Spans.Collect.Run.{expire_pending, on_tick, on_closed}
use firebirdsql_otel.Spans.Collect.Sampled.{IsKept, discard-IsKept, lookup_scope-IsKept}
use firebirdsql_otel.Spans.Collect.Trees.{
  IsGood, IsBooked, each_tree_rule, drop_tree-IsGood, drop_at-IsGood, flush_tree-IsGood,
  discard_pending-IsKept,
}

module _ {o : Contexts} where
  unfoldable pub IsWell : ℕ → Collector o → Type 0
  IsWell m c = All (IsGood c.collapse) c.heap × IsBooked m c.books

  pub flush-IsWell : (m now : ℕ) (c : Collector o) → IsWell m c → IsWell m (flush now c)
  unfolding flush IsWell
  flush-IsWell m now c (a, q) =
      each_tree_rule (IsGood c.collapse) (IsBooked m) (flush_tree now)
        (flush_tree-IsGood m c.collapse now) c.heap c.books a q

  each_dropped-IsWell :
      (m : ℕ) (reason : Reason) (c : Collector o)
      → IsWell m c
      → All (IsGood c.collapse) (each_tree (drop_tree reason) c.heap c.books).0
        × IsBooked m (each_tree (drop_tree reason) c.heap c.books).1
  unfolding IsWell
  each_dropped-IsWell m reason c (a, q) =
      each_tree_rule (IsGood c.collapse) (IsBooked m) (drop_tree reason)
        (λ t b l g. drop_tree-IsGood m c.collapse reason t b g.0) c.heap c.books a q

  pub invalidate-IsWell :
      (m : ℕ) (reason : Reason) (c : Collector o) → IsWell m c → IsWell m (invalidate reason c)
  unfolding invalidate IsWell
  invalidate-IsWell m reason c w =
      let (a, q) = each_dropped-IsWell m reason c w in
      let b = (each_tree (drop_tree reason) c.heap c.books).1 in
      (
        a,
        record {
          kept = discard_pending-IsKept m b.pending b.runtime q.kept;
          framed = q.framed;
          marked = omega arith;
        },
      )

  discard_found-IsKept :
      (m : ℕ) (p : Option Marker) (r : SpanRuntime o) → IsKept m r → IsKept m (discard_found p r)
  discard_found-IsKept m none r h = h
  discard_found-IsKept m (some p) r h = discard-IsKept m r p.token h

  pub invalidate_attachment-IsWell :
      (m attachment : ℕ) (reason : Reason) (c : Collector o)
      → IsWell m c
      → IsWell m (invalidate_attachment attachment reason c)
  unfolding invalidate_attachment IsWell
  invalidate_attachment-IsWell m attachment reason c w =
      let (a, q) =
        each_tree_rule (IsGood c.collapse) (IsBooked m) (drop_at reason attachment)
          (λ t b l. drop_at-IsGood m c.collapse reason attachment t b) c.heap c.books w.0 w.1 in
      let b = (each_tree (drop_at reason attachment) c.heap c.books).1 in
      if_rule (IsWell m) (attachment == 0) (λ _. invalidate-IsWell m reason c w)
        λ _. (
          a,
          record {
            kept = discard_found-IsKept m (find_key attachment b.pending) b.runtime q.kept;
            framed = q.framed;
            marked = omega (arith, q.marked, length-remove_key attachment b.pending);
          },
        )

  expire_pending-IsKept :
      (m now : ℕ) (ps : List (ℕ × Marker)) (r : SpanRuntime o)
      → IsKept m r
      → IsKept m (expire_pending now ps r).1 × (length (expire_pending now ps r).0 ≤ length ps)
  unfolding expire_pending
  expire_pending-IsKept m now [] r h = (h, omega arith)
  expire_pending-IsKept m now ((k, p) ∷ ps) r h =
      let (h', l) =
        expire_pending-IsKept m now ps (lookup_scope r p.token now).0
          (lookup_scope-IsKept m r p.token now h) in
      (h', ground (arith, l))

  pub on_tick-IsWell : (m now : ℕ) (c : Collector o) → IsWell m c → IsWell m (on_tick now c)
  unfolding on_tick IsWell
  on_tick-IsWell m now c w =
      let (a, q) = flush-IsWell m now c w in
      let (kept, l) =
        expire_pending-IsKept m now (flush now c).books.pending (flush now c).books.runtime
          q.kept in
      (a, record { kept = kept; framed = q.framed; marked = omega (arith, q.marked, l) })

  pub on_closed-IsWell :
      (m now : ℕ) (failed stopping : Bool) (c : Collector o)
      → IsWell m c
      → IsWell m (on_closed now failed stopping c)
  unfolding on_closed IsWell
  on_closed-IsWell m now failed stopping c w =
      let (a, q) = each_dropped-IsWell m stream_end (flush now c) (flush-IsWell m now c w) in
      (a, record { kept = (q.kept.0, tt); framed = q.framed; marked = q.marked })
