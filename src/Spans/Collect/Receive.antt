-- ===== src/Spans/Collect/Receive.antt =====
-- The well-formed variables of `consume` (trace/spans.go) over its inputs.
use firebirdsql_otel.Common.{
  ℕ, zero, suc, ◌≤◌, ◌≡◌, refl, Bool, true, ◌&&◌, ◌||◌, not, Option, none, some, List, [], ◌∷◌,
  length, ltb, ◌==◌, if◌then◌else◌, All, if_rule, option_rule, arith, length-remove_key,
  length-put_key, remove_key, find_key, sym, subst,
}
use firebirdsql_otel.Text.{Bytes, is_empty}
use firebirdsql_otel.Trace.Stacks.{gap}
use firebirdsql_otel.Trace.Event.{Event}
use firebirdsql_otel.Trace.Correlate.{same_kind, is_start}
use firebirdsql_otel.Spans.{Contexts, discard, lookup_scope}
use firebirdsql_otel.Spans.Collect.{
  Node, Tree, gap_seen, unmatched_marker, unmatched_event, Marker, Books, Collector,
}
use firebirdsql_otel.Spans.Collect.Step.{
  max_nodes, is_unmatched, is_finish, is_execution, node_at, finish_node, find_tree, set_tree,
  take_marker, activate, add_node, with_tree, on_start, deactivate, close_node, on_finish,
}
use firebirdsql_otel.Spans.Collect.Run.{
  Input, calling, bound, tick, closed, received, is_some, on_marker, on_event, input, run,
}
use firebirdsql_otel.Spans.Collect.Sampled.{discard-IsKept, lookup_scope-IsKept, call-IsKept}
use firebirdsql_otel.Spans.Collect.Trees.{IsRooted, IsGood, IsBooked}
use firebirdsql_otel.Spans.Collect.Invariant.{
  IsWell, flush-IsWell, invalidate-IsWell, invalidate_attachment-IsWell, on_tick-IsWell,
  on_closed-IsWell,
}
use firebirdsql_otel.Spans.Collect.Starting.{
  IsRootedBut, IsStarting, IsTaken, set_tree-IsWell, find_tree-All, add_node-IsWell,
  IsStarting-of_good, take_marker-IsTaken,
}

length-finish_node : (i : ℕ) (e : Event) (ns : List Node) → length (finish_node i e ns) ≡ length ns
unfolding finish_node
length-finish_node i e [] = refl
length-finish_node zero e (n ∷ ns) = refl
length-finish_node (suc i) e (n ∷ ns) = omega (arith, length-finish_node i e ns)

module _ {o : Contexts} where
  activate-IsBooked : (m : ℕ) (e : Event) (b : Books o) → IsBooked m b → IsBooked m (activate e b)
  unfolding activate
  activate-IsBooked m e b q =
      if_rule (IsBooked m) (ltb 0 e.attachment_id)
        (λ _. record { kept = q.kept; framed = q.framed; marked = q.marked }) λ _. q

  find_tree-IsGood :
      (collapse : Bool) (id : ℕ) (ts : List (Tree o))
      → find_tree id ts ≡ none
      → All (IsStarting collapse id) ts
      → All (IsGood collapse) ts
  unfolding find_tree IsRooted IsRootedBut
  find_tree-IsGood collapse id [] h a = tt
  find_tree-IsGood collapse id (t ∷ ts) h (s, a) =
      ground (arith, s.1, find_tree-IsGood collapse id ts)

  with_owner :
      (m now : ℕ) (e : Event) (c : Collector o) (owner : Option ℕ)
      → IsTaken m (c, owner)
      → IsWell m (
          with_tree owner
            (record c { books = activate e c.books })
            λ t. add_node now e t (record c { books = activate e c.books }))
  unfolding IsTaken IsWell
  with_owner m now e c none (a, q) = (a, activate-IsBooked m e c.books q)
  with_owner m now e c (some id) (a, q) =
      let q' = activate-IsBooked m e c.books q in
      option_rule (IsWell m) (find_tree id c.heap)
        (λ none_found. (find_tree-IsGood c.collapse id c.heap none_found a, q'))
        λ t found.
          let ((sound, x), same) = find_tree-All (IsStarting c.collapse id) id t c.heap found a in
          add_node-IsWell m now e t (record c { books = activate e c.books }) sound
            (subst (λ k. All (IsStarting c.collapse k) c.heap) (sym same) a) q'

  on_start-IsWell :
      (m now : ℕ) (e : Event) (c : Collector o) → IsWell m c → IsWell m (on_start now e c)
  unfolding on_start IsTaken IsWell
  on_start-IsWell m now e c w =
      let (c', owner) = take_marker now e c in
      let taken = take_marker-IsTaken m now e c w in with_owner m now e c' owner taken

  close_node-IsWell :
      (m now : ℕ) (e : Event) (t : Tree o) (c : Collector o)
      → IsGood c.collapse t
      → IsWell m c
      → IsWell m (close_node now e t c)
  unfolding close_node IsWell IsRooted
  close_node-IsWell m now e t c (s, n) (a, q) =
      let start = IsStarting-of_good c.collapse t.id c.heap a in
      option_rule (IsWell m) (node_at e.sequence t.nodes) (λ _. (a, q))
        λ i _.
          let same = length-finish_node i e t.nodes in
          let closed : Tree o = record t { nodes = finish_node i e t.nodes } in
          let small : length closed.nodes ≤ max_nodes c.collapse = omega (arith, s.small, same) in
          let rooted : (if t.live then 1 else 0) ≤ length closed.nodes = omega (arith, n, same) in
          if_rule (IsWell m) (i == 0)
            (λ _.
              flush-IsWell m now
                (record c { heap = set_tree (record closed { complete = true }) c.heap })
                (
                  set_tree-IsWell c.collapse (record closed { complete = true }) c.heap
                      (
                        record { once = s.once; small = small; whole = ground (arith, s.whole) },
                        rooted,
                      )
                      start,
                  q,
                ))
            λ _. (
              set_tree-IsWell c.collapse closed c.heap
                  (record { once = s.once; small = small; whole = s.whole }, rooted) start,
              q,
            )

  deactivate-IsBooked :
      (m : ℕ) (e : Event) (b : Books o) → IsBooked m b → IsBooked m (deactivate e b)
  unfolding deactivate
  deactivate-IsBooked m e b q =
      option_rule (IsBooked m) (find_key e.sequence b.active) (λ _. q)
        λ a _. record { kept = q.kept; framed = q.framed; marked = q.marked }

  on_finish-IsWell :
      (m now : ℕ) (e : Event) (c : Collector o) → IsWell m c → IsWell m (on_finish now e c)
  unfolding on_finish IsWell
  on_finish-IsWell m now e c (a, q) =
      let b = deactivate e c.books in
      let d = deactivate-IsBooked m e c.books q in
      let c' : Collector o = record c {
        books = record b { frames = remove_key e.sequence b.frames };
      } in
      let w : IsWell m c' = (
        a,
        record {
          kept = d.kept;
          framed = omega (arith, d.framed, length-remove_key e.sequence b.frames);
          marked = d.marked;
        },
      ) in
      option_rule (IsWell m) (find_key e.sequence b.frames) (λ _. w)
        λ id _.
          option_rule (IsWell m) (find_tree id c.heap) (λ _. w)
            λ t found.
              close_node-IsWell m now e t c'
                (find_tree-All (IsGood c.collapse) id t c.heap found a).0 w

  module _ (parse_time : Bytes → Option ℕ) where
    on_marker-IsWell :
        (m now : ℕ) (e : Event) (c : Collector o)
        → IsWell m c
        → IsWell m (on_marker parse_time now e c)
    unfolding on_marker IsWell
    on_marker-IsWell m now e c (a, q) =
        let token = e.scope_token in
        let pending = remove_key e.attachment_id c.books.pending in
        let r = (lookup_scope c.books.runtime token now).0 in
        let fewer = length-remove_key e.attachment_id c.books.pending in
        let kept = lookup_scope-IsKept m c.books.runtime token now q.kept in
        let without : IsWell m
            (record c { books = record c.books { pending = pending; runtime = r } }) =
          (a, record { kept = kept; framed = q.framed; marked = omega (arith, q.marked, fewer) }) in
        if_rule (IsWell m) (not (is_finish e.phase)) (λ _. (a, q))
          λ _.
            if_rule (IsWell m) (e.sequence == 0 || is_unmatched e.correlation)
              (λ _.
                invalidate_attachment-IsWell m e.attachment_id unmatched_marker
                  (record c { books = record c.books { runtime = discard c.books.runtime token } })
                  (
                    a,
                    record {
                      kept = discard-IsKept m c.books.runtime token q.kept;
                      framed = q.framed;
                      marked = q.marked;
                    },
                  ))
              λ _.
                option_rule (IsWell m) (parse_time e.timestamp) (λ _. without)
                  λ anchor _.
                    let p : Marker = record { token = token; anchor = anchor } in
                    if_rule (IsWell m)
                      (is_some (lookup_scope c.books.runtime token now).1
                        && ltb 0 e.attachment_id
                        && ltb (length pending) c.books.runtime.max_pending)
                      (λ room. (
                        a,
                        record {
                          kept = kept;
                          framed = q.framed;
                          marked =
                              ground
                                (arith, room, q.kept.0, length-put_key e.attachment_id p pending);
                        },
                      ))
                      λ _. without

    on_event-IsWell :
        (m now : ℕ) (e : Event) (c : Collector o)
        → IsWell m c
        → IsWell m (on_event parse_time now e c)
    unfolding on_event
    on_event-IsWell m now e c w =
        let P = IsWell m in
        if_rule P (same_kind e.kind gap) (λ _. invalidate-IsWell m gap_seen c w)
          λ _.
            if_rule P (not (is_empty e.scope_token)) (λ _. on_marker-IsWell m now e c w)
              λ _.
                if_rule P (e.sequence == 0)
                  (λ _.
                    if_rule P (e.incomplete && is_execution e.kind)
                      (λ _. invalidate_attachment-IsWell m e.attachment_id unmatched_event c w)
                      λ _. w)
                  λ _.
                    if_rule P (is_start e.phase) (λ _. on_start-IsWell m now e c w)
                      λ _. if_rule P (is_finish e.phase) (λ _. on_finish-IsWell m now e c w) λ _. w

    input-IsWell :
        (m : ℕ) (x : Input o) (c : Collector o) → IsWell m c → IsWell m (input parse_time x c)
    unfolding input IsWell
    input-IsWell m (calling k) c (a, q) = (
      a,
      record {
        kept = call-IsKept m c.books.runtime k q.kept;
        framed = q.framed;
        marked = q.marked;
      },
    )
    input-IsWell m (bound now) c w = flush-IsWell m now c w
    input-IsWell m (tick now) c w = on_tick-IsWell m now c w
    input-IsWell m (closed now failed stopping) c w = on_closed-IsWell m now failed stopping c w
    input-IsWell m (received now e) c w = on_event-IsWell m now e c w

    -- Whatever the driver calls and whatever events, ticks and notices come, in any order, well-formed
    -- variables stay so: at most 4096 frames and `MaxPending` markers, no tree in `trees` without
    -- a root, no tree with more nodes than the configuration allows, none exported twice, and none
    -- exported that is not complete or whose parent is not a valid and sampled span.
    pub run-IsWell :
        (m : ℕ) (xs : List (Input o)) (c : Collector o)
        → IsWell m c
        → IsWell m (run parse_time xs c)
    unfolding run
    run-IsWell m [] c w = w
    run-IsWell m (x ∷ xs) c w = run-IsWell m xs (input parse_time x c) (input-IsWell m x c w)
