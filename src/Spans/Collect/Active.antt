-- ===== src/Spans/Collect/Active.antt =====
-- The active sequences of `consume` (trace/spans.go) and their counters, over its inputs.
use firebirdsql_otel.Common.{
  ℕ, ◌≤◌, ◌≡◌, refl, ap, ◌∙◌, true, ◌&&◌, ◌||◌, not, Option, List, [], ◌∷◌, length, leb, ltb, ◌==◌,
  if◌then◌else◌, if_rule, option_rule, arith, remove_key, find_key,
}
use firebirdsql_otel.Text.{Bytes, is_empty}
use firebirdsql_otel.Trace.Stacks.{gap}
use firebirdsql_otel.Trace.Event.{Event}
use firebirdsql_otel.Trace.Correlate.{same_kind, is_start}
use firebirdsql_otel.Spans.{Contexts, discard, lookup_scope}
use firebirdsql_otel.Spans.Collect.{
  Tree, Reason, stream_end, gap_seen, unmatched_marker, unmatched_event, Books, Collector,
  drop_tree, drop_at, each_tree, flush_tree, flush, invalidate, invalidate_attachment,
}
use firebirdsql_otel.Spans.Collect.Step.{
  max_frames, max_nodes, is_unmatched, is_finish, is_execution, node_at, finish_node, find_tree,
  set_tree, drop_in, is_waiting, take_marker, activate, add_node, with_tree, on_start, deactivate,
  close_node, on_finish,
}
use firebirdsql_otel.Spans.Collect.Run.{
  Input, calling, bound, tick, closed, received, is_some, on_tick, on_closed, on_marker, on_event,
  input, run,
}
use firebirdsql_otel.Spans.Collect.Counts.{
  running, counted, running-put_key, running-remove_key, running-remove_values, counted-remove_key,
  counted-increment, counted-decrement,
}
use firebirdsql_otel.Spans.Collect.{export_found, has_valid_parent, is_root_of}

module _ {o : Contexts} where
  unfoldable pub IsCounted : Books o → Type 0
  IsCounted b = (a : ℕ) → running a b.active ≤ counted a b.active_by_attachment

  abbrev IsSameActive : Books o → Books o → Type 0
  IsSameActive b b' = (b'.active ≡ b.active) × (b'.active_by_attachment ≡ b.active_by_attachment)

  each_tree-IsSameActive :
      (f : Tree o → Books o → Tree o × Books o)
      → ((t : Tree o) (b : Books o) → IsSameActive b (f t b).1)
      → (ts : List (Tree o)) (b : Books o) → IsSameActive b (each_tree f ts b).1
  unfolding each_tree
  each_tree-IsSameActive f h [] b = (refl, refl)
  each_tree-IsSameActive f h (t ∷ ts) b =
      let P : Tree o × Books o → Type 0 = λ x. IsSameActive b x.1 in
      let (e, g) = if_rule P t.live {x = f t b} {y = (t, b)} (λ _. h t b) λ _. (refl, refl) in
      let (e', g') = each_tree-IsSameActive f h ts (if t.live then f t b else (t, b)).1 in
      (e' ∙ e, g' ∙ g)

  flush_tree-IsSameActive :
      (now : ℕ) (t : Tree o) (b : Books o) → IsSameActive b (flush_tree now t b).1
  unfolding flush_tree drop_tree export_found
  flush_tree-IsSameActive now t b =
      let P : Tree o × Books o → Type 0 = λ x. IsSameActive b x.1 in
      option_rule P (lookup_scope b.runtime t.token now).1 (λ _. (refl, refl))
        λ sc _. if_rule P (t.complete && has_valid_parent sc) (λ _. (refl, refl)) λ _. (refl, refl)

  drop_at-IsSameActive :
      (reason : Reason) (attachment : ℕ) (t : Tree o) (b : Books o)
      → IsSameActive b (drop_at reason attachment t b).1
  unfolding drop_tree
  drop_at-IsSameActive reason attachment t b =
      let P : Tree o × Books o → Type 0 = λ x. IsSameActive b x.1 in
      option_rule P (is_root_of attachment t.nodes) (λ _. (refl, refl))
        λ here _. if_rule P here (λ _. (refl, refl)) λ _. (refl, refl)

  drop_tree-IsSameActive :
      (reason : Reason) (t : Tree o) (b : Books o) → IsSameActive b (drop_tree reason t b).1
  unfolding drop_tree
  drop_tree-IsSameActive reason t b = (refl, refl)

  IsCounted-of_same : (b b' : Books o) → IsSameActive b b' → IsCounted b → IsCounted b'
  unfolding IsCounted
  IsCounted-of_same b b' (e, g) h a = omega (arith, h a, ap (running a) e, ap (counted a) g)

  flush-IsCounted : (now : ℕ) (c : Collector o) → IsCounted c.books → IsCounted (flush now c).books
  unfolding flush
  flush-IsCounted now c =
      IsCounted-of_same c.books _
        (each_tree-IsSameActive (flush_tree now) (flush_tree-IsSameActive now) c.heap c.books)

  invalidate-IsCounted : (reason : Reason) (c : Collector o) → IsCounted (invalidate reason c).books
  unfolding invalidate IsCounted running counted
  invalidate-IsCounted reason c a = omega arith

  invalidate_attachment-IsCounted :
      (attachment : ℕ) (reason : Reason) (c : Collector o)
      → IsCounted c.books
      → IsCounted (invalidate_attachment attachment reason c).books
  unfolding invalidate_attachment IsCounted
  invalidate_attachment-IsCounted attachment reason c h =
      let b = (each_tree (drop_at reason attachment) c.heap c.books).1 in
      let P : Collector o → Type 0 = λ x. IsCounted x.books in
      let h' : IsCounted b =
        IsCounted-of_same c.books b
          (each_tree-IsSameActive (drop_at reason attachment)
            (drop_at-IsSameActive reason attachment) c.heap c.books)
          h in
      if_rule P (attachment == 0) (λ _. invalidate-IsCounted reason c)
        λ _ a. ground (
          arith,
          h' a,
          running-remove_values a attachment b.active,
          counted-remove_key a attachment b.active_by_attachment,
        )

  activate-IsCounted : (e : Event) (b : Books o) → IsCounted b → IsCounted (activate e b)
  unfolding activate IsCounted
  activate-IsCounted e b h =
      if_rule IsCounted (ltb 0 e.attachment_id)
        (λ _ a. omega (
          arith,
          h a,
          running-put_key a e.sequence e.attachment_id b.active,
          counted-increment a e.attachment_id b.active_by_attachment,
        ))
        λ _. h

  deactivate-IsCounted : (e : Event) (b : Books o) → IsCounted b → IsCounted (deactivate e b)
  unfolding deactivate IsCounted
  deactivate-IsCounted e b h =
      option_rule IsCounted (find_key e.sequence b.active) (λ _. h)
        λ k f a. ground (
          arith,
          h a,
          running-remove_key a e.sequence k b.active f,
          counted-decrement a k b.active_by_attachment,
        )

  with_tree-IsCounted :
      (owner : Option ℕ) (c : Collector o) (f : Tree o → Collector o)
      → IsCounted c.books
      → ((t : Tree o) → IsCounted (f t).books)
      → IsCounted (with_tree owner c f).books
  with_tree-IsCounted owner c f h k =
      let P : Collector o → Type 0 = λ x. IsCounted x.books in
      option_rule P owner (λ _. h) λ id _. option_rule P (find_tree id c.heap) (λ _. h) λ t _. k t

  take_marker-IsCounted :
      (now : ℕ) (e : Event) (c : Collector o)
      → IsCounted c.books
      → IsCounted (take_marker now e c).0.books
  unfolding take_marker IsCounted
  take_marker-IsCounted now e c h =
      let P : Collector o × Option ℕ → Type 0 = λ x. IsCounted x.0.books in
      option_rule P (find_key e.attachment_id c.books.pending) (λ _. h)
        λ p _.
          if_rule P (is_waiting e c.books)
            (λ _. option_rule P (lookup_scope c.books.runtime p.token now).1 (λ _. h) λ sc _. h)
            λ _. h

  add_node-IsCounted :
      (now : ℕ) (e : Event) (t : Tree o) (c : Collector o)
      → IsCounted c.books
      → IsCounted (add_node now e t c).books
  unfolding add_node drop_in drop_tree IsCounted
  add_node-IsCounted now e t c h =
      let P : Collector o → Type 0 = λ x. IsCounted x.books in
      option_rule P (lookup_scope c.books.runtime t.token now).1 (λ _. h)
        λ sc _.
          if_rule P (leb max_frames (length c.books.frames)) (λ _. h)
            λ _. if_rule P (leb (max_nodes c.collapse) (length t.nodes)) (λ _. h) λ _. h

  on_start-IsCounted :
      (now : ℕ) (e : Event) (c : Collector o)
      → IsCounted c.books
      → IsCounted (on_start now e c).books
  unfolding on_start
  on_start-IsCounted now e c h =
      let (c', owner) = take_marker now e c in
      let c'' : Collector o = record c' { books = activate e c'.books } in
      let h' = activate-IsCounted e c'.books (take_marker-IsCounted now e c h) in
      with_tree-IsCounted owner c'' (λ t. add_node now e t c'') h'
        λ t. add_node-IsCounted now e t c'' h'

  close_node-IsCounted :
      (now : ℕ) (e : Event) (t : Tree o) (c : Collector o)
      → IsCounted c.books
      → IsCounted (close_node now e t c).books
  unfolding close_node
  close_node-IsCounted now e t c h =
      let P : Collector o → Type 0 = λ x. IsCounted x.books in
      option_rule P (node_at e.sequence t.nodes) (λ _. h)
        λ i _.
          let closed : Tree o = record t { nodes = finish_node i e t.nodes } in
          if_rule P (i == 0)
            (λ _.
              flush-IsCounted now
                (record c { heap = set_tree (record closed { complete = true }) c.heap }) h)
            λ _. h

  on_finish-IsCounted :
      (now : ℕ) (e : Event) (c : Collector o)
      → IsCounted c.books
      → IsCounted (on_finish now e c).books
  unfolding on_finish
  on_finish-IsCounted now e c h =
      let b = deactivate e c.books in
      let c' : Collector o = record c {
        books = record b { frames = remove_key e.sequence b.frames };
      } in
      let h' : IsCounted c'.books =
        IsCounted-of_same b c'.books (refl, refl) (deactivate-IsCounted e c.books h) in
      with_tree-IsCounted (find_key e.sequence b.frames) c' (λ t. close_node now e t c') h'
        λ t. close_node-IsCounted now e t c' h'

  module _ (parse_time : Bytes → Option ℕ) where
    on_marker-IsCounted :
        (now : ℕ) (e : Event) (c : Collector o)
        → IsCounted c.books
        → IsCounted (on_marker parse_time now e c).books
    unfolding on_marker IsCounted
    on_marker-IsCounted now e c h =
        let P : Collector o → Type 0 = λ x. IsCounted x.books in
        let pending = remove_key e.attachment_id c.books.pending in
        if_rule P (not (is_finish e.phase)) (λ _. h)
          λ _.
            if_rule P (e.sequence == 0 || is_unmatched e.correlation)
              (λ _.
                invalidate_attachment-IsCounted e.attachment_id unmatched_marker
                  (record c {
                    books = record c.books { runtime = discard c.books.runtime e.scope_token };
                  })
                  h)
              λ _.
                option_rule P (parse_time e.timestamp) (λ _. h)
                  λ anchor _.
                    if_rule P
                      (is_some (lookup_scope c.books.runtime e.scope_token now).1
                        && ltb 0 e.attachment_id
                        && ltb (length pending) c.books.runtime.max_pending)
                      (λ _. h) λ _. h

    on_event-IsCounted :
        (now : ℕ) (e : Event) (c : Collector o)
        → IsCounted c.books
        → IsCounted (on_event parse_time now e c).books
    unfolding on_event
    on_event-IsCounted now e c h =
        let P : Collector o → Type 0 = λ x. IsCounted x.books in
        if_rule P (same_kind e.kind gap) (λ _. invalidate-IsCounted gap_seen c)
          λ _.
            if_rule P (not (is_empty e.scope_token)) (λ _. on_marker-IsCounted now e c h)
              λ _.
                if_rule P (e.sequence == 0)
                  (λ _.
                    if_rule P (e.incomplete && is_execution e.kind)
                      (λ _. invalidate_attachment-IsCounted e.attachment_id unmatched_event c h)
                      λ _. h)
                  λ _.
                    if_rule P (is_start e.phase) (λ _. on_start-IsCounted now e c h)
                      λ _. if_rule P (is_finish e.phase) (λ _. on_finish-IsCounted now e c h) λ _. h

    input-IsCounted :
        (x : Input o) (c : Collector o) → IsCounted c.books → IsCounted (input parse_time x c).books
    unfolding input on_tick on_closed IsCounted
    input-IsCounted (calling k) c h = h
    input-IsCounted (bound now) c h = flush-IsCounted now c h
    input-IsCounted (tick now) c h = flush-IsCounted now c h
    input-IsCounted (closed now failed stopping) c h =
        let c' = flush now c in
        IsCounted-of_same c'.books (each_tree (drop_tree stream_end) c'.heap c'.books).1
          (each_tree-IsSameActive (drop_tree stream_end)
            (λ t b. drop_tree-IsSameActive stream_end t b) c'.heap c'.books)
          (flush-IsCounted now c h)
    input-IsCounted (received now e) c h = on_event-IsCounted now e c h

    -- After any inputs the counter of every attachment is at least the number of its active sequences,
    -- where it was so before: an attachment that runs a statement does not count as idle.
    pub run-IsCounted :
        (xs : List (Input o)) (c : Collector o)
        → IsCounted c.books
        → IsCounted (run parse_time xs c).books
    unfolding run
    run-IsCounted [] c h = h
    run-IsCounted (x ∷ xs) c h = run-IsCounted xs (input parse_time x c) (input-IsCounted x c h)
