-- ===== src/Spans/Collect/Step.antt =====
-- The loop of `consume` (trace/spans.go): one input is one round of its `select`, and the calls of
-- the driver come between the rounds.
use firebirdsql_otel.Common.{
  ℕ, zero, suc, ◌-◌, Bool, true, false, ◌&&◌, ◌||◌, Option, none, some, List, [], ◌∷◌, ◌++◌, length,
  leb, ltb, ◌==◌, if◌then◌else◌, find_key, remove_key, put_key,
}
use firebirdsql_otel.Trace.Stacks.{Kind, statement, procedure, function, trigger}
use firebirdsql_otel.Trace.Event.{Event, Phase, finish, Correlation, unmatched}
use firebirdsql_otel.Trace.Correlate.{same_kind}
use firebirdsql_otel.Spans.{Contexts, Scope, lookup_scope}
use firebirdsql_otel.Spans.Collect.{
  Node, Tree, Reason, expired_or_ambiguous, overflow, Marker, Books, Collector, drop_tree, flush,
}

abbrev pub is_unmatched : Correlation → Bool
is_unmatched unmatched = true
is_unmatched _ = false

abbrev pub is_finish : Phase → Bool
is_finish finish = true
is_finish _ = false

abbrev pub is_execution : Kind → Bool
is_execution k =
    same_kind k statement || same_kind k procedure || same_kind k function || same_kind k trigger

abbrev pub max_frames : ℕ
max_frames = 4096

-- `maxNodes`
abbrev pub max_nodes : Bool → ℕ
max_nodes collapse = if collapse then 512 else 128

-- `m[k]++`, and `m[k]--` with the entry deleted at 0.
unfoldable pub increment : ℕ → List (ℕ × ℕ) → List (ℕ × ℕ)
unfolding find_key put_key
increment k m = elim (find_key k m) [ none ↦ put_key k 1 m | some n ↦ put_key k (suc n) m ]

-- The source would store -1 for an entry that is missing, which is left so here; `consume` only comes
-- here for a sequence that was counted.
unfoldable pub decrement : ℕ → List (ℕ × ℕ) → List (ℕ × ℕ)
unfolding find_key put_key remove_key
decrement k m = elim (find_key k m) [
  | none ↦ m
  | some n ↦ if n == 1 then remove_key k m else put_key k (n - 1) m
]

-- The index of the node that `bySequence` holds for a sequence.
unfoldable pub node_at : ℕ → List Node → Option ℕ
node_at sequence [] = none
node_at sequence (n ∷ ns) = elim (node_at sequence ns) as (λ _. Option ℕ) [
  | some i ↦ some (suc i)
  | none ↦ if n.start.sequence == sequence then some 0 else none
]

-- `n.finish = e; n.complete = true`
unfoldable pub finish_node : ℕ → Event → List Node → List Node
finish_node i e [] = []
finish_node zero e (n ∷ ns) = record n { finish = some e } ∷ ns
finish_node (suc i) e (n ∷ ns) = n ∷ finish_node i e ns

module _ {o : Contexts} where
  unfoldable pub find_tree : ℕ → List (Tree o) → Option (Tree o)
  find_tree id [] = none
  find_tree id (t ∷ ts) = if t.id == id then some t else find_tree id ts

  unfoldable pub set_tree : Tree o → List (Tree o) → List (Tree o)
  set_tree t [] = []
  set_tree t (u ∷ us) = (if u.id == t.id then t else u) ∷ set_tree t us

  -- The tree of a marker, as `consume` makes it.
  abbrev pub new_tree : ℕ → Marker → Scope o → Tree o
  new_tree id p sc = record {
    id = id;
    token = p.token;
    scope = sc;
    anchor = p.anchor;
    nodes = [];
    complete = false;
    omitted = false;
    live = true;
    exports = 0;
  }

  -- `drop(tree, reason)`
  unfoldable pub drop_in : Reason → Tree o → Collector o → Collector o
  unfolding drop_tree set_tree
  drop_in reason t c =
      let (t', b) = drop_tree reason t c.books in record c { heap = set_tree t' c.heap; books = b }

  abbrev pub is_waiting : Event → Books o → Bool
  is_waiting e b =
      same_kind e.kind statement
      && e.parent_sequence == 0
      && (elim (find_key e.attachment_id b.active_by_attachment) as (λ _. Bool) [
        | none ↦ true
        | some n ↦ n == 0
      ])

  -- The marker that waits for this statement starts a tree, if its scope is still there.
  unfoldable pub take_marker : ℕ → Event → Collector o → Collector o × Option ℕ
  unfolding find_key remove_key lookup_scope
  take_marker now e c =
      let owner = find_key e.parent_sequence c.books.frames in
      elim (find_key e.attachment_id c.books.pending) as (λ _. Collector o × Option ℕ) [
        | none ↦ (c, owner)
        | some p ↦
            let (r, found) = lookup_scope c.books.runtime p.token now in
            let c' : Collector o = record c {
              books = record c.books {
                pending = remove_key e.attachment_id c.books.pending;
                runtime = r;
              };
            } in
            let id = length c.heap in
            if is_waiting e c.books
            then (elim found as (λ _. Collector o × Option ℕ) [
              | none ↦ (c', owner)
              | some sc ↦ (record c' { heap = c.heap ++ new_tree id p sc ∷ [] }, some id)
            ])
            else (c, owner)
      ]

  unfoldable pub activate : Event → Books o → Books o
  unfolding put_key increment
  activate e b =
      if ltb 0 e.attachment_id
      then record b {
        active = put_key e.sequence e.attachment_id b.active;
        active_by_attachment = increment e.attachment_id b.active_by_attachment;
      }
      else b

  -- The node of the event becomes the last one of its tree, within the bounds.
  unfoldable pub add_node : ℕ → Event → Tree o → Collector o → Collector o
  unfolding lookup_scope drop_in put_key set_tree
  add_node now e t c =
      let (r, found) = lookup_scope c.books.runtime t.token now in
      let b : Books o = record c.books { runtime = r } in
      let c' : Collector o = record c { books = b } in
      let framed : Books o = record b { frames = put_key e.sequence t.id b.frames } in
      elim found as (λ _. Collector o) [
        | none ↦ drop_in expired_or_ambiguous t c'
        | some sc ↦
            if leb max_frames (length b.frames)
            then drop_in overflow t c'
            else if leb (max_nodes c.collapse) (length t.nodes)
            then record c { heap = set_tree (record t { omitted = true }) c.heap; books = framed }
            else record c {
              heap =
                  set_tree
                    (record t { nodes = t.nodes ++ record { start = e; finish = none } ∷ [] })
                    c.heap;
              books = framed;
            }
      ]

  abbrev pub with_tree : Option ℕ → Collector o → (Tree o → Collector o) → Collector o
  with_tree owner c f = elim owner as (λ _. Collector o) [
    | none ↦ c
    | some id ↦ elim (find_tree id c.heap) as (λ _. Collector o) [ none ↦ c | some t ↦ f t ]
  ]

  -- `e.Phase == "start"`
  unfoldable pub on_start : ℕ → Event → Collector o → Collector o
  unfolding take_marker activate add_node find_tree
  on_start now e c =
      let (c', owner) = take_marker now e c in
      let c'' : Collector o = record c' { books = activate e c'.books } in
      with_tree owner c'' λ t. add_node now e t c''

  unfoldable pub deactivate : Event → Books o → Books o
  unfolding find_key remove_key decrement
  deactivate e b = elim (find_key e.sequence b.active) as (λ _. Books o) [
    | none ↦ b
    | some attachment ↦ record b {
      active = remove_key e.sequence b.active;
      active_by_attachment = decrement attachment b.active_by_attachment;
    }
  ]

  -- `n.finish = e`, and the flush behind the root.
  unfoldable pub close_node : ℕ → Event → Tree o → Collector o → Collector o
  unfolding node_at finish_node set_tree flush
  close_node now e t c = elim (node_at e.sequence t.nodes) as (λ _. Collector o) [
    | none ↦ c
    | some i ↦
        let closed : Tree o = record t { nodes = finish_node i e t.nodes } in
        if i == 0
        then flush now (record c { heap = set_tree (record closed { complete = true }) c.heap })
        else record c { heap = set_tree closed c.heap }
  ]

  -- `e.Phase == "finish"`
  unfoldable pub on_finish : ℕ → Event → Collector o → Collector o
  unfolding deactivate find_key remove_key find_tree close_node
  on_finish now e c =
      let b = deactivate e c.books in
      let owner = find_key e.sequence b.frames in
      let c' : Collector o = record c {
        books = record b { frames = remove_key e.sequence b.frames };
      } in
      with_tree owner c' λ t. close_node now e t c'
