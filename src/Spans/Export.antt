-- ===== src/Spans/Export.antt =====
-- `exportTree` (trace/spans.go): the spans of a collected tree, whose sequences differ. The tracer is
-- the parameter `context_of`, the span context that a started span gets, and time.Parse is
-- `parse_time`. The attributes of a span that are copied from its two events are not repeated: the
-- span has its node.
pub mod Parents
mod Tests
use firebirdsql_otel.Common.{
  ℕ, zero, suc, ◌+◌, ◌-◌, ◌*◌, Bool, true, false, ◌&&◌, ◌||◌, not, max, Option, none, some, List,
  [], ◌∷◌, ◌++◌, length, take, leb, ltb, ◌==◌, if◌then◌else◌, find_key, put_key,
}
use firebirdsql_otel.Text.{Bytes, codes, equal, is_empty}
use firebirdsql_otel.Trace.Stacks.{Kind, statement, procedure, function, trigger, lifecycle, gap}
use firebirdsql_otel.Trace.Event.{Event, Table}
use firebirdsql_otel.Trace.Correlate.{same_kind}
use firebirdsql_otel.Spans.{Contexts, Scope}
use firebirdsql_otel.Spans.Collect.{Node, Tree}
use firebirdsql_otel.Spans.Repeats.{Group, times, is_member, repeated_leaves}

-- The word of a kind, which names a span whose event has no name.
abbrev codes_of : Kind → Bytes
codes_of statement = codes "statement"
codes_of procedure = codes "procedure"
codes_of function = codes "function"
codes_of trigger = codes "trigger"
codes_of lifecycle = codes "lifecycle"
codes_of gap = codes "gap"

-- The attributes of the root only.
pub record Summary : Type 0 where
  pub source_event : Bool
  pub unpaired : Bool
  pub collection_limit : Bool
  pub export_limit : Bool
  pub collected : ℕ
  pub exportable : ℕ
  pub collapsed : ℕ
  pub groups : ℕ

-- A span that is started and ended: under a parent, with the times on the local clock.
pub record Span (o : Contexts) : Type 0 where
  pub parent : Option o.SpanContext
  pub context : o.SpanContext
  pub node : Node
  pub name : Bytes
  pub incomplete : Bool
  pub root : Option Summary
  pub plan : Bytes
  pub repeated : List Group
  pub started : ℕ
  pub ended : ℕ

abbrev is_paired : Node → Bool
is_paired n = elim n.finish as (λ _. Bool) [ none ↦ false | some e ↦ true ]

abbrev is_marked : Node → Bool
is_marked n = elim n.finish as (λ _. Bool) [
  | none ↦ n.start.incomplete
  | some e ↦ n.start.incomplete || e.incomplete
]

any_node : (Node → Bool) → List Node → Bool
any_node p [] = false
any_node p (n ∷ ns) = p n || any_node p ns

-- `visible`
unfoldable pub count_visible : List ℕ → List Node → ℕ
count_visible collapsed [] = 0
count_visible collapsed (n ∷ ns) =
    (if is_paired n && not (is_member n.start.sequence collapsed) then 1 else 0)
    + count_visible collapsed ns

abbrev is_limited : Summary → Bool
is_limited m = m.source_event || m.unpaired || m.collection_limit || m.export_limit

-- The groups whose calls were made by this node.
unfoldable pub groups_of : ℕ → List Group → List Group
groups_of sequence [] = []
groups_of sequence (g ∷ gs) =
    let rest = groups_of sequence gs in if g.parent == sequence then g ∷ rest else rest

abbrev pub max_spans : ℕ
max_spans = 128

-- The variables of the loop of `exportTree`; the last span comes first.
pub record Exporting (o : Contexts) : Type 0 where
  pub exported : ℕ
  pub parents : List (ℕ × o.SpanContext)
  pub spans : List (Span o)

module _ {o : Contexts} where
  abbrev pub nothing : Exporting o
  nothing = record { exported = 0; parents = []; spans = [] }

  unfoldable pub summary_of : Tree o → List ℕ → List Group → Summary
  unfolding count_visible any_node
  summary_of t collapsed groups =
      let visible = count_visible collapsed t.nodes in
      record {
        source_event = any_node is_marked t.nodes;
        unpaired = any_node (λ n. not (is_paired n)) t.nodes;
        collection_limit = t.omitted;
        export_limit = ltb max_spans visible;
        collected = length t.nodes;
        exportable = visible;
        collapsed = length collapsed;
        groups = length groups;
      }

  -- `markerCompleted`, or else `registered`
  abbrev local_anchor : Scope o → ℕ
  local_anchor s = elim s.marker_completed as (λ _. ℕ) [ none ↦ s.registered | some a ↦ a ]

  -- The span of a node under a parent.
  unfoldable pub span_of :
      Tree o
      → Summary
      → List Group
      → Bool
      → Option o.SpanContext
      → o.SpanContext
      → Node
      → Event
      → ℕ × ℕ
      → Span o
  unfolding groups_of
  span_of t m groups root parent context n finish (a, b) = record {
    parent = parent;
    context = context;
    node = n;
    name = if is_empty n.start.name then codes_of n.start.kind else n.start.name;
    incomplete = is_limited m;
    root = if root then some m else none;
    plan =
        if same_kind n.start.kind statement
        then (if is_empty n.start.plan then finish.plan else n.start.plan)
        else [];
    repeated = groups_of n.start.sequence groups;
    started = local_anchor t.scope + a - t.anchor;
    ended = local_anchor t.scope + b - t.anchor;
  }

module _ {o : Contexts} (parse_time : Bytes → Option ℕ)
    (context_of : Option o.SpanContext → Node → o.SpanContext) where
  unfoldable pub start_span :
      Tree o
      → Summary
      → List Group
      → Bool
      → Option o.SpanContext
      → Node
      → Event
      → ℕ × ℕ
      → Exporting o
      → Exporting o
  unfolding put_key span_of
  start_span t m groups root parent n finish ab x =
      let context = context_of parent n in
      record {
        exported = suc x.exported;
        parents = put_key n.start.sequence context x.parents;
        spans = span_of t m groups root parent context n finish ab ∷ x.spans;
      }

  -- A round of the loop.
  unfoldable pub export_node :
      Tree o → Summary → List ℕ → List Group → Bool → Node → Exporting o → Exporting o
  unfolding times start_span find_key
  export_node t m collapsed groups root n x = elim n.finish as (λ _. Exporting o) [
    | none ↦ x
    | some finish ↦
        if is_member n.start.sequence collapsed || leb max_spans x.exported
        then x
        else elim (times parse_time n.start finish) as (λ _. Exporting o) [
          | none ↦ x
          | some ab ↦
              if root
              then start_span t m groups root t.scope.parent n finish ab x
              else elim (find_key n.start.parent_sequence x.parents) as (λ _. Exporting o) [
                | none ↦ x
                | some p ↦ start_span t m groups root (some p) n finish ab x
              ]
        ]
  ]

  unfoldable pub export_rest :
      Tree o → Summary → List ℕ → List Group → List Node → Exporting o → Exporting o
  unfolding export_node
  export_rest t m collapsed groups [] x = x
  export_rest t m collapsed groups (n ∷ ns) x =
      export_rest t m collapsed groups ns (export_node t m collapsed groups false n x)

  abbrev pub export_nodes : Tree o → Summary → List ℕ → List Group → List Node → Exporting o
  export_nodes t m collapsed groups [] = nothing
  export_nodes t m collapsed groups (n ∷ ns) =
      export_rest t m collapsed groups ns (export_node t m collapsed groups true n nothing)

  -- `exportTree`
  unfoldable pub export_tree : Bool → Tree o → Exporting o
  unfolding repeated_leaves summary_of export_node export_rest
  export_tree collapse t =
      let (collapsed, groups) = repeated_leaves parse_time collapse t in
      export_nodes t (summary_of t collapsed groups) collapsed groups t.nodes
