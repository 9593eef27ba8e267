-- ===== src/Spans/Export/Parents.antt =====
-- The parents of the spans that `exportTree` (trace/spans.go) starts.
use firebirdsql_otel.Common.{
  ℕ, suc, ◌≤◌, ◌≡◌, refl, ap, subst, ◌⊎◌, inl, inr, Bool, true, false, ◌||◌, Option, none, some,
  List, [], ◌∷◌, length, leb, if◌then◌else◌, ◌==◌, ==_iff, if_rule, option_rule, All, find_key,
  put_key, arith,
}
use firebirdsql_otel.Text.{Bytes}
use firebirdsql_otel.Trace.Event.{Event}
use firebirdsql_otel.Spans.{Contexts}
use firebirdsql_otel.Spans.Collect.{Node, Tree}
use firebirdsql_otel.Spans.Repeats.{Group, times, is_member, repeated_leaves}
use firebirdsql_otel.Spans.Export.{
  Summary, Span, Exporting, max_spans, span_of, start_span, export_node, export_rest, nothing,
  export_nodes, summary_of, export_tree,
}

find_key-All {ℓ} :
    {A : Type ℓ} (P : ℕ → A → Type ℓ) (k : ℕ) (p : A) (m : List (ℕ × A))
    → find_key k m ≡ some p
    → All (λ e. P e.0 e.1) m
    → P k p
unfolding find_key
find_key-All P k p [] h a = ground arith
find_key-All {A = A} P k p ((j, q) ∷ m) h (x, a) =
    let R : Option A → Type ℓ = λ r. r ≡ some p → P k p in
    if_rule R (j == k)
      (λ e found.
        let same : q ≡ p =
          ap (λ (r : Option A). elim r as (λ _. A) [ none ↦ q | some y ↦ y ]) found in
        subst (λ y. P k y) same (subst (λ i. P i q) ((==_iff j k).0 e) x))
      (λ _ found. find_key-All P k p m found a) h

put_key-All {ℓ} :
    {A : Type ℓ} (P : ℕ → A → Type ℓ) (k : ℕ) (p : A) (m : List (ℕ × A))
    → P k p
    → All (λ e. P e.0 e.1) m
    → All (λ e. P e.0 e.1) (put_key k p m)
unfolding put_key
put_key-All P k p [] h a = (h, tt)
put_key-All {A = A} P k p ((j, q) ∷ m) h (x, a) =
    if_rule (λ (y : List (ℕ × A)). All (λ e. P e.0 e.1) y) (j == k) (λ _. (h, a))
      λ _. (x, put_key-All P k p m h a)

module _ {o : Contexts} where
  -- There is a span of this sequence with this context.
  pub HasSpan : ℕ → o.SpanContext → List (Span o) → Type 0
  HasSpan k p [] = ⊥
  HasSpan k p (s ∷ ss) = ((s.node.start.sequence ≡ k) × (s.context ≡ p)) ⊎ HasSpan k p ss

  -- The first span stands under the given root, every other under a span of the list whose sequence its
  -- node names as the parent.
  pub IsUnder : Option o.SpanContext → Span o → List (Span o) → Type 0
  IsUnder root s ss =
      ((s.parent ≡ root) × (ss ≡ []))
      ⊎ ((p : o.SpanContext) × (s.parent ≡ some p) × HasSpan s.node.start.parent_sequence p ss)

  unfoldable pub IsForest : Option o.SpanContext → List (Span o) → Type 0
  unfolding IsUnder
  IsForest root [] = Unit
  IsForest root (s ∷ ss) = IsUnder root s ss × IsForest root ss

  -- The variables of the loop: at most 128 spans, each under its parent, and `parents` has the contexts
  -- of spans.
  record IsSound (root : Option o.SpanContext) (x : Exporting o) : Type 0 where
    few : x.exported ≤ max_spans
    all : length x.spans ≡ x.exported
    known : All (λ e. HasSpan e.0 e.1 x.spans) x.parents
    forest : IsForest root x.spans

  no_spans : (ss : List (Span o)) → length ss ≡ 0 → ss ≡ []
  no_spans [] h = refl
  no_spans (s ∷ ss) h = absurd (omega arith)

  -- Every context that is known stays so when a span is added.
  known-cons :
      (s : Span o) (ss : List (Span o)) (m : List (ℕ × o.SpanContext))
      → All (λ e. HasSpan e.0 e.1 ss) m
      → All (λ e. HasSpan e.0 e.1 (s ∷ ss)) m
  unfolding HasSpan
  known-cons s ss [] a = tt
  known-cons s ss (e ∷ m) (h, a) = (inr h, known-cons s ss m a)

  module _ (parse_time : Bytes → Option ℕ)
      (context_of : Option o.SpanContext → Node → o.SpanContext) where
    start_span-IsSound :
        (t : Tree o) (m : Summary) (groups : List Group) (top : Bool)
        (parent root : Option o.SpanContext) (n : Node) (finish : Event) (ab : ℕ × ℕ)
        (x : Exporting o)
        → (((parent ≡ root) × (x.spans ≡ []))
            ⊎ ((p : o.SpanContext) × (parent ≡ some p) × HasSpan n.start.parent_sequence p x.spans))
        → leb max_spans x.exported ≡ false
        → IsSound root x
        → IsSound root (start_span parse_time context_of t m groups top parent n finish ab x)
    unfolding start_span span_of HasSpan IsForest IsUnder
    start_span-IsSound t m groups top parent root n finish (a, b) x under room s =
        let y = start_span parse_time context_of t m groups top parent n finish (a, b) x in
        record {
          few = ground (arith, room);
          all = ap suc s.all;
          known =
              put_key-All (λ k p. HasSpan k p y.spans) n.start.sequence (context_of parent n)
                x.parents (inl (refl, refl))
                (known-cons (span_of t m groups top parent (context_of parent n) n finish (a, b))
                  x.spans x.parents s.known);
          forest = (under, s.forest);
        }

    export_node-IsSound :
        (t : Tree o) (m : Summary) (collapsed : List ℕ) (groups : List Group) (top : Bool)
        (n : Node) (x : Exporting o)
        → ((if top then length x.spans else 0) ≡ 0)
        → IsSound t.scope.parent x
        → IsSound t.scope.parent (export_node parse_time context_of t m collapsed groups top n x)
    unfolding export_node
    export_node-IsSound t m collapsed groups top n x first s =
        let P : Exporting o → Type 0 = IsSound t.scope.parent in
        option_rule P n.finish (λ _. s)
          λ finish _.
            if_rule P (is_member n.start.sequence collapsed || leb max_spans x.exported) (λ _. s)
              λ room.
                option_rule P (times parse_time n.start finish) (λ _. s)
                  λ ab _.
                    if_rule P top
                      (λ e.
                        start_span-IsSound t m groups top t.scope.parent t.scope.parent n finish ab
                          x (inl (refl, no_spans x.spans (ground (arith, first, e))))
                          (ground (arith, room)) s)
                      λ _.
                        option_rule P (find_key n.start.parent_sequence x.parents) (λ _. s)
                          λ p found.
                            start_span-IsSound t m groups top (some p) t.scope.parent n finish ab x
                              (inr (
                                p,
                                refl,
                                find_key-All (λ k q. HasSpan k q x.spans) n.start.parent_sequence p
                                    x.parents found s.known,
                              ))
                              (ground (arith, room)) s

    export_rest-IsSound :
        (t : Tree o) (m : Summary) (collapsed : List ℕ) (groups : List Group) (ns : List Node)
        (x : Exporting o)
        → IsSound t.scope.parent x
        → IsSound t.scope.parent (export_rest parse_time context_of t m collapsed groups ns x)
    unfolding export_rest
    export_rest-IsSound t m collapsed groups [] x s = s
    export_rest-IsSound t m collapsed groups (n ∷ ns) x s =
        export_rest-IsSound t m collapsed groups ns _
          (export_node-IsSound t m collapsed groups false n x refl s)

    export_nodes_lem :
        (t : Tree o) (m : Summary) (collapsed : List ℕ) (groups : List Group) (ns : List Node)
        → IsSound t.scope.parent nothing
        → (length (export_nodes parse_time context_of t m collapsed groups ns).spans ≤ max_spans)
          × IsForest t.scope.parent
              (export_nodes parse_time context_of t m collapsed groups ns).spans
    export_nodes_lem t m collapsed groups [] s = (omega (arith, s.few, s.all), s.forest)
    export_nodes_lem t m collapsed groups (n ∷ ns) s =
        let s' =
          export_rest-IsSound t m collapsed groups ns _
            (export_node-IsSound t m collapsed groups true n nothing refl s) in
        (omega (arith, s'.few, s'.all), s'.forest)

    -- `exportTree` starts at most 128 spans. The first one stands under the parent of the tree's scope,
    -- and every other under the span that was started before it for the sequence that its event names
    -- as the parent.
    pub export_tree-IsForest :
        (collapse : Bool) (t : Tree o)
        → (length (export_tree parse_time context_of collapse t).spans ≤ max_spans)
          × IsForest t.scope.parent (export_tree parse_time context_of collapse t).spans
    unfolding export_tree IsForest
    export_tree-IsForest collapse t =
        let (collapsed, groups) = repeated_leaves parse_time collapse t in
        let m = summary_of t collapsed groups in
        let start : IsSound t.scope.parent nothing = record {
          few = omega arith;
          all = refl;
          known = tt;
          forest = tt;
        } in
        export_nodes_lem t m collapsed groups t.nodes start
