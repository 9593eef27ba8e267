-- ===== src/Spans/Repeats/Leaves.antt =====
-- The calls that `repeatedLeaves` (trace/spans.go) collapses.
use firebirdsql_otel.Common.{
  ℕ, zero, suc, ◌+◌, ◌≤◌, ◌≡◌, ◌≢◌, refl, ◌⊎◌, inl, inr, Bool, true, false, ◌&&◌, ◌||◌, not, Option,
  none, some, List, [], ◌∷◌, length, take, leb, ltb, ◌==◌, if_rule, option_rule, All, All-append,
  arith,
}
use firebirdsql_otel.Text.{Bytes, equal, is_empty_lem}
use firebirdsql_otel.Trace.Stacks.{Kind, statement, procedure, function, trigger, lifecycle, gap}
use firebirdsql_otel.Trace.Event.{Event}
use firebirdsql_otel.Trace.Correlate.{same_kind}
use firebirdsql_otel.Spans.{Contexts}
use firebirdsql_otel.Spans.Collect.{Node, Tree}
use firebirdsql_otel.Spans.Repeats.{
  Group, is_quiet, comes_before, insert_group, select_groups, add_call, has_children, times,
  lasting, leaf_duration, collect_groups, rest_of, all_sequences, repeated_leaves,
}

-- The server did no work for the record.
abbrev IsQuiet : Event → Type 0
IsQuiet e = (e.reads ≡ 0) × (e.writes ≡ 0) × (e.fetches ≡ 0) × (e.marks ≡ 0) × (e.tables ≡ [])

module _ (parse_time : Bytes → Option ℕ) where
  -- Both records have times, in order and at most 2 ms apart, and the finish reports 2 ms at most.
  pub IsShort : Event → Event → Type 0
  IsShort start finish =
      (a : ℕ) × (b : ℕ) × (parse_time start.timestamp ≡ some a)
      × (parse_time finish.timestamp ≡ some b)
      × (a ≤ b)
      × (b ≤ a + 2000000)
      × (finish.duration_ms ≤ 2)

  -- A node of a complete and short procedure without work and without children among the nodes.
  pub IsLeaf : List Node → Node → Type 0
  IsLeaf nodes n =
      (finish : Event) × (n.finish ≡ some finish)
      × (n.start.kind ≡ procedure)
      × All (λ (m : Node). m.start.parent_sequence ≢ n.start.sequence) nodes
      × IsQuiet finish
      × IsShort n.start finish

  -- One of the nodes is such a node, and starts with this sequence.
  pub HasLeaf : List Node → List Node → ℕ → Type 0
  HasLeaf nodes [] k = ⊥
  HasLeaf nodes (n ∷ ns) k = ((n.start.sequence ≡ k) × IsLeaf nodes n) ⊎ HasLeaf nodes ns k

abbrev AllOf : (ℕ → Type 0) → List Group → Type 0
AllOf P gs = All (λ g. All P g.sequences) gs

add_call-AllOf :
    (P : ℕ → Type 0) (e : Event) (d : ℕ) (gs : List Group)
    → P e.sequence
    → AllOf P gs
    → AllOf P (add_call e d gs)
unfolding add_call
add_call-AllOf P e d [] h a = ((h, tt), tt)
add_call-AllOf P e d (g ∷ gs) h (x, a) =
    if_rule (AllOf P) (g.parent == e.parent_sequence && equal g.name e.name)
      (λ _. (All-append P g.sequences (e.sequence ∷ []) x (h, tt), a))
      λ _. (x, add_call-AllOf P e d gs h a)

insert_group-AllOf :
    (P : ℕ → Type 0) (g : Group) (gs : List Group)
    → All P g.sequences
    → AllOf P gs
    → AllOf P (insert_group g gs)
unfolding insert_group
insert_group-AllOf P g [] h a = (h, tt)
insert_group-AllOf P g (k ∷ gs) h (x, a) =
    if_rule (AllOf P) (comes_before g k) (λ _. (h, (x, a))) λ _. (x, insert_group-AllOf P g gs h a)

select_groups-AllOf : (P : ℕ → Type 0) (gs : List Group) → AllOf P gs → AllOf P (select_groups gs)
unfolding select_groups
select_groups-AllOf P [] a = tt
select_groups-AllOf P (g ∷ gs) (x, a) =
    let rest = select_groups-AllOf P gs a in
    if_rule (AllOf P) (leb 3 g.count) (λ _. insert_group-AllOf P g (select_groups gs) x rest)
      λ _. rest

take-AllOf : (P : ℕ → Type 0) (n : ℕ) (gs : List Group) → AllOf P gs → AllOf P (take n gs)
take-AllOf P zero gs a = tt
take-AllOf P (suc n) [] a = tt
take-AllOf P (suc n) (g ∷ gs) (x, a) = (x, take-AllOf P n gs a)

all_sequences-All : (P : ℕ → Type 0) (gs : List Group) → AllOf P gs → All P (all_sequences gs)
unfolding all_sequences
all_sequences-All P [] a = tt
all_sequences-All P (g ∷ gs) (x, a) =
    All-append P g.sequences (all_sequences gs) x (all_sequences-All P gs a)

module _ (parse_time : Bytes → Option ℕ) where
  has_children-false :
      (k : ℕ) (ns : List Node)
      → has_children k ns ≡ false
      → All (λ (m : Node). m.start.parent_sequence ≢ k) ns
  unfolding has_children
  has_children-false k [] h = tt
  has_children-false k (n ∷ ns) h = (λ e. ground arith, has_children-false k ns (ground arith))

  same_kind-procedure : (k : Kind) → same_kind k procedure ≡ true → k ≡ procedure
  same_kind-procedure statement h = cc
  same_kind-procedure procedure h = refl
  same_kind-procedure function h = cc
  same_kind-procedure trigger h = cc
  same_kind-procedure lifecycle h = cc
  same_kind-procedure gap h = cc

  is_quiet-true : (e : Event) → is_quiet e ≡ true → IsQuiet e
  is_quiet-true e h =
      (ground arith, ground arith, ground arith, ground arith, is_empty_lem e.tables (ground arith))

  lasting-IsShort :
      (start finish : Event) (d : ℕ)
      → lasting parse_time finish (times parse_time start finish) ≡ some d
      → IsShort parse_time start finish
  unfolding times IsShort
  lasting-IsShort start finish d =
      let R : Option (ℕ × ℕ) → Type 0 =
        λ ab. lasting parse_time finish ab ≡ some d → IsShort parse_time start finish in
      option_rule R (parse_time start.timestamp) (λ _ h. ground arith)
        λ a ea.
          option_rule R (parse_time finish.timestamp) (λ _ h. ground arith)
            λ b eb.
              if_rule R (ltb b a) (λ _ h. ground arith)
                λ order h. (a, b, ea, eb, ground arith, ground arith, ground arith)

  leaf_duration-IsLeaf :
      (nodes : List Node) (n : Node) (d : ℕ)
      → leaf_duration parse_time nodes n ≡ some d
      → IsLeaf parse_time nodes n
  unfolding leaf_duration IsLeaf
  leaf_duration-IsLeaf nodes n d h =
      let R : Option ℕ → Type 0 = λ r. r ≡ some d → IsLeaf parse_time nodes n in
      option_rule R n.finish (λ _ e. ground arith)
        (λ finish f.
          if_rule R
            (not (same_kind n.start.kind procedure)
              || has_children n.start.sequence nodes
              || not (is_quiet finish))
            {x = none} (λ _ e. ground arith)
            λ ok e. (
              finish,
              f,
              same_kind-procedure n.start.kind (ground (arith, ok)),
              has_children-false n.start.sequence nodes (ground (arith, ok)),
              is_quiet-true finish (ground (arith, ok)),
              lasting-IsShort n.start finish d e,
            ))
        h

  collect_groups-AllOf :
      (P : ℕ → Type 0) (nodes ns : List Node) (gs : List Group)
      → ((k : ℕ) → HasLeaf parse_time nodes ns k → P k)
      → AllOf P gs
      → AllOf P (collect_groups parse_time nodes ns gs)
  unfolding collect_groups HasLeaf
  collect_groups-AllOf P nodes [] gs h a = a
  collect_groups-AllOf P nodes (n ∷ ns) gs h a =
      let later : (k : ℕ) → HasLeaf parse_time nodes ns k → P k = λ k x. h k (inr x) in
      option_rule (AllOf P) (leaf_duration parse_time nodes n)
        (λ _. collect_groups-AllOf P nodes ns gs later a)
        λ d e. collect_groups-AllOf P nodes ns (add_call n.start d gs) later (
          add_call-AllOf P n.start d gs
            (h n.start.sequence (inl (refl, leaf_duration-IsLeaf nodes n d e))) a)

  -- Every sequence that `repeatedLeaves` collapses is that of a node behind the root: a complete
  -- procedure that no node of the tree names as its parent, without reads, writes, fetches, marks and
  -- tables, whose times are in order and at most 2 ms apart and that reports 2 ms at most.
  pub repeated_leaves-HasLeaf :
      {o : Contexts} (collapse : Bool) (t : Tree o)
      → All (HasLeaf parse_time t.nodes (rest_of t.nodes)) (repeated_leaves parse_time collapse t).0
  unfolding repeated_leaves
  repeated_leaves-HasLeaf collapse t =
      let P : ℕ → Type 0 = HasLeaf parse_time t.nodes (rest_of t.nodes) in
      let R : List ℕ × List Group → Type 0 = λ x. All P x.0 in
      let groups = collect_groups parse_time t.nodes (rest_of t.nodes) [] in
      if_rule R (not collapse || t.omitted || ltb (length t.nodes) 4) (λ _. tt)
        λ _. all_sequences-All P (take 8 (select_groups groups)) (
          take-AllOf P 8 (select_groups groups) (
            select_groups-AllOf P groups
              (collect_groups-AllOf P t.nodes (rest_of t.nodes) [] (λ k x. x) tt)))
