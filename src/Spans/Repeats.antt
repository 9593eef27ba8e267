-- ===== src/Spans/Repeats.antt =====
-- `repeatedLeaves` (trace/spans.go): the calls of a collected tree that are not exported one by one.
-- time.Parse is `parse_time`, in nanoseconds; the milliseconds that the source keeps as float64 are
-- nanoseconds here.
pub mod Leaves
mod Tests
use firebirdsql_otel.Common.{
  ℕ, zero, suc, ◌+◌, ◌-◌, ◌*◌, Bool, true, false, ◌&&◌, ◌||◌, not, max, Option, none, some, List,
  [], ◌∷◌, ◌++◌, length, take, leb, ltb, ◌==◌, if◌then◌else◌, find_key, put_key,
}
use firebirdsql_otel.Text.{Bytes, codes, equal, is_empty}
use firebirdsql_otel.Trace.Stacks.{Kind, statement, procedure, function, trigger, lifecycle, gap}
use firebirdsql_otel.Trace.Event.{Event, Table}
use firebirdsql_otel.Trace.Correlate.{same_kind}
use firebirdsql_otel.Spans.{Contexts, Scope}
use firebirdsql_otel.Spans.Collect.{Node, Tree}

-- `repeatedGroup`
pub record Group : Type 0 where
  pub name : Bytes
  pub parent : ℕ
  pub count : ℕ
  pub total : ℕ
  pub longest : ℕ
  pub sequences : List ℕ

-- `a < b` on strings
unfoldable pub less : Bytes → Bytes → Bool
less s [] = false
less [] (b ∷ t) = true
less (a ∷ s) (b ∷ t) = let rest = less s t in ltb a b || (a == b && rest)

-- The order of `sort.Slice`.
unfoldable pub comes_before : Group → Group → Bool
unfolding less equal
comes_before g h =
    if g.count == h.count
    then (if equal g.name h.name then ltb g.parent h.parent else less g.name h.name)
    else ltb h.count g.count

unfoldable pub insert_group : Group → List Group → List Group
unfolding comes_before
insert_group g [] = g ∷ []
insert_group g (h ∷ hs) =
    let rest = insert_group g hs in if comes_before g h then g ∷ h ∷ hs else h ∷ rest

-- The groups of three calls or more, in that order.
unfoldable pub select_groups : List Group → List Group
unfolding insert_group
select_groups [] = []
select_groups (g ∷ gs) =
    let rest = select_groups gs in if leb 3 g.count then insert_group g rest else rest

-- `groups[key]` with one call more.
unfoldable pub add_call : Event → ℕ → List Group → List Group
unfolding equal
add_call e d [] =
    record {
      name = e.name;
      parent = e.parent_sequence;
      count = 1;
      total = d;
      longest = d;
      sequences = e.sequence ∷ [];
    }
    ∷ []
add_call e d (g ∷ gs) =
    let rest = add_call e d gs in
    if g.parent == e.parent_sequence && equal g.name e.name
    then record g {
      count = suc g.count;
      total = g.total + d;
      longest = max g.longest d;
      sequences = g.sequences ++ e.sequence ∷ [];
    }
      ∷ gs
    else g ∷ rest

unfoldable pub has_children : ℕ → List Node → Bool
has_children sequence [] = false
has_children sequence (n ∷ ns) = n.start.parent_sequence == sequence || has_children sequence ns

abbrev pub is_quiet : Event → Bool
is_quiet e = e.reads == 0 && e.writes == 0 && e.fetches == 0 && e.marks == 0 && is_empty e.tables

abbrev pub is_member : ℕ → List ℕ → Bool
is_member k [] = false
is_member k (j ∷ js) = j == k || is_member k js

abbrev pub rest_of {ℓ} : {A : Type ℓ} → List A → List A
rest_of [] = []
rest_of (x ∷ xs) = xs

unfoldable pub all_sequences : List Group → List ℕ
all_sequences [] = []
all_sequences (g ∷ gs) = g.sequences ++ all_sequences gs

module _ (parse_time : Bytes → Option ℕ) where
  -- The times of a node that is complete, if both are there and in order.
  unfoldable pub times : Event → Event → Option (ℕ × ℕ)
  times start finish = elim (parse_time start.timestamp) as (λ _. Option (ℕ × ℕ)) [
    | none ↦ none
    | some a ↦ elim (parse_time finish.timestamp) as (λ _. Option (ℕ × ℕ)) [
      | none ↦ none
      | some b ↦ if ltb b a then none else some (a, b)
    ]
  ]

  abbrev pub lasting : Event → Option (ℕ × ℕ) → Option ℕ
  lasting finish none = none
  lasting finish (some (a, b)) =
      let d = max (finish.duration_ms * 1000000) (b - a) in if ltb 2000000 d then none else some d

  -- How long a call took that may be collapsed: a complete leaf procedure of 2 ms at most.
  unfoldable pub leaf_duration : List Node → Node → Option ℕ
  unfolding has_children times
  leaf_duration nodes n = elim n.finish as (λ _. Option ℕ) [
    | none ↦ none
    | some finish ↦
        if not (same_kind n.start.kind procedure)
          || has_children n.start.sequence nodes
          || not (is_quiet finish)
        then none
        else lasting finish (times n.start finish)
  ]

  -- The loop over `tree.nodes[1:]`.
  unfoldable pub collect_groups : List Node → List Node → List Group → List Group
  unfolding leaf_duration add_call
  collect_groups nodes [] gs = gs
  collect_groups nodes (n ∷ ns) gs = elim (leaf_duration nodes n) as (λ _. List Group) [
    | none ↦ collect_groups nodes ns gs
    | some d ↦ collect_groups nodes ns (add_call n.start d gs)
  ]

  -- `repeatedLeaves`: the sequences that are collapsed, and the groups.
  unfoldable pub repeated_leaves : {o : Contexts} → Bool → Tree o → List ℕ × List Group
  unfolding collect_groups select_groups all_sequences
  repeated_leaves collapse t =
      let selected = take 8 (select_groups (collect_groups t.nodes (rest_of t.nodes) [])) in
      if not collapse || t.omitted || ltb (length t.nodes) 4
      then ([], [])
      else (all_sequences selected, selected)
