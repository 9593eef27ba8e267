-- ===== src/Spans/Collect/Trees.antt =====
-- What holds of every tree of `consume` (trace/spans.go), and the rounds over all trees that keep it.
use firebirdsql_otel.Common.{
  ℕ, ◌+◌, ◌≤◌, ◌≡◌, Bool, true, ◌&&◌, ◌||◌, List, [], ◌∷◌, length, ◌==◌, if◌then◌else◌, All,
  if_rule, option_rule, arith, length-remove_values, length-remove_key, remove_key,
}
use firebirdsql_otel.Spans.{Contexts, SpanRuntime, discard, lookup_scope}
use firebirdsql_otel.Spans.Collect.{
  Node, Tree, Reason, expired_or_ambiguous, Marker, Books, drop_tree, drop_at, each_tree,
  discard_pending, is_root_of, has_valid_parent, remove_nodes, export_found, flush_tree,
}
use firebirdsql_otel.Spans.Collect.Step.{max_frames, max_nodes}
use firebirdsql_otel.Spans.Collect.Sampled.{
  is_admitted, IsAdmitted, IsKept, discard-IsKept, lookup_scope-IsKept, lookup_scope-IsAdmitted,
}

length-remove_nodes : (ns : List Node) (m : List (ℕ × ℕ)) → length (remove_nodes ns m) ≤ length m
unfolding remove_nodes
length-remove_nodes [] m = omega arith
length-remove_nodes (n ∷ ns) m = omega (
  arith,
  length-remove_nodes ns (remove_key n.start.sequence m),
  length-remove_key n.start.sequence m,
)

module _ {o : Contexts} where
  -- A tree is exported once at most, and not before its root is complete and its parent is a valid
  -- and sampled span. It has at most the nodes that the configuration allows.
  pub record IsSound (collapse : Bool) (t : Tree o) : Type 0 where
    pub once : (if t.live then 1 else 0) + t.exports ≤ 1
    pub small : length t.nodes ≤ max_nodes collapse
    pub whole :
        (t.exports == 0 || (t.complete && has_valid_parent t.scope && is_admitted t.scope)) ≡ true

  -- A tree that `trees` holds has a root: `tree.nodes[0]` is in range.
  unfoldable pub IsRooted : Tree o → Type 0
  IsRooted t = (if t.live then 1 else 0) ≤ length t.nodes

  abbrev pub IsGood : Bool → Tree o → Type 0
  IsGood collapse t = IsSound collapse t × IsRooted t

  -- The bounds of the maps, and the scopes.
  pub record IsBooked (m : ℕ) (b : Books o) : Type 0 where
    pub kept : IsKept m b.runtime
    pub framed : length b.frames ≤ max_frames
    pub marked : length b.pending ≤ m

  pub each_tree_rule :
      (P : Tree o → Type 0) (Q : Books o → Type 0) (f : Tree o → Books o → Tree o × Books o)
      → ((t : Tree o) (b : Books o) → t.live ≡ true → P t → Q b → P (f t b).0 × Q (f t b).1)
      → (ts : List (Tree o)) (b : Books o) → All P ts
      → Q b
      → All P (each_tree f ts b).0 × Q (each_tree f ts b).1
  unfolding each_tree
  each_tree_rule P Q f h [] b a q = (tt, q)
  each_tree_rule P Q f h (t ∷ ts) b (p, a) q =
      let R : Tree o × Books o → Type 0 = λ x. P x.0 × Q x.1 in
      let (p', q') = if_rule R t.live {x = f t b} {y = (t, b)} (λ e. h t b e p q) λ _. (p, q) in
      let (a', q'') = each_tree_rule P Q f h ts _ a q' in ((p', a'), q'')

  pub drop_tree-IsGood :
      (m : ℕ) (collapse : Bool) (reason : Reason) (t : Tree o) (b : Books o)
      → IsSound collapse t
      → IsBooked m b
      → IsGood collapse (drop_tree reason t b).0 × IsBooked m (drop_tree reason t b).1
  unfolding drop_tree IsRooted
  drop_tree-IsGood m collapse reason t b s q = (
    (record { once = ground (arith, s.once); small = s.small; whole = s.whole }, omega arith),
    record {
      kept = discard-IsKept m b.runtime t.token q.kept;
      framed = omega (arith, q.framed, length-remove_values (λ owner. owner == t.id) b.frames);
      marked = q.marked;
    },
  )

  pub drop_at-IsGood :
      (m : ℕ) (collapse : Bool) (reason : Reason) (attachment : ℕ) (t : Tree o) (b : Books o)
      → IsGood collapse t
      → IsBooked m b
      → IsGood collapse (drop_at reason attachment t b).0
        × IsBooked m (drop_at reason attachment t b).1
  drop_at-IsGood m collapse reason attachment t b g q =
      let R : Tree o × Books o → Type 0 = λ x. IsGood collapse x.0 × IsBooked m x.1 in
      option_rule R (is_root_of attachment t.nodes) (λ _. (g, q))
        λ here _. if_rule R here (λ _. drop_tree-IsGood m collapse reason t b g.0 q) λ _. (g, q)

  pub flush_tree-IsGood :
      (m : ℕ) (collapse : Bool) (now : ℕ) (t : Tree o) (b : Books o)
      → t.live ≡ true
      → IsGood collapse t
      → IsBooked m b
      → IsGood collapse (flush_tree now t b).0 × IsBooked m (flush_tree now t b).1
  unfolding flush_tree export_found IsRooted IsAdmitted
  flush_tree-IsGood m collapse now t b l (s, n) q =
      let R : Tree o × Books o → Type 0 = λ x. IsGood collapse x.0 × IsBooked m x.1 in
      let kept = lookup_scope-IsKept m b.runtime t.token now q.kept in
      let q' : IsBooked m (record b { runtime = (lookup_scope b.runtime t.token now).0 }) = record {
        kept = kept;
        framed = q.framed;
        marked = q.marked;
      } in
      option_rule R (lookup_scope b.runtime t.token now).1
        (λ _. drop_tree-IsGood m collapse expired_or_ambiguous t _ s q')
        λ sc found.
          let admitted = lookup_scope-IsAdmitted m b.runtime t.token now sc q.kept found in
          if_rule R (t.complete && has_valid_parent sc)
            (λ e. (
              (
                record {
                  once = ground (arith, s.once);
                  small = s.small;
                  whole = ground (arith, admitted, e);
                },
                omega arith,
              ),
              record {
                kept = discard-IsKept m (lookup_scope b.runtime t.token now).0 t.token kept;
                framed = omega (arith, q.framed, length-remove_nodes t.nodes b.frames);
                marked = q.marked;
              },
            ))
            λ _. ((s, n), q')

  pub discard_pending-IsKept :
      (m : ℕ) (ps : List (ℕ × Marker)) (r : SpanRuntime o)
      → IsKept m r
      → IsKept m (discard_pending ps r)
  unfolding discard_pending
  discard_pending-IsKept m [] r h = h
  discard_pending-IsKept m ((k, p) ∷ ps) r h =
      discard_pending-IsKept m ps (discard r p.token) (discard-IsKept m r p.token h)
