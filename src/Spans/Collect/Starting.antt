-- ===== src/Spans/Collect/Starting.antt =====
-- A start event in `consume` (trace/spans.go), where a tree may have no root for a moment.
use firebirdsql_otel.Common.{
  ℕ, ◌≤◌, ◌≡◌, refl, Bool, true, false, ◌&&◌, not, Option, none, some, List, [], ◌∷◌, ◌++◌, length,
  leb, ◌==◌, if◌then◌else◌, All, All-concat, if_rule, option_rule, length-append, arith,
  length-remove_key, length-put_key, remove_key, find_key, put_key,
}
use firebirdsql_otel.Trace.Event.{Event}
use firebirdsql_otel.Spans.{Contexts, lookup_scope}
use firebirdsql_otel.Spans.Collect.{
  Tree, Reason, expired_or_ambiguous, overflow, Books, Collector, drop_tree,
}
use firebirdsql_otel.Spans.Collect.Step.{
  max_frames, max_nodes, find_tree, set_tree, new_tree, drop_in, is_waiting, take_marker, add_node,
}
use firebirdsql_otel.Spans.Collect.Sampled.{lookup_scope-IsKept}
use firebirdsql_otel.Spans.Collect.Trees.{IsSound, IsRooted, IsGood, IsBooked, drop_tree-IsGood}
use firebirdsql_otel.Spans.Collect.Invariant.{IsWell}

module _ {o : Contexts} where
  set_tree-All :
      (P Q : Tree o → Type 0) (t : Tree o) (us : List (Tree o))
      → Q t
      → ((u : Tree o) → (u.id == t.id) ≡ false → P u → Q u)
      → All P us
      → All Q (set_tree t us)
  unfolding set_tree
  set_tree-All P Q t [] h k a = tt
  set_tree-All P Q t (u ∷ us) h k (p, a) =
      (if_rule Q (u.id == t.id) (λ _. h) (λ e. k u e p), set_tree-All P Q t us h k a)

  pub find_tree-All :
      (P : Tree o → Type 0) (id : ℕ) (t : Tree o) (ts : List (Tree o))
      → find_tree id ts ≡ some t
      → All P ts
      → P t × (t.id ≡ id)
  unfolding find_tree
  find_tree-All P id t [] h a = ground arith
  find_tree-All P id t (u ∷ us) h a = ground (arith, find_tree-All P id t us)

  -- All trees have a root, but the one that a marker has just made.
  unfoldable pub IsRootedBut : ℕ → Tree o → Type 0
  IsRootedBut id t = (if t.live && not (t.id == id) then 1 else 0) ≤ length t.nodes

  abbrev pub IsStarting : Bool → ℕ → Tree o → Type 0
  IsStarting collapse id t = IsSound collapse t × IsRootedBut id t

  -- The tree is put back with one that is good.
  pub set_tree-IsWell :
      (collapse : Bool) (t : Tree o) (ts : List (Tree o))
      → IsGood collapse t
      → All (IsStarting collapse t.id) ts
      → All (IsGood collapse) (set_tree t ts)
  unfolding IsRooted IsRootedBut
  set_tree-IsWell collapse t ts g a =
      set_tree-All (IsStarting collapse t.id) (IsGood collapse) t ts g
        (λ u e h. (h.0, ground (arith, e, h.1))) a

  drop_in-IsWell :
      (m : ℕ) (reason : Reason) (t : Tree o) (c : Collector o)
      → IsSound c.collapse t
      → All (IsStarting c.collapse t.id) c.heap
      → IsBooked m c.books
      → IsWell m (drop_in reason t c)
  unfolding drop_in IsWell drop_tree
  drop_in-IsWell m reason t c s a q =
      let (g, q') = drop_tree-IsGood m c.collapse reason t c.books s q in
      (set_tree-IsWell c.collapse (drop_tree reason t c.books).0 c.heap g a, q')

  pub add_node-IsWell :
      (m now : ℕ) (e : Event) (t : Tree o) (c : Collector o)
      → IsSound c.collapse t
      → All (IsStarting c.collapse t.id) c.heap
      → IsBooked m c.books
      → IsWell m (add_node now e t c)
  unfolding add_node IsWell IsRooted
  add_node-IsWell m now e t c s a q =
      let (r, found) = lookup_scope c.books.runtime t.token now in
      let b : Books o = record c.books { runtime = r } in
      let c' : Collector o = record c { books = b } in
      let q' : IsBooked m b = record {
        kept = lookup_scope-IsKept m c.books.runtime t.token now q.kept;
        framed = q.framed;
        marked = q.marked;
      } in
      option_rule (IsWell m) found (λ _. drop_in-IsWell m expired_or_ambiguous t c' s a q')
        λ sc _.
          if_rule (IsWell m) (leb max_frames (length b.frames))
            (λ _. drop_in-IsWell m overflow t c' s a q')
            λ room.
              let framed : length (put_key e.sequence t.id b.frames) ≤ max_frames =
                ground (arith, room, length-put_key e.sequence t.id b.frames) in
              let q'' : IsBooked m (record b { frames = put_key e.sequence t.id b.frames }) =
                record { kept = q'.kept; framed = framed; marked = q.marked } in
              if_rule (IsWell m) (leb (max_nodes c.collapse) (length t.nodes))
                (λ full. (
                  set_tree-IsWell c.collapse (record t { omitted = true }) c.heap
                      (
                        record { once = s.once; small = s.small; whole = s.whole },
                        ground (arith, full),
                      )
                      a,
                  q'',
                ))
                λ small. (
                  set_tree-IsWell c.collapse
                      (record t { nodes = t.nodes ++ record { start = e; finish = none } ∷ [] })
                      c.heap
                      (
                        record {
                          once = s.once;
                          small = ground (
                            arith,
                            small,
                            length-append t.nodes (record { start = e; finish = none } ∷ []),
                          );
                          whole = s.whole;
                        },
                        ground (
                          arith,
                          length-append t.nodes (record { start = e; finish = none } ∷ []),
                        ),
                      )
                      a,
                  q'',
                )

  -- What `take_marker` leaves: the trees are good, but for the one of the number that it returns.
  unfoldable pub IsTaken : ℕ → Collector o × Option ℕ → Type 0
  IsTaken m (c, none) = IsWell m c
  IsTaken m (c, some id) = All (IsStarting c.collapse id) c.heap × IsBooked m c.books

  pub IsStarting-of_good :
      (collapse : Bool) (id : ℕ) (ts : List (Tree o))
      → All (IsGood collapse) ts
      → All (IsStarting collapse id) ts
  unfolding IsRooted IsRootedBut
  IsStarting-of_good collapse id [] a = tt
  IsStarting-of_good collapse id (t ∷ ts) (g, a) =
      ((g.0, ground (arith, g.1)), IsStarting-of_good collapse id ts a)

  IsTaken-IsWell : (m : ℕ) (c : Collector o) (owner : Option ℕ) → IsWell m c → IsTaken m (c, owner)
  unfolding IsTaken IsWell
  IsTaken-IsWell m c none w = w
  IsTaken-IsWell m c (some id) (a, q) = (IsStarting-of_good c.collapse id c.heap a, q)

  pub take_marker-IsTaken :
      (m now : ℕ) (e : Event) (c : Collector o) → IsWell m c → IsTaken m (take_marker now e c)
  unfolding take_marker IsTaken IsWell IsRootedBut
  take_marker-IsTaken m now e c (a, q) =
      let owner = find_key e.parent_sequence c.books.frames in
      option_rule (IsTaken m) (find_key e.attachment_id c.books.pending)
        (λ _. IsTaken-IsWell m c owner (a, q))
        λ p _.
          let (r, found) = lookup_scope c.books.runtime p.token now in
          let b : Books o = record c.books {
            pending = remove_key e.attachment_id c.books.pending;
            runtime = r;
          } in
          let q' : IsBooked m b = record {
            kept = lookup_scope-IsKept m c.books.runtime p.token now q.kept;
            framed = q.framed;
            marked = omega (arith, q.marked, length-remove_key e.attachment_id c.books.pending);
          } in
          if_rule (IsTaken m) (is_waiting e c.books)
            (λ _.
              option_rule (IsTaken m) found
                (λ _. IsTaken-IsWell m (record c { books = b }) owner (a, q'))
                λ sc _.
                  let id = length c.heap in
                  (
                    All-concat (IsStarting c.collapse id) c.heap (new_tree id p sc)
                        (IsStarting-of_good c.collapse id c.heap a)
                        (
                          record { once = omega arith; small = ground arith; whole = refl },
                          ground arith,
                        ),
                    q',
                  ))
            λ _. IsTaken-IsWell m c owner (a, q)
