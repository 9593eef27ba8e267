-- ===== src/Metadata/Growth.antt =====
-- What the rows of a query add to the state of the search (metadata/reader.go).
use firebirdsql_otel.Common.{
  ℕ, zero, suc, ◌≡◌, sym, subst, ◌⊎◌, inl, inr, Bool, true, false, Option, none, some, List, [],
  ◌∷◌, ◌++◌, length, leb, if_rule, option_rule,
}
use mathlib.Core.Logic.{⊎_elim}
use mathlib.Core.List.{Memᴰ}
use mathlib.Core.List.Memᴰ
use firebirdsql_otel.Metadata.{
  Object, Edge, dependency, package_body_scope, package_body, Limits, Row, Database, Search,
  is_seen, target, trim, is_packaged, body_of, truncate, add_edge, add_object, push, is_full,
  add_body, add_target, read_rows,
}
use firebirdsql_otel.Metadata.Reading.{visit}
use firebirdsql_otel.Metadata.Reachable.{Memᴰ-concat, Memᴰ_last}

abbrev pub row_edge : Object → Row → Edge
row_edge o r = record { from = o; to = target r; field = trim r.field; kind = dependency }

abbrev pub body_edge : Object → Edge
body_edge o = record { from = o; to = body_of o; field = []; kind = package_body_scope }

module _ (d : Database) where
  -- A packaged routine leads to its package body, and any other object to each that the database
  -- reports for it.
  unfoldable pub IsRead : List Edge → Object → Type 0
  IsRead es o =
      (is_packaged o ≡ true) × Memᴰ (body_edge o) es
      ⊎ (rows : List (Option Row)) × ((d o.name o.kind).rows ≡ some rows)
        × ((r : Row) → Memᴰ (some r) rows → Memᴰ (row_edge o r) es)

  -- An object that is read or will be.
  unfoldable pub IsHandled : Search → Object → Type 0
  IsHandled s o = ((depth : ℕ) × Memᴰ (o, depth) s.queue) ⊎ IsRead s.graph.edges o

  -- The state t has all of s, and a node that is new is handled, unless t is truncated.
  pub record IsGrown (s t : Search) : Type 0 where
    pub untruncated : t.graph.truncated ≡ false → s.graph.truncated ≡ false
    pub edges : (e : Edge) → Memᴰ e s.graph.edges → Memᴰ e t.graph.edges
    pub queue : (x : Object × ℕ) → Memᴰ x s.queue → Memᴰ x t.queue
    pub kept : (o : Object) → Memᴰ o s.graph.nodes → Memᴰ o t.graph.nodes
    pub nodes :
        t.graph.truncated ≡ false
        → (o : Object) → Memᴰ o t.graph.nodes
        → Memᴰ o s.graph.nodes ⊎ IsHandled t o

  IsRead-more :
      (es fs : List Edge) (o : Object)
      → ((e : Edge) → Memᴰ e es → Memᴰ e fs)
      → IsRead es o
      → IsRead fs o
  unfolding IsRead
  IsRead-more es fs o h (inl (p, m)) = inl (p, h (body_edge o) m)
  IsRead-more es fs o h (inr (rows, e, all)) = inr (rows, e, λ r m. h (row_edge o r) (all r m))

  pub IsHandled-more : (s t : Search) (o : Object) → IsGrown s t → IsHandled s o → IsHandled t o
  unfolding IsHandled
  IsHandled-more s t o g (inl (depth, m)) = inl (depth, g.queue (o, depth) m)
  IsHandled-more s t o g (inr r) = inr (IsRead-more s.graph.edges t.graph.edges o g.edges r)

  pub IsGrown-trans : (s t u : Search) → IsGrown s t → IsGrown t u → IsGrown s u
  IsGrown-trans s t u g h = record {
    untruncated = λ e. g.untruncated (h.untruncated e);
    edges = λ e m. h.edges e (g.edges e m);
    queue = λ x m. h.queue x (g.queue x m);
    kept = λ o m. h.kept o (g.kept o m);
    nodes = λ e o m.
        ⊎_elim
          (λ n. ⊎_elim inl (λ k. inr (IsHandled-more t u o h k)) (g.nodes (h.untruncated e) o n))
          inr (h.nodes e o m);
  }

  pub IsGrown-refl : (s : Search) → IsGrown s s
  IsGrown-refl s = record {
    untruncated = λ e. e;
    edges = λ e m. m;
    queue = λ x m. m;
    kept = λ o m. m;
    nodes = λ e o m. inl m;
  }

  truncate-IsGrown : (s : Search) → IsGrown s (truncate s)
  truncate-IsGrown s = record {
    untruncated = λ e. cc;
    edges = λ e m. m;
    queue = λ x m. m;
    kept = λ o m. m;
    nodes = λ e o m. inl m;
  }

  add_edge-IsGrown : (e : Edge) (s : Search) → IsGrown s (add_edge e s)
  add_edge-IsGrown e s = record {
    untruncated = λ h. h;
    edges = λ f m. Memᴰ.append_left _ m;
    queue = λ x m. m;
    kept = λ o m. m;
    nodes = λ h o m. inl m;
  }

  -- A new node that waits in the queue.
  new-IsGrown : (o : Object) (depth : ℕ) (s : Search) → IsGrown s (push o depth (add_object o s))
  unfolding IsHandled
  new-IsGrown o depth s = record {
    untruncated = λ h. h;
    edges = λ e m. m;
    queue = λ x m. Memᴰ.append_left _ m;
    kept = λ x m. Memᴰ.append_left _ m;
    nodes = λ h x m.
        ⊎_elim inl
          (λ same. inr (
            inl (
              depth,
              subst (λ y. Memᴰ (y, depth) (s.queue ++ (o, depth) ∷ [])) (sym same)
                  (Memᴰ_last (o, depth) s.queue),
            )))
          (Memᴰ-concat x o s.graph.nodes m);
  }

  -- A packaged routine that becomes a node, and its edge.
  abbrev routine : Object → Search → Search
  routine to s =
      let added = add_object to s in
      add_edge (body_edge to) (record added { graph = record added.graph { scope = package_body } })

  routine-IsGrown : (to : Object) (s : Search) → is_packaged to ≡ true → IsGrown s (routine to s)
  unfolding IsHandled IsRead
  routine-IsGrown to s p = record {
    untruncated = λ h. h;
    edges = λ e m. Memᴰ.append_left _ m;
    queue = λ x m. m;
    kept = λ x m. Memᴰ.append_left _ m;
    nodes = λ h x m.
        ⊎_elim inl
          (λ same. inr (
            inr (
              inl (
                subst
                  (λ y.
                    (is_packaged y ≡ true)
                    × Memᴰ (body_edge y) (s.graph.edges ++ body_edge to ∷ []))
                  (sym same) (p, Memᴰ_last (body_edge to) s.graph.edges)))))
          (Memᴰ-concat x to s.graph.nodes m);
  }

  -- There is no room for the package body.
  cut-IsGrown :
      (to : Object) (s : Search)
      → IsGrown s (
          truncate (record (add_object to s) {
            graph = record (add_object to s).graph { scope = package_body };
          }))
  cut-IsGrown to s = record {
    untruncated = λ e. cc;
    edges = λ e m. m;
    queue = λ x m. m;
    kept = λ o m. Memᴰ.append_left _ m;
    nodes = λ e o m. cc;
  }

  add_target-IsGrown :
      (m : ℕ) (to : Object) (depth : ℕ) (s : Search) → IsGrown s (add_target m to depth s)
  unfolding add_target add_body
  add_target-IsGrown m to depth s =
      let P : Search → Type 0 = IsGrown s in
      let added = add_object to s in
      let next = body_of to in
      let scoped : Search = record added { graph = record added.graph { scope = package_body } } in
      let linked = routine to s in
      if_rule P (is_seen to s.seen) (λ _. IsGrown-refl s)
        λ _.
          if_rule P (is_packaged to)
            (λ p.
              let grown = routine-IsGrown to s p in
              if_rule P (is_full m next scoped) (λ _. cut-IsGrown to s)
                λ _.
                  if_rule P (is_seen next linked.seen) (λ _. grown)
                    λ _.
                      if_rule P (leb m (length linked.graph.nodes))
                        (λ _.
                          IsGrown-trans s linked (truncate linked) grown (truncate-IsGrown linked))
                        λ _.
                          IsGrown-trans s linked (push next depth (add_object next linked)) grown
                            (new-IsGrown next depth linked))
            λ _. new-IsGrown to depth s

  -- The rows that are read without an error have their edges.
  pub read_rows-IsGrown :
      (m : ℕ) (o : Object) (depth : ℕ) (bad : Bool) (left : ℕ) (rs : List (Option Row)) (s : Search)
      → IsGrown s (read_rows m o depth bad left rs s).0
        × ((read_rows m o depth bad left rs s).0.graph.truncated ≡ false
            → (read_rows m o depth bad left rs s).1 ≡ false
            → (r : Row) → Memᴰ (some r) rs
            → Memᴰ (row_edge o r) (read_rows m o depth bad left rs s).0.graph.edges)
  unfolding read_rows
  read_rows-IsGrown m o depth bad left [] s = (IsGrown-refl s, λ _ _ r n. absurd (Memᴰ.not-nil n))
  read_rows-IsGrown m o depth bad zero (x ∷ rs) s = (truncate-IsGrown s, λ h _ r n. cc)
  read_rows-IsGrown m o depth bad (suc left) (none ∷ rs) s = (IsGrown-refl s, λ _ h r n. cc)
  read_rows-IsGrown m o depth bad (suc left) (some x ∷ rs) s =
      let e = row_edge o x in
      let linked = add_edge e s in
      let after = add_target m (target x) depth linked in
      let (ih, all) = read_rows-IsGrown m o depth bad left rs after in
      let end = (read_rows m o depth bad left rs after).0 in
      let step = add_target-IsGrown m (target x) depth linked in
      let P : Search × Bool → Type 0 = λ y.
        IsGrown s y.0
        × (y.0.graph.truncated ≡ false
            → y.1 ≡ false
            → (r : Row) → Memᴰ (some r) (some x ∷ rs)
            → Memᴰ (row_edge o r) y.0.graph.edges) in
      if_rule P (is_full m (target x) s) (λ _. (truncate-IsGrown s, λ h _ r n. cc))
        λ _. (
          IsGrown-trans s after end (IsGrown-trans s linked after (add_edge-IsGrown e s) step) ih,
          λ h k r n.
              ⊎_elim
                (λ same. ih.edges (row_edge o r) (
                  step.edges (row_edge o r) (
                    subst
                      (λ (y : Option Row).
                        Memᴰ (elim y as (λ _. Edge) [ none ↦ e | some z ↦ row_edge o z ])
                          (s.graph.edges ++ e ∷ []))
                      (sym same) (Memᴰ_last e s.graph.edges))))
                (λ tail. all h k r tail) (Memᴰ.cases_cons n),
        )

  -- The body of the loop, where it makes no error, reads the object.
  pub visit-IsGrown :
      (l : Limits) (o : Object) (depth : ℕ) (s : Search)
      → IsGrown s (visit l d o depth s).0
        × ((visit l d o depth s).0.graph.truncated ≡ false
            → (visit l d o depth s).1 ≡ false
            → IsRead (visit l d o depth s).0.graph.edges o)
  unfolding visit IsRead
  visit-IsGrown l o depth s =
      let P : Search × Bool → Type 0 = λ y.
        IsGrown s y.0 × (y.0.graph.truncated ≡ false → y.1 ≡ false → IsRead y.0.graph.edges o) in
      if_rule P (leb l.max_depth depth) (λ _. (truncate-IsGrown s, λ h _. cc))
        λ _.
          option_rule P (d o.name o.kind).rows (λ _. (IsGrown-refl s, λ _ h. cc))
            λ rows e.
              let (g, all) =
                read_rows-IsGrown l.max_nodes o depth (d o.name o.kind).ends_badly l.max_nodes rows
                  s in
              (g, λ h k. inr (rows, e, all h k))
