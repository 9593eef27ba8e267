-- ===== src/Metadata/Graphs.antt =====
-- The rows of a query and the graph of the search (metadata/reader.go).
use firebirdsql_otel.Common.{
  ℕ, zero, suc, ◌+◌, ◌-◌, ◌*◌, ◌≤◌, ◌<◌, ◌≡◌, refl, sym, ap, ◌∙◌, subst, inl, inr, ◌↔◌, Bool, true,
  false, Option, none, some, List, [], ◌∷◌, ◌++◌, length, length-append, leb, if_rule, Bool-cases,
  arith,
}
use firebirdsql_otel.Common.Int.{ℤ, pos, negsuc, same_int}
use firebirdsql_otel.Text.{equal_iff}
use mathlib.Core.Logic.{⊎_elim}
use mathlib.Core.List.{Memᴰ}
use mathlib.Core.List.Memᴰ
use firebirdsql_otel.Metadata.{
  Object, Edge, dependency, package_body_scope, package_body, Row, Database, Search, same_object,
  is_seen, target, trim, is_packaged, body_of, truncate, add_edge, add_object, push, is_full,
  add_body, add_target, read_rows,
}
use firebirdsql_otel.Metadata.Reachable.{
  IsGraph, IsJustified, IsReported, IsGraph-old, IsGraph-new, Memᴰ-concat, Memᴰ_last,
}

same_int_iff : (a b : ℤ) → (same_int a b ≡ true) ↔ (a ≡ b)
same_int_iff (pos a) (pos b) = ground arith
same_int_iff (pos a) (negsuc b) = ground arith
same_int_iff (negsuc a) (pos b) = ground arith
same_int_iff (negsuc a) (negsuc b) = ground arith

object_ext :
    (a b : Object) → a.name ≡ b.name → a.kind ≡ b.kind → a.package_name ≡ b.package_name → a ≡ b
object_ext a b e f g i = record { name = e i; kind = f i; package_name = g i }

pub same_object_iff : (a b : Object) → (same_object a b ≡ true) ↔ (a ≡ b)
unfolding same_object
same_object_iff a b = (
  λ h.
      object_ext a b ((equal_iff a.name b.name).0 (ground arith))
        ((same_int_iff a.kind b.kind).0 (ground arith))
        ((equal_iff a.package_name b.package_name).0 (ground arith)),
  λ e. ground (
    arith,
    (equal_iff a.name b.name).1 (ap (λ o. o.name) e),
    (same_int_iff a.kind b.kind).1 (ap (λ o. o.kind) e),
    (equal_iff a.package_name b.package_name).1 (ap (λ o. o.package_name) e),
  ),
)

pub is_seen_iff : (o : Object) (xs : List Object) → (is_seen o xs ≡ true) ↔ Memᴰ o xs
unfolding is_seen
is_seen_iff o [] = (λ h. absurd cc, λ m. absurd (Memᴰ.not-nil m))
is_seen_iff o (x ∷ xs) = (
  λ h.
      ⊎_elim (λ e. Memᴰ.head (sym ((same_object_iff x o).0 e)))
        (λ f. Memᴰ.tail ((is_seen_iff o xs).0 (ground arith))) (Bool-cases (same_object x o)),
  λ m.
      ⊎_elim (λ e. ground (arith, (same_object_iff x o).1 (sym e)))
        (λ t. ground (arith, (is_seen_iff o xs).1 t)) (Memᴰ.cases_cons m),
)

unseen : (o : Object) (xs : List Object) → is_seen o xs ≡ false → ¬ Memᴰ o xs
unseen o xs h m = ground (arith, (is_seen_iff o xs).1 m)

module _ (m : ℕ) (d : Database) (root : Object) where
  pub record IsValid (s : Search) : Type 0 where
    pub rooted : s.graph.root ≡ root
    pub graph : IsGraph m d root s.graph.nodes s.graph.edges
    pub seen : s.seen ≡ s.graph.nodes
    pub queued : (o : Object) (depth : ℕ) → Memᴰ (o, depth) s.queue → Memᴰ o s.graph.nodes

  -- The queue, and the nodes that can still be added.
  abbrev pub work : Search → ℕ
  work s = length s.queue + (m - length s.graph.nodes)

  -- The state t is valid, has no more work than s, and has its nodes.
  pub record IsNext (s t : Search) : Type 0 where
    pub valid : IsValid t
    pub less : work t ≤ work s
    pub kept : (o : Object) → Memᴰ o s.graph.nodes → Memᴰ o t.graph.nodes

  pub IsNext-trans : {s t u : Search} → IsNext s t → IsNext t u → IsNext s u
  IsNext-trans a b = record {
    valid = b.valid;
    less = omega (arith, a.less, b.less);
    kept = λ o h. b.kept o (a.kept o h);
  }

  -- An edge between nodes; the bounds of the flags are not read.
  link-IsValid :
      (s : Search) (e : Edge)
      → IsValid s
      → IsJustified d e
      → Memᴰ e.from s.graph.nodes
      → Memᴰ e.to s.graph.nodes
      → length s.graph.edges < m * 4
      → IsValid (add_edge e s)
  link-IsValid s e v j from to h = record {
    rooted = v.rooted;
    graph = IsGraph-old v.graph e j from to h;
    seen = v.seen;
    queued = v.queued;
  }

  grow-IsValid :
      (s : Search) (e : Edge)
      → IsValid s
      → IsJustified d e
      → Memᴰ e.from s.graph.nodes
      → ¬ Memᴰ e.to s.graph.nodes
      → length s.graph.edges < m * 4
      → length s.graph.nodes < m
      → IsValid (add_object e.to (add_edge e s))
  grow-IsValid s e v j from to h k = record {
    rooted = v.rooted;
    graph = IsGraph-new v.graph e j from to h k;
    seen = ap (λ xs. xs ++ e.to ∷ []) v.seen;
    queued = λ o depth q. Memᴰ.append_left _ (v.queued o depth q);
  }

  push-IsValid :
      (s : Search) (o : Object) (depth : ℕ)
      → IsValid s
      → Memᴰ o s.graph.nodes
      → IsValid (push o depth s)
  push-IsValid s o depth v h = record {
    rooted = v.rooted;
    graph = v.graph;
    seen = v.seen;
    queued = λ x n q.
        ⊎_elim (v.queued x n)
          (λ e. subst (λ y. Memᴰ y s.graph.nodes) (sym (ap (λ (p : Object × ℕ). p.0) e)) h)
          (Memᴰ-concat (x, n) (o, depth) s.queue q);
  }

  room :
      (o : Object) (s : Search)
      → is_full m o s ≡ false
      → (length s.graph.edges < m * 4) × (is_seen o s.seen ≡ false → length s.graph.nodes < m)
  unfolding is_full
  room o s h = (ground arith, λ u. ground arith)

  -- What a state keeps where only its flags change.
  pub flags-IsNext :
      (s t : Search)
      → s.graph.root ≡ t.graph.root
      → s.graph.nodes ≡ t.graph.nodes
      → s.graph.edges ≡ t.graph.edges
      → s.queue ≡ t.queue
      → s.seen ≡ t.seen
      → IsValid s
      → IsNext s t
  flags-IsNext s t er en ee eq es v = record {
    valid = record {
      rooted = sym er ∙ v.rooted;
      graph =
          subst (λ es. IsGraph m d root t.graph.nodes es) ee
            (subst (λ ns. IsGraph m d root ns s.graph.edges) en v.graph);
      seen = sym es ∙ v.seen ∙ en;
      queued =
          λ o depth q. subst (Memᴰ o) en (v.queued o depth (subst (Memᴰ (o, depth)) (sym eq) q));
    };
    less = omega (arith, ap length en, ap length eq);
    kept = λ o. subst (Memᴰ o) en;
  }

  add_body-IsNext :
      (to : Object) (depth : ℕ) (s : Search)
      → IsValid s
      → Memᴰ to s.graph.nodes
      → is_packaged to ≡ true
      → IsNext s (add_body m to depth s)
  unfolding add_body IsJustified
  add_body-IsNext to depth s v here packaged =
      let next = body_of to in
      let scoped : Search = record s { graph = record s.graph { scope = package_body } } in
      let e : Edge = record { from = to; to = next; field = []; kind = package_body_scope } in
      let linked = add_edge e scoped in
      let v' : IsValid scoped = record {
        rooted = v.rooted;
        graph = v.graph;
        seen = v.seen;
        queued = v.queued;
      } in
      let j : IsJustified d e = inr (refl, packaged, refl) in
      if_rule (IsNext s) (is_full m next scoped)
        (λ _. flags-IsNext s (truncate scoped) refl refl refl refl refl v)
        λ nf.
          let (few, fewer) = room next scoped nf in
          if_rule (IsNext s) (is_seen next linked.seen)
            (λ old. record {
              valid =
                  link-IsValid scoped e v' j here
                    (subst (Memᴰ next) v.seen ((is_seen_iff next s.seen).0 old)) few;
              less = omega arith;
              kept = λ o h. h;
            })
            λ new.
              let fresh = fewer new in
              let absent : ¬ Memᴰ next s.graph.nodes =
                subst (λ ns. ¬ Memᴰ next ns) v.seen (unseen next s.seen new) in
              let grown = grow-IsValid scoped e v' j here absent few fresh in
              if_rule (IsNext s) (leb m (length linked.graph.nodes)) (λ over. absurd (ground arith))
                λ _. record {
                  valid =
                      push-IsValid (add_object next linked) next depth grown
                        (Memᴰ_last next s.graph.nodes);
                  less = omega (
                    arith,
                    length-append s.queue ((next, depth) ∷ []),
                    length-append s.graph.nodes (next ∷ []),
                  );
                  kept = λ o h. Memᴰ.append_left _ h;
                }

  add_target-IsNext :
      (e : Edge) (depth : ℕ) (s : Search)
      → IsValid s
      → Memᴰ e.from s.graph.nodes
      → IsJustified d e
      → is_full m e.to s ≡ false
      → IsNext s (add_target m e.to depth (add_edge e s))
  unfolding add_target
  add_target-IsNext e depth s v here j nf =
      let (few, fewer) = room e.to s nf in
      let linked = add_edge e s in
      let added = add_object e.to linked in
      if_rule (IsNext s) (is_seen e.to s.seen)
        (λ old. record {
          valid =
              link-IsValid s e v j here (subst (Memᴰ e.to) v.seen ((is_seen_iff e.to s.seen).0 old))
                few;
          less = omega arith;
          kept = λ o h. h;
        })
        λ new.
          let absent : ¬ Memᴰ e.to s.graph.nodes =
            subst (λ ns. ¬ Memᴰ e.to ns) v.seen (unseen e.to s.seen new) in
          let grown = grow-IsValid s e v j here absent few (fewer new) in
          let next : IsNext s added = record {
            valid = grown;
            less = omega (arith, fewer new, length-append s.graph.nodes (e.to ∷ []));
            kept = λ o h. Memᴰ.append_left _ h;
          } in
          if_rule (IsNext s) (is_packaged e.to)
            (λ p.
              IsNext-trans next
                (add_body-IsNext e.to depth added grown (Memᴰ_last e.to s.graph.nodes) p))
            λ _. record {
              valid = push-IsValid added e.to depth grown (Memᴰ_last e.to s.graph.nodes);
              less = omega (
                arith,
                fewer new,
                length-append s.queue ((e.to, depth) ∷ []),
                length-append s.graph.nodes (e.to ∷ []),
              );
              kept = λ o h. Memᴰ.append_left _ h;
            }

  -- The rows are among those that the database has for the current object.
  pub read_rows-IsNext :
      (current : Object) (depth : ℕ) (bad : Bool) (left : ℕ) (rs : List (Option Row)) (s : Search)
      → IsValid s
      → Memᴰ current s.graph.nodes
      → (all : List (Option Row)) → (d current.name current.kind).rows ≡ some all
      → ((r : Option Row) → Memᴰ r rs → Memᴰ r all)
      → IsNext s (read_rows m current depth bad left rs s).0
  unfolding read_rows IsJustified IsReported
  read_rows-IsNext current depth bad left [] s v here all from within =
      flags-IsNext s s refl refl refl refl refl v
  read_rows-IsNext current depth bad zero (r ∷ rs) s v here all from within =
      flags-IsNext s (truncate s) refl refl refl refl refl v
  read_rows-IsNext current depth bad (suc left) (none ∷ rs) s v here all from within =
      flags-IsNext s s refl refl refl refl refl v
  read_rows-IsNext current depth bad (suc left) (some r ∷ rs) s v here all from within =
      let to = target r in
      let e : Edge = record { from = current; to = to; field = trim r.field; kind = dependency } in
      let after = add_target m to depth (add_edge e s) in
      let j : IsJustified d e =
        inl (refl, (all, from, r, within (some r) (Memᴰ.head refl), refl, refl)) in
      if_rule (λ (x : Search × Bool). IsNext s x.0) (is_full m to s)
        (λ _. flags-IsNext s (truncate s) refl refl refl refl refl v)
        λ nf.
          let next = add_target-IsNext e depth s v here j nf in
          IsNext-trans next (
            read_rows-IsNext current depth bad left rs after next.valid (next.kept current here) all
              from (λ x h. within x (Memᴰ.tail h)))
