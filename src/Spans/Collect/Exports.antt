-- ===== src/Spans/Collect/Exports.antt =====
-- From the binding of a span to the export of its tree (trace/spans.go).
use firebirdsql_otel.Common.{
  ℕ, suc, ◌-◌, ◌≤◌, ◌≡◌, refl, ap, sym, subst, ◌∙◌, true, false, ◌&&◌, Option, none, some, List, [],
  ◌∷◌, ◌++◌, All, if◌then◌else◌, if_rule, option_rule, arith,
}
use firebirdsql_otel.Text.{Bytes, equal, equal_iff}
use firebirdsql_otel.Spans.{
  Contexts, Scope, Scopes, SpanRuntime, find_scope, remove_scope, put_scope, is_expired, discard,
  lookup_scope,
}
use firebirdsql_otel.Spans.Bounds.{binding}
use firebirdsql_otel.Spans.Binding.{find_scope-put_scope, bound, lookup_scope-fresh}
use firebirdsql_otel.Spans.Collect.{
  Tree, expired_or_ambiguous, Books, Collector, drop_tree, each_tree, has_valid_parent,
  export_found, flush_tree, flush,
}
use firebirdsql_otel.Spans.Collect.Run.{Input, calling, run, input}

module _ {o : Contexts} where
  find_scope-remove_scope_other :
      (t k : Bytes) (m : Scopes o)
      → equal k t ≡ false
      → find_scope t (remove_scope k m) ≡ find_scope t m
  unfolding find_scope remove_scope
  find_scope-remove_scope_other t k [] h = refl
  find_scope-remove_scope_other t k ((j, s) ∷ m) h =
      let again = find_scope-remove_scope_other t k m h in
      if_rule (λ (x : Scopes o). find_scope t x ≡ find_scope t ((j, s) ∷ m)) (equal j k)
        (λ e.
          let other : equal j t ≡ false =
            subst (λ x. equal x t ≡ false) (sym ((equal_iff j k).0 e)) h in
          rw other again)
        λ e. ap (λ x. if equal j t then some s else x) again

  -- Two runtimes that hold the same scope of a token, for as long.
  abbrev IsSame : Bytes → SpanRuntime o → SpanRuntime o → Type 0
  IsSame t r r' =
      (find_scope t r'.registrations ≡ find_scope t r.registrations) × (r'.retention ≡ r.retention)

  discard-IsSame : (t k : Bytes) (r : SpanRuntime o) → equal k t ≡ false → IsSame t r (discard r k)
  unfolding discard
  discard-IsSame t k r h = (find_scope-remove_scope_other t k r.registrations h, refl)

  lookup_scope-IsSame :
      (t k : Bytes) (r : SpanRuntime o) (now : ℕ)
      → equal k t ≡ false
      → IsSame t r (lookup_scope r k now).0
  unfolding lookup_scope
  lookup_scope-IsSame t k r now h =
      let P : SpanRuntime o × Option (Scope o) → Type 0 = λ x. IsSame t r x.0 in
      option_rule P (find_scope k r.registrations) (λ _. (refl, refl))
        λ s _.
          if_rule P (is_expired now r.retention s)
            (λ _. (find_scope-remove_scope_other t k r.registrations h, refl)) λ _. (refl, refl)

  -- Flushing the tree of another token leaves the scope of this one.
  flush_tree-IsSame :
      (t : Bytes) (now : ℕ) (u : Tree o) (b : Books o)
      → equal u.token t ≡ false
      → IsSame t b.runtime (flush_tree now u b).1.runtime
  unfolding flush_tree drop_tree export_found
  flush_tree-IsSame t now u b h =
      let P : Tree o × Books o → Type 0 = λ x. IsSame t b.runtime x.1.runtime in
      let r = (lookup_scope b.runtime u.token now).0 in
      let (f, g) = lookup_scope-IsSame t u.token b.runtime now h in
      let (f', g') = discard-IsSame t u.token r h in
      option_rule P (lookup_scope b.runtime u.token now).1 (λ _. (f' ∙ f, g' ∙ g))
        λ sc _. if_rule P (u.complete && has_valid_parent sc) (λ _. (f' ∙ f, g' ∙ g)) λ _. (f, g)

  -- The tree as it is behind its export.
  abbrev pub done : Tree o → Scope o → Tree o
  done t sc = record t { scope = sc; exports = suc t.exports; live = false }

  flush_tree-done :
      (now : ℕ) (t : Tree o) (sc : Scope o) (b : Books o)
      → (t.complete && has_valid_parent sc) ≡ true
      → find_scope t.token b.runtime.registrations ≡ some sc
      → now - sc.registered ≤ b.runtime.retention
      → (flush_tree now t b).0 ≡ done t sc
  unfolding flush_tree drop_tree export_found
  flush_tree-done now t sc b h f l =
      ap
        (λ x.
          (elim x.1 as (λ _. Tree o × Books o) [
            | none ↦ drop_tree expired_or_ambiguous t (record b { runtime = x.0 })
            | some s ↦
                if t.complete && has_valid_parent s
                then export_found s t (record b { runtime = x.0 })
                else (t, record b { runtime = x.0 })
          ]).0)
        (lookup_scope-fresh b.runtime t.token sc now f l)
      ∙ ap
          (λ x.
            (if x
              then export_found sc t (record b { runtime = b.runtime })
              else (t, record b { runtime = b.runtime })).0)
          h

  -- A round over the trees comes to this one, if no tree before it has the same token.
  each_tree-done :
      (now : ℕ) (t : Tree o) (sc : Scope o) (ts us : List (Tree o)) (b : Books o)
      → All (λ u. equal u.token t.token ≡ false) ts
      → (t.live && t.complete && has_valid_parent sc) ≡ true
      → find_scope t.token b.runtime.registrations ≡ some sc
      → now - sc.registered ≤ b.runtime.retention
      → (ts' : List (Tree o)) × (us' : List (Tree o)) × ((each_tree
            (flush_tree now)
            (ts ++ t ∷ us)
            b).0
          ≡ ts' ++ done t sc ∷ us')
  unfolding each_tree
  each_tree-done now t sc [] us b a h f l =
      let P : Tree o × Books o → Type 0 = λ x.
        (ts' : List (Tree o)) × (us' : List (Tree o)) × (x.0 ∷ (each_tree (flush_tree now) us x.1).0
          ≡ ts' ++ done t sc ∷ us') in
      if_rule P t.live {x = flush_tree now t b} {y = (t, b)}
        (λ _.
          let exported = flush_tree-done now t sc b (ground (arith, h)) f l in
          (
            [],
            (each_tree (flush_tree now) us (flush_tree now t b).1).0,
            ap (λ x. x ∷ (each_tree (flush_tree now) us (flush_tree now t b).1).0) exported,
          ))
        λ e. absurd (ground (arith, h, e))
  each_tree-done now t sc (u ∷ ts) us b (d, a) h f l =
      let P : Tree o × Books o → Type 0 = λ x.
        (ts' : List (Tree o)) × (us' : List (Tree o)) × (x.0
            ∷ (each_tree (flush_tree now) (ts ++ t ∷ us) x.1).0
          ≡ ts' ++ done t sc ∷ us') in
      if_rule P u.live {x = flush_tree now u b} {y = (u, b)}
        (λ _.
          let b' = (flush_tree now u b).1 in
          let (same, long) = flush_tree-IsSame t.token now u b d in
          let (ts', us', e) =
            each_tree-done now t sc ts us b' a h (same ∙ f) (omega (arith, l, long)) in
          ((flush_tree now u b).0 ∷ ts', us', ap (◌∷◌ (flush_tree now u b).0) e))
        λ _.
          let (ts', us', e) = each_tree-done now t sc ts us b a h f l in
          (u ∷ ts', us', ap (◌∷◌ u) e)

  -- Where `trees` holds a complete tree whose token waits, and no tree before it has that token, the
  -- driver binds a valid and sampled span to the token: at the notice that follows within the
  -- retention the tree is exported, under that span, and leaves `trees`.
  pub run-done :
      (parse_time : Bytes → Option ℕ) (now : ℕ) (parent : o.SpanContext) (t : Tree o) (s : Scope o)
      (ts us : List (Tree o)) (c : Collector o)
      → c.heap ≡ ts ++ t ∷ us
      → All (λ u. equal u.token t.token ≡ false) ts
      → (t.live && t.complete) ≡ true
      → find_scope t.token c.books.runtime.registrations ≡ some s
      → (o.is_valid parent && o.is_sampled parent) ≡ true
      → now - s.registered ≤ c.books.runtime.retention
      → (ts' : List (Tree o)) × (us' : List (Tree o)) × ((run parse_time
            (calling (binding t.token parent) ∷ Input.bound now ∷ [])
            c).heap
          ≡ ts' ++ done t (record s { parent = some parent }) ∷ us')
  unfolding run input flush
  run-done parse_time now parent t s ts us c heap a h f p l =
      let sc : Scope o = record s { parent = some parent } in
      let r = c.books.runtime in
      let r' : SpanRuntime o = record r { registrations = put_scope t.token sc r.registrations } in
      let (ts', us', e) =
        each_tree-done now t sc ts us (record c.books { runtime = r' }) a (ground (arith, h, p))
          (find_scope-put_scope t.token sc r.registrations) l in
      (
        ts',
        us',
        ap (λ x. (each_tree (flush_tree now) c.heap (record c.books { runtime = x })).0)
              (bound r t.token parent s f p)
            ∙ ap (λ x. (each_tree (flush_tree now) x (record c.books { runtime = r' })).0) heap
            ∙ e,
      )
