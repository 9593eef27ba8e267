-- ===== src/Spans/Binding.antt =====
-- What `lookup` finds behind `Bind` and `Discard` (trace/spans.go).
use firebirdsql_otel.Common.{
  ℕ, ◌-◌, ◌≤◌, ◌≡◌, refl, ap, ◌∙◌, true, false, ◌&&◌, Option, none, some, [], ◌∷◌, if◌then◌else◌,
  if_rule, option_rule, arith,
}
use firebirdsql_otel.Text.{Bytes, equal, equal_iff}
use firebirdsql_otel.Spans.{
  Contexts, Scope, Scopes, SpanRuntime, find_scope, remove_scope, put_scope, is_expired, bind,
  lookup_scope,
}

module _ {o : Contexts} where
  find_scope-remove_scope : (t : Bytes) (m : Scopes o) → find_scope t (remove_scope t m) ≡ none
  unfolding find_scope remove_scope
  find_scope-remove_scope t [] = refl
  find_scope-remove_scope t ((k, s) ∷ m) = ground (arith, find_scope-remove_scope t m)

  pub find_scope-put_scope :
      (t : Bytes) (v : Scope o) (m : Scopes o) → find_scope t (put_scope t v m) ≡ some v
  unfolding find_scope put_scope
  find_scope-put_scope t v [] = rw ((equal_iff t t).1 refl) refl
  find_scope-put_scope t v ((k, s) ∷ m) =
      if_rule (λ (x : Scopes o). find_scope t x ≡ some v) (equal k t)
        (λ _. rw ((equal_iff t t).1 refl) refl) λ e. rw e (find_scope-put_scope t v m)

  pub bound :
      (r : SpanRuntime o) (token : Bytes) (parent : o.SpanContext) (s : Scope o)
      → find_scope token r.registrations ≡ some s
      → (o.is_valid parent && o.is_sampled parent) ≡ true
      → bind r token parent ≡ record r {
        registrations = put_scope token (record s { parent = some parent }) r.registrations;
      }
  unfolding bind
  bound r token parent s f h =
      ap
        (λ (x : Option (Scope o)). elim x as (λ _. SpanRuntime o) [
          | none ↦ r
          | some s' ↦
              if o.is_valid parent && o.is_sampled parent
              then record r {
                registrations =
                    put_scope token (record s' { parent = some parent }) r.registrations;
              }
              else record r { registrations = remove_scope token r.registrations }
        ])
        f
      ∙ ap
          (λ b.
            if b
            then record r {
              registrations = put_scope token (record s { parent = some parent }) r.registrations;
            }
            else record r { registrations = remove_scope token r.registrations })
          h

  unbound :
      (r : SpanRuntime o) (token : Bytes) (parent : o.SpanContext)
      → (o.is_valid parent && o.is_sampled parent) ≡ false
      → find_scope token (bind r token parent).registrations ≡ none
  unfolding bind
  unbound r token parent h =
      option_rule (λ (x : SpanRuntime o). find_scope token x.registrations ≡ none)
        (find_scope token r.registrations) (λ n. n)
        λ s e. rw h (find_scope-remove_scope token r.registrations)

  -- `lookup` by what is found under the token.
  pub lookup_scope-fresh :
      (r : SpanRuntime o) (token : Bytes) (s : Scope o) (now : ℕ)
      → find_scope token r.registrations ≡ some s
      → now - s.registered ≤ r.retention
      → lookup_scope r token now ≡ (r, some s)
  unfolding lookup_scope
  lookup_scope-fresh r token s now f l =
      ap
        (λ (x : Option (Scope o)). elim x as (λ _. SpanRuntime o × Option (Scope o)) [
          | none ↦ (r, none)
          | some s' ↦
              if is_expired now r.retention s'
              then (record r { registrations = remove_scope token r.registrations }, none)
              else (r, some s')
        ])
        f
      ∙ ground arith

  lookup_scope-none :
      (r : SpanRuntime o) (token : Bytes) (now : ℕ)
      → find_scope token r.registrations ≡ none
      → lookup_scope r token now ≡ (r, none)
  unfolding lookup_scope
  lookup_scope-none r token now f =
      ap
        (λ (x : Option (Scope o)). elim x as (λ _. SpanRuntime o × Option (Scope o)) [
          | none ↦ (r, none)
          | some s' ↦
              if is_expired now r.retention s'
              then (record r { registrations = remove_scope token r.registrations }, none)
              else (r, some s')
        ])
        f

  -- A scope that waits is bound to a valid and sampled span: until the retention is over, `lookup`
  -- finds it with that span as its parent and with its time of registration, and keeps it.
  pub lookup_scope-bind :
      (r : SpanRuntime o) (token : Bytes) (parent : o.SpanContext) (s : Scope o) (now : ℕ)
      → find_scope token r.registrations ≡ some s
      → (o.is_valid parent && o.is_sampled parent) ≡ true
      → now - s.registered ≤ r.retention
      → lookup_scope (bind r token parent) token now
        ≡ (bind r token parent, some (record s { parent = some parent }))
  lookup_scope-bind r token parent s now f h l =
      let v = record s { parent = some parent } in
      rw (bound r token parent s f h) (
        lookup_scope-fresh (record r { registrations = put_scope token v r.registrations }) token v
          now (find_scope-put_scope token v r.registrations) l)

  -- A scope that is bound to a span that is not both valid and sampled is not found any more.
  pub lookup_scope-bind_unsampled :
      (r : SpanRuntime o) (token : Bytes) (parent : o.SpanContext) (now : ℕ)
      → (o.is_valid parent && o.is_sampled parent) ≡ false
      → lookup_scope (bind r token parent) token now ≡ (bind r token parent, none)
  lookup_scope-bind_unsampled r token parent now h =
      lookup_scope-none (bind r token parent) token now (unbound r token parent h)
