-- ===== src/Spans/Collect/Sampled.antt =====
-- The parents of the scopes that wait (trace/spans.go).
use firebirdsql_otel.Common.{
  ℕ, ◌≡◌, refl, ◌∙◌, ◌&&◌, Bool, true, not, Option, none, some, [], ◌∷◌, All, leb, length, if_rule,
  option_rule, arith,
}
use firebirdsql_otel.Text.{Bytes, hex}
use firebirdsql_otel.Spans.{
  Contexts, Scope, Scopes, SpanRuntime, find_scope, remove_scope, put_scope, drop_expired,
  is_expired, register, marker_complete, bind, discard, lookup_scope,
}
use firebirdsql_otel.Spans.Bounds.{
  Call, registering, completing, binding, discarding, looking, call,
}

module _ {o : Contexts} where
  unfoldable pub is_admitted : Scope o → Bool
  is_admitted s = elim s.parent as (λ _. Bool) [
    | none ↦ true
    | some p ↦ o.is_valid p && o.is_sampled p
  ]

  unfoldable pub IsAdmitted : Scope o → Type 0
  unfolding is_admitted
  IsAdmitted s = is_admitted s ≡ true

  abbrev pub AllAdmitted : Scopes o → Type 0
  AllAdmitted m = All (λ e. IsAdmitted e.1) m

  pub find_scope-IsAdmitted :
      (t : Bytes) (s : Scope o) (m : Scopes o)
      → find_scope t m ≡ some s
      → AllAdmitted m
      → IsAdmitted s
  unfolding find_scope
  find_scope-IsAdmitted t s [] h a = ground arith
  find_scope-IsAdmitted t s ((k, x) ∷ m) h a = ground (arith, find_scope-IsAdmitted t s m)

  pub remove_scope-IsAdmitted :
      (t : Bytes) (m : Scopes o) → AllAdmitted m → AllAdmitted (remove_scope t m)
  unfolding remove_scope
  remove_scope-IsAdmitted t [] a = tt
  remove_scope-IsAdmitted t ((k, x) ∷ m) a = ground (arith, remove_scope-IsAdmitted t m)

  put_scope-IsAdmitted :
      (t : Bytes) (s : Scope o) (m : Scopes o)
      → IsAdmitted s
      → AllAdmitted m
      → AllAdmitted (put_scope t s m)
  unfolding put_scope
  put_scope-IsAdmitted t s [] h a = (h, tt)
  put_scope-IsAdmitted t s ((k, x) ∷ m) h a = ground (arith, put_scope-IsAdmitted t s m)

  drop_expired-IsAdmitted :
      (now retention : ℕ) (m : Scopes o)
      → AllAdmitted m
      → AllAdmitted (drop_expired now retention m)
  unfolding drop_expired
  drop_expired-IsAdmitted now retention [] a = tt
  drop_expired-IsAdmitted now retention ((k, x) ∷ m) a =
      ground (arith, drop_expired-IsAdmitted now retention m)

  -- The bound of the runtime is the given one, and all its scopes are admitted.
  abbrev pub IsKept : ℕ → SpanRuntime o → Type 0
  IsKept m r = (r.max_pending ≡ m) × AllAdmitted r.registrations

  pub discard-IsKept : (m : ℕ) (r : SpanRuntime o) (t : Bytes) → IsKept m r → IsKept m (discard r t)
  unfolding discard
  discard-IsKept m r t (e, a) = (e, remove_scope-IsAdmitted t r.registrations a)

  pub lookup_scope-IsKept :
      (m : ℕ) (r : SpanRuntime o) (t : Bytes) (now : ℕ)
      → IsKept m r
      → IsKept m (lookup_scope r t now).0
  unfolding lookup_scope
  lookup_scope-IsKept m r t now (e, a) =
      let P : SpanRuntime o × Option (Scope o) → Type 0 = λ x. IsKept m x.0 in
      option_rule P (find_scope t r.registrations) (λ _. (e, a))
        λ s f.
          if_rule P (is_expired now r.retention s)
            (λ _. (e, remove_scope-IsAdmitted t r.registrations a)) λ _. (e, a)

  -- The scope that lookup finds is admitted.
  pub lookup_scope-IsAdmitted :
      (m : ℕ) (r : SpanRuntime o) (t : Bytes) (now : ℕ) (s : Scope o)
      → IsKept m r
      → (lookup_scope r t now).1 ≡ some s
      → IsAdmitted s
  unfolding lookup_scope
  lookup_scope-IsAdmitted m r t now s (e, a) found =
      let P : SpanRuntime o × Option (Scope o) → Type 0 = λ x. x.1 ≡ some s → IsAdmitted s in
      option_rule P (find_scope t r.registrations) (λ _ h. ground arith)
        (λ x f.
          if_rule P (is_expired now r.retention x) (λ _ h. ground arith)
            λ _ h. find_scope-IsAdmitted t s r.registrations (f ∙ h) a)
        found

  register-IsKept :
      (m : ℕ) (r : SpanRuntime o) (parent : o.SpanContext) (bytes : Option Bytes) (now : ℕ)
      → IsKept m r
      → IsKept m (register r parent bytes now).0
  unfolding register IsAdmitted is_admitted
  register-IsKept m r parent none now h = h
  register-IsKept m r parent (some bytes) now (e, a) =
      let P : SpanRuntime o × Bytes → Type 0 = λ x. IsKept m x.0 in
      let left = drop_expired-IsAdmitted now r.retention r.registrations a in
      if_rule P (o.is_valid parent && not (o.is_sampled parent)) (λ _. (e, a))
        λ _.
          if_rule P (not r.running) (λ _. (e, a))
            λ _.
              if_rule P (leb r.max_pending (length (drop_expired now r.retention r.registrations)))
                (λ _. (e, left)) λ _. (e, put_scope-IsAdmitted (hex bytes) _ _ refl left)

  marker_complete-IsKept :
      (m : ℕ) (r : SpanRuntime o) (t : Bytes) (now : ℕ)
      → IsKept m r
      → IsKept m (marker_complete r t now)
  unfolding marker_complete IsAdmitted is_admitted
  marker_complete-IsKept m r t now (e, a) =
      option_rule (IsKept m) (find_scope t r.registrations) (λ _. (e, a))
        λ s f. (e, put_scope-IsAdmitted t _ _ (find_scope-IsAdmitted t s r.registrations f a) a)

  bind-IsKept :
      (m : ℕ) (r : SpanRuntime o) (t : Bytes) (parent : o.SpanContext)
      → IsKept m r
      → IsKept m (bind r t parent)
  unfolding bind IsAdmitted is_admitted
  bind-IsKept m r t parent (e, a) =
      option_rule (IsKept m) (find_scope t r.registrations) (λ _. (e, a))
        λ s f.
          if_rule (IsKept m) (o.is_valid parent && o.is_sampled parent)
            (λ h. (e, put_scope-IsAdmitted t _ _ h a))
            λ _. (e, remove_scope-IsAdmitted t r.registrations a)

  -- Every call of the driver keeps this.
  pub call-IsKept : (m : ℕ) (r : SpanRuntime o) (c : Call o) → IsKept m r → IsKept m (call r c)
  call-IsKept m r (registering parent bytes now) h = register-IsKept m r parent bytes now h
  call-IsKept m r (completing token now) h = marker_complete-IsKept m r token now h
  call-IsKept m r (binding token parent) h = bind-IsKept m r token parent h
  call-IsKept m r (discarding token) h = discard-IsKept m r token h
  call-IsKept m r (looking token now) h = lookup_scope-IsKept m r token now h
