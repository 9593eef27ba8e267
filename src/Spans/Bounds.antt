-- ===== src/Spans/Bounds.antt =====
-- The number of the scopes that wait, over the calls of the driver (trace/spans.go).
use firebirdsql_otel.Common.{
  ℕ, suc, ◌≤◌, ◌≡◌, ◌&&◌, not, Option, none, some, List, [], ◌∷◌, length, leb, if_rule, arith,
  option_rule,
}
use firebirdsql_otel.Text.{Bytes, hex}
use firebirdsql_otel.Spans.{
  Contexts, Scope, Scopes, SpanRuntime, find_scope, remove_scope, put_scope, drop_expired,
  is_expired, register, marker_complete, bind, discard, lookup_scope,
}

-- A call that the driver or the consumer of records makes.
pub data Call (o : Contexts) : Type 0 where
  registering : o.SpanContext → Option Bytes → ℕ → Call o
  completing : Bytes → ℕ → Call o
  binding : Bytes → o.SpanContext → Call o
  discarding : Bytes → Call o
  looking : Bytes → ℕ → Call o

module _ {o : Contexts} where
  abbrev pub call : SpanRuntime o → Call o → SpanRuntime o
  call r (registering parent bytes now) = (register r parent bytes now).0
  call r (completing token now) = marker_complete r token now
  call r (binding token parent) = bind r token parent
  call r (discarding token) = discard r token
  call r (looking token now) = (lookup_scope r token now).0

  abbrev pub calls : SpanRuntime o → List (Call o) → SpanRuntime o
  calls r [] = r
  calls r (c ∷ cs) = calls (call r c) cs

  abbrev pub IsWithin : SpanRuntime o → Type 0
  IsWithin r = length r.registrations ≤ r.max_pending

  length-remove_scope : (t : Bytes) (m : Scopes o) → length (remove_scope t m) ≤ length m
  unfolding remove_scope
  length-remove_scope t [] = omega arith
  length-remove_scope t ((k, s) ∷ m) = ground (arith, length-remove_scope t m)

  length-drop_expired :
      (now retention : ℕ) (m : Scopes o) → length (drop_expired now retention m) ≤ length m
  unfolding drop_expired
  length-drop_expired now retention [] = omega arith
  length-drop_expired now retention ((k, s) ∷ m) =
      ground (arith, length-drop_expired now retention m)

  length-put_scope :
      (t : Bytes) (v : Scope o) (m : Scopes o) → length (put_scope t v m) ≤ suc (length m)
  unfolding put_scope
  length-put_scope t v [] = omega arith
  length-put_scope t v ((k, s) ∷ m) = ground (arith, length-put_scope t v m)

  length-put_scope_found :
      (t : Bytes) (v s : Scope o) (m : Scopes o)
      → find_scope t m ≡ some s
      → length (put_scope t v m) ≡ length m
  unfolding put_scope find_scope
  length-put_scope_found t v s [] h = ground arith
  length-put_scope_found t v s ((k, x) ∷ m) h = ground (arith, length-put_scope_found t v s m)

  register-IsWithin :
      (r : SpanRuntime o) (parent : o.SpanContext) (bytes : Option Bytes) (now : ℕ)
      → IsWithin r
      → IsWithin (register r parent bytes now).0
  unfolding register
  register-IsWithin r parent none now h = h
  register-IsWithin r parent (some bytes) now h =
      let m = drop_expired now r.retention r.registrations in
      let shorter = length-drop_expired now r.retention r.registrations in
      let P : SpanRuntime o × Bytes → Type 0 = λ x. IsWithin x.0 in
      if_rule P (o.is_valid parent && not (o.is_sampled parent)) (λ _. h)
        λ _.
          if_rule P (not r.running) (λ _. h)
            λ _.
              if_rule P (leb r.max_pending (length m)) (λ _. omega (arith, shorter))
                λ room. ground (
                  arith,
                  length-put_scope (hex bytes)
                      (record { parent = none; registered = now; marker_completed = none }) m,
                )

  marker_complete-IsWithin :
      (r : SpanRuntime o) (token : Bytes) (now : ℕ)
      → IsWithin r
      → IsWithin (marker_complete r token now)
  unfolding marker_complete
  marker_complete-IsWithin r token now h =
      option_rule IsWithin (find_scope token r.registrations) (λ _. h)
        λ s e. omega (
          arith,
          length-put_scope_found token (record s { marker_completed = some now }) s r.registrations
              e,
        )

  bind-IsWithin :
      (r : SpanRuntime o) (token : Bytes) (parent : o.SpanContext)
      → IsWithin r
      → IsWithin (bind r token parent)
  unfolding bind
  bind-IsWithin r token parent h =
      option_rule IsWithin (find_scope token r.registrations) (λ _. h)
        λ s e.
          if_rule IsWithin (o.is_valid parent && o.is_sampled parent)
            (λ _. omega (
              arith,
              length-put_scope_found token (record s { parent = some parent }) s r.registrations e,
            ))
            λ _. omega (arith, length-remove_scope token r.registrations)

  lookup_scope-IsWithin :
      (r : SpanRuntime o) (token : Bytes) (now : ℕ)
      → IsWithin r
      → IsWithin (lookup_scope r token now).0
  unfolding lookup_scope
  lookup_scope-IsWithin r token now h =
      let P : SpanRuntime o × Option (Scope o) → Type 0 = λ x. IsWithin x.0 in
      option_rule P (find_scope token r.registrations) (λ _. h)
        λ s e.
          if_rule P (is_expired now r.retention s)
            (λ _. omega (arith, length-remove_scope token r.registrations)) λ _. h

  call-IsWithin : (r : SpanRuntime o) (c : Call o) → IsWithin r → IsWithin (call r c)
  unfolding discard
  call-IsWithin r (registering parent bytes now) h = register-IsWithin r parent bytes now h
  call-IsWithin r (completing token now) h = marker_complete-IsWithin r token now h
  call-IsWithin r (binding token parent) h = bind-IsWithin r token parent h
  call-IsWithin r (discarding token) h = omega (arith, length-remove_scope token r.registrations)
  call-IsWithin r (looking token now) h = lookup_scope-IsWithin r token now h

  -- From a runtime within its bound, after any sequence of calls there are at most as many scopes
  -- as the bound of that runtime allows.
  pub calls-IsWithin : (r : SpanRuntime o) (cs : List (Call o)) → IsWithin r → IsWithin (calls r cs)
  calls-IsWithin r [] h = h
  calls-IsWithin r (c ∷ cs) h = calls-IsWithin (call r c) cs (call-IsWithin r c h)
