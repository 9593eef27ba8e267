-- ===== src/Spans/Tests.antt =====
-- A runtime of two scopes at most, and the theorems of trace/spans.go at it.
use firebirdsql_otel.Common.{
  ◌≤◌, ◌≡◌, refl, Bool, true, false, List, some, none, [], ◌∷◌, length, arith,
}
use firebirdsql_otel.Text.{codes}
use firebirdsql_otel.Spans.{Contexts, Scope, SpanRuntime, find_scope, bind, lookup_scope, second}
use firebirdsql_otel.Spans.Bounds.{registering, Call, calls, calls-IsWithin}
use firebirdsql_otel.Spans.Binding.{lookup_scope-bind, lookup_scope-bind_unsampled}

-- a span context is its sampling decision
abbrev contexts : Contexts
contexts = record { SpanContext = Bool; is_valid = λ _. true; is_sampled = λ b. b }

abbrev waiting : Scope contexts
waiting = record { parent = none; registered = 5; marker_completed = none }

abbrev runtime : SpanRuntime contexts
runtime = record {
  max_pending = 2;
  retention = second;
  running = true;
  registrations = (codes "0a", waiting) ∷ [];
}

abbrev two_calls : List (Call contexts)
two_calls = registering true (some (0x01 ∷ [])) 7 ∷ registering true (some (0x02 ∷ [])) 8 ∷ []

calls-IsWithin_example :
    length (calls runtime two_calls).registrations ≤ (calls runtime two_calls).max_pending
calls-IsWithin_example = calls-IsWithin runtime two_calls (omega arith)

waiting_found : find_scope (codes "0a") runtime.registrations ≡ some waiting
unfolding find_scope
waiting_found = refl

lookup_scope-bind_example :
    lookup_scope (bind runtime (codes "0a") true) (codes "0a") 9
    ≡ (bind runtime (codes "0a") true, some (record waiting { parent = some true }))
lookup_scope-bind_example =
    lookup_scope-bind runtime (codes "0a") true waiting 9 waiting_found refl (omega arith)

lookup_scope-bind_unsampled_example :
    lookup_scope (bind runtime (codes "0a") false) (codes "0a") 9
    ≡ (bind runtime (codes "0a") false, none)
lookup_scope-bind_unsampled_example = lookup_scope-bind_unsampled runtime (codes "0a") false 9 refl
