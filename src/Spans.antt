-- ===== src/Spans.antt =====
-- The scopes that wait for their server records (trace/spans.go): the bounds of `NewSpans`,
-- `Register`, `MarkerComplete`, `Bind`, `Discard` and `lookup`. Each runs under the lock of the
-- runtime, and is one function of the scopes here. A time is a number of nanoseconds that the clock
-- gives, and a span context is a type with its two tests.
pub mod Bounds
pub mod Binding
pub mod Collect
pub mod Repeats
pub mod Export
mod Tests
use firebirdsql_otel.Common.{
  ℕ, zero, suc, ◌+◌, ◌-◌, ◌*◌, Bool, true, false, ◌&&◌, ◌||◌, not, Option, none, some, List, [],
  ◌∷◌, length, leb, ltb, ◌==◌, within, if◌then◌else◌,
}
use firebirdsql_otel.Text.{Bytes, equal, hex}

-- trace.SpanContext of OpenTelemetry
pub record Contexts : Type 1 where
  pub SpanContext : Type 0
  pub is_valid : SpanContext → Bool
  pub is_sampled : SpanContext → Bool

-- The zero values of `parent` and of `markerCompleted` are none.
pub record Scope (o : Contexts) : Type 0 where
  pub parent : Option o.SpanContext
  pub registered : ℕ
  pub marker_completed : Option ℕ

abbrev pub Scopes : Contexts → Type 0
Scopes o = List (Bytes × Scope o)

pub record SpanRuntime (o : Contexts) : Type 0 where
  pub max_pending : ℕ
  pub retention : ℕ
  pub running : Bool
  pub registrations : Scopes o

abbrev pub second : ℕ
second = 1000000000

abbrev pub or_default : ℕ → ℕ → ℕ
or_default d n = if n == 0 then d else n

-- What `NewSpans` makes of its bounds, none where it refuses them.
unfoldable pub new_spans : (o : Contexts) → ℕ → ℕ → Option (SpanRuntime o)
new_spans o pending retention =
    let m = or_default 256 pending in
    let r = or_default (120 * second) retention in
    if within 1 4096 m && within second (300 * second) r
    then some (record { max_pending = m; retention = r; running = false; registrations = [] })
    else none

module _ {o : Contexts} where
  unfoldable pub find_scope : Bytes → Scopes o → Option (Scope o)
  unfolding equal
  find_scope t [] = none
  find_scope t ((k, s) ∷ m) = if equal k t then some s else find_scope t m

  -- `delete(s.registrations, token)`
  unfoldable pub remove_scope : Bytes → Scopes o → Scopes o
  unfolding equal
  remove_scope t [] = []
  remove_scope t ((k, s) ∷ m) = if equal k t then remove_scope t m else (k, s) ∷ remove_scope t m

  -- `s.registrations[token] = v`
  unfoldable pub put_scope : Bytes → Scope o → Scopes o → Scopes o
  unfolding equal
  put_scope t v [] = (t, v) ∷ []
  put_scope t v ((k, s) ∷ m) = if equal k t then (t, v) ∷ m else (k, s) ∷ put_scope t v m

  abbrev pub is_expired : ℕ → ℕ → Scope o → Bool
  is_expired now retention s = ltb retention (now - s.registered)

  -- The loop of `Register` over the scopes.
  unfoldable pub drop_expired : ℕ → ℕ → Scopes o → Scopes o
  drop_expired now retention [] = []
  drop_expired now retention ((k, s) ∷ m) =
      let rest = drop_expired now retention m in
      if is_expired now retention s then rest else (k, s) ∷ rest

  -- `Register`, with the bytes that rand.Read gave, or none where it failed.
  unfoldable pub register : SpanRuntime o → o.SpanContext → Option Bytes → ℕ → SpanRuntime o × Bytes
  unfolding drop_expired hex
  register r parent none now = (r, [])
  register r parent (some bytes) now =
      let m = drop_expired now r.retention r.registrations in
      let fresh : Scope o = record { parent = none; registered = now; marker_completed = none } in
      if o.is_valid parent && not (o.is_sampled parent)
      then (r, [])
      else if not r.running
      then (r, [])
      else if leb r.max_pending (length m)
      then (record r { registrations = m }, [])
      else (record r { registrations = put_scope (hex bytes) fresh m }, hex bytes)

  -- `MarkerComplete`
  unfoldable pub marker_complete : SpanRuntime o → Bytes → ℕ → SpanRuntime o
  marker_complete r token now = elim (find_scope token r.registrations) [
    | none ↦ r
    | some s ↦ record r {
      registrations = put_scope token (record s { marker_completed = some now }) r.registrations;
    }
  ]

  -- `Bind`
  unfoldable pub bind : SpanRuntime o → Bytes → o.SpanContext → SpanRuntime o
  bind r token parent = elim (find_scope token r.registrations) [
    | none ↦ r
    | some s ↦
        if o.is_valid parent && o.is_sampled parent
        then record r {
          registrations = put_scope token (record s { parent = some parent }) r.registrations;
        }
        else record r { registrations = remove_scope token r.registrations }
  ]

  -- `Discard`
  unfoldable pub discard : SpanRuntime o → Bytes → SpanRuntime o
  discard r token = record r { registrations = remove_scope token r.registrations }

  -- `lookup`
  unfoldable pub lookup_scope : SpanRuntime o → Bytes → ℕ → SpanRuntime o × Option (Scope o)
  lookup_scope r token now = elim (find_scope token r.registrations) [
    | none ↦ (r, none)
    | some s ↦
        if is_expired now r.retention s
        then (record r { registrations = remove_scope token r.registrations }, none)
        else (r, some s)
  ]
