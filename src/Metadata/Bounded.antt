-- ===== src/Metadata/Bounded.antt =====
-- The loop of `Read` (metadata/reader.go) and its graph.
use firebirdsql_otel.Common.{ℕ, ◌≡◌, refl, List, [], ◌∷◌}
use mathlib.Core.List.{Memᴰ}
use mathlib.Core.List.Memᴰ
use firebirdsql_otel.Metadata.{Object, Database}
use firebirdsql_otel.Metadata.Reading.{Outcome, finished, failed, cut, out_of_fuel}
use firebirdsql_otel.Metadata.Reachable.{IsGraph}

-- `Read` returns, and its graph is one.
unfoldable pub Returns : ℕ → Database → Object → Outcome → Type 0
Returns m d root (finished g) = (g.root ≡ root) × IsGraph m d root g.nodes g.edges
Returns m d root (failed g) = (g.root ≡ root) × IsGraph m d root g.nodes g.edges
Returns m d root (cut g) = (g.root ≡ root) × IsGraph m d root g.nodes g.edges
Returns m d root out_of_fuel = ⊥

pub queue_rule :
    (P : Outcome → Type 0) (q : List (Object × ℕ)) {n : Outcome}
    {f : Object → ℕ → List (Object × ℕ) → Outcome}
    → (q ≡ [] → P n)
    → ((o : Object) (depth : ℕ) (rest : List (Object × ℕ))
        → q ≡ (o, depth) ∷ rest
        → P (f o depth rest))
    → P (elim q as (λ _. Outcome) [ [] ↦ n | (o, depth) ∷ rest ↦ f o depth rest ])
queue_rule P [] h k = h refl
queue_rule P ((o, depth) ∷ rest) h k = k o depth rest refl
