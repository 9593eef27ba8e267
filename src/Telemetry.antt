-- ===== src/Telemetry.antt =====
-- `describe` and the decisions of `start` (telemetry.go): what a span says of a statement.
mod Tests
use firebirdsql_otel.Common.{
  ℕ, zero, suc, ◌≤◌, ◌≡◌, refl, ap, ◌∙◌, Bool, true, false, ◌&&◌, not, Option, none, some, List, [],
  ◌∷◌, ◌++◌, length, leb, if◌then◌else◌, if_rule, arith,
}
use firebirdsql_otel.Common.Int.{ℤ, pos, negsuc}
use firebirdsql_otel.Text.{Bytes, codes, equal, is_empty, Platform}
use firebirdsql_otel.Sql.Describe.{max_output, Description, effective_limit, analyze_with, analyze}
use firebirdsql_otel.Sql.Describe.Bounds.{IsBounded, analyze_with-IsBounded}
use firebirdsql_otel.Config.{Foreign, Config, SqlPolicy, sql_off, sql_raw_explicit}
use firebirdsql_otel.Config.Normal.{IsNormal}

-- `len(q) <= limit`
unfoldable pub within_limit : ℕ → ℤ → Bool
within_limit n (pos limit) = leb n limit
within_limit n (negsuc _) = false

module _ (p : Platform) where
  -- `describe`
  unfoldable pub describe : SqlPolicy → Bytes → Description
  unfolding analyze equal
  describe c q =
      let d = analyze p q c.max_input_bytes c.max_output_bytes in
      if equal c.mode sql_off
      then record d { text = [] }
      else if equal c.mode sql_raw_explicit
      then record d { text = if within_limit (length q) c.max_output_bytes then q else [] }
      else d

-- The operation that `start` gives a filter, and the description of its span.
pub record Started : Type 0 where
  pub d : Description
  pub enabled : Bool

-- A hint in the context names the procedure of a SELECT.
unfoldable pub apply_hint : Option Bytes → Description → Description
unfolding equal
apply_hint none d = d
apply_hint (some procedure) d =
    if equal d.operation (codes "SELECT")
    then record d { procedure = procedure; summary = codes "SELECT " ++ procedure }
    else d

unfoldable pub name_method : Bytes → Description → Description
name_method method d =
    if is_empty d.operation then record d { operation = method; summary = method } else d

module _ {f : Foreign} where
  unfoldable pub is_enabled : Config f → Bytes → Bool
  unfolding equal
  is_enabled c method =
      if equal method (codes "connect")
      then c.client.connect
      else if equal method (codes "prepare")
      then c.client.prepare
      else if equal method (codes "reset")
      then c.client.reset
      else if equal method (codes "ping")
      then c.client.ping
      else true

  -- `start`; `decide` is the call of a filter on the context and the operation.
  unfoldable pub start :
      Config f
      → (f.filter → Bytes → Description → Bool)
      → Option Bytes
      → Bytes
      → Description
      → Started
  unfolding apply_hint name_method is_enabled
  start c decide hint method d =
      let named = name_method method (apply_hint hint d) in
      let enabled = is_enabled c method in
      record {
        d = named;
        enabled = elim c.client.filter as (λ _. Bool) [
          | none ↦ enabled
          | some g ↦ enabled && decide g method named
        ];
      }

effective_limit_same : (n : ℕ) → 1 ≤ n → n ≤ max_output → effective_limit max_output (pos n) ≡ n
unfolding effective_limit
effective_limit_same zero a b = ground arith
effective_limit_same (suc n) a b = ground arith

length-raw : (q : Bytes) (n : ℕ) → length (if within_limit (length q) (pos n) then q else []) ≤ n
unfolding within_limit
length-raw q n =
    if_rule (λ (t : Bytes). length t ≤ n) (leb (length q) n) (λ h. ground arith) λ _. omega arith

module _ (p : Platform) {f : Foreign} where
  -- With an accepted configuration the output limit is a natural number, and in every SQL mode the
  -- text of a description is at most that long.
  pub describe-IsBounded :
      (c : Config f) (q : Bytes)
      → IsNormal c
      → (n : ℕ) × ((c.sql.max_output_bytes ≡ pos n) × (length (describe p c.sql q).text ≤ n))
  unfolding describe analyze
  describe-IsBounded c q h =
      let (n, (e, (low, high))) = h.output in
      let P : Description → Type 0 = λ d. length d.text ≤ n in
      (
        n,
        (
          e,
          if_rule P (equal c.sql.mode sql_off) (λ _. omega arith)
              λ _.
                if_rule P (equal c.sql.mode sql_raw_explicit) (λ _. rw e (length-raw q n))
                  λ _. omega (
                    arith,
                    (analyze_with-IsBounded p true q c.sql.max_input_bytes
                        c.sql.max_output_bytes).text,
                    ap (effective_limit max_output) e ∙ effective_limit_same n low high,
                  ),
        ),
      )
