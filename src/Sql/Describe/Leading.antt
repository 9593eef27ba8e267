-- ===== src/Sql/Describe/Leading.antt =====
-- `LeadingOperation` and `analyze` name the same operation.
use firebirdsql_otel.Common.{
  ℕ, ◌≡◌, ◌⊎◌, inl, inr, refl, true, ◌||◌, not, none, some, List, [], ◌∷◌, length, ltb,
  if◌then◌else◌, Bool-cases, arith,
}
use firebirdsql_otel.Common.Int.{pos}
use firebirdsql_otel.Text.{Bytes, codes, Platform, equal, equal_iff, valid_string}
use firebirdsql_otel.Sql.Lex.Scan.{Token}
use firebirdsql_otel.Sql.Lex.Step.{LexResult, accepted, rejected, out_of_fuel, lex}
use firebirdsql_otel.Sql.Describe.Names.{text_of, Name}
use firebirdsql_otel.Sql.Describe.{
  max_input, max_output, Description, is_operation, operation_start, execute_target, find_target,
  add_name, describe_operation, effective_limit, normalized, describe_tokens, describe_result,
  analyze_with, analyze, leading_at, leading_of_tokens, leading_operation,
}

-- `found` is what the description reports where `led` leads the statement: the same, but for
-- UPDATE OR INSERT, which is led by UPDATE, and for "SQL" where there is no leading operation.
abbrev pub LedBy : Bytes → Bytes → Type 0
LedBy led found =
    (found ≡ led)
    ⊎ ((led ≡ []) × (found ≡ codes "SQL"))
    ⊎ ((led ≡ codes "UPDATE") × (found ≡ codes "UPDATE OR INSERT"))

add_name-operation :
    (d : Description) (op : Bytes) (ts : List Token) (n : Name)
    → (add_name d op ts n).operation ≡ d.operation
unfolding add_name
add_name-operation d op ts n = ground arith

find_target-LedBy :
    (op : Bytes) (ts : List Token) (start : ℕ)
    → LedBy
        (if equal op (codes "EXECUTE") then (execute_target op ts start).operation else op)
        (find_target op ts start).operation
unfolding find_target
find_target-LedBy op ts start = ground (arith, equal_iff op (codes "UPDATE"))

nothing_leads : LedBy [] (codes "SQL")
nothing_leads = inr (inl (refl, refl))

module _ (p : Platform) (limit : ℕ) where
  leading_at-LedBy :
      (ts : List Token) (start : ℕ)
      → LedBy
          (leading_at ts start)
          (describe_operation (normalized p limit ts) (text_of ts start) ts start).operation
  unfolding leading_at describe_operation normalized
  leading_at-LedBy ts start =
      let op = text_of ts start in
      let t = find_target op ts start in
      elim (Bool-cases (is_operation op)) [
        | inl e ↦ rw (e, add_name-operation) (find_target-LedBy op ts start)
        | inr e ↦ rw e nothing_leads
      ]

  leading_of_tokens-LedBy :
      (ts : List Token) → LedBy (leading_of_tokens ts) (describe_tokens p true limit ts).operation
  unfolding leading_of_tokens describe_tokens
  leading_of_tokens-LedBy [] = nothing_leads
  leading_of_tokens-LedBy (t ∷ ts) =
      elim (operation_start (t ∷ ts))
        as (λ o.
          LedBy (elim o [ none ↦ [] | some start ↦ leading_at (t ∷ ts) start ])
            (elim o as (λ _. Description) [
              | none ↦ normalized p limit (t ∷ ts)
              | some start ↦
                  describe_operation (normalized p limit (t ∷ ts)) (text_of (t ∷ ts) start) (t ∷ ts)
                    start
            ]).operation) [
              | none ↦ (unfold normalized in nothing_leads)
              | some start ↦ leading_at-LedBy (t ∷ ts) start
            ]

  result-LedBy :
      (r : LexResult)
      → LedBy
          (elim r [ accepted ts ↦ leading_of_tokens ts | _ ↦ [] ])
          (describe_result p true limit r).operation
  unfolding describe_result
  result-LedBy (accepted ts) = leading_of_tokens-LedBy ts
  result-LedBy rejected = nothing_leads
  result-LedBy out_of_fuel = nothing_leads

-- With the default limits, the description of a statement reports its leading operation.
pub leading_operation-analyze :
    (p : Platform) (sql : Bytes)
    → LedBy (leading_operation p sql) (analyze p sql (pos 0) (pos 0)).operation
unfolding leading_operation analyze analyze_with effective_limit
leading_operation-analyze p sql =
    elim (Bool-cases (ltb max_input (length sql) || not (valid_string sql))) [
      | inl e ↦ rw e nothing_leads
      | inr e ↦ rw e (result-LedBy p max_output (lex p sql))
    ]
