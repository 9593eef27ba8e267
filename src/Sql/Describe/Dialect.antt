-- ===== src/Sql/Describe/Dialect.antt =====
-- A description is made whole or not at all, and the one for an unknown dialect is the one for
-- dialect 3, or nothing.
use firebirdsql_otel.Common.{
  ℕ, ◌≡◌, ◌⊎◌, inl, inr, refl, Bool, true, false, ◌&&◌, ◌||◌, not, none, some, List, [], ◌∷◌,
  length, ltb, if_rule, Bool-cases, All, arith,
}
use firebirdsql_otel.Common.Int.{ℤ}
use firebirdsql_otel.Text.{Bytes, Platform, is_empty, valid_string}
use firebirdsql_otel.Sql.Lex.Scan.{Token}
use firebirdsql_otel.Sql.Lex.Step.{LexResult, accepted, rejected, out_of_fuel, lex}
use firebirdsql_otel.Sql.Describe.Names.{text_of}
use firebirdsql_otel.Sql.Describe.{
  max_input, max_output, Description, anonymous, operation_start, add_name, is_ambiguous,
  any_ambiguous, describe_operation, effective_limit, normalized, describe_tokens, describe_result,
  analyze_with, analyze, analyze_unknown_dialect,
}

-- Nothing is set, or the description is marked valid.
abbrev IsWhole : Description → Type 0
IsWhole d = (d ≡ anonymous) ⊎ (d.valid ≡ true)

describe_operation-valid :
    (d : Description) (op : Bytes) (ts : List Token) (start : ℕ)
    → (describe_operation d op ts start).valid ≡ d.valid
unfolding describe_operation add_name
describe_operation-valid d op ts start = ground arith

-- No token of the text could be a string in another dialect.
abbrev pub NoAmbiguity : LexResult → Type 0
NoAmbiguity (accepted ts) = All (λ t. is_ambiguous t ≡ false) ts
NoAmbiguity rejected = Unit
NoAmbiguity out_of_fuel = Unit

module _ (p : Platform) where
  describe_tokens-IsWhole :
      (quoted_identifiers : Bool) (limit : ℕ) (ts : List Token)
      → IsWhole (describe_tokens p quoted_identifiers limit ts)
  unfolding describe_tokens
  describe_tokens-IsWhole quoted_identifiers limit ts =
      if_rule IsWhole (is_empty ts) (λ _. inl refl)
        λ _.
          if_rule IsWhole (not quoted_identifiers && any_ambiguous ts) (λ _. inl refl)
            λ _.
              elim (operation_start ts)
                as (λ o. IsWhole (elim o [
                  | none ↦ normalized p limit ts
                  | some start ↦
                      describe_operation (normalized p limit ts) (text_of ts start) ts start
                ])) [
                  | none ↦ inr (unfold normalized in refl)
                  | some start ↦ inr (
                      unfold normalized in
                      describe_operation-valid (normalized p limit ts) (text_of ts start) ts start)
                ]

  describe_result-IsWhole :
      (quoted_identifiers : Bool) (limit : ℕ) (r : LexResult)
      → IsWhole (describe_result p quoted_identifiers limit r)
  unfolding describe_result
  describe_result-IsWhole q limit (accepted ts) = describe_tokens-IsWhole q limit ts
  describe_result-IsWhole q limit rejected = inl refl
  describe_result-IsWhole q limit out_of_fuel = inl refl

  analyze_with-IsWhole : (q : Bool) (sql : Bytes) (i o : ℤ) → IsWhole (analyze_with p q sql i o)
  unfolding analyze_with
  analyze_with-IsWhole q sql i o =
      if_rule IsWhole _ (λ _. inl refl)
        λ _. describe_result-IsWhole q (effective_limit max_output o) (lex p sql)

  -- A description that is not valid says nothing of the statement.
  pub analyze_with_fails_closed :
      (quoted_identifiers : Bool) (sql : Bytes) (input_limit output_limit : ℤ)
      → (analyze_with p quoted_identifiers sql input_limit output_limit).valid ≡ false
      → analyze_with p quoted_identifiers sql input_limit output_limit ≡ anonymous
  analyze_with_fails_closed q sql i o h = elim (analyze_with-IsWhole q sql i o) [
    | inl e ↦ e
    | inr e ↦ cc
  ]

  All-any_ambiguous :
      (ts : List Token) → any_ambiguous ts ≡ false → All (λ t. is_ambiguous t ≡ false) ts
  unfolding any_ambiguous
  All-any_ambiguous [] h = tt
  All-any_ambiguous (t ∷ ts) h = (ground arith, All-any_ambiguous ts (ground arith))

  -- The two descriptions of what the lexer returned.
  abbrev Agree : ℕ → LexResult → Type 0
  Agree limit r =
      (describe_result p false limit r ≡ anonymous)
      ⊎ ((describe_result p false limit r ≡ describe_result p true limit r) × NoAmbiguity r)

  describe_tokens-Agree : (limit : ℕ) (ts : List Token) → Agree limit (accepted ts)
  unfolding describe_result describe_tokens
  describe_tokens-Agree limit ts = elim (Bool-cases (any_ambiguous ts)) [
    | inl e ↦ inl (rw e (ground arith))
    | inr e ↦ inr (rw e refl, All-any_ambiguous ts e)
  ]

  describe_result-Agree : (limit : ℕ) (r : LexResult) → Agree limit r
  describe_result-Agree limit (accepted ts) = describe_tokens-Agree limit ts
  describe_result-Agree limit rejected = inl (unfold describe_result in refl)
  describe_result-Agree limit out_of_fuel = inl (unfold describe_result in refl)

  -- For an unknown dialect the description is that of dialect 3, and no token is ambiguous, or it
  -- is the anonymous one.
  pub analyze_unknown_dialect_cases :
      (sql : Bytes) (input_limit output_limit : ℤ)
      → (analyze_unknown_dialect p sql input_limit output_limit ≡ anonymous)
        ⊎ ((analyze_unknown_dialect p sql input_limit output_limit
              ≡ analyze p sql input_limit output_limit)
            × NoAmbiguity (lex p sql))
  unfolding analyze_unknown_dialect analyze analyze_with
  analyze_unknown_dialect_cases sql i o =
      let refused = ltb (effective_limit max_input i) (length sql) || not (valid_string sql) in
      elim (Bool-cases refused) [
        | inl e ↦ rw e (inl refl)
        | inr e ↦ rw e (describe_result-Agree (effective_limit max_output o) (lex p sql))
      ]
