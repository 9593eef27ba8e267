-- ===== src/Sql/Tests.antt =====
-- Runs of internal/sqltext on small statements, and its theorems at concrete inputs.
use firebirdsql_otel.Common.{◌≡◌, ◌≢◌, ◌⊎◌, refl, true, false, none, List, [], ◌∷◌, arith}
use firebirdsql_otel.Common.Int.{pos}
use firebirdsql_otel.Text.{Bytes, codes, ascii}
use firebirdsql_otel.Sql.Lex.Scan.{Token}
use firebirdsql_otel.Sql.Lex.Step.{accepted, rejected, out_of_fuel, placeholder, lex, lex_loop}
use firebirdsql_otel.Sql.Lex.Brackets.{IsBalanced}
use firebirdsql_otel.Sql.Lex.Balance.{lex-IsBalanced}
use firebirdsql_otel.Sql.Lex.Progress.{lex-ne-out_of_fuel}
use firebirdsql_otel.Sql.Lex.Opaque.{IsContent, done, byte, before, string_literal, lex_loop-opaque}
use firebirdsql_otel.Sql.Describe.Bounds.{IsBounded, analyze_with-IsBounded}
use firebirdsql_otel.Sql.Describe.Dialect.{
  NoAmbiguity, analyze_with_fails_closed, analyze_unknown_dialect_cases,
}
use firebirdsql_otel.Sql.Describe.Leading.{LedBy, leading_operation-analyze}
use firebirdsql_otel.Sql.Describe.Hints.{IsHint, identifier-IsHint}
use firebirdsql_otel.Sql.Describe.Names.{
  identifier, object_name, extend_name, is_whole_name, text_at, text_of,
}
use firebirdsql_otel.Sql.Describe.{
  max_output, anonymous, effective_limit, analyze_with, analyze, analyze_unknown_dialect,
  leading_operation, describe_result, describe_tokens, normalized, describe_operation, find_target,
  is_operation, operation_start, find_from, nest, execute_target, without_lateral, is_called,
  add_name, any_ambiguous, find_operation, one_of,
}
use firebirdsql_otel.Text.{valid_string, equal}
use firebirdsql_otel.Sql.Framing.{statement_may_end}
use firebirdsql_otel.Sql.Framing.Safety.{statement_may_end-ne-none}

abbrev identifier_token : Bytes → Token
identifier_token s = record { text = s; identifier = true }

abbrev mark_token : Bytes → Token
mark_token s = record { text = s; identifier = false }

-- a comment, a string with a doubled quote, an array subscript
abbrev statement : Bytes
statement = codes "select f(a[1]) /* x */ from t where b = 'it''s'"

abbrev statement_tokens : List Token
statement_tokens =
    identifier_token (codes "SELECT")
    ∷ identifier_token (codes "F")
    ∷ mark_token (codes "(")
    ∷ identifier_token (codes "A")
    ∷ mark_token (codes "[")
    ∷ placeholder
    ∷ mark_token (codes "]")
    ∷ mark_token (codes ")")
    ∷ identifier_token (codes "FROM")
    ∷ identifier_token (codes "T")
    ∷ identifier_token (codes "WHERE")
    ∷ identifier_token (codes "B")
    ∷ mark_token (codes "=")
    ∷ placeholder
    ∷ []

lex-statement : lex ascii statement ≡ accepted statement_tokens
unfolding lex
lex-statement = refl

-- an open string, an open bracket, a letter behind a number
lex_refusals :
    (lex ascii (codes "select 'a") ≡ rejected)
    × (lex ascii (codes "select (a]") ≡ rejected)
    × (lex ascii (codes "select 1a") ≡ rejected)
unfolding lex
lex_refusals = (refl, refl, refl)

lex-IsBalanced_example : IsBalanced statement_tokens
lex-IsBalanced_example = lex-IsBalanced ascii statement lex-statement

lex-ne-out_of_fuel_example : lex ascii statement ≢ out_of_fuel
lex-ne-out_of_fuel_example = lex-ne-out_of_fuel ascii statement

abbrev tail : Bytes
tail = codes ", b"

IsContent-a : IsContent b'\'' (codes "s")
IsContent-a = byte (omega arith) done

IsContent-b : IsContent b'\'' (codes "xy")
IsContent-b = byte (omega arith) (byte (omega arith) done)

lex_loop-opaque_example :
    lex_loop ascii 9 (before [] [] (string_literal (codes "s") tail))
    ≡ lex_loop ascii 9 (before [] [] (string_literal (codes "xy") tail))
lex_loop-opaque_example =
    lex_loop-opaque ascii [] [] 9 9 tail (omega arith) IsContent-a IsContent-b (omega arith)
      (omega arith) (omega arith)

analyze_with-IsBounded_example :
    IsBounded
      (effective_limit max_output (pos 5))
      (analyze_with ascii true statement (pos 0) (pos 5))
analyze_with-IsBounded_example = analyze_with-IsBounded ascii true statement (pos 0) (pos 5)

invalid_statement : (analyze_with ascii true (codes "select 'a") (pos 0) (pos 0)).valid ≡ false
unfolding analyze_with describe_result effective_limit valid_string lex
invalid_statement = refl

analyze_with_fails_closed_example :
    analyze_with ascii true (codes "select 'a") (pos 0) (pos 0) ≡ anonymous
analyze_with_fails_closed_example =
    analyze_with_fails_closed ascii true (codes "select 'a") (pos 0) (pos 0) invalid_statement

analyze_unknown_dialect_cases_example :
    (analyze_unknown_dialect ascii statement (pos 0) (pos 0) ≡ anonymous)
    ⊎ ((analyze_unknown_dialect ascii statement (pos 0) (pos 0)
          ≡ analyze ascii statement (pos 0) (pos 0))
        × NoAmbiguity (lex ascii statement))
analyze_unknown_dialect_cases_example =
    analyze_unknown_dialect_cases ascii statement (pos 0) (pos 0)

leading_operation-analyze_example :
    LedBy (leading_operation ascii statement) (analyze ascii statement (pos 0) (pos 0)).operation
leading_operation-analyze_example = leading_operation-analyze ascii statement

-- a procedure call, a common table expression, UPDATE OR INSERT
analyze_runs :
    ((analyze ascii (codes "execute procedure p.q(1)") (pos 0) (pos 0)).procedure ≡ codes "P.Q")
    × ((analyze ascii
          (codes "with a as (select 1 from b) delete from t")
          (pos 0)
          (pos 0)).collection
        ≡ codes "T")
    × ((analyze ascii (codes "update or insert into t values (1)") (pos 0) (pos 0)).summary
        ≡ codes "UPDATE OR INSERT T")
unfolding analyze analyze_with describe_result describe_tokens normalized effective_limit
    describe_operation find_target find_from nest execute_target without_lateral is_called add_name
    any_ambiguous operation_start find_operation is_operation object_name extend_name text_at
    text_of valid_string equal lex one_of
analyze_runs = (refl, refl, refl)

identifier_dotted : identifier ascii (codes "pkg.run") ≡ true
unfolding identifier is_whole_name object_name extend_name valid_string equal lex
identifier_dotted = refl

identifier-IsHint_example : IsHint ascii (codes "pkg.run")
identifier-IsHint_example = identifier-IsHint ascii (codes "pkg.run") identifier_dotted

statement_may_end-ne-none_example : statement_may_end ascii (codes "select 1") ≢ none
statement_may_end-ne-none_example = statement_may_end-ne-none ascii (codes "select 1")
