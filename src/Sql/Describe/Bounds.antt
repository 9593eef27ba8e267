-- ===== src/Sql/Describe/Bounds.antt =====
-- Descriptions fail closed, and every part of one is bounded.
use firebirdsql_otel.Common.{
  ℕ, zero, suc, ◌+◌, ◌≤◌, ◌≡◌, inl, inr, refl, Bool, true, ◌&&◌, not, Option, none, some, List, [],
  ◌∷◌, length, length-append, if_rule, All, Bool-cases, arith,
}
use firebirdsql_otel.Common.Int.{ℤ, pos, negsuc}
use firebirdsql_otel.Text.{Bytes, codes, Platform, equal, is_empty, equal_iff}
use firebirdsql_otel.Sql.Lex.Scan.{Token}
use firebirdsql_otel.Sql.Lex.Step.{LexResult, accepted, rejected, out_of_fuel, lex}
use firebirdsql_otel.Sql.Describe.Names.{Name, object_name, max_name, text_of}
use firebirdsql_otel.Sql.Describe.{
  max_output, Description, anonymous, one_of, is_operation, operations, operation_start, Target,
  execute_target, find_target, without_lateral, add_name, describe_operation, any_ambiguous,
  effective_limit, normalized, describe_tokens, describe_result, analyze_with,
}

-- An operation, alone or with the word that follows EXECUTE or UPDATE.
abbrev pub max_operation : ℕ
max_operation = 17

pub record IsBounded (limit : ℕ) (d : Description) : Type 0 where
  pub text : length d.text ≤ limit
  pub operation : length d.operation ≤ max_operation
  pub procedure : length d.procedure ≤ max_name
  pub collection : length d.collection ≤ max_name
  pub summary : length d.summary ≤ max_operation + 1 + max_name

length-object_name : (ts : List Token) (i : Option ℕ) → length (object_name ts i).name ≤ max_name
unfolding object_name
length-object_name ts none = omega arith
length-object_name ts (some i) = ground arith

length-one_of :
    (n : ℕ) (ws : List Bytes) (s : Bytes)
    → All (λ w. length w ≤ n) ws
    → one_of ws s ≡ true
    → length s ≤ n
unfolding one_of
length-one_of n [] s h e = cc
length-one_of n (w ∷ ws) s h e = elim (Bool-cases (equal s w)) [
  | inl same ↦ rw ((equal_iff s w).0 same) h.0
  | inr other ↦ length-one_of n ws s h.1 (ground arith)
]

length-is_operation : (s : Bytes) → is_operation s ≡ true → length s ≤ 9
unfolding is_operation
length-is_operation s e = length-one_of 9 operations s (omega arith) e

length-execute_target :
    (ts : List Token) (start : ℕ)
    → length (execute_target (codes "EXECUTE") ts start).operation ≤ max_operation
unfolding execute_target
length-execute_target ts start = ground arith

abbrev Short : Target → Type 0
Short t = length t.operation ≤ max_operation

length-find_target :
    (op : Bytes) (ts : List Token) (start : ℕ) → length op ≤ 9 → Short (find_target op ts start)
unfolding find_target
length-find_target op ts start h = elim (Bool-cases (equal op (codes "EXECUTE"))) [
  | inl e ↦
      rw ((equal_iff op (codes "EXECUTE")).0 e) (unfold equal in length-execute_target ts start)
  | inr e ↦ rw e (ground arith)
]

-- A description whose name is yet to be added.
record IsUnnamed (limit : ℕ) (d : Description) : Type 0 where
  text : length d.text ≤ limit
  operation : length d.operation ≤ max_operation
  procedure : d.procedure ≡ []
  collection : d.collection ≡ []

add_name-IsBounded :
    (limit : ℕ) (d : Description) (op : Bytes) (ts : List Token) (n : Name)
    → IsUnnamed limit d
    → length n.name ≤ max_name
    → IsBounded limit (add_name d op ts n)
unfolding add_name
add_name-IsBounded limit d op ts n h k = record {
  text = ground arith;
  operation = ground arith;
  procedure = ground arith;
  collection = ground arith;
  summary = ground (arith, length-append d.operation (b' ' ∷ n.name));
}

normalized-IsUnnamed :
    (p : Platform) (limit : ℕ) (ts : List Token) → IsUnnamed limit (normalized p limit ts)
unfolding normalized
normalized-IsUnnamed p limit ts = record {
  text = ground arith;
  operation = omega arith;
  procedure = refl;
  collection = refl;
}

-- Without a name the summary is that of the plain description.
normalized-IsBounded :
    (p : Platform) (limit : ℕ) (ts : List Token) → IsBounded limit (normalized p limit ts)
unfolding normalized
normalized-IsBounded p limit ts = record {
  text = ground arith;
  operation = omega arith;
  procedure = omega arith;
  collection = omega arith;
  summary = omega arith;
}

anonymous-IsBounded : (limit : ℕ) → IsBounded limit anonymous
anonymous-IsBounded limit = record {
  text = omega arith;
  operation = omega arith;
  procedure = omega arith;
  collection = omega arith;
  summary = omega arith;
}

describe_operation-IsBounded :
    (p : Platform) (limit : ℕ) (op : Bytes) (ts : List Token) (start : ℕ)
    → IsBounded limit (describe_operation (normalized p limit ts) op ts start)
unfolding describe_operation
describe_operation-IsBounded p limit op ts start =
    if_rule (IsBounded limit) (not (is_operation op)) (λ _. normalized-IsBounded p limit ts)
      λ known.
        let u = normalized-IsUnnamed p limit ts in
        let t = find_target op ts start in
        add_name-IsBounded limit (record (normalized p limit ts) { operation = t.operation }) op ts
          (object_name ts (without_lateral op ts t.target))
          (record {
            text = u.text;
            operation = length-find_target op ts start (length-is_operation op (ground arith));
            procedure = u.procedure;
            collection = u.collection;
          })
          (length-object_name ts (without_lateral op ts t.target))

module _ (p : Platform) (quoted_identifiers : Bool) where
  describe_tokens-IsBounded :
      (limit : ℕ) (ts : List Token)
      → IsBounded limit (describe_tokens p quoted_identifiers limit ts)
  unfolding describe_tokens
  describe_tokens-IsBounded limit ts =
      if_rule (IsBounded limit) (is_empty ts) (λ _. anonymous-IsBounded limit)
        λ _.
          if_rule (IsBounded limit) (not quoted_identifiers && any_ambiguous ts)
            (λ _. anonymous-IsBounded limit)
            λ _.
              elim (operation_start ts)
                as (λ o. IsBounded limit (elim o [
                  | none ↦ normalized p limit ts
                  | some start ↦
                      describe_operation (normalized p limit ts) (text_of ts start) ts start
                ])) [
                  | none ↦ normalized-IsBounded p limit ts
                  | some start ↦ describe_operation-IsBounded p limit (text_of ts start) ts start
                ]

  describe_result-IsBounded :
      (limit : ℕ) (r : LexResult) → IsBounded limit (describe_result p quoted_identifiers limit r)
  unfolding describe_result
  describe_result-IsBounded limit (accepted ts) = describe_tokens-IsBounded limit ts
  describe_result-IsBounded limit rejected = anonymous-IsBounded limit
  describe_result-IsBounded limit out_of_fuel = anonymous-IsBounded limit

  -- Whatever the statement and the limits, the parts of its description are bounded: the text by
  -- the effective output limit, a name by 256 bytes, the operation by 17, the summary by 274.
  pub analyze_with-IsBounded :
      (sql : Bytes) (input_limit output_limit : ℤ)
      → IsBounded
          (effective_limit max_output output_limit)
          (analyze_with p quoted_identifiers sql input_limit output_limit)
  unfolding analyze_with
  analyze_with-IsBounded sql input_limit output_limit =
      if_rule (IsBounded (effective_limit max_output output_limit)) _
        (λ _. anonymous-IsBounded (effective_limit max_output output_limit))
        λ _. describe_result-IsBounded (effective_limit max_output output_limit) (lex p sql)

-- A limit that is not positive, or beyond the hard bound, is replaced by the hard bound.
pub effective_limit_bounds :
    (bound : ℕ) (limit : ℤ)
    → 1 ≤ bound
    → (1 ≤ effective_limit bound limit) × (effective_limit bound limit ≤ bound)
unfolding effective_limit
effective_limit_bounds bound (pos zero) h = (h, omega arith)
effective_limit_bounds bound (pos (suc n)) h = ground arith
effective_limit_bounds bound (negsuc n) h = (h, omega arith)
