-- ===== src/Sql/Describe.antt =====
-- Descriptions of statements (internal/sqltext/sql.go): `analyze`, `LeadingOperation`, `objectName`,
-- `Identifier`, `HasTerminalEllipsis`. A Go `int` that is -1 or an index is an `Option`.
pub mod Names
pub mod Bounds
pub mod Dialect
pub mod Leading
pub mod Hints
use firebirdsql_otel.Common.{
  ℕ, zero, suc, ◌+◌, Bool, true, false, not, ◌&&◌, ◌||◌, Option, none, some, List, [], ◌∷◌, ◌++◌,
  map, length, get_elem?, take, drop, ltb, leb, if◌then◌else◌,
}
use firebirdsql_otel.Common.Int.{ℤ, pos, negsuc, increment, decrement, is_zero}
use firebirdsql_otel.Text.{
  Bytes, codes, Platform, equal, has_prefix, join, hex, is_empty, valid_string,
}
use firebirdsql_otel.Sql.Lex.Scan.{Token}
use firebirdsql_otel.Sql.Lex.Step.{LexResult, accepted, rejected, out_of_fuel, lex}
use Names.{object_name, text_at, text_of, Name}

-- MaxInput and MaxOutput
abbrev pub max_input : ℕ
max_input = 65536

abbrev pub max_output : ℕ
max_output = 4096

pub record Description : Type 0 where
  pub text : Bytes
  pub operation : Bytes
  pub summary : Bytes
  pub procedure : Bytes
  pub collection : Bytes
  pub fingerprint : Bytes
  pub valid : Bool

-- `Description{Operation: "SQL", Summary: "SQL"}`
abbrev pub anonymous : Description
anonymous = record {
  text = [];
  operation = codes "SQL";
  summary = codes "SQL";
  procedure = [];
  collection = [];
  fingerprint = [];
  valid = false;
}

unfoldable pub one_of : List Bytes → Bytes → Bool
one_of [] s = false
one_of (w ∷ ws) s = equal s w || one_of ws s

abbrev pub operations : List Bytes
operations =
    codes "SELECT"
    ∷ codes "INSERT"
    ∷ codes "UPDATE"
    ∷ codes "DELETE"
    ∷ codes "MERGE"
    ∷ codes "EXECUTE"
    ∷ codes "CREATE"
    ∷ codes "ALTER"
    ∷ codes "DROP"
    ∷ codes "RECREATE"
    ∷ codes "DECLARE"
    ∷ codes "GRANT"
    ∷ codes "REVOKE"
    ∷ codes "COMMENT"
    ∷ codes "COMMIT"
    ∷ codes "ROLLBACK"
    ∷ codes "SAVEPOINT"
    ∷ codes "RELEASE"
    ∷ codes "SET"
    ∷ []

unfoldable pub is_operation : Bytes → Bool
unfolding one_of
is_operation s = one_of operations s

-- `depth++` at "(" and `depth--` at ")"
unfoldable pub nest : Bytes → ℤ → ℤ
nest text depth =
    let inner = if equal text (codes "(") then increment depth else depth in
    if equal text (codes ")") then decrement inner else inner

-- The loop behind a leading WITH: the first operation at depth 0, from index `i` on.
unfoldable pub find_operation : ℕ → ℤ → List Token → Option ℕ
find_operation i depth [] = none
find_operation i depth (t ∷ ts) =
    let here = nest t.text depth in
    let later = find_operation (i + 1) here ts in
    if ltb 0 i && is_zero here && is_operation t.text then some i else later

unfoldable pub operation_start : List Token → Option ℕ
unfolding text_at
operation_start ts = if text_at ts 0 (codes "WITH") then find_operation 0 (pos 0) ts else some 0

-- The index behind FROM at depth 0, from index `i` on.
unfoldable pub find_from : ℕ → ℤ → List Token → Option ℕ
find_from i depth [] = none
find_from i depth (t ∷ ts) =
    let here = nest t.text depth in
    let later = find_from (i + 1) here ts in
    if is_zero here && equal t.text (codes "FROM") then some (i + 1) else later

-- The operation as it is reported, and the index of the object it names.
pub record Target : Type 0 where
  pub operation : Bytes
  pub target : Option ℕ

-- EXECUTE PROCEDURE and EXECUTE BLOCK
unfoldable pub execute_target : Bytes → List Token → ℕ → Target
execute_target op ts start =
    if text_at ts (start + 1) (codes "PROCEDURE")
    then record { operation = op ++ codes " PROCEDURE"; target = some (start + 2) }
    else if text_at ts (start + 1) (codes "BLOCK")
    then record { operation = op ++ codes " BLOCK"; target = none }
    else record { operation = op; target = none }

update_target : Bytes → List Token → ℕ → Target
update_target op ts start =
    if ltb (start + 3) (length ts)
      && text_at ts (start + 1) (codes "OR")
      && text_at ts (start + 2) (codes "INSERT")
    then record {
      operation = codes "UPDATE OR INSERT";
      target = some (if text_at ts (start + 3) (codes "INTO") then start + 4 else start + 3);
    }
    else record { operation = op; target = some (start + 1) }

-- The switch of `analyze` on the operation.
unfoldable pub find_target : Bytes → List Token → ℕ → Target
unfolding update_target
find_target op ts start =
    if equal op (codes "EXECUTE")
    then execute_target op ts start
    else if equal op (codes "SELECT") || equal op (codes "DELETE")
    then record { operation = op; target = find_from (start + 1) (pos 0) (drop (start + 1) ts) }
    else if equal op (codes "UPDATE")
    then update_target op ts start
    else if equal op (codes "INSERT") || equal op (codes "MERGE")
    then record {
      operation = op;
      target = if text_at ts (start + 1) (codes "INTO") then some (start + 2) else none;
    }
    else record { operation = op; target = none }

-- A derived table is not a selectable procedure.
unfoldable pub without_lateral : Bytes → List Token → Option ℕ → Option ℕ
without_lateral op ts none = none
without_lateral op ts (some i) =
    if equal op (codes "SELECT") && text_at ts i (codes "LATERAL") && text_at ts (i + 1) (codes "(")
    then none
    else some i

-- `end < len(ts) && ts[end].text == "("`
unfoldable pub is_called : List Token → Option ℕ → Bool
is_called ts none = false
is_called ts (some end) = text_at ts end (codes "(")

-- What a name that was found adds to the description.
unfoldable pub add_name : Description → Bytes → List Token → Name → Description
add_name d op ts n = if is_empty n.name then record d { summary = d.operation } else record d {
  summary = d.operation ++ b' ' ∷ n.name;
  procedure =
      if equal d.operation (codes "EXECUTE PROCEDURE")
        || (equal op (codes "SELECT") && is_called ts n.end)
      then n.name
      else d.procedure;
  collection =
      if one_of (codes "UPDATE" ∷ codes "INSERT" ∷ codes "DELETE" ∷ codes "MERGE" ∷ []) op
      then n.name
      else d.collection;
}

unfoldable pub describe_operation : Description → Bytes → List Token → ℕ → Description
unfolding one_of
describe_operation d op ts start =
    if not (is_operation op)
    then d
    else (let t = find_target op ts start in
        add_name (record d { operation = t.operation }) op ts
          (object_name ts (without_lateral op ts t.target)))

-- A token that may be a string in another dialect.
unfoldable pub is_ambiguous : Token → Bool
is_ambiguous t = t.identifier && has_prefix (codes "\"") t.text

unfoldable pub any_ambiguous : List Token → Bool
unfolding is_ambiguous
any_ambiguous [] = false
any_ambiguous (t ∷ ts) = is_ambiguous t || any_ambiguous ts

-- `limit <= 0 || limit > bound`
unfoldable pub effective_limit : ℕ → ℤ → ℕ
effective_limit bound (pos zero) = bound
effective_limit bound (pos (suc n)) = if ltb bound (suc n) then bound else suc n
effective_limit bound (negsuc n) = bound

unfoldable pub leading_at : List Token → ℕ → Bytes
leading_at ts start =
    let op = text_of ts start in
    if not (is_operation op)
    then []
    else if equal op (codes "EXECUTE")
    then (execute_target op ts start).operation
    else op

unfoldable pub leading_of_tokens : List Token → Bytes
unfolding leading_at
leading_of_tokens ts =
    if is_empty ts
    then []
    else elim (operation_start ts) [ none ↦ [] | some start ↦ leading_at ts start ]

module _ (p : Platform) where
  -- The description before its operation is known.
  unfoldable pub normalized : ℕ → List Token → Description
  unfolding join hex
  normalized output_limit ts =
      let whole = join (codes " ") (map (λ t. t.text) ts) in
      record anonymous {
        fingerprint = hex (take 16 (p.sha256 whole));
        valid = true;
        text = if leb (length whole) output_limit then whole else [];
      }

  unfoldable pub describe_tokens : Bool → ℕ → List Token → Description
  describe_tokens quoted_identifiers output_limit ts =
      if is_empty ts
      then anonymous
      else if not quoted_identifiers && any_ambiguous ts
      then anonymous
      else elim (operation_start ts) [
        | none ↦ normalized output_limit ts
        | some start ↦ describe_operation (normalized output_limit ts) (text_of ts start) ts start
      ]

  unfoldable pub describe_result : Bool → ℕ → LexResult → Description
  describe_result quoted_identifiers output_limit (accepted ts) =
      describe_tokens quoted_identifiers output_limit ts
  describe_result quoted_identifiers output_limit rejected = anonymous
  describe_result quoted_identifiers output_limit out_of_fuel = anonymous

  unfoldable pub analyze_with : Bool → Bytes → ℤ → ℤ → Description
  analyze_with quoted_identifiers sql input_limit output_limit =
      if ltb (effective_limit max_input input_limit) (length sql) || not (valid_string sql)
      then anonymous
      else describe_result quoted_identifiers (effective_limit max_output output_limit) (lex p sql)

  -- `Analyze` and `AnalyzeUnknownDialect`
  unfoldable pub analyze : Bytes → ℤ → ℤ → Description
  analyze = analyze_with true

  unfoldable pub analyze_unknown_dialect : Bytes → ℤ → ℤ → Description
  analyze_unknown_dialect = analyze_with false

  -- `LeadingOperation`
  unfoldable pub leading_operation : Bytes → Bytes
  leading_operation sql =
      if ltb max_input (length sql) || not (valid_string sql)
      then []
      else elim (lex p sql) [ accepted ts ↦ leading_of_tokens ts | _ ↦ [] ]
