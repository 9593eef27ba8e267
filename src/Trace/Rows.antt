-- ===== src/Trace/Rows.antt =====
-- The lines of a Trace record that are read by hand (internal/traceparse/parser.go): parameter
-- lines, names, time stamps, performance counters, the lines of an explained plan.
use firebirdsql_otel.Common.{
  ℕ, zero, suc, ◌+◌, ◌-◌, ◌%◌, Bool, true, false, ◌&&◌, ◌||◌, not, Option, none, some, List, [],
  ◌∷◌, length, take, drop, leb, ◌==◌, within, if◌then◌else◌,
}
use firebirdsql_otel.Text.{
  Bytes, codes, runes, valid_string, equal, has_prefix, index, is_empty, is_ascii_digit, is_space,
  is_control, trim_space, trim_left_byte, Platform,
}
use firebirdsql_otel.Sql.Describe.{one_of, analyze}
use firebirdsql_otel.Trace.Patterns.{Counter, ms, reads, writes, fetches, marks, parse_digits}
use firebirdsql_otel.Common.Int.{pos}

digits_in_front : Bytes → ℕ
digits_in_front [] = 0
digits_in_front (c ∷ s) = if is_ascii_digit c then suc (digits_in_front s) else 0

-- What stands behind `param`, digits and ` = `.
unfoldable pub parameter_prefix : Bytes → Option Bytes
unfolding digits_in_front has_prefix
parameter_prefix line =
    let s = drop 5 line in
    let n = digits_in_front s in
    if has_prefix (codes "param") line && leb 1 n && has_prefix (codes " = ") (drop n s)
    then some (drop (n + 3) s)
    else none

-- Where the scan for the separator ends: at a closing bracket too many, at a comma outside
-- brackets, or at the end with a number of open brackets.
pub data Separation : Type 0 where
  unbalanced : Separation
  separated : ℕ → Separation
  unseparated : Separation

-- `separator` counts the bytes in front; every mark is an ASCII byte.
unfoldable pub separator : ℕ → ℕ → Bytes → Separation
separator i depth [] = unseparated
separator i depth (c ∷ s) =
    let deeper = separator (suc i) (suc depth) s in
    let shallower = separator (suc i) (depth - 1) s in
    let further = separator (suc i) depth s in
    if c == b'('
    then deeper
    else if c == b')'
    then (if depth == 0 then unbalanced else shallower)
    else if c == b',' && depth == 0
    then separated i
    else further

module _ (p : Platform) where
  is_type_rune : ℕ → Bool
  is_type_rune r =
      p.is_letter r
      || (p.is_digit r
          || (is_space r || one_of (codes "_" ∷ codes "(" ∷ codes ")" ∷ codes "," ∷ []) (r ∷ [])))

  all_type_runes : List ℕ → Bool
  unfolding is_type_rune
  all_type_runes [] = true
  all_type_runes (r ∷ rs) = is_type_rune r && all_type_runes rs

  typed_value : Bytes → Separation → Bool
  unfolding all_type_runes trim_space
  typed_value rest (separated i) =
      let type_name = trim_space (take i rest) in
      let value = trim_space (drop (suc i) rest) in
      not (is_empty type_name)
      && (leb (length type_name) 128 && (not (is_empty value) && all_type_runes (runes type_name)))
  typed_value rest _ = false

  of_rest : Option Bytes → Bool
  unfolding typed_value separator
  of_rest none = false
  of_rest (some rest) = typed_value rest (separator 0 0 rest)

  -- `parameterMetadata`
  unfoldable pub parameter_metadata : Bytes → Bool
  unfolding of_rest parameter_prefix
  parameter_metadata line = of_rest (parameter_prefix line)

unfoldable pub any_control : List ℕ → Bool
any_control [] = false
any_control (r ∷ rs) = is_control r || any_control rs

-- `metadataName`
unfoldable pub metadata_name : Bytes → Bool
unfolding any_control valid_string
metadata_name s =
    not (is_empty s) && (leb (length s) 256 && (valid_string s && not (any_control (runes s))))

-- `triggerName`: what stands in front of the separator
unfoldable pub trigger_name : Bool → Bytes → Bytes
unfolding has_prefix
trigger_name was_quoted [] = []
trigger_name true (c ∷ []) = c ∷ []
trigger_name true (c ∷ d ∷ s) =
    let doubled = trigger_name true s in
    let further = trigger_name true (d ∷ s) in
    let outside = trigger_name false (d ∷ s) in
    if c == b'"' then (if d == b'"' then c ∷ d ∷ doubled else c ∷ outside) else c ∷ further
trigger_name false (c ∷ s) =
    let inside = trigger_name true s in
    let further = trigger_name false s in
    if c == b'"' then c ∷ inside else if has_prefix (codes " FOR ") (c ∷ s) then [] else c ∷ further

counter_names : List (Bytes × Counter)
counter_names =
    (codes "read(s)", reads)
    ∷ (codes "write(s)", writes)
    ∷ (codes "fetch(es)", fetches)
    ∷ (codes "mark(s)", marks)
    ∷ []

named_prefix : List (Bytes × Counter) → Bytes → Option (Counter × Bytes)
unfolding has_prefix
named_prefix [] s = none
named_prefix ((name, c) ∷ names) s =
    let others = named_prefix names s in
    if has_prefix name s then some (c, drop (length name) s) else others

abbrev Counters : Type 0
Counters = List (Counter × ℕ)

counted : Counter × ℕ → Option Counters → Option Counters
counted c none = none
counted c (some cs) = some (c ∷ cs)

-- The repetition of performanceLine. A round consumes a counter, so the length is fuel enough.
counters_behind : ℕ → Bytes → Option Counters
unfolding named_prefix counter_names counted digits_in_front has_prefix parse_digits
counters_behind fuel [] = some []
counters_behind zero (c ∷ s) = none
counters_behind (suc fuel) (c ∷ s) =
    let number = drop 1 s in
    let n = digits_in_front number in
    let rest = drop (suc n) number in
    let found = elim (named_prefix counter_names rest) as (λ _. Option Counters) [
      | none ↦ none
      | some (name, behind) ↦
          counted (name, parse_digits (take n number)) (counters_behind fuel behind)
    ] in
    if has_prefix (codes ", ") (c ∷ s) && leb 1 n && has_prefix (codes " ") (drop n number)
    then found
    else none

-- The counters of a line that performanceLine matches.
unfoldable pub performance_line : Bytes → Option Counters
unfolding counters_behind counted digits_in_front has_prefix parse_digits
performance_line line =
    let n = digits_in_front line in
    let rest = drop n line in
    if leb 1 n && has_prefix (codes " ms") rest
    then counted (ms, parse_digits (take n line)) (counters_behind (length line) (drop 3 rest))
    else none

contains_any : List Bytes → Bytes → Bool
unfolding index
contains_any [] s = false
contains_any (x ∷ xs) s =
    let others = contains_any xs s in
    elim (index x s) as (λ _. Bool) [ some _ ↦ true | none ↦ others ]

prefix_of : List Bytes → Bytes → Bool
unfolding has_prefix
prefix_of [] s = false
prefix_of (x ∷ xs) s = has_prefix x s || prefix_of xs s

-- `knownExplainedNode`
unfoldable pub known_explained_node : Bytes → Bool
unfolding prefix_of one_of
known_explained_node node =
    one_of
      (codes "Filter"
        ∷ codes "Bitmap"
        ∷ codes "Bitmap And"
        ∷ codes "Bitmap Or"
        ∷ codes "DBKEY"
        ∷ codes "Singular"
        ∷ codes "Aggregate"
        ∷ codes "Union"
        ∷ codes "Recursive Union"
        ∷ [])
      node
    || prefix_of
        (codes "First "
          ∷ codes "Skip "
          ∷ codes "Sort ("
          ∷ codes "Table \""
          ∷ codes "Index \""
          ∷ codes "Procedure \""
          ∷ codes "Function \""
          ∷ codes "Nested Loop Join"
          ∷ codes "Hash Join"
          ∷ codes "Merge Join"
          ∷ codes "Window"
          ∷ codes "Record Buffer"
          ∷ codes "Materialize"
          ∷ [])
        node

module _ (p : Platform) where
  safe_node : Bytes → Bool
  unfolding known_explained_node contains_any any_control
  safe_node node =
      let d = analyze p node (pos 512) (pos 512) in
      known_explained_node node
      && (not (
            contains_any
              (codes "'"
                ∷ (0x0D ∷ [])
                ∷ (0x09 ∷ [])
                ∷ codes ";"
                ∷ codes "{"
                ∷ codes "}"
                ∷ codes "--"
                ∷ codes "/*"
                ∷ codes "*/"
                ∷ [])
              node)
          && ((d.valid && not (is_empty d.text)) && not (any_control (runes node))))

  -- `explainedPlanLine`
  unfoldable pub explained_plan_line : Bytes → Bool → Option Bytes
  unfolding safe_node equal has_prefix trim_left_byte
  explained_plan_line line true =
      if equal line (codes "Select Expression") then some (codes "Select Expression") else none
  explained_plan_line line false =
      let indent = length line - length (trim_left_byte 0x20 line) in
      if leb (length line) 512
        && (within 4 64 indent
            && (indent % 4 == 0
                && (has_prefix (codes "-> ") (drop indent line)
                    && safe_node (drop (indent + 3) line))))
      then some line
      else none
