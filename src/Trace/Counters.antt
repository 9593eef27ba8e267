-- ===== src/Trace/Counters.antt =====
-- `tableCounterRow` (internal/traceparse/parser.go): the name of a table and its eight counters,
-- read from the end of the line in columns of ten bytes or in runs of more than ten digits.
use firebirdsql_otel.Common.{
  ℕ, zero, suc, ◌-◌, Bool, true, false, ◌&&◌, ◌||◌, not, Option, none, some, List, [], ◌∷◌, ◌++◌,
  length, take, drop, leb, ltb, ◌==◌, get_elem?, if◌then◌else◌,
}
use firebirdsql_otel.Common.Int.{ℤ, pos}
use firebirdsql_otel.Text.{Bytes, equal, is_empty, is_ascii_digit, trim_space, trim_left_byte}
use firebirdsql_otel.Trace.Event.{Table}
use firebirdsql_otel.Trace.Patterns.{parse_int}
use firebirdsql_otel.Trace.Rows.{metadata_name}

-- A counter that was read: its value, its number of digits, and whether it was padded. A blank
-- column has the value 0 and no digits.
pub record Column : Type 0 where
  pub value : ℤ
  pub digits : ℕ
  pub padded : Bool

pub record Candidate : Type 0 where
  pub name_length : ℕ
  pub columns : List Column

abbrev blank_column : Column
blank_column = record { value = pos 0; digits = 0; padded = false }

-- Two columns whose border could stand elsewhere.
unfoldable pub ambiguous_border : Column → Column → Bool
ambiguous_border a b =
    not (a.digits == 0)
    && (not (b.digits == 0) && (not b.padded && (not (leb a.digits 10) || not (leb b.digits 10))))

unfoldable pub any_ambiguous_border : List Column → Bool
unfolding ambiguous_border
any_ambiguous_border [] = false
any_ambiguous_border (a ∷ []) = false
any_ambiguous_border (a ∷ b ∷ cs) = ambiguous_border a b || any_ambiguous_border (b ∷ cs)

all_digits : Bytes → Bool
all_digits [] = true
all_digits (c ∷ s) = is_ascii_digit c && all_digits s

is_space_at : ℕ → Bytes → Bool
is_space_at i s = elim (get_elem? s i) as (λ _. Bool) [ none ↦ false | some c ↦ c == 0x20 ]

-- The digits in front of `end`, counted from there; `reversed` is the line in front, backwards.
digits_back : Bytes → ℕ
digits_back [] = 0
digits_back (c ∷ s) = if is_ascii_digit c then suc (digits_back s) else 0

reverse_onto : Bytes → Bytes → Bytes
reverse_onto [] acc = acc
reverse_onto (c ∷ s) acc = reverse_onto s (c ∷ acc)

module _ (line : Bytes) (minimum_name_width : ℕ) where
  -- `if field < 0`
  unfoldable pub candidate_at : ℕ → List Column → List Candidate
  unfolding any_ambiguous_border is_space_at all_digits metadata_name
  candidate_at end columns =
      let behind_name = take (end - minimum_name_width) (drop minimum_name_width line) in
      let overflow =
        ltb minimum_name_width end
        && (is_space_at (minimum_name_width - 1) line && all_digits behind_name) in
      if not (any_ambiguous_border columns || overflow)
        && (leb minimum_name_width end && metadata_name (trim_space (take end line)))
      then record { name_length = end; columns = columns } ∷ []
      else []

  column_of : Bytes → Bytes → ℤ → Column
  column_of fixed trimmed n = record {
    value = n;
    digits = length trimmed;
    padded = ltb (length trimmed) (length fixed);
  }

  -- `parse(field - 1, end, …)` for `field` fields that are left
  unfoldable pub parse_fields : ℕ → ℕ → List Column → List Candidate
  unfolding candidate_at column_of digits_back reverse_onto equal parse_int trim_left_byte
  parse_fields zero end columns = candidate_at end columns
  parse_fields (suc field) end columns =
      let fixed = take 10 (drop (end - 10) line) in
      let trimmed = trim_space fixed in
      let run = digits_back (reverse_onto (take end line) []) in
      let narrow =
        if is_empty trimmed
        then parse_fields field (end - 10) (blank_column ∷ columns)
        else elim (parse_int trimmed) as (λ _. List Candidate) [
          | none ↦ []
          | some n ↦
              if equal (trim_left_byte 0x20 fixed) trimmed
              then parse_fields field (end - 10) (column_of fixed trimmed n ∷ columns)
              else []
        ] in
      let wide =
        if leb run 10
        then []
        else elim (parse_int (take run (drop (end - run) line))) as (λ _. List Candidate) [
          | none ↦ []
          | some n ↦
              parse_fields field (end - run)
                (record { value = n; digits = run; padded = false } ∷ columns)
        ] in
      if ltb end 10 then [] else narrow ++ wide

-- The candidate with the shortest name, the first of those.
unfoldable pub shortest : Candidate → List Candidate → Candidate
shortest best [] = best
shortest best (c ∷ cs) = shortest (if ltb c.name_length best.name_length then c else best) cs

abbrev value_at : ℕ → List Column → ℤ
value_at i cs = elim (get_elem? cs i) [ none ↦ pos 0 | some c ↦ c.value ]

table_of : Bytes → Candidate → Table
table_of line c = record {
  name = trim_space (take c.name_length line);
  natural = value_at 0 c.columns;
  index = value_at 1 c.columns;
  update = value_at 2 c.columns;
  insert = value_at 3 c.columns;
  delete = value_at 4 c.columns;
  backout = value_at 5 c.columns;
  purge = value_at 6 c.columns;
  expunge = value_at 7 c.columns;
}

table_from : Bytes → List Candidate → Option Table
unfolding shortest table_of
table_from line [] = none
table_from line (c ∷ cs) = some (table_of line (shortest c cs))

unfoldable pub table_counter_row : Bytes → ℕ → Option Table
unfolding parse_fields table_from
table_counter_row line minimum_name_width =
    table_from line (parse_fields line minimum_name_width 8 (length line) [])
