-- ===== src/Filter.antt =====
-- `databaseFilter` (trace/runtime.go): a path as a pattern of SIMILAR TO inside a configuration
-- value. The pattern is written as runes here. Reading says how such a value is read.
pub mod Reading
mod Tests
use firebirdsql_otel.Common.{
  ℕ, Bool, false, ◌||◌, not, Option, none, some, List, [], ◌∷◌, ◌++◌, length, leb, ◌==◌,
  if◌then◌else◌,
}
use firebirdsql_otel.Text.{Bytes, codes, runes, encode_all, is_control, is_empty, valid_string}

unfoldable pub contains : List ℕ → ℕ → Bool
contains [] r = false
contains (x ∷ xs) r = x == r || contains xs r

abbrev pub is_brace : ℕ → Bool
is_brace r = r == b'{' || r == b'}'

-- The rune as `strings.NewReplacer("{", "{{", "}", "}}")` leaves it.
abbrev pub doubled : ℕ → List ℕ
doubled r = if is_brace r then r ∷ r ∷ [] else r ∷ []

unfoldable pub is_special : ℕ → Bool
unfolding contains
is_special r = contains (codes "[]()|^-+*%_?{}\\") r

-- The loop over the path, and the replacement behind it.
unfoldable pub escape : List ℕ → Option (List ℕ)
escape [] = some []
escape (r ∷ rs) =
    let rest = escape rs in
    if is_control r || r == b'"' then none else elim rest as (λ _. Option (List ℕ)) [
      | none ↦ none
      | some s ↦ some ((if is_special r then b'\\' ∷ [] else []) ++ (doubled r ++ s))
    ]

unfoldable pub quoted : Option (List ℕ) → Option Bytes
unfolding encode_all
quoted none = none
quoted (some s) = some (b'"' ∷ (encode_all s ++ (b'"' ∷ [])))

unfoldable pub database_filter : Bytes → Option Bytes
unfolding escape quoted valid_string
database_filter path =
    if is_empty path || (not (leb (length path) 1024) || not (valid_string path))
    then none
    else quoted (escape (runes path))
