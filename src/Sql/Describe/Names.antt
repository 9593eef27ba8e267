-- ===== src/Sql/Describe/Names.antt =====
-- Object names in a token list (`objectName` and `Identifier` of internal/sqltext/sql.go).
use firebirdsql_otel.Common.{
  ℕ, ◌+◌, Bool, true, false, not, ◌&&◌, ◌||◌, Option, none, some, List, [], ◌∷◌, ◌++◌, length,
  get_elem?, drop, ltb, leb, ◌==◌, if◌then◌else◌,
}
use firebirdsql_otel.Text.{Bytes, codes, Platform, equal, equal_fold, is_empty, valid_string}
use firebirdsql_otel.Sql.Lex.Scan.{Token}
use firebirdsql_otel.Sql.Lex.Step.{accepted, lex}

-- `ts[i].text`; the callers stay in range.
unfoldable pub text_of : List Token → ℕ → Bytes
text_of ts i = elim (get_elem? ts i) [ none ↦ [] | some t ↦ t.text ]

-- `i < len(ts) && ts[i].text == word`
unfoldable pub text_at : List Token → ℕ → Bytes → Bool
text_at ts i word = elim (get_elem? ts i) [ none ↦ false | some t ↦ equal t.text word ]

abbrev pub max_name : ℕ
max_name = 256

pub record Name : Type 0 where
  pub name : Bytes
  -- the index behind the name; none stands for a negative one
  pub end : Option ℕ

-- The loop over `.identifier`, from the name so far, its end, and the tokens from there on.
unfoldable pub extend_name : Bytes → ℕ → List Token → Bytes × ℕ
extend_name s i [] = (s, i)
extend_name s i (dot ∷ []) = (s, i)
extend_name s i (dot ∷ t ∷ ts) = elim (equal dot.text (codes ".") && t.identifier) [
  | true ↦ extend_name (s ++ (b'.' ∷ t.text)) (i + 2) ts
  | false ↦ (s, i)
]

bounded_name : Bytes × ℕ → Name
bounded_name (s, end) =
    if ltb max_name (length s)
    then record { name = []; end = some end }
    else record { name = s; end = some end }

name_from : List Token → ℕ → Option Token → Name
unfolding bounded_name
name_from ts i none = record { name = []; end = some i }
name_from ts i (some t) =
    if t.identifier
    then bounded_name (extend_name t.text (i + 1) (drop (i + 1) ts))
    else record { name = []; end = some i }

-- `objectName`
unfoldable pub object_name : List Token → Option ℕ → Name
unfolding name_from
object_name ts none = record { name = []; end = none }
object_name ts (some i) = name_from ts i (get_elem? ts i)

-- `end == len(ts)`
abbrev is_end : List Token → Option ℕ → Bool
is_end ts none = false
is_end ts (some end) = end == length ts

module _ (p : Platform) where
  unfoldable pub is_whole_name : Bytes → List Token → Bool
  unfolding equal_fold
  is_whole_name s ts =
      let n = object_name ts (some 0) in
      not (is_empty n.name) && is_end ts n.end && leb (length s) max_name && equal_fold p s n.name

  -- `Identifier`
  unfoldable pub identifier : Bytes → Bool
  identifier s =
      if is_empty s || ltb max_name (length s) || not (valid_string s)
      then false
      else elim (lex p s) [ accepted ts ↦ is_whole_name s ts | _ ↦ false ]
