-- ===== src/Plan/Tests.antt =====
-- A plan of two lines, and the theorems of the plan texts of trace/spans.go at it.
use firebirdsql_otel.Common.{◌≡◌, refl, true, List, some, [], ◌∷◌, All}
use firebirdsql_otel.Text.{Bytes, codes, runes, encode_all, join, valid_string}
use firebirdsql_otel.Plan.{plan_parts, normalize_plan, normalize_classic_plan}
use firebirdsql_otel.Plan.Parts.{concat, IsPart, plan_parts-IsPart}
use firebirdsql_otel.Plan.Normal.{words, normalize_classic_plan-words}

abbrev plan : Bytes
plan = codes "PLAN  (T   NATURAL)"

plan_valid : valid_string plan ≡ true
unfolding valid_string
plan_valid = refl

plan_parts-IsPart_example :
    (ps : List Bytes) × (plan_parts plan ≡ some ps) × (concat ps ≡ plan) × All IsPart ps
plan_parts-IsPart_example = plan_parts-IsPart plan plan_valid

normalize_classic_plan-words_example :
    normalize_classic_plan plan ≡ encode_all (join (b' ' ∷ []) (words (runes plan)))
normalize_classic_plan-words_example = normalize_classic_plan-words plan

normalize_plan_of_plan : normalize_plan plan ≡ codes "PLAN (T NATURAL)"
unfolding normalize_plan
normalize_plan_of_plan = refl
