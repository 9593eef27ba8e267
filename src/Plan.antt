-- ===== src/Plan.antt =====
-- The text of a query plan in trace/spans.go: `planParts`, which cuts it into attribute values, and
-- `normalizePlan`, of which the fingerprint is made.
pub mod Cuts
pub mod Parts
pub mod Normal
mod Tests
use mathlib.Core.Option
use firebirdsql_otel.Common.{
  ℕ, zero, suc, ◌+◌, ◌-◌, min, Bool, true, false, ◌&&◌, ◌||◌, not, Option, none, some, List, [],
  ◌∷◌, ◌++◌, length, take, drop, leb, ltb, ◌==◌, if◌then◌else◌,
}
use firebirdsql_otel.Text.{Bytes, codes, valid_string, runes, encode_all, join}

-- maxPartBytes
abbrev pub max_part : ℕ
max_part = 255

-- `for end > 0 && !utf8.ValidString(plan[:end]) { end-- }`
unfoldable pub valid_end : ℕ → Bytes → ℕ
valid_end zero s = 0
valid_end (suc n) s =
    let less = valid_end n s in if valid_string (take (suc n) s) then suc n else less

-- The position of the last byte `b`; `strings.CutLast` cuts there.
unfoldable pub last_index : ℕ → Bytes → Option ℕ
last_index b [] = none
last_index b (c ∷ s) = elim (last_index b s) as (λ _. Option ℕ) [
  | some i ↦ some (suc i)
  | none ↦ if c == b then some 0 else none
]

-- `end` is moved behind the last line feed, if at least 160 bytes stand before that.
unfoldable pub line_end : Bytes → ℕ → ℕ
unfolding last_index
line_end plan end = elim (last_index b'\n' (take end plan)) as (λ _. ℕ) [
  | none ↦ end
  | some i ↦ if leb 160 i then suc i else end
]

-- Where the next part of the plan ends.
unfoldable pub part_end : Bytes → ℕ
unfolding valid_end line_end
part_end plan =
    let end = valid_end (min (length plan) max_part) plan in
    if ltb end (length plan) then line_end plan end else end

-- The loop of `planParts`; none means that the fuel ran out.
unfoldable pub parts_loop : ℕ → Bytes → Option (List Bytes)
parts_loop fuel [] = some []
parts_loop zero (c ∷ s) = none
parts_loop (suc fuel) (c ∷ s) =
    let end = part_end (c ∷ s) in
    Option.map (◌∷◌ (take end (c ∷ s))) (parts_loop fuel (drop end (c ∷ s)))

-- `planParts`
unfoldable pub plan_parts : Bytes → Option (List Bytes)
plan_parts plan = parts_loop (length plan) plan

-- The loop of `normalizeClassicPlan` over the runes; `started` stands for `normalized.Len() > 0`.
unfoldable pub classic_loop : Bool → Bool → Bool → List ℕ → List ℕ
classic_loop quoted space started [] = []
classic_loop quoted space started (r ∷ rs) =
    let gap : List ℕ = if space && started then b' ' ∷ [] else [] in
    let toggled = classic_loop (not quoted) false true rs in
    let skipped = classic_loop quoted true started rs in
    let kept = classic_loop quoted false true rs in
    if r == b'"'
    then gap ++ (r ∷ toggled)
    else if not quoted && (r == b' ' || r == 0x09)
    then skipped
    else gap ++ (r ∷ kept)

-- `normalizeClassicPlan`
unfoldable pub normalize_classic_plan : Bytes → Bytes
unfolding classic_loop encode_all runes
normalize_classic_plan plan = encode_all (classic_loop false false false (runes plan))

-- Both calls of `strings.ReplaceAll`: a carriage return, and a line feed behind it, is a line feed.
unfoldable pub line_feeds : Bytes → Bytes
line_feeds [] = []
line_feeds (c ∷ []) = (if c == 0x0D then b'\n' else c) ∷ []
line_feeds (c ∷ d ∷ s) =
    let both = b'\n' ∷ line_feeds s in
    let rest = line_feeds (d ∷ s) in
    if c == 0x0D then (if d == b'\n' then both else b'\n' ∷ rest) else c ∷ rest

-- `strings.Trim(s, "\n")` from the left, and from the right.
unfoldable pub drop_feeds : Bytes → Bytes
drop_feeds [] = []
drop_feeds (c ∷ s) = if c == b'\n' then drop_feeds s else c ∷ s

-- The text without the bytes at its end that pass the test.
unfoldable pub trim_right : (ℕ → Bool) → Bytes → Bytes
trim_right p [] = []
trim_right p (c ∷ s) = elim (trim_right p s) as (λ _. Bytes) [
  | [] ↦ if p c then [] else c ∷ []
  | d ∷ t ↦ c ∷ d ∷ t
]

-- `strings.Split(s, "\n")`: the first line, and the lines behind it.
unfoldable pub split_lines : Bytes → Bytes × List Bytes
split_lines [] = ([], [])
split_lines (c ∷ s) =
    let (line, lines) = split_lines s in
    if c == b'\n' then ([], line ∷ lines) else (c ∷ line, lines)

abbrev is_trailing : ℕ → Bool
is_trailing c = c == b' ' || c == 0x09

trim_lines : List Bytes → List Bytes
unfolding trim_right
trim_lines [] = []
trim_lines (l ∷ ls) = trim_right is_trailing l ∷ trim_lines ls

of_lines : Bytes → List Bytes → Bytes
unfolding normalize_classic_plan trim_lines trim_right
of_lines line [] = normalize_classic_plan (trim_right is_trailing line)
of_lines line (l ∷ ls) = join (b'\n' ∷ []) (trim_right is_trailing line ∷ trim_lines (l ∷ ls))

-- `normalizePlan`
unfoldable pub normalize_plan : Bytes → Bytes
unfolding line_feeds drop_feeds trim_right split_lines of_lines
normalize_plan plan =
    let (line, lines) = split_lines (trim_right (λ c. c == b'\n') (drop_feeds (line_feeds plan))) in
    of_lines line lines
