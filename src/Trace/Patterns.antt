-- ===== src/Trace/Patterns.antt =====
-- The regular expressions of internal/traceparse/parser.go. A pattern is matched against the runes
-- of a line the way package regexp does it: every repetition takes as many runes as it can and
-- gives them back one at a time. The groups that are captured hold ASCII only.
use firebirdsql_otel.Common.{
  ℕ, zero, suc, ◌+◌, ◌-◌, ◌*◌, ◌^◌, min, Bool, true, false, ◌&&◌, ◌||◌, not, Option, none, some,
  List, [], ◌∷◌, ◌++◌, length, take, drop, leb, ◌==◌, within, if◌then◌else◌,
}
use firebirdsql_otel.Common.Int.{ℤ, pos, negsuc}
use firebirdsql_otel.Text.{Bytes, codes, runes, has_prefix, is_empty, is_ascii_digit}

-- A part is literal text, or a class that is repeated between bounds; both name the group, 1 or 2,
-- that captures them, or 0.
pub data Part : Type 0 where
  text : ℕ → Bytes → Part
  many : ℕ → (ℕ → Bool) → ℕ → Option ℕ → Part

pub record Groups : Type 0 where
  pub first : Bytes
  pub second : Bytes

abbrev capture : ℕ → Bytes → Groups → Groups
capture zero s g = g
capture (suc zero) s g = record g { first = s ++ g.first }
capture (suc (suc _)) s g = record g { second = s ++ g.second }

count : (ℕ → Bool) → List ℕ → ℕ
count p [] = 0
count p (r ∷ rs) = if p r then suc (count p rs) else 0

captured : ℕ → Bytes → Option Groups → Option Groups
captured g s none = none
captured g s (some m) = some (capture g s m)

-- The longest of the lengths from `least` to `least + n` behind which the rest matches.
try_lengths : (List ℕ → Option Groups) → ℕ → ℕ → List ℕ → ℕ → Option Groups
unfolding captured
try_lengths k g least rs zero = captured g (take least rs) (k (drop least rs))
try_lengths k g least rs (suc n) =
    let shorter = try_lengths k g least rs n in
    elim (captured g (take (least + suc n) rs) (k (drop (least + suc n) rs))) [
      | some m ↦ some m
      | none ↦ shorter
    ]

abbrev at_most : Option ℕ → ℕ → ℕ
at_most none n = n
at_most (some m) n = min m n

-- The whole line is matched, from its start to its end.
unfoldable pub match_parts : List Part → List ℕ → Option Groups
unfolding count try_lengths captured has_prefix
match_parts [] rs = if is_empty rs then some (record { first = []; second = [] }) else none
match_parts (text g s ∷ ps) rs =
    let rest = match_parts ps (drop (length s) rs) in
    if has_prefix s rs then captured g s rest else none
match_parts (many g p least most ∷ ps) rs =
    let n = at_most most (count p rs) in
    let found = try_lengths (match_parts ps) g least rs (n - least) in
    if leb least n then found else none

abbrev not_line_end : ℕ → Bool
not_line_end r = not (r == 0x0D || r == 0x0A)

abbrev is_blank : ℕ → Bool
is_blank r = r == 0x20 || r == 0x09

abbrev digits_of : ℕ → ℕ → Part
digits_of g n = many g is_ascii_digit n (some n)

-- header
unfoldable pub header : Bytes → Option Groups
unfolding match_parts
header line =
    match_parts
      (digits_of 1 4
        ∷ text 1 (codes "-")
        ∷ digits_of 1 2
        ∷ text 1 (codes "-")
        ∷ digits_of 1 2
        ∷ text 1 (codes "T")
        ∷ digits_of 1 2
        ∷ text 1 (codes ":")
        ∷ digits_of 1 2
        ∷ text 1 (codes ":")
        ∷ digits_of 1 2
        ∷ text 1 (codes ".")
        ∷ many 1 is_ascii_digit 1 none
        ∷ text 0 (codes " (")
        ∷ many 0 not_line_end 1 (some 100)
        ∷ text 0 (codes ") ")
        ∷ many 2 (λ r. within b'A' b'Z' r || (r == b'_' || r == 0x20)) 1 (some 80)
        ∷ [])
      (runes line)

-- attachment
unfoldable pub attachment_line : Bytes → Option Groups
unfolding match_parts
attachment_line line =
    match_parts
      (text 0 (0x09 ∷ [])
        ∷ many 0 not_line_end 1 none
        ∷ text 0 (codes " (ATT_")
        ∷ many 1 is_ascii_digit 1 none
        ∷ text 0 (codes ", ")
        ∷ many 0 not_line_end 0 none
        ∷ text 0 (codes ")")
        ∷ many 0 is_blank 0 none
        ∷ [])
      (runes line)

-- transaction
unfoldable pub transaction_line : Bytes → Option Groups
unfolding match_parts
transaction_line line =
    match_parts
      (text 0 (0x09 ∷ [])
        ∷ many 0 is_blank 0 none
        ∷ text 0 (codes "(TRA_")
        ∷ many 1 is_ascii_digit 1 none
        ∷ text 0 (codes ", ")
        ∷ many 0 not_line_end 0 none
        ∷ text 0 (codes ")")
        ∷ many 0 is_blank 0 none
        ∷ [])
      (runes line)

-- A number between two texts: statement, fetched and affected.
abbrev number_between : Bytes → Bytes → List Part
number_between before behind = text 0 before ∷ many 1 is_ascii_digit 1 none ∷ text 0 behind ∷ []

unfoldable pub statement_line : Bytes → Option Groups
unfolding match_parts
statement_line line = match_parts (number_between (codes "Statement ") (codes ":")) (runes line)

abbrev pub is_match {ℓ} : {A : Type ℓ} → Option A → Bool
is_match none = false
is_match (some _) = true

-- `fetched.MatchString(trim) || affected.MatchString(trim)`
unfoldable pub counts_records : Bytes → Bool
unfolding match_parts
counts_records line =
    is_match (match_parts (number_between [] (codes " records fetched")) (runes line))
    || is_match (match_parts (number_between [] (codes " records affected")) (runes line))

-- The units of performanceLine and perf.
pub data Counter : Type 0 where
  ms reads writes fetches marks : Counter

abbrev max_int64 : ℕ
max_int64 = 2 ^ 63 - 1

decimal_from : ℕ → Bytes → ℕ
decimal_from n [] = n
decimal_from n (c ∷ s) = decimal_from (n * 10 + (c - b'0')) s

-- `v, _ := strconv.ParseInt(digits, 10, 64)`: a number beyond the range becomes the largest one.
unfoldable pub parse_digits : Bytes → ℕ
unfolding decimal_from
parse_digits s = min max_int64 (decimal_from 0 s)

all_digits : Bytes → Bool
all_digits [] = true
all_digits (c ∷ s) = is_ascii_digit c && all_digits s

unsigned : Bytes → Option ℕ
unfolding decimal_from all_digits
unsigned s = if not (is_empty s) && all_digits s then some (decimal_from 0 s) else none

positive : Option ℕ → Option ℤ
positive none = none
positive (some n) = if leb n max_int64 then some (pos n) else none

negative : Option ℕ → Option ℤ
negative none = none
negative (some zero) = some (pos 0)
negative (some (suc n)) = if leb n max_int64 then some (negsuc n) else none

-- `strconv.ParseInt(s, 10, 64)`, none where it returns an error
unfoldable pub parse_int : Bytes → Option ℤ
unfolding unsigned positive negative
parse_int [] = none
parse_int (c ∷ s) =
    if c == b'-'
    then negative (unsigned s)
    else if c == b'+'
    then positive (unsigned s)
    else positive (unsigned (c ∷ s))
