-- ===== src/Sql/Lex/Step.antt =====
-- `lex` (internal/sqltext/sql.go): one round of its loop, and the loop on fuel.
use firebirdsql_otel.Common.{
  ℕ, zero, suc, Bool, true, false, not, ◌&&◌, ◌||◌, Option, none, some, List, [], ◌∷◌, ◌++◌, length,
  get_elem?, drop, ltb, leb, ◌==◌, if◌then◌else◌, ◌≡◌, refl,
}
use firebirdsql_otel.Text.{
  Bytes, codes, Platform, Rune, decode_rune, encode_rune, has_prefix, index_byte, is_space,
  is_empty, drop_while, index, slice_to, to_upper, equal,
}
use firebirdsql_otel.Sql.Lex.Scan.{
  Token, skip_line, skip_comment, skip_quoted, scan_alternative, starts_number, scan_number,
  starts_word, skip_word, comment_mark, is_hex_prefix, digits_1, skip_exponent, skip_fraction,
  skip_sign, number_body, continues_word, skip_delimited, closing_delimiter,
}

pub record LexState : Type 0 where
  -- s[i:]
  pub rest : Bytes
  pub out : List Token
  -- the open brackets, the last one first
  pub delimiters : List ℕ

pub data Outcome : Type 0 where
  next : LexState → Outcome
  stop : Outcome
  reject : Outcome

pub data LexResult : Type 0 where
  accepted : List Token → LexResult
  rejected : LexResult
  out_of_fuel : LexResult

abbrev pub max_tokens : ℕ
max_tokens = 4096

abbrev pub max_nesting : ℕ
max_nesting = 128

-- `add("?", false)`
abbrev pub placeholder : Token
placeholder = record { text = b'?' ∷ []; identifier = false }

-- `i+k < len(s) && s[i+k] == b`
unfoldable pub byte_at : Bytes → ℕ → ℕ → Bool
byte_at s k b = elim (get_elem? s k) [ none ↦ false | some c ↦ c == b ]

-- `strings.ContainsRune(set, r)`, for a set of ASCII
unfoldable pub contains_rune : Bytes → ℕ → Bool
contains_rune [] r = false
contains_rune (c ∷ s) r = c == r || contains_rune s r

abbrev pub punctuation : Bytes
punctuation = codes "()[],.;?=<>!^~+-*/|:%"

unfoldable pub emit : LexState → Bytes → Token → Outcome
emit st rest t = next (record st { rest = rest; out = st.out ++ t ∷ [] })

-- A comment leaves no token.
unfoldable pub resume : LexState → Option Bytes → Outcome
resume st none = reject
resume st (some rest) = next (record st { rest = rest })

-- A literal leaves the placeholder.
unfoldable pub literal : LexState → Option Bytes → Outcome
unfolding emit
literal st none = reject
literal st (some rest) = emit st rest placeholder

-- `--`: a comment that runs to the end of the input ends the loop.
unfoldable pub line_comment : LexState → Option Bytes → Outcome
line_comment st none = stop
line_comment st (some rest) = next (record st { rest = rest })

unfoldable pub quoted_token : LexState → ℕ → Option Bytes → Outcome
unfolding emit slice_to
quoted_token st quote none = reject
quoted_token st quote (some rest) =
    if quote == b'"'
    then emit st rest (record { text = slice_to st.rest rest; identifier = true })
    else emit st rest placeholder

unfoldable pub is_hex_literal : ℕ → Bytes → Bool
unfolding byte_at
is_hex_literal r s = (r == b'x' || r == b'X') && byte_at s 1 b'\''

unfoldable pub quoted : LexState → ℕ → Outcome
unfolding quoted_token is_hex_literal
quoted st r =
    let hexadecimal = r == b'x' || r == b'X' in
    let quote = if hexadecimal then b'\'' else r in
    let start = if hexadecimal then 2 else 1 in
    quoted_token st quote (skip_quoted quote (drop start st.rest))

abbrev pub is_constant : Bytes → Bool
is_constant word =
    equal word (codes "NULL")
    || equal word (codes "TRUE")
    || equal word (codes "FALSE")
    || equal word (codes "UNKNOWN")

module _ (p : Platform) where
  unfoldable pub word_token : LexState → Bytes → Outcome
  unfolding emit slice_to to_upper
  word_token st rest =
      let word = to_upper p (slice_to st.rest rest) in
      if is_constant word
      then emit st rest placeholder
      else emit st rest (record { text = word; identifier = true })

-- The brackets that are open behind `r`, or none if `r` closes what is not open.
unfoldable pub open_after : List ℕ → ℕ → Option (List ℕ)
open_after delimiters r =
    if r == b'(' || r == b'['
    then (if leb max_nesting (length delimiters) then none else some (r ∷ delimiters))
    else if r == b')' || r == b']'
    then (elim delimiters [
      | [] ↦ none
      | opening ∷ others ↦
          if (r == b')' && not (opening == b'(')) || (r == b']' && not (opening == b'['))
          then none
          else some others
    ])
    else some delimiters

unfoldable pub punctuation_token : LexState → Rune → Option (List ℕ) → Outcome
unfolding encode_rune
punctuation_token st r none = reject
punctuation_token st r (some delimiters) = next (record {
  rest = drop r.size st.rest;
  out = st.out ++ record { text = encode_rune r.rune; identifier = false } ∷ [];
  delimiters = delimiters;
})

-- `return out, len(delimiters) == 0`
unfoldable pub finish : LexState → LexResult
finish st = if is_empty st.delimiters then accepted st.out else rejected

module _ (p : Platform) where
  unfoldable pub lex_rune : LexState → Rune → Outcome
  lex_rune st r =
      if is_space r.rune
      then next (record st { rest = drop r.size st.rest })
      else if has_prefix (codes "--") st.rest
      then line_comment st (skip_line st.rest)
      else if has_prefix (codes "/*") st.rest
      then resume st (skip_comment 1 (drop 2 st.rest))
      else if (r.rune == b'q' || r.rune == b'Q')
          && ltb 2 (length st.rest)
          && byte_at st.rest 1 b'\''
      then literal st (scan_alternative (drop 2 st.rest))
      else if r.rune == b'\'' || r.rune == b'"' || is_hex_literal r.rune st.rest
      then quoted st r.rune
      else if starts_number r.rune st.rest
      then literal st (scan_number p st.rest)
      else if starts_word p r.rune
      then word_token p st (skip_word p 0 (drop r.size st.rest))
      else if contains_rune punctuation r.rune
      then punctuation_token st r (open_after st.delimiters r.rune)
      else reject

  -- One round of the loop of `lex`.
  unfoldable pub lex_step : LexState → Outcome
  lex_step st =
      if is_empty st.rest
      then stop
      else if leb max_tokens (length st.out)
      then reject
      else lex_rune st (decode_rune st.rest)

  unfoldable pub lex_loop : ℕ → LexState → LexResult
  lex_loop zero st = out_of_fuel
  lex_loop (suc fuel) st = elim (lex_step st) [
    | next st' ↦ lex_loop fuel st'
    | stop ↦ finish st
    | reject ↦ rejected
  ]

abbrev pub initial : Bytes → LexState
initial s = record { rest = s; out = []; delimiters = [] }

-- `lex(s)`; every round takes a byte, so the length and one more round are enough.
unfoldable pub lex : Platform → Bytes → LexResult
unfolding lex_loop finish lex_step lex_rune decode_rune resume literal line_comment quoted
    word_token punctuation_token byte_at is_hex_literal contains_rune has_prefix is_space open_after
    starts_number starts_word skip_line skip_comment skip_quoted scan_alternative scan_number
    skip_word equal comment_mark is_hex_prefix digits_1 skip_exponent skip_fraction skip_sign
    number_body drop_while continues_word skip_delimited closing_delimiter encode_rune index
    index_byte
lex p s = lex_loop p (suc (length s)) (initial s)

-- For proofs that keep the scanners shut.
pub lex_lem : (p : Platform) (s : Bytes) → lex p s ≡ lex_loop p (suc (length s)) (initial s)
unfolding lex
lex_lem p s = refl
