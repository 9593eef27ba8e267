-- ===== src/Sql/Framing.antt =====
-- Lexical framing of statements in a trace (internal/sqltext/framing.go), and the terminal ellipsis
-- (internal/sqltext/sql.go). As in the lexer, the index is kept as the text that is left.
pub mod Simulation
pub mod Safety
use firebirdsql_otel.Common.{
  ℕ, zero, suc, ◌+◌, Bool, true, false, not, ◌&&◌, ◌||◌, Option, none, some, List, [], ◌∷◌, ◌++◌,
  length, drop, ltb, leb, ◌==◌, if◌then◌else◌,
}
use firebirdsql_otel.Text.{
  Bytes, codes, Platform, Rune, decode_rune, encode_rune, index, has_prefix, is_space, is_empty,
  valid_string, slice_to, to_upper, trim_space, has_suffix,
}
use firebirdsql_otel.Sql.Lex.Scan.{
  Token, skip_line, skip_comment, skip_quoted, closing_delimiter, skip_delimited, starts_word,
  skip_word,
}
use firebirdsql_otel.Sql.Lex.Step.{LexResult, accepted, byte_at, lex}
use firebirdsql_otel.Sql.Describe.{max_input, one_of}

-- The loop of `LexicallyComplete`: the text left, and the open brackets.
pub record Frame : Type 0 where
  pub rest : Bytes
  pub open_brackets : List ℕ

pub data FrameOutcome : Type 0 where
  next : Frame → FrameOutcome
  stop : FrameOutcome
  reject : FrameOutcome

-- `(s[i] == 'q' || s[i] == 'Q') && i+2 < len(s) && s[i+1] == '\''`
unfoldable pub starts_alternative : ℕ → Bytes → Bool
starts_alternative c s = (c == b'q' || c == b'Q') && ltb 2 (length s) && byte_at s 1 b'\''

-- A q-literal from its delimiter on, which is not checked here.
unfoldable pub skip_alternative : Bytes → Option Bytes
skip_alternative s =
    let delim = decode_rune s in skip_delimited (closing_delimiter delim.rune) (drop delim.size s)

unfoldable pub frame_resume : Frame → Option Bytes → FrameOutcome
frame_resume st none = reject
frame_resume st (some rest) = next (record st { rest = rest })

unfoldable pub frame_line : Frame → Option Bytes → FrameOutcome
frame_line st none = stop
frame_line st (some rest) = next (record st { rest = rest })

unfoldable pub frame_close : Frame → ℕ → List ℕ → FrameOutcome
frame_close st c [] = reject
frame_close st c (opening ∷ others) =
    if (c == b')' && not (opening == b'(')) || (c == b']' && not (opening == b'['))
    then reject
    else next (record { rest = drop 1 st.rest; open_brackets = others })

module _ (p : Platform) where
  -- The text behind the rune at the front, and behind the word that it starts.
  unfoldable pub skip_rune : Bytes → Bytes
  skip_rune s =
      let r = decode_rune s in
      if starts_word p r.rune then skip_word p 0 (drop r.size s) else drop r.size s

  unfoldable pub frame_at : Frame → ℕ → FrameOutcome
  frame_at st c =
      if has_prefix (codes "--") st.rest
      then frame_line st (skip_line st.rest)
      else if has_prefix (codes "/*") st.rest
      then frame_resume st (skip_comment 1 (drop 2 st.rest))
      else if starts_alternative c st.rest
      then frame_resume st (skip_alternative (drop 2 st.rest))
      else if c == b'\'' || c == b'"'
      then frame_resume st (skip_quoted c (drop 1 st.rest))
      else if c == b'(' || c == b'['
      then next (record { rest = drop 1 st.rest; open_brackets = c ∷ st.open_brackets })
      else if c == b')' || c == b']'
      then frame_close st c st.open_brackets
      else next (record st { rest = skip_rune st.rest })

  frame_front : Frame → Bytes → FrameOutcome
  frame_front st [] = stop
  frame_front st (c ∷ s) = frame_at st c

  -- One round of the loop of `LexicallyComplete`.
  unfoldable pub frame_step : Frame → FrameOutcome
  unfolding frame_front
  frame_step st = frame_front st st.rest

  -- `return len(delimiters) == 0`; without fuel the answer is none.
  unfoldable pub frame_loop : ℕ → Frame → Option Bool
  frame_loop zero st = none
  frame_loop (suc fuel) st = elim (frame_step st) [
    | next st' ↦ frame_loop fuel st'
    | stop ↦ some (is_empty st.open_brackets)
    | reject ↦ some false
  ]

  -- `LexicallyComplete`
  unfoldable pub lexically_complete : Bytes → Option Bool
  lexically_complete s =
      if ltb max_input (length s) || not (valid_string s)
      then some false
      else frame_loop (suc (length s)) (record { rest = s; open_brackets = [] })

-- The loop of `StatementMayEnd`: the text left, and the last token.
pub record Last : Type 0 where
  pub rest : Bytes
  pub last : Bytes

-- An open comment makes the loop slice past the end of the text, which panics.
pub data LastOutcome : Type 0 where
  next : Last → LastOutcome
  stop : LastOutcome
  panic : LastOutcome

unfoldable pub last_line : Last → Option Bytes → LastOutcome
last_line st none = LastOutcome.stop
last_line st (some rest) = LastOutcome.next (record st { rest = rest })

unfoldable pub last_comment : Last → Option Bytes → LastOutcome
last_comment st none = panic
last_comment st (some rest) = LastOutcome.next (record st { rest = rest })

-- `i = start + n + len(string(end)) + 1`, where `n` is -1 if the literal is not closed
unfoldable pub last_alternative : Last → Option Bytes → LastOutcome
last_alternative st none =
    let delim = decode_rune (drop 2 st.rest) in
    LastOutcome.next (record {
      rest =
          drop (delim.size + length (encode_rune (closing_delimiter delim.rune))) (drop 2 st.rest);
      last = b'?' ∷ [];
    })
last_alternative st (some rest) = LastOutcome.next (record { rest = rest; last = b'?' ∷ [] })

-- The loop over a quoted construct that is not closed ends with the text.
unfoldable pub last_quoted : Option Bytes → LastOutcome
last_quoted none = LastOutcome.next (record { rest = []; last = b'?' ∷ [] })
last_quoted (some rest) = LastOutcome.next (record { rest = rest; last = b'?' ∷ [] })

module _ (p : Platform) where
  -- Behind the comments and the literals: a space, a word, or one rune.
  unfoldable pub last_rune : Last → LastOutcome
  last_rune st =
      let r = decode_rune st.rest in
      let behind = skip_word p 0 (drop r.size st.rest) in
      if is_space r.rune
      then LastOutcome.next (record st { rest = drop r.size st.rest })
      else if starts_word p r.rune
      then LastOutcome.next (record { rest = behind; last = to_upper p (slice_to st.rest behind) })
      else LastOutcome.next (record { rest = drop r.size st.rest; last = encode_rune r.rune })

  unfoldable pub last_at : Last → ℕ → LastOutcome
  last_at st c =
      if has_prefix (codes "--") st.rest
      then last_line st (skip_line st.rest)
      else if has_prefix (codes "/*") st.rest
      then last_comment st (skip_comment 1 (drop 2 st.rest))
      else if starts_alternative c st.rest
      then last_alternative st (skip_alternative (drop 2 st.rest))
      else if c == b'\'' || c == b'"'
      then last_quoted (skip_quoted c (drop 1 st.rest))
      else last_rune st

  last_front : Last → Bytes → LastOutcome
  last_front st [] = LastOutcome.stop
  last_front st (c ∷ s) = last_at st c

  unfoldable pub last_step : Last → LastOutcome
  unfolding last_front
  last_step st = last_front st st.rest

  -- The last token of the text; none if the loop panics or the fuel runs out.
  unfoldable pub last_loop : ℕ → Last → Option Bytes
  last_loop zero st = none
  last_loop (suc fuel) st = elim (last_step st) [
    | next st' ↦ last_loop fuel st'
    | stop ↦ some st.last
    | panic ↦ none
  ]

-- The words and marks behind which a statement goes on.
abbrev pub unfinished_ends : List Bytes
unfinished_ends =
    codes "SELECT"
    ∷ codes "FIRST"
    ∷ codes "SKIP"
    ∷ codes "FROM"
    ∷ codes "WHERE"
    ∷ codes "JOIN"
    ∷ codes "ON"
    ∷ codes "AS"
    ∷ codes "BY"
    ∷ codes "HAVING"
    ∷ codes "ORDER"
    ∷ codes "GROUP"
    ∷ codes "UNION"
    ∷ codes "ALL"
    ∷ codes "DISTINCT"
    ∷ codes "INTERSECT"
    ∷ codes "EXCEPT"
    ∷ codes "INTO"
    ∷ codes "VALUES"
    ∷ codes "SET"
    ∷ codes "RETURNING"
    ∷ codes "WHEN"
    ∷ codes "THEN"
    ∷ codes "ELSE"
    ∷ codes "AND"
    ∷ codes "OR"
    ∷ codes "NOT"
    ∷ codes "="
    ∷ codes "<"
    ∷ codes ">"
    ∷ codes "!"
    ∷ codes "^"
    ∷ codes "~"
    ∷ codes "+"
    ∷ codes "-"
    ∷ codes "*"
    ∷ codes "/"
    ∷ codes "|"
    ∷ codes ":"
    ∷ codes ","
    ∷ codes "."
    ∷ codes "("
    ∷ codes "["
    ∷ []

module _ (p : Platform) where
  unfoldable pub may_end_of : Option Bytes → Option Bool
  may_end_of none = none
  may_end_of (some last) = some (not (one_of unfinished_ends last))

  unfoldable pub may_end_after : Bytes → Option Bool → Option Bool
  may_end_after s none = none
  may_end_after s (some false) = some false
  may_end_after s (some true) =
      may_end_of (last_loop p (suc (length s)) (record { rest = s; last = [] }))

  -- `StatementMayEnd`; none if it panics.
  unfoldable pub statement_may_end : Bytes → Option Bool
  statement_may_end s = may_end_after s (lexically_complete p s)

  ends_with_point : List Token → Bool
  ends_with_point [] = false
  ends_with_point (t ∷ []) = one_of (codes "." ∷ []) t.text
  ends_with_point (t ∷ u ∷ ts) = ends_with_point (u ∷ ts)

  -- `HasTerminalEllipsis`
  unfoldable pub has_terminal_ellipsis : Bytes → Bool
  unfolding ends_with_point trim_space has_suffix valid_string
  has_terminal_ellipsis s =
      if not (has_suffix (codes "...") (trim_space s))
      then false
      else if ltb max_input (length s) || not (valid_string s)
      then true
      else elim (lex p s) [ accepted ts ↦ ends_with_point ts | _ ↦ true ]
