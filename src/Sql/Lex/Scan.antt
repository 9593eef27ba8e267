-- ===== src/Sql/Lex/Scan.antt =====
-- The scanners inside `lex` (internal/sqltext/sql.go): comments, literals, numbers, words.
-- Each takes the text from its first byte on, and returns what is left behind the construct.
use firebirdsql_otel.Common.{
  ℕ, zero, suc, ◌+◌, ◌-◌, Bool, true, false, ◌&&◌, ◌||◌, Option, none, some, [], ◌∷◌, ◌++◌, length,
  drop, ◌==◌, within, if◌then◌else◌,
}
use firebirdsql_otel.Text.{
  Bytes, Platform, decode_rune, encode_rune, index, index_byte, is_space, drop_while,
  is_ascii_digit,
}

pub record Token : Type 0 where
  pub text : Bytes
  pub identifier : Bool

-- `i = strings.IndexByte(s[i:], '\n')`, and the text behind that newline; none at the end of input.
unfoldable pub skip_line : Bytes → Option Bytes
skip_line s = elim (index_byte b'\n' s) [ none ↦ none | some j ↦ some (drop (j + 1) s) ]

pub data Mark : Type 0 where
  opening closing other : Mark

unfoldable pub comment_mark : ℕ → ℕ → Mark
comment_mark a b =
    if a == b'/' && b == b'*'
    then Mark.opening
    else if a == b'*' && b == b'/'
    then Mark.closing
    else Mark.other

-- The loop over a nested comment, from `level` open ones; `none` if it is not closed.
unfoldable pub skip_comment : ℕ → Bytes → Option Bytes
skip_comment zero s = some s
skip_comment (suc level) [] = none
skip_comment (suc level) (a ∷ []) = none
skip_comment (suc level) (a ∷ b ∷ s) = elim (comment_mark a b) [
  | Mark.opening ↦ skip_comment (suc (suc level)) s
  | Mark.closing ↦ skip_comment level s
  | Mark.other ↦ skip_comment (suc level) (b ∷ s)
]

-- The loop to the closing quote, where a doubled quote stands for one; `none` if it is not closed.
unfoldable pub skip_quoted : ℕ → Bytes → Option Bytes
skip_quoted quote [] = none
skip_quoted quote (c ∷ []) = if c == quote then some [] else none
skip_quoted quote (c ∷ d ∷ s) = elim (c == quote) [
  | true ↦ elim (d == quote) [ true ↦ skip_quoted quote s | false ↦ some (d ∷ s) ]
  | false ↦ skip_quoted quote (d ∷ s)
]

-- The rune that closes a q-literal opened by `delim`.
unfoldable pub closing_delimiter : ℕ → ℕ
closing_delimiter delim =
    if delim == b'{'
    then b'}'
    else if delim == b'['
    then b']'
    else if delim == b'('
    then b')'
    else if delim == b'<'
    then b'>'
    else delim

-- `strings.Index(s[start:], string(close)+"'")`, and the text behind it.
unfoldable pub skip_delimited : ℕ → Bytes → Option Bytes
skip_delimited close s =
    let tail = encode_rune close in
    elim (index (tail ++ b'\'' ∷ []) s) [
      | none ↦ none
      | some j ↦ some (drop (j + length tail + 1) s)
    ]

-- A q-literal, from the byte behind `q'`.
unfoldable pub scan_alternative : Bytes → Option Bytes
scan_alternative s =
    let delim = (decode_rune s).rune in
    if is_space delim || delim == b'\''
    then none
    else skip_delimited (closing_delimiter delim) (drop (decode_rune s).size s)

abbrev pub is_hex_digit : ℕ → Bool
is_hex_digit c = is_ascii_digit c || within b'a' b'f' c || within b'A' b'F' c

-- Digits of which there must be one.
unfoldable pub digits_1 : (ℕ → Bool) → Bytes → Option Bytes
digits_1 p [] = none
digits_1 p (c ∷ s) = if p c then some (drop_while p s) else none

unfoldable pub skip_fraction : Bytes → Bytes
skip_fraction [] = []
skip_fraction (c ∷ s) = if c == b'.' then drop_while is_ascii_digit s else c ∷ s

unfoldable pub skip_sign : Bytes → Bytes
skip_sign [] = []
skip_sign (c ∷ s) = if c == b'+' || c == b'-' then s else c ∷ s

unfoldable pub skip_exponent : Bytes → Option Bytes
skip_exponent [] = some []
skip_exponent (c ∷ s) =
    if c == b'e' || c == b'E' then digits_1 is_ascii_digit (skip_sign s) else some (c ∷ s)

-- The branch `i+2 < len(s) && s[i] == '0' && (s[i+1] == 'x' || s[i+1] == 'X')`.
unfoldable pub is_hex_prefix : Bytes → Bool
is_hex_prefix (a ∷ b ∷ c ∷ s) = a == b'0' && (b == b'x' || b == b'X')
is_hex_prefix (a ∷ b ∷ []) = false
is_hex_prefix (a ∷ []) = false
is_hex_prefix [] = false

unfoldable pub number_body : Bytes → Option Bytes
number_body s =
    if is_hex_prefix s
    then digits_1 is_hex_digit (drop 2 s)
    else skip_exponent (skip_fraction (drop_while is_ascii_digit s))

-- `r >= '0' && r <= '9' || r == '.' && i+1 < len(s) && s[i+1] >= '0' && s[i+1] <= '9'`
unfoldable pub starts_number : ℕ → Bytes → Bool
starts_number r (a ∷ b ∷ s) = within b'0' b'9' r || (r == b'.' && is_ascii_digit b)
starts_number r (a ∷ []) = within b'0' b'9' r
starts_number r [] = within b'0' b'9' r

module _ (p : Platform) where
  unfoldable pub starts_word : ℕ → Bool
  starts_word r = p.is_letter r || r == b'_'

  unfoldable pub continues_word : ℕ → Bool
  continues_word r = p.is_letter r || p.is_digit r || r == b'_' || r == b'$'

  -- A number, and no letter may follow it.
  unfoldable pub scan_number : Bytes → Option Bytes
  scan_number s = elim (number_body s) [
    | none ↦ none
    | some [] ↦ some []
    | some (c ∷ rest) ↦ if starts_word (decode_rune (c ∷ rest)).rune then none else some (c ∷ rest)
  ]

  -- The loop over the runes of a word; the first argument counts the bytes left of the rune at hand.
  unfoldable pub skip_word : ℕ → Bytes → Bytes
  skip_word k [] = []
  skip_word (suc k) (c ∷ s) = skip_word k s
  skip_word zero (c ∷ s) =
      let r = decode_rune (c ∷ s) in
      elim (continues_word r.rune) [ true ↦ skip_word (r.size - 1) s | false ↦ c ∷ s ]
