-- ===== src/Sql/Lex/Lengths.antt =====
-- What the scanners of `lex` (internal/sqltext/sql.go) leave is no longer than what they are given.
use firebirdsql_otel.Common.{
  ℕ, zero, suc, ◌+◌, ◌-◌, ◌≤◌, ◌≡◌, inl, inr, Bool, true, false, ◌||◌, Option, none, some, [], ◌∷◌,
  ◌++◌, length, drop, length-drop, ◌==◌, Bool-cases, Option-cases, arith,
}
use firebirdsql_otel.Text.{
  Bytes, Platform, decode_rune, encode_rune, index, index_byte, is_ascii_digit, drop_while,
  length-drop_while,
}
use firebirdsql_otel.Sql.Lex.Scan.{
  Mark, comment_mark, skip_line, skip_comment, skip_quoted, closing_delimiter, skip_delimited,
  scan_alternative, digits_1, skip_fraction, skip_sign, skip_exponent, is_hex_prefix, is_hex_digit,
  number_body, starts_number, scan_number, skip_word,
}

-- What a scanner leaves is no longer than `n`.
abbrev pub Within : ℕ → Option Bytes → Type 0
Within n none = Unit
Within n (some rest) = length rest ≤ n

pub skip_line-Within : (c : ℕ) (s : Bytes) → Within (length s) (skip_line (c ∷ s))
unfolding skip_line
skip_line-Within c s = elim (Option-cases (index_byte b'\n' (c ∷ s))) [
  | inl e ↦ rw (e, skip_line) tt
  | inr (j, e) ↦ rw (e, skip_line) (omega (arith, length-drop (j + 1) (c ∷ s)))
]

pub Within-mono : (n m : ℕ) (o : Option Bytes) → n ≤ m → Within n o → Within m o
Within-mono n m none h w = tt
Within-mono n m (some rest) h w = omega arith

pub skip_comment-Within : (level : ℕ) (s : Bytes) → Within (length s) (skip_comment level s)
unfolding skip_comment
skip_comment-Within zero s = omega arith
skip_comment-Within (suc level) [] = tt
skip_comment-Within (suc level) (a ∷ []) = tt
skip_comment-Within (suc level) (a ∷ b ∷ s) =
    let n = suc (suc (length s)) in
    elim (comment_mark a b)
      as (λ m. Within n (elim m [
        | Mark.opening ↦ skip_comment (suc (suc level)) s
        | Mark.closing ↦ skip_comment level s
        | Mark.other ↦ skip_comment (suc level) (b ∷ s)
      ])) [
        | Mark.opening ↦
            Within-mono (length s) n _ (omega arith) (skip_comment-Within (suc (suc level)) s)
        | Mark.closing ↦ Within-mono (length s) n _ (omega arith) (skip_comment-Within level s)
        | Mark.other ↦
            Within-mono (suc (length s)) n _ (omega arith) (skip_comment-Within (suc level) (b ∷ s))
      ]

pub skip_quoted-Within : (quote : ℕ) (s : Bytes) → Within (length s) (skip_quoted quote s)
unfolding skip_quoted
skip_quoted-Within quote [] = tt
skip_quoted-Within quote (c ∷ []) = ground arith
skip_quoted-Within quote (c ∷ d ∷ s) =
    let n = suc (length s) in
    elim (c == quote)
      as (λ b. Within (suc n) (elim b [
        | true ↦ elim (d == quote) [ true ↦ skip_quoted quote s | false ↦ some (d ∷ s) ]
        | false ↦ skip_quoted quote (d ∷ s)
      ])) [
        | true ↦
            elim (d == quote)
              as (λ b.
                Within (suc n) (elim b [ true ↦ skip_quoted quote s | false ↦ some (d ∷ s) ])) [
                  | true ↦
                      Within-mono (length s) (suc n) _ (omega arith) (skip_quoted-Within quote s)
                  | false ↦ omega arith
                ]
        | false ↦ Within-mono n (suc n) _ (omega arith) (skip_quoted-Within quote (d ∷ s))
      ]

pub skip_delimited-Within : (close : ℕ) (s : Bytes) → Within (length s) (skip_delimited close s)
unfolding skip_delimited
skip_delimited-Within close s = elim (Option-cases (index (encode_rune close ++ b'\'' ∷ []) s)) [
  | inl e ↦ rw (e, skip_delimited) tt
  | inr (j, e) ↦
      rw (e, skip_delimited) (omega (arith, length-drop (j + length (encode_rune close) + 1) s))
]

pub scan_alternative-Within : (s : Bytes) → Within (length s) (scan_alternative s)
unfolding scan_alternative
scan_alternative-Within s =
    let r = decode_rune s in
    ground (
      arith,
      length-drop r.size s,
      skip_delimited-Within (closing_delimiter r.rune) (drop r.size s),
    )

digits_1-Within : (p : ℕ → Bool) (s : Bytes) → Within (length s - 1) (digits_1 p s)
unfolding digits_1
digits_1-Within p [] = tt
digits_1-Within p (c ∷ s) = ground (arith, length-drop_while p s)

length-skip_fraction : (s : Bytes) → length (skip_fraction s) ≤ length s
unfolding skip_fraction
length-skip_fraction [] = omega arith
length-skip_fraction (c ∷ s) = ground (arith, length-drop_while is_ascii_digit s)

length-skip_sign : (s : Bytes) → length (skip_sign s) ≤ length s
unfolding skip_sign
length-skip_sign [] = omega arith
length-skip_sign (c ∷ s) = ground arith

skip_exponent-Within : (s : Bytes) → Within (length s) (skip_exponent s)
unfolding skip_exponent
skip_exponent-Within [] = omega arith
skip_exponent-Within (c ∷ s) =
    ground (arith, length-skip_sign s, digits_1-Within is_ascii_digit (skip_sign s))

-- A digit is taken by the first loop, and a point by the fraction.
decimal_step :
    (c : ℕ) (s : Bytes)
    → (is_ascii_digit c || c == b'.') ≡ true
    → length (skip_fraction (drop_while is_ascii_digit (c ∷ s))) ≤ length s
unfolding drop_while
decimal_step c s h = elim (Bool-cases (is_ascii_digit c)) [
  | inl e ↦ rw e (
      omega (
        arith,
        length-skip_fraction (drop_while is_ascii_digit s),
        length-drop_while is_ascii_digit s,
      ))
  | inr e ↦ rw e (unfold skip_fraction in ground (arith, length-drop_while is_ascii_digit s))
]

length-decimal :
    (c : ℕ) (s : Bytes)
    → starts_number c (c ∷ s) ≡ true
    → length (skip_fraction (drop_while is_ascii_digit (c ∷ s))) ≤ length s
unfolding starts_number
length-decimal c [] h = ground (arith, decimal_step c [])
length-decimal c (d ∷ s) h = ground (arith, decimal_step c (d ∷ s))

-- A number takes its first byte.
number_body-Within :
    (c : ℕ) (s : Bytes) → starts_number c (c ∷ s) ≡ true → Within (length s) (number_body (c ∷ s))
unfolding number_body is_hex_prefix
number_body-Within c [] h =
    Within-mono _ 0 _ (length-decimal c [] h)
      (skip_exponent-Within (skip_fraction (drop_while is_ascii_digit (c ∷ []))))
number_body-Within c (d ∷ []) h =
    Within-mono _ 1 _ (length-decimal c (d ∷ []) h)
      (skip_exponent-Within (skip_fraction (drop_while is_ascii_digit (c ∷ d ∷ []))))
number_body-Within c (d ∷ e ∷ s) h =
    let decimal = skip_fraction (drop_while is_ascii_digit (c ∷ d ∷ e ∷ s)) in
    ground (
      arith,
      digits_1-Within is_hex_digit (e ∷ s),
      skip_exponent-Within decimal,
      length-decimal c (d ∷ e ∷ s) h,
    )

module _ (p : Platform) where
  pub scan_number-Within :
      (c : ℕ) (s : Bytes)
      → starts_number c (c ∷ s) ≡ true
      → Within (length s) (scan_number p (c ∷ s))
  unfolding scan_number
  scan_number-Within c s h = ground (arith, number_body-Within c s h)

  pub length-skip_word : (k : ℕ) (s : Bytes) → length (skip_word p k s) ≤ length s
  unfolding skip_word
  length-skip_word k [] = omega arith
  length-skip_word (suc k) (c ∷ s) = omega (arith, length-skip_word k s)
  length-skip_word zero (c ∷ s) =
      ground (arith, length-skip_word ((decode_rune (c ∷ s)).size - 1) s)
