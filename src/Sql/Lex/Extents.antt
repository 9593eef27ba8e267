-- ===== src/Sql/Lex/Extents.antt =====
-- How far the comments and numbers of a statement reach (internal/sqltext/sql.go).
use firebirdsql_otel.Common.{
  ℕ, zero, suc, ◌+◌, ◌≡◌, ◌≢◌, ◌⊎◌, inl, inr, refl, sym, ap, subst, ◌∙◌, Bool, true, false, ◌&&◌,
  ◌||◌, Option, none, some, [], ◌∷◌, ◌++◌, drop, append_assoc, ◌==◌, ==_iff, within, if_rule,
  Bool-cases, Option-cases, All, All-append, arith,
}
use firebirdsql_otel.Text.{Bytes, Platform, decode_rune, drop_while, index_byte, is_ascii_digit}
use firebirdsql_otel.Sql.Lex.Scan.{
  comment_mark, skip_line, skip_comment, starts_word, is_hex_digit, digits_1, skip_fraction,
  skip_sign, skip_exponent, is_hex_prefix, number_body, scan_number,
}

-- The texts between two points.
abbrev pub IsBetween : (Bytes → Type 0) → Bytes → Bytes → Type 0
IsBetween P from to = (u : Bytes) × (from ≡ u ++ to) × P u

-- The bytes of which a number is made, in decimal or hexadecimal.
abbrev is_number_byte : ℕ → Bool
is_number_byte c =
    (within b'0' b'9' c || within b'a' b'f' c || within b'A' b'F' c)
    || (c == b'.' || c == b'+' || c == b'-' || c == b'x' || c == b'X')

abbrev pub IsNumeric : Bytes → Type 0
IsNumeric u = All (λ c. is_number_byte c ≡ true) u

-- A line that ends at the first line feed behind it.
pub IsLine : Bytes → Bytes → Type 0
IsLine from to = (u : Bytes) × (from ≡ u ++ b'\n' ∷ to) × All (λ c. c ≢ b'\n') u

-- Comments that are open one in the other, up to the end of the outermost.
pub data IsComment : ℕ → Bytes → Bytes → Type 0 where
  outside : {s : Bytes} → IsComment 0 s s
  opened :
      {n : ℕ} {s rest : Bytes}
      → IsComment (suc (suc n)) s rest
      → IsComment (suc n) (b'/' ∷ b'*' ∷ s) rest
  closed : {n : ℕ} {s rest : Bytes} → IsComment n s rest → IsComment (suc n) (b'*' ∷ b'/' ∷ s) rest
  inside :
      {n a b : ℕ} {s rest : Bytes}
      → ¬ ((a ≡ b'/') × (b ≡ b'*'))
      → ¬ ((a ≡ b'*') × (b ≡ b'/'))
      → IsComment (suc n) (b ∷ s) rest
      → IsComment (suc n) (a ∷ b ∷ s) rest

pub some_injective {ℓ} : {A : Type ℓ} {x y : A} → some x ≡ some y → x ≡ y
some_injective {A} {x} e = ap (λ (o : Option A). elim o as (λ _. A) [ none ↦ x | some z ↦ z ]) e

index_byte_lem :
    (b : ℕ) (s : Bytes) (j : ℕ)
    → index_byte b s ≡ some j
    → (u : Bytes) × (s ≡ u ++ b ∷ drop (suc j) s) × All (λ c. c ≢ b) u
unfolding index_byte
index_byte_lem b [] j = λ h. absurd (ground arith)
index_byte_lem b (c ∷ s) j =
    let R : ℕ → Type 0 = λ k. (u : Bytes) × (c ∷ s ≡ u ++ b ∷ drop k s) × All (λ x. x ≢ b) u in
    if_rule (λ o. o ≡ some j → R j) (c == b)
      (λ e h. subst R (some_injective h) ([], ap (λ x. x ∷ s) ((==_iff c b).0 e), tt))
      λ e. elim (Option-cases (index_byte b s)) [
        | inl f ↦ λ h. absurd (ground arith)
        | inr (i, f) ↦ λ h.
            let (u, g, a) = index_byte_lem b s i f in
            let same : suc i ≡ j = ground arith in
            subst R same (c ∷ u, ap (λ x. c ∷ x) g, (λ x. ground arith, a))
      ]

drop_while-IsBetween :
    (p : ℕ → Bool) (s : Bytes) → IsBetween (λ u. All (λ c. p c ≡ true) u) s (drop_while p s)
unfolding drop_while
drop_while-IsBetween p [] = ([], refl, tt)
drop_while-IsBetween p (c ∷ s) =
    let P : Bytes → Type 0 = IsBetween (λ u. All (λ c. p c ≡ true) u) (c ∷ s) in
    if_rule P (p c) (λ e. let (u, f, a) = drop_while-IsBetween p s in (c ∷ u, ap (◌∷◌ c) f, (e, a)))
      λ _. ([], refl, tt)

-- Pieces of numbers one behind the other.
joined :
    (a b c : Bytes) → IsBetween IsNumeric a b → IsBetween IsNumeric b c → IsBetween IsNumeric a c
joined a b c (u, e, x) (v, f, y) = (
  u ++ v,
  e ∙ ap (◌++◌ u) f ∙ sym (append_assoc u v c),
  All-append (λ c. is_number_byte c ≡ true) u v x y,
)

numeric :
    (p : ℕ → Bool) (u : Bytes)
    → ((c : ℕ) → p c ≡ true → is_number_byte c ≡ true)
    → All (λ c. p c ≡ true) u
    → IsNumeric u
numeric p [] h a = tt
numeric p (c ∷ u) h (x, a) = (h c x, numeric p u h a)

skipped_while :
    (p : ℕ → Bool) (s : Bytes)
    → ((c : ℕ) → p c ≡ true → is_number_byte c ≡ true)
    → IsBetween IsNumeric s (drop_while p s)
skipped_while p s h = let (u, e, a) = drop_while-IsBetween p s in (u, e, numeric p u h a)

digit_byte : (c : ℕ) → is_ascii_digit c ≡ true → is_number_byte c ≡ true
digit_byte c h = ground arith

hex_byte : (c : ℕ) → is_hex_digit c ≡ true → is_number_byte c ≡ true
hex_byte c h = ground arith

Reaches : Bytes → Option Bytes → Type 0
Reaches s none = Unit
Reaches s (some to) = IsBetween IsNumeric s to

digits_1-Reaches :
    (p : ℕ → Bool) (s : Bytes)
    → ((c : ℕ) → p c ≡ true → is_number_byte c ≡ true)
    → Reaches s (digits_1 p s)
unfolding digits_1 Reaches
digits_1-Reaches p [] h = tt
digits_1-Reaches p (c ∷ s) h =
    if_rule (Reaches (c ∷ s)) (p c)
      (λ e. joined (c ∷ s) s (drop_while p s) (c ∷ [], refl, (h c e, tt)) (skipped_while p s h))
      λ _. tt

skip_fraction-IsBetween : (s : Bytes) → IsBetween IsNumeric s (skip_fraction s)
unfolding skip_fraction
skip_fraction-IsBetween [] = ([], refl, tt)
skip_fraction-IsBetween (c ∷ s) =
    if_rule (IsBetween IsNumeric (c ∷ s)) (c == b'.')
      (λ e.
        joined (c ∷ s) s _ (c ∷ [], refl, (ground arith, tt))
          (skipped_while is_ascii_digit s digit_byte))
      λ _. ([], refl, tt)

skip_sign-IsBetween : (s : Bytes) → IsBetween IsNumeric s (skip_sign s)
unfolding skip_sign
skip_sign-IsBetween [] = ([], refl, tt)
skip_sign-IsBetween (c ∷ s) =
    if_rule (IsBetween IsNumeric (c ∷ s)) (c == b'+' || c == b'-')
      (λ e. (c ∷ [], refl, (ground arith, tt))) λ _. ([], refl, tt)

reached : (a b : Bytes) (o : Option Bytes) → IsBetween IsNumeric a b → Reaches b o → Reaches a o
unfolding Reaches
reached a b none h k = tt
reached a b (some c) h k = joined a b c h k

skip_exponent-Reaches : (s : Bytes) → Reaches s (skip_exponent s)
unfolding skip_exponent Reaches
skip_exponent-Reaches [] = ([], refl, tt)
skip_exponent-Reaches (c ∷ s) =
    if_rule (Reaches (c ∷ s)) (c == b'e' || c == b'E')
      (λ e.
        reached (c ∷ s) (skip_sign s) _
          (joined (c ∷ s) s (skip_sign s) (c ∷ [], refl, (ground arith, tt))
            (skip_sign-IsBetween s))
          (digits_1-Reaches is_ascii_digit (skip_sign s) digit_byte))
      λ _. ([], refl, tt)

hex_prefix : (s : Bytes) → is_hex_prefix s ≡ true → IsBetween IsNumeric s (drop 2 s)
unfolding is_hex_prefix
hex_prefix [] h = ground arith
hex_prefix (a ∷ []) h = ground arith
hex_prefix (a ∷ b ∷ []) h = ground arith
hex_prefix (a ∷ b ∷ c ∷ s) h = (a ∷ b ∷ [], refl, (ground arith, (ground arith, tt)))

number_body-Reaches : (s : Bytes) → Reaches s (number_body s)
unfolding number_body
number_body-Reaches s =
    if_rule (Reaches s) (is_hex_prefix s)
      (λ e.
        reached s (drop 2 s) _ (hex_prefix s e) (digits_1-Reaches is_hex_digit (drop 2 s) hex_byte))
      λ _.
        let behind = drop_while is_ascii_digit s in
        reached s (skip_fraction behind) _
          (joined s behind (skip_fraction behind) (skipped_while is_ascii_digit s digit_byte)
            (skip_fraction-IsBetween behind))
          (skip_exponent-Reaches (skip_fraction behind))

-- A number is all numeric, and no letter follows it.
pub IsNumber : Platform → Bytes → Bytes → Type 0
IsNumber p from to =
    IsBetween IsNumeric from to × ((to ≡ []) ⊎ (starts_word p (decode_rune to).rune ≡ false))

IsNumber-end :
    (p : Platform) (s to : Bytes)
    → number_body s ≡ some to
    → (to ≡ []) ⊎ (starts_word p (decode_rune to).rune ≡ false)
    → IsNumber p s to
unfolding IsNumber Reaches
IsNumber-end p s to e h = (subst (Reaches s) e (number_body-Reaches s), h)

pub scan_number-IsNumber :
    (p : Platform) (s to : Bytes) → scan_number p s ≡ some to → IsNumber p s to
unfolding scan_number
scan_number-IsNumber p s to h = elim (Option-cases (number_body s)) [
  | inl e ↦ absurd (ground arith)
  | inr ([], e) ↦
      let same : [] ≡ to = some_injective (ground arith) in
      subst (IsNumber p s) same (IsNumber-end p s [] e (inl refl))
  | inr (c ∷ r, e) ↦ elim (Bool-cases (starts_word p (decode_rune (c ∷ r)).rune)) [
    | inl f ↦ absurd (ground arith)
    | inr f ↦
        let same : c ∷ r ≡ to = some_injective (ground arith) in
        subst (IsNumber p s) same (IsNumber-end p s (c ∷ r) e (inr f))
  ]
]

pub skip_line-IsLine : (s to : Bytes) → skip_line s ≡ some to → IsLine s to
unfolding skip_line IsLine
skip_line-IsLine s to h = elim (Option-cases (index_byte b'\n' s)) [
  | inl e ↦ absurd (ground arith)
  | inr (j, e) ↦
      let (u, f, a) = index_byte_lem b'\n' s j e in
      let next : drop (suc j) s ≡ to =
        ap (λ k. drop k s) {x = suc j} {y = j + 1} (omega arith) ∙ some_injective (ground arith) in
      (u, subst (λ t. s ≡ u ++ b'\n' ∷ t) next f, a)
]

-- Without a line feed the line does not end.
index_byte-none : (b : ℕ) (s : Bytes) → index_byte b s ≡ none → All (λ c. c ≢ b) s
unfolding index_byte
index_byte-none b [] h = tt
index_byte-none b (c ∷ s) h = elim (Option-cases (index_byte b s)) [
  | inl e ↦ (λ x. ground arith, index_byte-none b s e)
  | inr (j, e) ↦ absurd (ground arith)
]

pub skip_line-none : (s : Bytes) → skip_line s ≡ none → All (λ c. c ≢ b'\n') s
unfolding skip_line
skip_line-none s h = elim (Option-cases (index_byte b'\n' s)) [
  | inl e ↦ index_byte-none b'\n' s e
  | inr (j, e) ↦ absurd (ground arith)
]

opened_at :
    {n a b : ℕ} {s rest : Bytes}
    → a ≡ b'/'
    → b ≡ b'*'
    → IsComment (suc (suc n)) s rest
    → IsComment (suc n) (a ∷ b ∷ s) rest
opened_at {n} {b} {s} {rest} e f h =
    subst (λ x. IsComment (suc n) (x ∷ b ∷ s) rest) (sym e)
      (subst (λ x. IsComment (suc n) (b'/' ∷ x ∷ s) rest) (sym f) (opened h))

closed_at :
    {n a b : ℕ} {s rest : Bytes}
    → a ≡ b'*'
    → b ≡ b'/'
    → IsComment n s rest
    → IsComment (suc n) (a ∷ b ∷ s) rest
closed_at {n} {b} {s} {rest} e f h =
    subst (λ x. IsComment (suc n) (x ∷ b ∷ s) rest) (sym e)
      (subst (λ x. IsComment (suc n) (b'*' ∷ x ∷ s) rest) (sym f) (closed h))

pub skip_comment-IsComment : (n : ℕ) (s to : Bytes) → skip_comment n s ≡ some to → IsComment n s to
unfolding skip_comment comment_mark
skip_comment-IsComment zero s to h = subst (IsComment 0 s) (some_injective h) outside
skip_comment-IsComment (suc n) [] to h = absurd (ground arith)
skip_comment-IsComment (suc n) (a ∷ []) to h = absurd (ground arith)
skip_comment-IsComment (suc n) (a ∷ b ∷ s) to h = elim (Bool-cases (a == b'/' && b == b'*')) [
  | inl e ↦
      opened_at (ground arith) (ground arith)
        (skip_comment-IsComment (suc (suc n)) s to (ground arith))
  | inr e ↦ elim (Bool-cases (a == b'*' && b == b'/')) [
    | inl f ↦ closed_at (ground arith) (ground arith) (skip_comment-IsComment n s to (ground arith))
    | inr f ↦
        inside (λ x. ground (arith, x.0, x.1)) (λ x. ground (arith, x.0, x.1))
          (skip_comment-IsComment (suc n) (b ∷ s) to (ground arith))
  ]
]
