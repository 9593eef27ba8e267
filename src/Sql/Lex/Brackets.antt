-- ===== src/Sql/Lex/Brackets.antt =====
-- Bracket structure of token lists: what balanced means, and the tokens of a text that is read in
-- part, with the brackets that are still open (`delimiters` in internal/sqltext/sql.go).
use firebirdsql_otel.Common.{
  ℕ, ◌<◌, ◌≡◌, ◌≢◌, ◌⊎◌, refl, sym, ap, subst, ◌∙◌, Bool, true, false, ◌||◌, List, [], ◌∷◌, ◌++◌,
  append_assoc, ◌==◌, arith,
}
use firebirdsql_otel.Text.{Bytes, encode_rune}
use firebirdsql_otel.Sql.Lex.Scan.{Token}
use firebirdsql_otel.Sql.Lex.Step.{placeholder}

abbrev pub bracket : ℕ → Token
bracket r = record { text = encode_rune r; identifier = false }

-- A token that is no round or square bracket.
abbrev pub Plain : Token → Type 0
Plain t = (t ≢ bracket b'(') × (t ≢ bracket b')') × (t ≢ bracket b'[') × (t ≢ bracket b']')

pub data Matches : ℕ → ℕ → Type 0 where
  round : {a b : ℕ} → a ≡ b'(' → b ≡ b')' → Matches a b
  square : {a b : ℕ} → a ≡ b'[' → b ≡ b']' → Matches a b

-- The bracket grammar: `ts = ε | plain ts | open ts close ts`.
pub data IsBalanced : List Token → Type 0 where
  empty : IsBalanced []
  plain : {t : Token} {ts : List Token} → Plain t → IsBalanced ts → IsBalanced (t ∷ ts)
  pair :
      (a b : ℕ) {inner after ts : List Token}
      → Matches a b
      → IsBalanced inner
      → IsBalanced after
      → ts ≡ bracket a ∷ (inner ++ (bracket b ∷ after))
      → IsBalanced ts

pub IsBalanced-append : {xs ys : List Token} → IsBalanced xs → IsBalanced ys → IsBalanced (xs ++ ys)
IsBalanced-append empty k = k
IsBalanced-append (plain p h) k = plain p (IsBalanced-append h k)
IsBalanced-append {ys} (pair a b {inner} {after} m h g e) k =
    pair a b m h (IsBalanced-append g k)
      (ap (λ l. l ++ ys) e ∙ ap (◌∷◌ (bracket a)) (append_assoc inner (bracket b ∷ after) ys))

-- The tokens so far, when the brackets of the list are open, the last one first.
abbrev pub Opens : List ℕ → List Token → Type 0
Opens [] out = IsBalanced out
Opens (d ∷ ds) out =
    (before : List Token) × (inner : List Token) × (out ≡ before ++ (bracket d ∷ inner))
    × ((d ≡ b'(') ⊎ (d ≡ b'['))
    × Opens ds before
    × IsBalanced inner

pub Opens-append :
    (ds : List ℕ) (out ts : List Token) → Opens ds out → IsBalanced ts → Opens ds (out ++ ts)
Opens-append [] out ts h k = IsBalanced-append h k
Opens-append (d ∷ ds) out ts (before, inner, e, o, h, g) k = (
  before,
  inner ++ ts,
  ap (λ l. l ++ ts) e ∙ append_assoc before (bracket d ∷ inner) ts,
  o,
  h,
  IsBalanced-append g k,
)

-- A closing bracket takes the last open one.
pub Opens-close :
    (d r : ℕ) (ds : List ℕ) (out : List Token)
    → Matches d r
    → Opens (d ∷ ds) out
    → Opens ds (out ++ bracket r ∷ [])
Opens-close d r ds out m (before, inner, e, _, h, g) =
    subst (Opens ds)
      (sym (
        ap (λ l. l ++ bracket r ∷ []) e ∙ append_assoc before (bracket d ∷ inner) (bracket r ∷ [])))
      (Opens-append ds before (bracket d ∷ (inner ++ bracket r ∷ [])) h (pair d r m g empty refl))

pub identifier-Plain : (s : Bytes) → Plain (record { text = s; identifier = true })
identifier-Plain s = (λ e. cc, λ e. cc, λ e. cc, λ e. cc)

pub placeholder-Plain : Plain placeholder
unfolding encode_rune
placeholder-Plain = (λ e. cc, λ e. cc, λ e. cc, λ e. cc)

-- One byte is the encoding of one rune.
encode_rune-injective : (r k : ℕ) → k < 0x80 → encode_rune r ≡ k ∷ [] → r ≡ k
unfolding encode_rune
encode_rune-injective r k h e = ground arith

bracket-ne : (r k : ℕ) → k < 0x80 → r ≢ k → bracket r ≢ bracket k
bracket-ne r k h ne e =
    ne (encode_rune-injective r k h (ap (λ (t : Token). t.text) e ∙ ascii_code k h))
  where
    ascii_code : (k : ℕ) → k < 0x80 → encode_rune k ≡ k ∷ []
    ascii_code k h = unfold encode_rune in ground arith

abbrev pub is_opening : ℕ → Bool
is_opening r = r == b'(' || r == b'['

abbrev pub is_closing : ℕ → Bool
is_closing r = r == b')' || r == b']'

pub bracket-Plain : (r : ℕ) → is_opening r ≡ false → is_closing r ≡ false → Plain (bracket r)
bracket-Plain r h k = (
  bracket-ne r b'(' (omega arith) (λ e. ground arith),
  bracket-ne r b')' (omega arith) (λ e. ground arith),
  bracket-ne r b'[' (omega arith) (λ e. ground arith),
  bracket-ne r b']' (omega arith) (λ e. ground arith),
)
