-- ===== src/Sql/Lex/Opaque.antt =====
-- The tokens do not depend on the content of a string literal.
use firebirdsql_otel.Common.{
  ℕ, zero, suc, ◌<◌, ◌≡◌, ◌≢◌, refl, sym, ◌∙◌, false, some, List, [], ◌∷◌, ◌++◌, length,
  length-append, leb, arith,
}
use firebirdsql_otel.Text.{Bytes, Platform, decode_rune, is_space, has_prefix}
use firebirdsql_otel.Sql.Lex.Scan.{Token, skip_quoted}
use firebirdsql_otel.Sql.Lex.Step.{
  LexState, next, stop, reject, LexResult, rejected, max_tokens, placeholder, emit, quoted_token,
  quoted, lex_rune, lex_step, lex_loop, finish,
}
use firebirdsql_otel.Sql.Lex.Progress.{Shrinks, lex_step-Shrinks}

-- The content of a quoted construct: no quote stands alone in it.
pub data IsContent (quote : ℕ) : Bytes → Type 0 where
  done : IsContent quote []
  byte : {c : ℕ} {s : Bytes} → c ≢ quote → IsContent quote s → IsContent quote (c ∷ s)
  doubled :
      {c d : ℕ} {s : Bytes}
      → c ≡ quote
      → d ≡ quote
      → IsContent quote s
      → IsContent quote (c ∷ d ∷ s)

-- The text that follows does not begin with the quote.
abbrev pub Ends : ℕ → Bytes → Type 0
Ends quote [] = Unit
Ends quote (c ∷ s) = c ≢ quote

-- A byte that is no quote is passed over.
skip_quoted_byte :
    (quote c : ℕ) (s t : Bytes)
    → c ≢ quote
    → skip_quoted quote (c ∷ (s ++ (quote ∷ t))) ≡ skip_quoted quote (s ++ (quote ∷ t))
unfolding skip_quoted
skip_quoted_byte quote c [] t h = ground arith
skip_quoted_byte quote c (d ∷ s) t h = ground arith

skip_quoted-IsContent :
    (quote : ℕ) {body : Bytes} (rest : Bytes)
    → IsContent quote body
    → Ends quote rest
    → skip_quoted quote (body ++ (quote ∷ rest)) ≡ some rest
unfolding skip_quoted
skip_quoted-IsContent quote [] done h = ground arith
skip_quoted-IsContent quote (c ∷ rest) done h = ground arith
skip_quoted-IsContent quote rest (byte {c} {s} ne k) h =
    skip_quoted_byte quote c s rest ne ∙ skip_quoted-IsContent quote rest k h
skip_quoted-IsContent quote rest (doubled {c} {d} {s} e f k) h =
    ground (arith, skip_quoted-IsContent quote rest k h)

-- Fuel beyond the bytes that are left makes no difference.
pub lex_loop-fuel :
    (p : Platform) (f g : ℕ) (st : LexState)
    → length st.rest < f
    → length st.rest < g
    → lex_loop p f st ≡ lex_loop p g st
unfolding lex_loop
lex_loop-fuel p zero g st h k = absurd (omega arith)
lex_loop-fuel p (suc f) zero st h k = absurd (omega arith)
lex_loop-fuel p (suc f) (suc g) st h k =
    (elim (lex_step p st)
        as (λ o.
          Shrinks (length st.rest) o
          → ◌≡◌ {A = LexResult}
              (elim o [ next st' ↦ lex_loop p f st' | stop ↦ finish st | reject ↦ rejected ])
              (elim o [ next st' ↦ lex_loop p g st' | stop ↦ finish st | reject ↦ rejected ])) [
                | next st' ↦ λ w. lex_loop-fuel p f g st' (omega arith) (omega arith)
                | stop ↦ λ w. refl
                | reject ↦ λ w. refl
              ])
      (lex_step-Shrinks p st)

lex_loop-next :
    (p : Platform) (f : ℕ) (st : LexState) {st' : LexState}
    → lex_step p st ≡ next st'
    → lex_loop p (suc f) st ≡ lex_loop p f st'
unfolding lex_loop
lex_loop-next p f st e = rw (e, lex_loop) refl

-- The scan stands in front of `text`.
abbrev pub before : List Token → List ℕ → Bytes → LexState
before out ds text = record { rest = text; out = out; delimiters = ds }

abbrev pub string_literal : Bytes → Bytes → Bytes
string_literal body rest = b'\'' ∷ (body ++ (b'\'' ∷ rest))

module _ (p : Platform) (out : List Token) (ds : List ℕ) where
  -- One round reads the whole literal, and leaves the placeholder.
  lex_step-string_literal :
      {body : Bytes} (rest : Bytes)
      → length out < max_tokens
      → IsContent b'\'' body
      → Ends b'\'' rest
      → lex_step p (before out ds (string_literal body rest))
        ≡ next (record { rest = rest; out = out ++ placeholder ∷ []; delimiters = ds })
  unfolding lex_step lex_rune decode_rune is_space has_prefix quoted quoted_token emit
  lex_step-string_literal {body} rest few k h =
      let room : leb max_tokens (length out) ≡ false = ground arith in
      rw room (rw (skip_quoted-IsContent b'\'' rest k h, quoted_token) refl)

  first_round :
      (f : ℕ) {body : Bytes} (rest : Bytes)
      → length out < max_tokens
      → IsContent b'\'' body
      → Ends b'\'' rest
      → length (string_literal body rest) < f
      → lex_loop p f (before out ds (string_literal body rest))
        ≡ lex_loop p
            (suc (length rest))
            (record { rest = rest; out = out ++ placeholder ∷ []; delimiters = ds })
  first_round zero rest few k e h = absurd (omega arith)
  first_round (suc f) {body} rest few k e h =
      let next_state : LexState = record {
        rest = rest;
        out = out ++ placeholder ∷ [];
        delimiters = ds;
      } in
      lex_loop-next p f (before out ds (string_literal body rest))
        (lex_step-string_literal rest few k e)
      ∙ lex_loop-fuel p f (suc (length rest)) next_state
          (omega (arith, length-append {0} body (b'\'' ∷ rest))) (omega arith)

  -- Two texts that differ in the content of the string literal in front of the scan have the same
  -- result, whatever follows and however the scan came there.
  pub lex_loop-opaque :
      (f g : ℕ) {body other : Bytes} (rest : Bytes)
      → length out < max_tokens
      → IsContent b'\'' body
      → IsContent b'\'' other
      → Ends b'\'' rest
      → length (string_literal body rest) < f
      → length (string_literal other rest) < g
      → lex_loop p f (before out ds (string_literal body rest))
        ≡ lex_loop p g (before out ds (string_literal other rest))
  lex_loop-opaque f g rest few k l e hf hg =
      first_round f rest few k e hf ∙ sym (first_round g rest few l e hg)
