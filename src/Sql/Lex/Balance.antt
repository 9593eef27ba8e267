-- ===== src/Sql/Lex/Balance.antt =====
-- The brackets of the tokens that the lexer returns are balanced.
use firebirdsql_otel.Common.{
  ℕ, ◌≤◌, ◌<◌, ◌≡◌, inl, inr, refl, subst, true, false, ◌&&◌, ◌||◌, not, Option, none, some, List,
  [], ◌∷◌, ◌++◌, length, drop, leb, ◌==◌, Bool-cases, if◌then◌else◌, if_rule, arith,
}
use firebirdsql_otel.Text.{Bytes, Platform, Rune, decode_rune, to_upper, slice_to, is_empty}
use firebirdsql_otel.Sql.Lex.Scan.{Token, skip_quoted}
use firebirdsql_otel.Sql.Lex.Step.{
  LexState, accepted, max_nesting, placeholder, emit, resume, literal, line_comment, quoted_token,
  quoted, word_token, open_after, punctuation_token, lex_step, lex, is_constant,
}
use firebirdsql_otel.Sql.Lex.Cases.{lex_step_rule, Next, lex_inv}
use firebirdsql_otel.Sql.Lex.Brackets.{
  bracket, Plain, Matches, round, square, IsBalanced, empty, plain, IsBalanced-append, Opens,
  Opens-append, Opens-close, identifier-Plain, placeholder-Plain, bracket-Plain, is_opening,
  is_closing,
}

abbrev Tracked : LexState → Type 0
Tracked st = Opens st.delimiters st.out × (length st.delimiters ≤ max_nesting)

emit-Tracked :
    (st : LexState) (rest : Bytes) (t : Token)
    → Plain t
    → Tracked st
    → Next Tracked (emit st rest t)
unfolding emit
emit-Tracked st rest t p (h, few) =
    (Opens-append st.delimiters st.out (t ∷ []) h (plain p empty), few)

abbrev TrackedBy : ℕ → List Token → Option (List ℕ) → Type 0
TrackedBy r out none = Unit
TrackedBy r out (some ds) = Opens ds (out ++ bracket r ∷ []) × (length ds ≤ max_nesting)

close-TrackedBy :
    (r d : ℕ) (ds : List ℕ) (out : List Token)
    → is_closing r ≡ true
    → Opens (d ∷ ds) out
    → length (d ∷ ds) ≤ max_nesting
    → ((r == b')' && not (d == b'(')) || (r == b']' && not (d == b'['))) ≡ false
    → TrackedBy r out (some ds)
close-TrackedBy r d ds out c h few e = (Opens-close d r ds out matched h, omega arith)
  where
    matched : Matches d r
    matched = elim (Bool-cases (r == b')')) [
      | inl x ↦ round (ground arith) (ground arith)
      | inr x ↦ square (ground arith) (ground arith)
    ]

open-TrackedBy :
    (ds : List ℕ) (r : ℕ) (out : List Token)
    → is_opening r ≡ true
    → Opens ds out
    → length ds < max_nesting
    → TrackedBy r out (some (r ∷ ds))
open-TrackedBy ds r out o h few = ((out, [], refl, (ground arith), h, empty), omega arith)

open_after-TrackedBy :
    (ds : List ℕ) (r : ℕ) (out : List Token)
    → Opens ds out
    → length ds ≤ max_nesting
    → TrackedBy r out (open_after ds r)
unfolding open_after
open_after-TrackedBy [] r out h few =
    if_rule (TrackedBy r out) (is_opening r) (λ o. open-TrackedBy [] r out o h (omega arith))
      λ no.
        if_rule (TrackedBy r out) (is_closing r) (λ _. tt)
          λ nc. (IsBalanced-append h (plain (bracket-Plain r no nc) empty), few)
open_after-TrackedBy (d ∷ ds) r out h few =
    if_rule (TrackedBy r out) (is_opening r)
      (λ o.
        if_rule (TrackedBy r out) (leb max_nesting (length (d ∷ ds))) (λ _. tt)
          λ lt. open-TrackedBy (d ∷ ds) r out o h (ground arith))
      λ no.
        if_rule (TrackedBy r out) (is_closing r)
          (λ c. if_rule (TrackedBy r out) _ (λ _. tt) λ e. close-TrackedBy r d ds out c h few e)
          λ nc. (
            Opens-append (d ∷ ds) out (bracket r ∷ []) h (plain (bracket-Plain r no nc) empty),
            few,
          )

punctuation_token-Tracked :
    (st : LexState) (r : Rune) (o : Option (List ℕ))
    → TrackedBy r.rune st.out o
    → Next Tracked (punctuation_token st r o)
unfolding punctuation_token
punctuation_token-Tracked st r none h = tt
punctuation_token-Tracked st r (some ds) h = h

resume-Tracked : (st : LexState) (o : Option Bytes) → Tracked st → Next Tracked (resume st o)
unfolding resume
resume-Tracked st none h = tt
resume-Tracked st (some rest) h = h

line_comment-Tracked :
    (st : LexState) (o : Option Bytes) → Tracked st → Next Tracked (line_comment st o)
unfolding line_comment
line_comment-Tracked st none h = tt
line_comment-Tracked st (some rest) h = h

literal-Tracked : (st : LexState) (o : Option Bytes) → Tracked st → Next Tracked (literal st o)
unfolding literal
literal-Tracked st none h = tt
literal-Tracked st (some rest) h = emit-Tracked st rest placeholder placeholder-Plain h

quoted_token-Tracked :
    (st : LexState) (quote : ℕ) (o : Option Bytes)
    → Tracked st
    → Next Tracked (quoted_token st quote o)
unfolding quoted_token
quoted_token-Tracked st quote none h = tt
quoted_token-Tracked st quote (some rest) h =
    if_rule (Next Tracked) (quote == b'"')
      (λ _. emit-Tracked st rest _ (identifier-Plain (slice_to st.rest rest)) h)
      λ _. emit-Tracked st rest placeholder placeholder-Plain h

quoted-Tracked : (st : LexState) (r : ℕ) → Tracked st → Next Tracked (quoted st r)
unfolding quoted
quoted-Tracked st r h =
    let hexadecimal = r == b'x' || r == b'X' in
    let quote = if hexadecimal then b'\'' else r in
    quoted_token-Tracked st quote (skip_quoted quote (drop (if hexadecimal then 2 else 1) st.rest))
      h

no_bracket_open :
    (ds : List ℕ) {out : List Token} → is_empty ds ≡ true → Opens ds out → IsBalanced out
no_bracket_open [] e h = h
no_bracket_open (d ∷ ds) e h = cc

module _ (p : Platform) where
  word_token-Tracked :
      (st : LexState) (rest : Bytes) → Tracked st → Next Tracked (word_token p st rest)
  unfolding word_token
  word_token-Tracked st rest h =
      if_rule (Next Tracked) (is_constant (to_upper p (slice_to st.rest rest)))
        (λ _. emit-Tracked st rest placeholder placeholder-Plain h)
        λ _. emit-Tracked st rest _ (identifier-Plain (to_upper p (slice_to st.rest rest))) h

  lex_step-Tracked : (st : LexState) → Tracked st → Next Tracked (lex_step p st)
  lex_step-Tracked st h = lex_step_rule p (Next Tracked) st tt tt λ _ _. record {
    on_space = λ _. h;
    on_line_comment = λ _. line_comment-Tracked st _ h;
    on_comment = λ _. resume-Tracked st _ h;
    on_alternative = λ _. literal-Tracked st _ h;
    on_quoted = λ _. quoted-Tracked st (decode_rune st.rest).rune h;
    on_number = λ _. literal-Tracked st _ h;
    on_word = λ _ _ _. word_token-Tracked st _ h;
    on_punctuation = λ _ _ _ _.
        punctuation_token-Tracked st _ _
          (open_after-TrackedBy st.delimiters (decode_rune st.rest).rune st.out h.0 h.1);
    on_reject = tt;
  }

  -- The tokens of an accepted text form a balanced bracket structure.
  pub lex-IsBalanced : (s : Bytes) {ts : List Token} → lex p s ≡ accepted ts → IsBalanced ts
  lex-IsBalanced s e =
      let (st, kept, out, closed, _) =
        lex_inv p Tracked lex_step-Tracked s (empty, omega arith) e in
      subst IsBalanced out (no_bracket_open st.delimiters closed kept.0)
