-- ===== src/Sql/Lex/Ends.antt =====
-- Where the loop of `lex` (internal/sqltext/sql.go) stops.
use firebirdsql_otel.Common.{
  ℕ, ◌≡◌, ◌≢◌, inl, inr, refl, ◌||◌, Option, none, some, List, length, drop, leb, ◌==◌, if_rule,
  if◌then◌else◌, arith,
}
use firebirdsql_otel.Text.{Bytes, Platform, Rune, decode_rune, is_empty, is_empty_lem}
use firebirdsql_otel.Sql.Lex.Scan.{skip_line, skip_quoted}
use firebirdsql_otel.Sql.Lex.Step.{
  LexState, Outcome, stop, max_tokens, resume, literal, line_comment, quoted_token, quoted,
  word_token, punctuation_token, lex_step,
}
use firebirdsql_otel.Sql.Lex.Cases.{lex_rune_rule}
use firebirdsql_otel.Sql.Lex.Extents.{skip_line-none}
use firebirdsql_otel.Sql.Lex.Pieces.{IsDone}

module _ (p : Platform) where
  -- A round ends the loop only at the end of the text or in a comment that runs to it.
  line_comment-stop : (st : LexState) (o : Option Bytes) → line_comment st o ≡ stop → o ≡ none
  unfolding line_comment
  line_comment-stop st none h = refl
  line_comment-stop st (some rest) h = absurd (ground arith)

  resume-ne-stop : (st : LexState) (o : Option Bytes) → resume st o ≢ stop
  unfolding resume
  resume-ne-stop st none h = ground arith
  resume-ne-stop st (some rest) h = ground arith

  literal-ne-stop : (st : LexState) (o : Option Bytes) → literal st o ≢ stop
  unfolding literal
  literal-ne-stop st none h = ground arith
  literal-ne-stop st (some rest) h = ground arith

  quoted_token-ne-stop :
      (st : LexState) (quote : ℕ) (o : Option Bytes) → quoted_token st quote o ≢ stop
  unfolding quoted_token
  quoted_token-ne-stop st quote none h = ground arith
  quoted_token-ne-stop st quote (some rest) h = ground arith

  quoted-ne-stop : (st : LexState) (r : ℕ) → quoted st r ≢ stop
  unfolding quoted
  quoted-ne-stop st r =
      let hexadecimal = r == b'x' || r == b'X' in
      let quote = if hexadecimal then b'\'' else r in
      let from = drop (if hexadecimal then 2 else 1) st.rest in
      quoted_token-ne-stop st quote (skip_quoted quote from)

  word_token-ne-stop : (st : LexState) (rest : Bytes) → word_token p st rest ≢ stop
  unfolding word_token
  word_token-ne-stop st rest h = ground arith

  punctuation_token-ne-stop :
      (st : LexState) (r : Rune) (o : Option (List ℕ)) → punctuation_token st r o ≢ stop
  unfolding punctuation_token
  punctuation_token-ne-stop st r none h = ground arith
  punctuation_token-ne-stop st r (some ds) h = ground arith

  pub lex_step-stop : (st : LexState) → lex_step p st ≡ stop → IsDone st.rest
  unfolding lex_step
  lex_step-stop st =
      let P : Outcome → Type 0 = λ o. o ≡ stop → IsDone st.rest in
      if_rule P (is_empty st.rest) (λ e _. inl (is_empty_lem st.rest e))
        λ _.
          if_rule P (leb max_tokens (length st.out)) (λ _ h. ground arith)
            λ _. lex_rune_rule p P st (decode_rune st.rest) (record {
              on_space = λ _ h. ground arith;
              on_line_comment = λ e h.
                  inr (e, skip_line-none st.rest (line_comment-stop st (skip_line st.rest) h));
              on_comment = λ _ h. absurd (resume-ne-stop st _ h);
              on_alternative = λ _ h. absurd (literal-ne-stop st _ h);
              on_quoted = λ _ h. absurd (quoted-ne-stop st (decode_rune st.rest).rune h);
              on_number = λ _ h. absurd (literal-ne-stop st _ h);
              on_word = λ _ _ _ h. absurd (word_token-ne-stop st _ h);
              on_punctuation = λ _ _ _ _ h. absurd (punctuation_token-ne-stop st _ _ h);
              on_reject = λ h. ground arith;
            })
