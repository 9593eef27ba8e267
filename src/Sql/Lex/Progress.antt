-- ===== src/Sql/Lex/Progress.antt =====
-- Every round of the lexer consumes input, so its loop ends within the fuel that `lex` gives it.
use firebirdsql_otel.Common.{
  ℕ, zero, suc, ◌≤◌, ◌<◌, ◌≡◌, ◌≢◌, true, ◌||◌, Option, none, some, List, [], ◌∷◌, length, drop,
  length-drop, length-drop_le, ◌==◌, if◌then◌else◌, arith,
}
use firebirdsql_otel.Text.{
  Bytes, Platform, Rune, decode_rune, decode_rune_sized, decode_rune_ascii_inv,
}
use firebirdsql_otel.Sql.Lex.Scan.{Token, skip_quoted, starts_number}
use firebirdsql_otel.Sql.Lex.Step.{
  LexState, Outcome, next, stop, reject, rejected, out_of_fuel, emit, resume, literal, line_comment,
  quoted_token, quoted, word_token, punctuation_token, lex_step, lex_loop, finish, lex, lex_lem,
  initial,
}
use firebirdsql_otel.Sql.Lex.Lengths.{
  Within, Within-mono, skip_line-Within, skip_comment-Within, skip_quoted-Within,
  scan_alternative-Within, scan_number-Within, length-skip_word,
}
use firebirdsql_otel.Sql.Lex.Cases.{lex_step_rule}

-- The next state has fewer than `n` bytes left.
abbrev pub Shrinks : ℕ → Outcome → Type 0
Shrinks n (next st) = length st.rest < n
Shrinks n stop = Unit
Shrinks n reject = Unit

resume-Shrinks :
    (n : ℕ) (st : LexState) (o : Option Bytes) → Within n o → Shrinks (suc n) (resume st o)
unfolding resume
resume-Shrinks n st none w = tt
resume-Shrinks n st (some rest) w = omega arith

line_comment-Shrinks :
    (n : ℕ) (st : LexState) (o : Option Bytes) → Within n o → Shrinks (suc n) (line_comment st o)
unfolding line_comment
line_comment-Shrinks n st none w = tt
line_comment-Shrinks n st (some rest) w = omega arith

literal-Shrinks :
    (n : ℕ) (st : LexState) (o : Option Bytes) → Within n o → Shrinks (suc n) (literal st o)
unfolding literal emit
literal-Shrinks n st none w = tt
literal-Shrinks n st (some rest) w = omega arith

quoted_token-Shrinks :
    (n : ℕ) (st : LexState) (quote : ℕ) (o : Option Bytes)
    → Within n o
    → Shrinks (suc n) (quoted_token st quote o)
unfolding quoted_token emit
quoted_token-Shrinks n st quote none w = tt
quoted_token-Shrinks n st quote (some rest) w = ground arith

punctuation_token-Shrinks :
    (n : ℕ) (st : LexState) (r : Rune) (o : Option (List ℕ))
    → length (drop r.size st.rest) < n
    → Shrinks n (punctuation_token st r o)
unfolding punctuation_token
punctuation_token-Shrinks n st r none h = tt
punctuation_token-Shrinks n st r (some ds) h = h

module _ (p : Platform) where
  word_token-Shrinks :
      (n : ℕ) (st : LexState) (rest : Bytes) → length rest < n → Shrinks n (word_token p st rest)
  unfolding word_token emit
  word_token-Shrinks n st rest h = ground arith

-- What starts a number is one byte, and it is the first.
number_here :
    (c : ℕ) (s : Bytes)
    → starts_number (decode_rune (c ∷ s)).rune (c ∷ s) ≡ true
    → starts_number c (c ∷ s) ≡ true
unfolding starts_number
number_here c [] h = ground (arith, decode_rune_ascii_inv c [])
number_here c (d ∷ s) h = ground (arith, decode_rune_ascii_inv c (d ∷ s))

module _ (p : Platform) (c : ℕ) (s : Bytes) (out : List Token) (ds : List ℕ) where
  abbrev here : LexState
  here = record { rest = c ∷ s; out = out; delimiters = ds }

  drop_rune_lt : length (drop (decode_rune (c ∷ s)).size (c ∷ s)) < suc (length s)
  drop_rune_lt =
      omega (arith, length-drop (decode_rune (c ∷ s)).size (c ∷ s), decode_rune_sized c s)

  behind_two : (o : Option Bytes) → Within (length (drop 1 s)) o → Within (length s) o
  behind_two o w = Within-mono _ _ o (length-drop_le 1 s) w

  quoted-Shrinks : Shrinks (suc (length s)) (quoted here (decode_rune (c ∷ s)).rune)
  unfolding quoted
  quoted-Shrinks =
      let r = (decode_rune (c ∷ s)).rune in
      let hexadecimal = r == b'x' || r == b'X' in
      let start : ℕ = if hexadecimal then 2 else 1 in
      let quote = if hexadecimal then b'\'' else r in
      let shorter : length (drop start (c ∷ s)) ≤ length s = ground (arith, length-drop_le 1 s) in
      quoted_token-Shrinks (length s) here quote _ (
        Within-mono (length (drop start (c ∷ s))) _ (skip_quoted quote (drop start (c ∷ s))) shorter
          (skip_quoted-Within quote (drop start (c ∷ s))))

  step_here-Shrinks : Shrinks (suc (length s)) (lex_step p here)
  step_here-Shrinks = lex_step_rule p (Shrinks (suc (length s))) here tt tt λ _ _. record {
    on_space = λ _. drop_rune_lt;
    on_line_comment = λ _. line_comment-Shrinks (length s) here _ (skip_line-Within c s);
    on_comment =
        λ _. resume-Shrinks (length s) here _ (behind_two _ (skip_comment-Within 1 (drop 1 s)));
    on_alternative =
        λ _. literal-Shrinks (length s) here _ (behind_two _ (scan_alternative-Within (drop 1 s)));
    on_quoted = λ _. quoted-Shrinks;
    on_number =
        λ h. literal-Shrinks (length s) here _ (scan_number-Within p c s (number_here c s h));
    on_word = λ _ _ _. word_token-Shrinks p _ here _ (
        omega
          (arith, drop_rune_lt, length-skip_word p 0 (drop (decode_rune (c ∷ s)).size (c ∷ s))));
    on_punctuation = λ _ _ _ _. punctuation_token-Shrinks _ here _ _ drop_rune_lt;
    on_reject = tt;
  }

lex_step-Shrinks_at :
    (p : Platform) (rest : Bytes) (out : List Token) (ds : List ℕ)
    → Shrinks (length rest) (lex_step p (record { rest = rest; out = out; delimiters = ds }))
unfolding lex_step
lex_step-Shrinks_at p [] out ds = tt
lex_step-Shrinks_at p (c ∷ s) out ds = step_here-Shrinks p c s out ds

module _ (p : Platform) where
  pub lex_step-Shrinks : (st : LexState) → Shrinks (length st.rest) (lex_step p st)
  lex_step-Shrinks st = lex_step-Shrinks_at p st.rest st.out st.delimiters

  -- More fuel than bytes left, and the loop does not run out.
  pub lex_loop-ne-out_of_fuel :
      (fuel : ℕ) (st : LexState) → length st.rest < fuel → lex_loop p fuel st ≢ out_of_fuel
  unfolding lex_loop finish
  lex_loop-ne-out_of_fuel zero st h = absurd (omega arith)
  lex_loop-ne-out_of_fuel (suc fuel) st h =
      (elim (lex_step p st)
          as (λ o.
            Shrinks (length st.rest) o
            → elim o [ next st' ↦ lex_loop p fuel st' | stop ↦ finish st | reject ↦ rejected ]
              ≢ out_of_fuel) [
                | next st' ↦ λ w. lex_loop-ne-out_of_fuel fuel st' (omega arith)
                | stop ↦ λ w. ground arith
                | reject ↦ λ w. ground arith
              ])
        (lex_step-Shrinks st)

  -- `lex` ends: the fuel that it gives its loop is enough for every text.
  pub lex-ne-out_of_fuel : (s : Bytes) → lex p s ≢ out_of_fuel
  lex-ne-out_of_fuel s e =
      lex_loop-ne-out_of_fuel (suc (length s)) (initial s) (omega arith) (rw lex_lem at e)
