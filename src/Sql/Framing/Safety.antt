-- ===== src/Sql/Framing/Safety.antt =====
-- `LexicallyComplete` and `StatementMayEnd` answer for every text.
use firebirdsql_otel.Common.{
  ℕ, zero, suc, ◌≤◌, ◌<◌, ◌≡◌, ◌≢◌, refl, Bool, true, false, ◌||◌, Option, none, some, List, [],
  ◌∷◌, length, drop, length-drop, length-drop_le, ◌==◌, if_rule, arith,
}
use firebirdsql_otel.Text.{
  Bytes, codes, Platform, decode_rune, decode_rune_sized, has_prefix, is_empty,
}
use firebirdsql_otel.Sql.Lex.Scan.{closing_delimiter, skip_delimited}
use firebirdsql_otel.Sql.Lex.Lengths.{
  Within, Within-mono, skip_line-Within, skip_comment-Within, skip_quoted-Within,
  skip_delimited-Within, length-skip_word,
}
use firebirdsql_otel.Sql.Framing.{
  Frame, FrameOutcome, next, stop, reject, starts_alternative, skip_alternative, frame_resume,
  frame_line, frame_close, skip_rune, frame_at, frame_step, frame_loop, lexically_complete,
  may_end_of, may_end_after, statement_may_end,
}
use firebirdsql_otel.Sql.Framing.Simulation.{last_loop-ne-none}

abbrev Shrinks : ℕ → FrameOutcome → Type 0
Shrinks n (next st) = length st.rest < n
Shrinks n stop = Unit
Shrinks n reject = Unit

frame_resume-Shrinks :
    (n : ℕ) (st : Frame) (o : Option Bytes) → Within n o → Shrinks (suc n) (frame_resume st o)
unfolding frame_resume
frame_resume-Shrinks n st none w = tt
frame_resume-Shrinks n st (some rest) w = omega arith

frame_line-Shrinks :
    (n : ℕ) (st : Frame) (o : Option Bytes) → Within n o → Shrinks (suc n) (frame_line st o)
unfolding frame_line
frame_line-Shrinks n st none w = tt
frame_line-Shrinks n st (some rest) w = omega arith

frame_close-Shrinks :
    (n : ℕ) (st : Frame) (c : ℕ) (ds : List ℕ)
    → length (drop 1 st.rest) < n
    → Shrinks n (frame_close st c ds)
unfolding frame_close
frame_close-Shrinks n st c [] h = tt
frame_close-Shrinks n st c (d ∷ ds) h = ground arith

skip_alternative-Within : (s : Bytes) → Within (length s) (skip_alternative s)
unfolding skip_alternative
skip_alternative-Within s =
    let r = decode_rune s in
    Within-mono (length (drop r.size s)) _
      (skip_delimited (closing_delimiter r.rune) (drop r.size s)) (length-drop_le r.size s)
      (skip_delimited-Within (closing_delimiter r.rune) (drop r.size s))

module _ (p : Platform) where
  length-skip_rune : (c : ℕ) (s : Bytes) → length (skip_rune p (c ∷ s)) ≤ length s
  unfolding skip_rune
  length-skip_rune c s =
      let r = decode_rune (c ∷ s) in
      ground (
        arith,
        length-drop r.size (c ∷ s),
        decode_rune_sized c s,
        length-skip_word p 0 (drop r.size (c ∷ s)),
      )

  -- Every round of `LexicallyComplete` takes a byte.
  frame_at-Shrinks :
      (c : ℕ) (s : Bytes) (ds : List ℕ)
      → Shrinks (suc (length s)) (frame_at p (record { rest = c ∷ s; open_brackets = ds }) c)
  unfolding frame_at
  frame_at-Shrinks c s ds =
      let st : Frame = record { rest = c ∷ s; open_brackets = ds } in
      let n = length s in
      let P = Shrinks (suc n) in
      let two : (o : Option Bytes) → Within (length (drop 1 s)) o → Within n o =
        λ o w. Within-mono _ _ o (length-drop_le 1 s) w in
      if_rule P (has_prefix (codes "--") (c ∷ s))
        (λ _. frame_line-Shrinks n st _ (skip_line-Within c s))
        λ _.
          if_rule P (has_prefix (codes "/*") (c ∷ s))
            (λ _. frame_resume-Shrinks n st _ (two _ (skip_comment-Within 1 (drop 1 s))))
            λ _.
              if_rule P (starts_alternative c (c ∷ s))
                (λ _. frame_resume-Shrinks n st _ (two _ (skip_alternative-Within (drop 1 s))))
                λ _.
                  if_rule P (c == b'\'' || c == b'"')
                    (λ _. frame_resume-Shrinks n st _ (skip_quoted-Within c s))
                    λ _.
                      if_rule P (c == b'(' || c == b'[') (λ _. omega arith)
                        λ _.
                          if_rule P (c == b')' || c == b']')
                            (λ _. frame_close-Shrinks (suc n) st c ds (omega arith))
                            λ _. omega (arith, length-skip_rune c s)

  frame_front-Shrinks :
      (rest : Bytes) (ds : List ℕ)
      → Shrinks (length rest) (frame_step p (record { rest = rest; open_brackets = ds }))
  unfolding frame_step
  frame_front-Shrinks [] ds = tt
  frame_front-Shrinks (c ∷ s) ds = frame_at-Shrinks c s ds

  frame_loop-ne-none : (fuel : ℕ) (st : Frame) → length st.rest < fuel → frame_loop p fuel st ≢ none
  unfolding frame_loop
  frame_loop-ne-none zero st h = absurd (omega arith)
  frame_loop-ne-none (suc fuel) st h =
      (elim (frame_step p st)
          as (λ o.
            Shrinks (length st.rest) o
            → elim o [
              | next st' ↦ frame_loop p fuel st'
              | stop ↦ some (is_empty st.open_brackets)
              | reject ↦ some false
            ]
              ≢ none) [
                | next st' ↦ λ w. frame_loop-ne-none fuel st' (omega arith)
                | stop ↦ λ w e. cc
                | reject ↦ λ w e. cc
              ])
        (frame_front-Shrinks st.rest st.open_brackets)

  -- `LexicallyComplete` answers for every text.
  pub lexically_complete-ne-none : (s : Bytes) → lexically_complete p s ≢ none
  unfolding lexically_complete
  lexically_complete-ne-none s =
      let start : Frame = record { rest = s; open_brackets = [] } in
      ground (arith, frame_loop-ne-none (suc (length s)) start)

  accepts_loop :
      (s : Bytes)
      → lexically_complete p s ≡ some true
      → frame_loop p (suc (length s)) (record { rest = s; open_brackets = [] }) ≡ some true
  unfolding lexically_complete
  accepts_loop s h = ground arith

  may_end_after-ne-none :
      (s : Bytes) (o : Option Bool)
      → lexically_complete p s ≡ o
      → o ≢ none
      → may_end_after p s o ≢ none
  unfolding may_end_after may_end_of
  may_end_after-ne-none s none e h = absurd (h refl)
  may_end_after-ne-none s (some false) e h = λ k. cc
  may_end_after-ne-none s (some true) e h =
      ground (arith, last_loop-ne-none p (suc (length s)) s [] [] (accepts_loop s e))

  -- `StatementMayEnd` answers for every text: no comment runs past the end of a text that
  -- `LexicallyComplete` accepts.
  pub statement_may_end-ne-none : (s : Bytes) → statement_may_end p s ≢ none
  unfolding statement_may_end
  statement_may_end-ne-none s =
      may_end_after-ne-none s (lexically_complete p s) refl (lexically_complete-ne-none s)
