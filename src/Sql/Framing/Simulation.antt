-- ===== src/Sql/Framing/Simulation.antt =====
-- `StatementMayEnd` walks over a lexically complete text in the very steps of `LexicallyComplete`,
-- so it never slices past the end of the text.
use firebirdsql_otel.Common.{
  ℕ, zero, suc, ◌<◌, ◌≡◌, ◌≢◌, refl, subst, true, false, ◌&&◌, ◌||◌, not, Option, none, some, inl,
  inr, List, [], ◌∷◌, drop, ◌==◌, Bool-cases, if◌then◌else◌, if_rule, arith,
}
use firebirdsql_otel.Text.{
  Bytes, codes, Platform, decode_rune, decode_rune_ascii, has_prefix, is_space, is_empty,
}
use firebirdsql_otel.Sql.Lex.Scan.{skip_line, skip_comment, skip_quoted, starts_word}
use firebirdsql_otel.Sql.Framing.{
  Frame, FrameOutcome, reject, starts_alternative, skip_alternative, frame_resume, frame_line,
  frame_close, skip_rune, frame_at, frame_step, frame_loop, Last, LastOutcome, panic, last_line,
  last_comment, last_alternative, last_quoted, last_rune, last_at, last_step, last_loop,
}

-- The second loop follows the first, unless the first rejects the text.
abbrev Follows : FrameOutcome → LastOutcome → Type 0
Follows (FrameOutcome.next a) (LastOutcome.next b) = a.rest ≡ b.rest
Follows (FrameOutcome.next a) LastOutcome.stop = ⊥
Follows (FrameOutcome.next a) panic = ⊥
Follows FrameOutcome.stop LastOutcome.stop = Unit
Follows FrameOutcome.stop (LastOutcome.next b) = ⊥
Follows FrameOutcome.stop panic = ⊥
Follows reject _ = Unit

line-Follows : (a : Frame) (b : Last) (o : Option Bytes) → Follows (frame_line a o) (last_line b o)
unfolding frame_line last_line
line-Follows a b none = tt
line-Follows a b (some rest) = refl

comment-Follows :
    (a : Frame) (b : Last) (o : Option Bytes) → Follows (frame_resume a o) (last_comment b o)
unfolding frame_resume last_comment
comment-Follows a b none = tt
comment-Follows a b (some rest) = refl

alternative-Follows :
    (a : Frame) (b : Last) (o : Option Bytes) → Follows (frame_resume a o) (last_alternative b o)
unfolding frame_resume last_alternative
alternative-Follows a b none = tt
alternative-Follows a b (some rest) = refl

quoted-Follows : (a : Frame) (o : Option Bytes) → Follows (frame_resume a o) (last_quoted o)
unfolding frame_resume last_quoted
quoted-Follows a none = tt
quoted-Follows a (some rest) = refl

-- What the second loop has behind one round that is no comment and no literal.
abbrev Leaves : Bytes → LastOutcome → Type 0
Leaves rest (LastOutcome.next b) = rest ≡ b.rest
Leaves rest LastOutcome.stop = ⊥
Leaves rest panic = ⊥

next-Follows : (a : Frame) (o : LastOutcome) → Leaves a.rest o → Follows (FrameOutcome.next a) o
next-Follows a (LastOutcome.next b) h = h
next-Follows a LastOutcome.stop h = h
next-Follows a panic h = h

close-Follows :
    (a : Frame) (c : ℕ) (ds : List ℕ) (o : LastOutcome)
    → Leaves (drop 1 a.rest) o
    → Follows (frame_close a c ds) o
unfolding frame_close
close-Follows a c [] o h = tt
close-Follows a c (d ∷ ds) o h =
    if_rule (λ x. Follows x o) ((c == b')' && not (d == b'(')) || (c == b']' && not (d == b'[')))
      (λ _. tt) λ _. next-Follows (record { rest = drop 1 a.rest; open_brackets = ds }) o h

space_starts_no_word : (p : Platform) (r : ℕ) → is_space r ≡ true → starts_word p r ≡ false
unfolding starts_word is_space
space_starts_no_word p r h = ground (arith, p.letter_space r h)

bracket_starts_no_word :
    (p : Platform) (c : ℕ)
    → (c == b'(' || c == b'[' || c == b')' || c == b']') ≡ true
    → (is_space c ≡ false) × (starts_word p c ≡ false)
unfolding starts_word is_space
bracket_starts_no_word p c h = ground (arith, p.letter_ascii c)

module _ (p : Platform) where
  -- A space starts no word, so both loops pass over the same rune or word.
  last_rune-Leaves : (b : Last) → Leaves (skip_rune p b.rest) (last_rune p b)
  unfolding skip_rune last_rune
  last_rune-Leaves b =
      let r = decode_rune b.rest in
      elim (Bool-cases (is_space r.rune)) [
        | inl e ↦ rw (e, space_starts_no_word p r.rune e) refl
        | inr e ↦ elim (Bool-cases (starts_word p r.rune)) [
          | inl w ↦ rw (e, w) refl
          | inr w ↦ rw (e, w) refl
        ]
      ]

  -- A bracket is one byte to both.
  bracket-Leaves :
      (c : ℕ) (s last : Bytes)
      → (c == b'(' || c == b'[' || c == b')' || c == b']') ≡ true
      → Leaves s (last_rune p (record { rest = c ∷ s; last = last }))
  unfolding last_rune
  bracket-Leaves c s last h =
      let ascii : c < 0x80 = ground arith in
      let (no_space, no_word) = bracket_starts_no_word p c h in
      rw (decode_rune_ascii c s ascii) (rw (no_space, no_word) refl)

  -- Behind the comments and the literals.
  rune-Follows :
      (c : ℕ) (s last : Bytes) (ds : List ℕ)
      → Follows
          (if c == b'(' || c == b'['
            then FrameOutcome.next (record { rest = s; open_brackets = c ∷ ds })
            else if c == b')' || c == b']'
            then frame_close (record { rest = c ∷ s; open_brackets = ds }) c ds
            else FrameOutcome.next (record { rest = skip_rune p (c ∷ s); open_brackets = ds }))
          (last_rune p (record { rest = c ∷ s; last = last }))
  rune-Follows c s last ds =
      let o = last_rune p (record { rest = c ∷ s; last = last }) in
      if_rule (λ x. Follows x o) (c == b'(' || c == b'[')
        (λ e.
          next-Follows (record { rest = s; open_brackets = c ∷ ds }) o
            (bracket-Leaves c s last (ground arith)))
        λ _.
          if_rule (λ x. Follows x o) (c == b')' || c == b']')
            (λ e.
              close-Follows (record { rest = c ∷ s; open_brackets = ds }) c ds o
                (bracket-Leaves c s last (ground arith)))
            λ _.
              next-Follows (record { rest = skip_rune p (c ∷ s); open_brackets = ds }) o
                (last_rune-Leaves (record { rest = c ∷ s; last = last }))

  at-Follows :
      (c : ℕ) (s last : Bytes) (ds : List ℕ)
      → Follows
          (frame_at p (record { rest = c ∷ s; open_brackets = ds }) c)
          (last_at p (record { rest = c ∷ s; last = last }) c)
  unfolding frame_at last_at
  at-Follows c s last ds =
      let a : Frame = record { rest = c ∷ s; open_brackets = ds } in
      let b : Last = record { rest = c ∷ s; last = last } in
      elim (Bool-cases (has_prefix (codes "--") (c ∷ s))) [
        | inl e ↦ rw e (line-Follows a b (skip_line (c ∷ s)))
        | inr e ↦ rw e (elim (Bool-cases (has_prefix (codes "/*") (c ∷ s))) [
          | inl f ↦ rw f (comment-Follows a b (skip_comment 1 (drop 1 s)))
          | inr f ↦ rw f (elim (Bool-cases (starts_alternative c (c ∷ s))) [
            | inl g ↦ rw g (alternative-Follows a b (skip_alternative (drop 1 s)))
            | inr g ↦ rw g (elim (Bool-cases (c == b'\'' || c == b'"')) [
              | inl h ↦ rw h (quoted-Follows a (skip_quoted c s))
              | inr h ↦ rw h (rune-Follows c s last ds)
            ])
          ])
        ])
      ]

  step-Follows :
      (rest last : Bytes) (ds : List ℕ)
      → Follows
          (frame_step p (record { rest = rest; open_brackets = ds }))
          (last_step p (record { rest = rest; last = last }))
  unfolding frame_step last_step
  step-Follows [] last ds = tt
  step-Follows (c ∷ s) last ds = at-Follows c s last ds

  -- Where the first loop accepts the text, the second ends with a last token.
  pub last_loop-ne-none :
      (fuel : ℕ) (rest last : Bytes) (ds : List ℕ)
      → frame_loop p fuel (record { rest = rest; open_brackets = ds }) ≡ some true
      → last_loop p fuel (record { rest = rest; last = last }) ≢ none
  unfolding frame_loop last_loop
  last_loop-ne-none zero rest last ds h = cc
  last_loop-ne-none (suc fuel) rest last ds h =
      let a : Frame = record { rest = rest; open_brackets = ds } in
      let b : Last = record { rest = rest; last = last } in
      follow (frame_step p a) (last_step p b) (step-Follows rest last ds) h (λ x y e k.
        last_loop-ne-none fuel y.rest y.last x.open_brackets (
          subst
            (λ r.
              frame_loop p fuel (record { rest = r; open_brackets = x.open_brackets }) ≡ some true)
            e k))
    where
      follow :
          (o : FrameOutcome) (q : LastOutcome)
          → Follows o q
          → elim o [
            | FrameOutcome.next st' ↦ frame_loop p fuel st'
            | FrameOutcome.stop ↦ some (is_empty ds)
            | reject ↦ some false
          ]
            ≡ some true
          → ((x : Frame) (y : Last)
              → x.rest ≡ y.rest
              → frame_loop p fuel x ≡ some true
              → last_loop p fuel y ≢ none)
          → elim q [
            | LastOutcome.next st' ↦ last_loop p fuel st'
            | LastOutcome.stop ↦ some last
            | panic ↦ none
          ]
            ≢ none
      follow (FrameOutcome.next x) (LastOutcome.next y) f k rec = rec x y f k
      follow (FrameOutcome.next x) LastOutcome.stop f k rec = absurd f
      follow (FrameOutcome.next x) panic f k rec = absurd f
      follow FrameOutcome.stop LastOutcome.stop f k rec = λ e. cc
      follow FrameOutcome.stop (LastOutcome.next y) f k rec = absurd f
      follow FrameOutcome.stop panic f k rec = absurd f
      follow reject q f k rec = cc
