-- ===== src/Trace/Feed/Lines.antt =====
-- What a piece of a line adds to the line at hand (`Feed` in internal/traceparse/parser.go).
use firebirdsql_otel.Common.{
  ℕ, suc, ◌+◌, ◌≤◌, ◌≡◌, refl, sym, ap, ◌∙◌, true, false, not, none, some, [], ◌∷◌, ◌++◌, length,
  take, drop, leb, ◌==◌, Bool-cases, Option-cases, inl, inr, if◌then◌else◌, if_rule, append_assoc,
  append-nil, length-append, arith,
}
use firebirdsql_otel.Text.{Bytes, index_byte, Platform}
use firebirdsql_otel.Trace.Event.{Parser, gap_state, gap_event}
use firebirdsql_otel.Trace.Body.{max_record, Result}
use firebirdsql_otel.Trace.Consume.{behind}
use firebirdsql_otel.Trace.Feed.{extend_line}

pub index_byte-none :
    (b c : ℕ) (s : Bytes)
    → index_byte b (c ∷ s) ≡ none
    → ((c == b) ≡ false) × (index_byte b s ≡ none)
unfolding index_byte
index_byte-none b c s h = ground arith

-- Where the byte is found, the text in front of it is without it.
pub record IsFound (b : ℕ) (s : Bytes) (i : ℕ) : Type 0 where
  pub split : s ≡ take i s ++ (b ∷ drop (suc i) s)
  pub before : index_byte b (take i s) ≡ none

index_byte-suc :
    (b c i : ℕ) (s : Bytes)
    → (c == b) ≡ false
    → index_byte b (c ∷ s) ≡ some i
    → (j : ℕ) × ((i ≡ suc j) × (index_byte b s ≡ some j))
unfolding index_byte
index_byte-suc b c i s e h = elim (Option-cases (index_byte b s)) [
  | inl n ↦ ground arith
  | inr (j, f) ↦ (j, (ground arith, f))
]

pub index_byte-IsFound : (b : ℕ) (s : Bytes) (i : ℕ) → index_byte b s ≡ some i → IsFound b s i
unfolding index_byte
index_byte-IsFound b [] i h = ground arith
index_byte-IsFound b (c ∷ s) i h = elim (Bool-cases (c == b)) as (λ _. IsFound b (c ∷ s) i) [
  | inl e ↦
      let same : c ≡ b = ground arith in
      let here : i ≡ 0 = ground arith in
      rw here record { split = ap (λ x. x ∷ s) same; before = refl }
  | inr e ↦
      let (j, (i', h')) = index_byte-suc b c i s e h in
      let f = index_byte-IsFound b s j h' in
      rw i' record { split = ap (λ t. c ∷ t) f.split; before = ground (arith, f.before) }
]

module _ (u : Platform) where
  abbrev overrun : Parser → Result
  overrun p = (record (gap_state p) { line = []; skip_line = true }, gap_event ∷ [])

  abbrev extended : Parser → Bytes → Parser
  extended p s = record p { line = p.line ++ s }

  -- The three outcomes of `extend_line`.
  extend_line-skip : (p : Parser) (s : Bytes) → p.skip_line ≡ true → extend_line u p s ≡ (p, [])
  unfolding extend_line
  extend_line-skip p s h =
      ap
        (λ b.
          if b
          then (p, [])
          else (if not (leb (length p.line + length s) max_record)
              then overrun p
              else (extended p s, [])))
        h

  extend_line-overrun :
      (p : Parser) (s : Bytes)
      → p.skip_line ≡ false
      → leb (length p.line + length s) max_record ≡ false
      → extend_line u p s ≡ overrun p
  unfolding extend_line
  extend_line-overrun p s h l =
      ap
        (λ b.
          if b
          then (p, [])
          else (if not (leb (length p.line + length s) max_record)
              then overrun p
              else (extended p s, [])))
        h
      ∙ ap (λ b. if not b then overrun p else (extended p s, [])) l

  extend_line-extended :
      (p : Parser) (s : Bytes)
      → p.skip_line ≡ false
      → leb (length p.line + length s) max_record ≡ true
      → extend_line u p s ≡ (extended p s, [])
  unfolding extend_line
  extend_line-extended p s h l =
      ap
        (λ b.
          if b
          then (p, [])
          else (if not (leb (length p.line + length s) max_record)
              then overrun p
              else (extended p s, [])))
        h
      ∙ ap (λ b. if not b then overrun p else (extended p s, [])) l

  pub extend_line-nil : (p : Parser) → length p.line ≤ max_record → extend_line u p [] ≡ (p, [])
  extend_line-nil p h = elim (Bool-cases p.skip_line) as (λ _. extend_line u p [] ≡ (p, [])) [
    | inl e ↦ extend_line-skip p [] e
    | inr e ↦
        extend_line-extended p [] e (ground arith)
        ∙ ap (λ l. (record p { line = l }, [])) (append-nil p.line)
  ]

  -- A byte that the line has room for, and the text behind it.
  extend_line-extend :
      (p : Parser) (c : ℕ) (s : Bytes)
      → p.skip_line ≡ false
      → extend_line u p (c ∷ s) ≡ extend_line u (extended p (c ∷ [])) s
  unfolding gap_state
  extend_line-extend p c s e =
      let q = extended p (c ∷ []) in
      let n : length q.line ≡ length p.line + 1 = length-append p.line (c ∷ []) in
      elim (Bool-cases (leb (length p.line + suc (length s)) max_record))
        as (λ _. extend_line u p (c ∷ s) ≡ extend_line u q s) [
          | inl l ↦
              extend_line-extended p (c ∷ s) e l
              ∙ sym (
                  extend_line-extended q s e (ground (arith, n))
                  ∙ ap (λ x. (record p { line = x }, [])) (append_assoc p.line (c ∷ []) s))
          | inr l ↦
              extend_line-overrun p (c ∷ s) e l
              ∙ sym (extend_line-overrun q s e (ground (arith, n)))
        ]

  pub extend_line-cons :
      (p : Parser) (c : ℕ) (s : Bytes)
      → extend_line u p (c ∷ s)
        ≡ behind (extend_line u p (c ∷ [])).1 (extend_line u (extend_line u p (c ∷ [])).0 s)
  extend_line-cons p c s =
      let Goal =
        extend_line u p (c ∷ s)
        ≡ behind (extend_line u p (c ∷ [])).1 (extend_line u (extend_line u p (c ∷ [])).0 s) in
      elim (Bool-cases p.skip_line) as (λ _. Goal) [
        | inl e ↦
            extend_line-skip p (c ∷ s) e
            ∙ sym (
                ap (λ r. behind r.1 (extend_line u r.0 s)) (extend_line-skip p (c ∷ []) e)
                ∙ extend_line-skip p s e)
        | inr e ↦ elim (Bool-cases (leb (length p.line + 1) max_record)) as (λ _. Goal) [
          | inr l ↦
              extend_line-overrun p (c ∷ s) e (ground arith)
              ∙ sym (
                  ap (λ r. behind r.1 (extend_line u r.0 s)) (extend_line-overrun p (c ∷ []) e l)
                  ∙ ap (behind (gap_event ∷ [])) (extend_line-skip (overrun p).0 s refl))
          | inl l ↦
              extend_line-extend p c s e
              ∙ sym
                  (ap (λ r. behind r.1 (extend_line u r.0 s)) (extend_line-extended p (c ∷ []) e l))
        ]
      ]

  pub length-extend_line :
      (p : Parser) (s : Bytes)
      → length p.line ≤ max_record
      → length (extend_line u p s).0.line ≤ max_record
  unfolding extend_line
  length-extend_line p s h =
      if_rule (λ (r : Result). length r.0.line ≤ max_record) p.skip_line (λ _. h)
        λ _.
          if_rule (λ (r : Result). length r.0.line ≤ max_record)
            (not (leb (length p.line + length s) max_record)) (λ _. omega arith)
            λ l. ground (arith, length-append p.line s)
