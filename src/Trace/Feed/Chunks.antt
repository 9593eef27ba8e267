-- ===== src/Trace/Feed/Chunks.antt =====
-- How a stream is cut into chunks does not matter.
use mathlib.Core.Option
use firebirdsql_otel.Common.{
  ℕ, zero, suc, ◌≤◌, ◌≡◌, refl, sym, ap, ◌∙◌, Option, none, some, [], ◌∷◌, ◌++◌, length, take, drop,
  ◌==◌, Option-cases, inl, inr, if◌then◌else◌, if_rule, append_assoc, length-drop, arith,
}
use firebirdsql_otel.Text.{Bytes, index_byte, Platform}
use firebirdsql_otel.Trace.Event.{Parser}
use firebirdsql_otel.Trace.Body.{max_record, Result}
use firebirdsql_otel.Trace.Consume.{behind}
use firebirdsql_otel.Trace.Feed.{extend_line, end_line, feed_round, feed_loop, feed}
use firebirdsql_otel.Trace.Feed.Lines.{
  index_byte-none, index_byte-IsFound, extend_line-nil, extend_line-cons, length-extend_line,
}

module _ (u : Platform) where
  -- The parser fed one byte at a time.
  unfoldable pub feed_byte : Parser → ℕ → Result
  feed_byte p c = if c == b'\n' then end_line u p else extend_line u p (c ∷ [])

  unfoldable pub feed_bytes : Parser → Bytes → Result
  unfolding feed_byte
  feed_bytes p [] = (p, [])
  feed_bytes p (c ∷ s) = let r = feed_byte p c in behind r.1 (feed_bytes r.0 s)

  feed_bytes-append :
      (s t : Bytes) (p : Parser)
      → feed_bytes p (s ++ t) ≡ behind (feed_bytes p s).1 (feed_bytes (feed_bytes p s).0 t)
  unfolding feed_bytes
  feed_bytes-append [] t p = refl
  feed_bytes-append (c ∷ s) t p =
      let r = feed_byte p c in
      ap (behind r.1) (feed_bytes-append s t r.0)
      ∙ ap (λ es. ((feed_bytes (feed_bytes r.0 s).0 t).0, es))
          (sym (append_assoc r.1 (feed_bytes r.0 s).1 _))

  -- A piece without a line feed, a byte at a time.
  extend_line-feed_bytes :
      (s : Bytes) (p : Parser)
      → length p.line ≤ max_record
      → index_byte b'\n' s ≡ none
      → extend_line u p s ≡ feed_bytes p s
  unfolding feed_bytes feed_byte index_byte
  extend_line-feed_bytes [] p h i = extend_line-nil u p h
  extend_line-feed_bytes (c ∷ s) p h i =
      extend_line-cons u p c s
      ∙ (let found = index_byte-none b'\n' c s i in
          let byte : feed_byte p c ≡ extend_line u p (c ∷ []) = rw found.0 refl in
          ap (behind (extend_line u p (c ∷ [])).1) (
            extend_line-feed_bytes s (extend_line u p (c ∷ [])).0
              (length-extend_line u p (c ∷ []) h) found.1)
          ∙ sym (ap (λ r. behind r.1 (feed_bytes r.0 s)) byte))

  -- A line that a line feed ends, and the text behind it.
  feed_bytes-line :
      (s t : Bytes) (p : Parser)
      → length p.line ≤ max_record
      → index_byte b'\n' s ≡ none
      → let r = extend_line u p s in
        feed_bytes p (s ++ (b'\n' ∷ t))
        ≡ behind (r.1 ++ (end_line u r.0).1) (feed_bytes (end_line u r.0).0 t)
  unfolding feed_bytes feed_byte
  feed_bytes-line s t p h n =
      let r = extend_line u p s in
      let e = end_line u r.0 in
      feed_bytes-append s (b'\n' ∷ t) p
      ∙ ap (λ (x : Result). behind x.1 (feed_bytes x.0 (b'\n' ∷ t)))
          (sym (extend_line-feed_bytes s p h n))
      ∙ ap (λ es. ((feed_bytes e.0 t).0, es)) (sym (append_assoc r.1 e.1 (feed_bytes e.0 t).1))

  end_line-nil : (p : Parser) → (end_line u p).0.line ≡ []
  unfolding end_line
  end_line-nil p = refl

  feed_loop-feed_bytes :
      (fuel : ℕ) (p : Parser) (s : Bytes)
      → length p.line ≤ max_record
      → length s ≤ fuel
      → feed_loop u fuel p s ≡ some (feed_bytes p s)
  unfolding feed_loop feed_bytes feed_round
  feed_loop-feed_bytes fuel p [] h f = refl
  feed_loop-feed_bytes zero p (c ∷ s) h f = ground arith
  feed_loop-feed_bytes (suc fuel) p (c ∷ s) h f =
      elim (Option-cases (index_byte b'\n' (c ∷ s)))
        as (λ _. feed_loop u (suc fuel) p (c ∷ s) ≡ some (feed_bytes p (c ∷ s))) [
          | inl i ↦
              ap (feed_round u (feed_loop u fuel) p (c ∷ s)) i
              ∙ ap some (extend_line-feed_bytes (c ∷ s) p h i)
          | inr (i, e) ↦
              ap (feed_round u (feed_loop u fuel) p (c ∷ s)) e
              ∙ (let q = end_line u (extend_line u p (take i (c ∷ s))).0 in
                  let found = index_byte-IsFound b'\n' (c ∷ s) i e in
                  ap (Option.map (behind ((extend_line u p (take i (c ∷ s))).1 ++ q.1))) (
                    feed_loop-feed_bytes fuel q.0 (drop i s)
                      (omega (arith, ap length (end_line-nil (extend_line u p (take i (c ∷ s))).0)))
                      (omega (arith, length-drop i s)))
                  ∙ ap some (
                      sym (
                        ap (feed_bytes p) found.split
                        ∙ feed_bytes-line (take i (c ∷ s)) (drop i s) p h found.before)))
        ]

  -- For a parser whose line is within the limit, `Feed` ends and returns what feeding the bytes of
  -- the chunk one at a time returns: the same parser and the same events in the same order.
  pub feed-feed_bytes :
      (p : Parser) (chunk : Bytes)
      → length p.line ≤ max_record
      → feed u p chunk ≡ some (feed_bytes p chunk)
  unfolding feed
  feed-feed_bytes p chunk h = feed_loop-feed_bytes (length chunk) p chunk h (omega arith)

  length-feed_bytes :
      (s : Bytes) (p : Parser)
      → length p.line ≤ max_record
      → length (feed_bytes p s).0.line ≤ max_record
  unfolding feed_bytes feed_byte
  length-feed_bytes [] p h = h
  length-feed_bytes (c ∷ s) p h = length-feed_bytes s (feed_byte p c).0 (
      if_rule (λ (r : Result). length r.0.line ≤ max_record) (c == b'\n')
        (λ _. omega (arith, ap length (end_line-nil p))) λ _. length-extend_line u p (c ∷ []) h)

  -- `Feed` twice: the second chunk is fed to the parser that the first one leaves.
  unfoldable pub feed_both : Parser → Bytes → Bytes → Option Result
  feed_both p s t = elim (feed u p s) [
    | none ↦ none
    | some r ↦ Option.map (behind r.1) (feed u r.0 t)
  ]

  -- For a parser whose line is within the limit, feeding two chunks and feeding their
  -- concatenation leave the same parser and return the same events in the same order.
  pub feed-append :
      (p : Parser) (s t : Bytes) → length p.line ≤ max_record → feed u p (s ++ t) ≡ feed_both p s t
  unfolding feed_both
  feed-append p s t h =
      let r = feed_bytes p s in
      feed-feed_bytes p (s ++ t) h
      ∙ ap some (feed_bytes-append s t p)
      ∙ ap (Option.map (behind r.1)) (sym (feed-feed_bytes r.0 t (length-feed_bytes s p h)))
      ∙ ap
          (λ (o : Option Result). elim o as (λ _. Option Result) [
            | none ↦ none
            | some x ↦ Option.map (behind x.1) (feed u x.0 t)
          ])
          (sym (feed-feed_bytes p s h))
