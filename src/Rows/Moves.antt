-- ===== src/Rows/Moves.antt =====
-- What the calls other than Close change of the rows (rows.go).
use firebirdsql_otel.Common.{
  ℕ, suc, ◌-◌, ◌≤◌, ◌≡◌, refl, ◌∙◌, Bool, true, not, Option, none, some, ◌==◌, if_rule, arith,
}
use firebirdsql_otel.Errors.{Errors}
use firebirdsql_otel.Rows.{
  RowsState, note_error, count_next, next, has_next_result_set, next_result_set,
}

module _ {l : Errors} (is_eof : l.Error → Bool) where
  -- What a call other than Close may change.
  pub record IsMoved (s s' : RowsState l) : Type 0 where
    pub same_closed : s'.closed ≡ s.closed
    pub same_finished : s'.finished ≡ s.finished
    pub same_span : s'.has_span ≡ s.has_span
    pub same_callback : s'.has_on_close ≡ s.has_on_close
    pub same_log : s'.log ≡ s.log
    pub same_error : s'.close_err ≡ s.close_err
    pub counted : s.delivered ≤ s.attempts → s'.delivered ≤ s'.attempts

  abbrev unchanged : (s : RowsState l) → IsMoved s s
  unchanged s = record {
    same_closed = refl;
    same_finished = refl;
    same_span = refl;
    same_callback = refl;
    same_log = refl;
    same_error = refl;
    counted = λ h. h;
  }

  -- The fields that those calls write.
  moved :
      (s : RowsState l) (attempts delivered first : ℕ) (eof : Bool) (err : Option l.Error)
      → (s.delivered ≤ s.attempts → delivered ≤ attempts)
      → IsMoved s (record s {
        attempts = attempts;
        delivered = delivered;
        first = first;
        eof = eof;
        next_err = err;
      })
  moved s attempts delivered first eof err h = record {
    same_closed = refl;
    same_finished = refl;
    same_span = refl;
    same_callback = refl;
    same_log = refl;
    same_error = refl;
    counted = h;
  }

  note_error-IsMoved :
      (final : Bool) (err : Option l.Error) (s : RowsState l)
      → IsMoved s (note_error is_eof final err s)
  unfolding note_error
  note_error-IsMoved final none s = unchanged s
  note_error-IsMoved final (some e) s =
      if_rule (IsMoved s) (is_eof e)
        (λ _.
          if_rule (IsMoved s) final
            (λ _. moved s s.attempts s.delivered s.first true s.next_err λ h. h) λ _. unchanged s)
        λ _. moved s s.attempts s.delivered s.first s.eof (some e) λ h. h

  IsMoved-trans : (s t u : RowsState l) → IsMoved s t → IsMoved t u → IsMoved s u
  IsMoved-trans s t u a b = record {
    same_closed = b.same_closed ∙ a.same_closed;
    same_finished = b.same_finished ∙ a.same_finished;
    same_span = b.same_span ∙ a.same_span;
    same_callback = b.same_callback ∙ a.same_callback;
    same_log = b.same_log ∙ a.same_log;
    same_error = b.same_error ∙ a.same_error;
    counted = λ h. b.counted (a.counted h);
  }

  count_next-IsMoved :
      (err : Option l.Error) (now : ℕ) (s : RowsState l) → IsMoved s (count_next err now s)
  unfolding count_next
  count_next-IsMoved (some e) now s =
      moved s (suc s.attempts) s.delivered s.first s.eof s.next_err λ h. omega arith
  count_next-IsMoved none now s =
      if_rule (IsMoved s) (s.delivered == 0)
        (λ _.
          moved s (suc s.attempts) (suc s.delivered) (now - s.start) s.eof s.next_err
            λ h. omega arith)
        λ _. moved s (suc s.attempts) (suc s.delivered) s.first s.eof s.next_err λ h. omega arith

  pub next-IsMoved :
      (err : Option l.Error) (now : ℕ) (s : RowsState l) → IsMoved s (next is_eof err now s).0
  unfolding next
  next-IsMoved err now s =
      IsMoved-trans s (count_next err now s) _ (count_next-IsMoved err now s)
        (note_error-IsMoved (not s.has_result_sets) err (count_next err now s))

  pub has_next_result_set-IsMoved :
      (more : Bool) (s : RowsState l) → IsMoved s (has_next_result_set is_eof more s).0
  unfolding has_next_result_set
  has_next_result_set-IsMoved more s =
      if_rule (IsMoved s) more (λ _. unchanged s)
        λ _. moved s s.attempts s.delivered s.first true s.next_err λ h. h

  pub next_result_set-IsMoved :
      (err : Option l.Error) (s : RowsState l) → IsMoved s (next_result_set is_eof err s).0
  unfolding next_result_set
  next_result_set-IsMoved err s = note_error-IsMoved true err s
