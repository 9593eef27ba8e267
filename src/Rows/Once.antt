-- ===== src/Rows/Once.antt =====
-- Close of the rows, among other calls of database/sql (rows.go).
use firebirdsql_otel.Common.{
  ℕ, ◌-◌, ◌≤◌, ◌≡◌, refl, ap, sym, ◌∙◌, Bool, true, false, ◌&&◌, not, Option, none, some, List, [],
  ◌∷◌, ◌++◌, ◌==◌, if◌then◌else◌, append-nil, if_rule, arith,
}
use firebirdsql_otel.Errors.{Errors}
use firebirdsql_otel.Rows.{
  Kind, Consumption, Effect, raw_closed, on_close_called, span_ended, RowsState, next,
  has_next_result_set, next_result_set, finish, observed_error, kind_of, close,
}
use firebirdsql_otel.Rows.Moves.{
  IsMoved, next-IsMoved, has_next_result_set-IsMoved, next_result_set-IsMoved,
}

-- A call of database/sql, with what the driver's rows return.
pub data Call (l : Errors) : Type 0 where
  nexting : Option l.Error → ℕ → Call l
  asking : Bool → Call l
  advancing : Option l.Error → Call l
  closing : Option l.Error → Option l.Error × Option l.Error → ℕ → Call l

module _ {l : Errors} (is_eof : l.Error → Bool) where
  abbrev pub call : Call l → RowsState l → RowsState l
  call (nexting err now) s = (next is_eof err now s).0
  call (asking more) s = (has_next_result_set is_eof more s).0
  call (advancing err) s = (next_result_set is_eof err s).0
  call (closing raw_err cancelled now) s = (close raw_err cancelled now s).0

  abbrev pub calls : List (Call l) → RowsState l → RowsState l
  calls [] s = s
  calls (c ∷ cs) s = calls cs (call c s)

  -- The log of rows that are closed: the rows of the driver, then the span, then the callback.
  pub closed_log : RowsState l → Consumption l → List (Effect l)
  closed_log s report =
      raw_closed
      ∷ ((if s.has_span then span_ended report ∷ [] else [])
          ++ (if s.has_on_close then on_close_called ∷ [] else []))

  -- Rows that are open have no log yet; closed ones have the log of one Close.
  pub data IsOnce (s : RowsState l) : Type 0 where
    open_rows :
        s.closed ≡ false → s.finished ≡ false → s.log ≡ [] → s.delivered ≤ s.attempts → IsOnce s
    closed_rows :
        (report : Consumption l)
        → s.closed ≡ true
        → s.log ≡ closed_log s report
        → report.delivered ≤ report.next_attempts
        → IsOnce s

  IsMoved-IsOnce : (s t : RowsState l) → IsMoved is_eof s t → IsOnce s → IsOnce t
  unfolding closed_log
  IsMoved-IsOnce s t m (open_rows c f g d) =
      open_rows (m.same_closed ∙ c) (m.same_finished ∙ f) (m.same_log ∙ g) (m.counted d)
  IsMoved-IsOnce s t m (closed_rows report c g d) =
      closed_rows report (m.same_closed ∙ c)
        (m.same_log
          ∙ g
          ∙ ap
              (λ b.
                raw_closed
                ∷ ((if b then span_ended report ∷ [] else [])
                    ++ (if s.has_on_close then on_close_called ∷ [] else [])))
              (sym m.same_span)
          ∙ ap
              (λ b.
                raw_closed
                ∷ ((if t.has_span then span_ended report ∷ [] else [])
                    ++ (if b then on_close_called ∷ [] else [])))
              (sym m.same_callback))
        d

  -- What Close leaves when `finish` has run.
  record IsFinished (u v : RowsState l) : Type 0 where
    report : Consumption l
    still_closed : v.closed ≡ true
    span_kept : v.has_span ≡ u.has_span
    callback_kept : v.has_on_close ≡ u.has_on_close
    logged : v.log ≡ raw_closed ∷ (if u.has_span then span_ended report ∷ [] else [])
    fewer : report.delivered ≤ report.next_attempts

  finish-IsFinished :
      (reason : Kind) (err : Option l.Error) (now : ℕ) (u : RowsState l)
      → u.closed ≡ true
      → u.finished ≡ false
      → u.log ≡ raw_closed ∷ []
      → u.delivered ≤ u.attempts
      → IsFinished u (finish reason err now u)
  unfolding finish
  finish-IsFinished reason err now u c f g d =
      let report : Consumption l = record {
        delivered = u.delivered;
        next_attempts = u.attempts;
        eof = u.eof;
        outcome = reason;
        lifetime = now - u.start;
        first_delivery = if u.delivered == 0 then none else some u.first;
        error = err;
      } in
      let choose : Bool → List (Effect l) = λ b. if b then span_ended report ∷ [] else [] in
      if_rule (IsFinished u) (u.has_span && not u.finished)
        (λ e. record {
          report = report;
          still_closed = c;
          span_kept = refl;
          callback_kept = refl;
          logged =
              ap (λ x. x ++ span_ended report ∷ []) g
              ∙ ap (λ b. raw_closed ∷ choose b) {x = true} {y = u.has_span} (ground (arith, e));
          fewer = d;
        })
        λ e. record {
          report = report;
          still_closed = c;
          span_kept = refl;
          callback_kept = refl;
          logged =
              g
              ∙ ap (λ b. raw_closed ∷ choose b) {x = false} {y = u.has_span} (ground (arith, e, f));
          fewer = d;
        }

  finished_log :
      (u v : RowsState l) (w : IsFinished u v)
      → v.log ++ (if v.has_on_close then on_close_called ∷ [] else []) ≡ closed_log v w.report
  unfolding closed_log
  finished_log u v w =
      ap (λ x. x ++ (if v.has_on_close then on_close_called ∷ [] else [])) w.logged
      ∙ ap
          (λ b.
            raw_closed
            ∷ ((if b then span_ended w.report ∷ [] else [])
                ++ (if v.has_on_close then on_close_called ∷ [] else [])))
          (sym w.span_kept)

  close-IsOnce :
      (raw_err : Option l.Error) (cancelled : Option l.Error × Option l.Error) (now : ℕ)
      (s : RowsState l)
      → IsOnce s
      → IsOnce (close raw_err cancelled now s).0
  unfolding close closed_log
  close-IsOnce raw_err cancelled now s (open_rows c f g d) =
      let u : RowsState l = record s {
        closed = true;
        close_err = raw_err;
        watched = (false, false);
        log = s.log ++ raw_closed ∷ [];
      } in
      let observed = observed_error cancelled raw_err s in
      let v = finish (kind_of observed s) observed now u in
      let w =
        finish-IsFinished (kind_of observed s) observed now u refl f
          (ap (λ x. x ++ raw_closed ∷ []) g) d in
      let P : RowsState l × Option l.Error → Type 0 = λ x. IsOnce x.0 in
      if_rule P s.closed (λ e. absurd (ground (arith, c, e)))
        λ _.
          if_rule P s.has_on_close
            (λ e.
              closed_rows w.report w.still_closed
                (ap (λ b. v.log ++ (if b then on_close_called ∷ [] else []))
                    (sym (w.callback_kept ∙ e))
                  ∙ finished_log u v w)
                w.fewer)
            λ e.
              closed_rows w.report w.still_closed
                (sym (append-nil v.log)
                  ∙ ap (λ b. v.log ++ (if b then on_close_called ∷ [] else []))
                      (sym (w.callback_kept ∙ e))
                  ∙ finished_log u v w)
                w.fewer
  close-IsOnce raw_err cancelled now s (closed_rows report c g d) =
      let P : RowsState l × Option l.Error → Type 0 = λ x. IsOnce x.0 in
      if_rule P s.closed (λ _. closed_rows report c g d) λ e. absurd (ground (arith, c, e))

  call-IsOnce : (c : Call l) (s : RowsState l) → IsOnce s → IsOnce (call c s)
  call-IsOnce (nexting err now) s h = IsMoved-IsOnce s _ (next-IsMoved is_eof err now s) h
  call-IsOnce (asking more) s h = IsMoved-IsOnce s _ (has_next_result_set-IsMoved is_eof more s) h
  call-IsOnce (advancing err) s h = IsMoved-IsOnce s _ (next_result_set-IsMoved is_eof err s) h
  call-IsOnce (closing raw_err cancelled now) s h = close-IsOnce raw_err cancelled now s h

  -- After any calls, rows that were open or closed once are so still: nothing is logged before Close,
  -- and behind any number of Closes the log has the driver's Close, one end of the span if there is one,
  -- and one callback if there is one, in that order; the span reports no more rows than attempts.
  pub calls-IsOnce : (cs : List (Call l)) (s : RowsState l) → IsOnce s → IsOnce (calls cs s)
  calls-IsOnce [] s h = h
  calls-IsOnce (c ∷ cs) s h = calls-IsOnce cs (call c s) (call-IsOnce c s h)

  -- Rows that are closed stay closed with the same log and error.
  abbrev IsSettled : RowsState l → RowsState l → Type 0
  IsSettled s t = (t.closed ≡ true) × (t.log ≡ s.log) × (t.close_err ≡ s.close_err)

  IsSettled-of_moved : (s t : RowsState l) → s.closed ≡ true → IsMoved is_eof s t → IsSettled s t
  IsSettled-of_moved s t c m = (m.same_closed ∙ c, m.same_log, m.same_error)

  call-IsSettled : (c : Call l) (s : RowsState l) → s.closed ≡ true → IsSettled s (call c s)
  unfolding close
  call-IsSettled (nexting err now) s h = IsSettled-of_moved s _ h (next-IsMoved is_eof err now s)
  call-IsSettled (asking more) s h =
      IsSettled-of_moved s _ h (has_next_result_set-IsMoved is_eof more s)
  call-IsSettled (advancing err) s h =
      IsSettled-of_moved s _ h (next_result_set-IsMoved is_eof err s)
  call-IsSettled (closing raw_err cancelled now) s h =
      let P : RowsState l × Option l.Error → Type 0 = λ x. IsSettled s x.0 in
      if_rule P s.closed (λ _. (h, refl, refl)) λ e. absurd (ground (arith, h, e))

  calls-IsSettled :
      (cs : List (Call l)) (s : RowsState l) → s.closed ≡ true → IsSettled s (calls cs s)
  calls-IsSettled [] s h = (h, refl, refl)
  calls-IsSettled (c ∷ cs) s h =
      let (k, g, e) = call-IsSettled c s h in
      let (k', g', e') = calls-IsSettled cs (call c s) k in (k', g' ∙ g, e' ∙ e)

  close-closed :
      (raw_err : Option l.Error) (cancelled : Option l.Error × Option l.Error) (now : ℕ)
      (s : RowsState l)
      → s.closed ≡ true
      → close raw_err cancelled now s ≡ (s, s.close_err)
  unfolding close
  close-closed raw_err cancelled now s h = rw h refl

  close-IsSettled :
      (raw_err : Option l.Error) (cancelled : Option l.Error × Option l.Error) (now : ℕ)
      (s : RowsState l)
      → s.closed ≡ false
      → ((close raw_err cancelled now s).0.closed ≡ true)
        × ((close raw_err cancelled now s).0.close_err ≡ raw_err)
  unfolding close finish
  close-IsSettled raw_err cancelled now s h =
      let u : RowsState l = record s {
        closed = true;
        close_err = raw_err;
        watched = (false, false);
        log = s.log ++ raw_closed ∷ [];
      } in
      let observed = observed_error cancelled raw_err s in
      let P : RowsState l × Option l.Error → Type 0 =
        λ x. (x.0.closed ≡ true) × (x.0.close_err ≡ raw_err) in
      let Q : RowsState l → Type 0 = λ x. (x.closed ≡ true) × (x.close_err ≡ raw_err) in
      let q : Q (finish (kind_of observed s) observed now u) =
        if_rule Q (s.has_span && not s.finished) (λ _. (refl, refl)) λ _. (refl, refl) in
      if_rule P s.closed (λ e. absurd (ground (arith, h, e)))
        λ _. if_rule P s.has_on_close (λ _. q) λ _. q

  -- Close of open rows, any calls, and Close again: the second Close returns the error of the first one
  -- and leaves the log as it was behind the first one.
  pub close-again :
      (raw_err raw_err' : Option l.Error) (cancelled cancelled' : Option l.Error × Option l.Error)
      (now now' : ℕ) (cs : List (Call l)) (s : RowsState l)
      → s.closed ≡ false
      → ((close raw_err' cancelled' now' (calls cs (close raw_err cancelled now s).0)).1 ≡ raw_err)
        × ((close raw_err' cancelled' now' (calls cs (close raw_err cancelled now s).0)).0.log
            ≡ (close raw_err cancelled now s).0.log)
  close-again raw_err raw_err' cancelled cancelled' now now' cs s h =
      let t = (close raw_err cancelled now s).0 in
      let (k, e) = close-IsSettled raw_err cancelled now s h in
      let (k', g, e') = calls-IsSettled cs t k in
      let same = close-closed raw_err' cancelled' now' (calls cs t) k' in
      (ap (λ x. x.1) same ∙ e' ∙ e, ap (λ x. x.0.log) same ∙ g)
