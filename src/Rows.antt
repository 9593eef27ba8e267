-- ===== src/Rows.antt =====
-- The rows of a query whose consumption is observed (rows.go): `rowsState` with Next, Close, finish,
-- HasNextResultSet and NextResultSet, and what `queryResultWithClose` wraps. What the driver's own
-- rows return comes with each call; a nil error is none. `log` is what is done to the outside, in
-- order. The counters do not come near 2^63.
mod Moves
pub mod Once
mod Tests
use firebirdsql_otel.Common.{
  ℕ, zero, suc, ◌-◌, Bool, true, false, ◌&&◌, ◌||◌, not, Option, none, some, List, [], ◌∷◌, ◌++◌,
  ◌==◌, if◌then◌else◌,
}
use firebirdsql_otel.Errors.{Errors, Outcome, outcome}

pub data Kind : Type 0 where
  early_close transaction_close_unknown at_eof : Kind
  failed : Outcome → Kind

-- The attributes that `finish` sets, with the times in nanoseconds.
pub record Consumption (l : Errors) : Type 0 where
  pub delivered : ℕ
  pub next_attempts : ℕ
  pub eof : Bool
  pub outcome : Kind
  pub lifetime : ℕ
  pub first_delivery : Option ℕ
  pub error : Option l.Error

pub data Effect (l : Errors) : Type 0 where
  raw_closed on_close_called : Effect l
  span_ended : Consumption l → Effect l

-- `closed` and `finished` are `closeOnce` and `once`; `watched` says which of `cancellations` are set.
pub record RowsState (l : Errors) : Type 0 where
  pub has_on_close : Bool
  pub has_span : Bool
  pub has_result_sets : Bool
  pub start : ℕ
  pub closed : Bool
  pub finished : Bool
  pub delivered : ℕ
  pub attempts : ℕ
  pub first : ℕ
  pub eof : Bool
  pub in_transaction : Bool
  pub close_err : Option l.Error
  pub next_err : Option l.Error
  pub watched : Bool × Bool
  pub log : List (Effect l)

abbrev pub or_else {ℓ} : {A : Type ℓ} → Option A → Option A → Option A
or_else none b = b
or_else (some a) b = some a

-- One round of the loop over `cancellations`: the error of a context that is done, if it is watched.
abbrev cancelled_by {ℓ} : {A : Type ℓ} → Bool → Bool → Option A → Option A → Option A
cancelled_by eof watched cancelled observed =
    if not eof && watched then or_else observed cancelled else observed

module _ {l : Errors} where
  -- The literal `&rowsState{…}` of `queryResultWithClose`.
  unfoldable pub new_rows : Bool → Bool → Bool → Bool → Bool × Bool → ℕ → RowsState l
  new_rows has_on_close has_span has_result_sets in_transaction watched now = record {
    has_on_close = has_on_close;
    has_span = has_span;
    has_result_sets = has_result_sets;
    start = now;
    closed = false;
    finished = false;
    delivered = 0;
    attempts = 0;
    first = 0;
    eof = false;
    in_transaction = in_transaction;
    close_err = none;
    next_err = none;
    watched = watched;
    log = [];
  }

  -- The attempt and the row are counted.
  unfoldable pub count_next : Option l.Error → ℕ → RowsState l → RowsState l
  count_next (some e) now s = record s { attempts = suc s.attempts }
  count_next none now s =
      let got : RowsState l = record s { attempts = suc s.attempts; delivered = suc s.delivered } in
      if s.delivered == 0 then record got { first = now - s.start } else got

  -- `err == io.EOF`
  module _ (is_eof : l.Error → Bool) where
    -- The error is recorded, and the end where it is final.
    unfoldable pub note_error : Bool → Option l.Error → RowsState l → RowsState l
    note_error final none s = s
    note_error final (some e) s =
        if is_eof e
        then (if final then record s { eof = true } else s)
        else record s { next_err = some e }

    -- `Next`, at a time, with what the rows of the driver return
    unfoldable pub next : Option l.Error → ℕ → RowsState l → RowsState l × Option l.Error
    unfolding note_error count_next
    next err now s = (note_error (not s.has_result_sets) err (count_next err now s), err)

    -- `HasNextResultSet`
    unfoldable pub has_next_result_set : Bool → RowsState l → RowsState l × Bool
    has_next_result_set more s = (if more then s else record s { eof = true }, more)

    -- `NextResultSet`
    unfoldable pub next_result_set : Option l.Error → RowsState l → RowsState l × Option l.Error
    unfolding note_error
    next_result_set err s = (note_error true err s, err)

  -- `finish`
  unfoldable pub finish : Kind → Option l.Error → ℕ → RowsState l → RowsState l
  finish reason err now s =
      let report : Consumption l = record {
        delivered = s.delivered;
        next_attempts = s.attempts;
        eof = s.eof;
        outcome = reason;
        lifetime = now - s.start;
        first_delivery = if s.delivered == 0 then none else some s.first;
        error = err;
      } in
      if s.has_span && not s.finished
      then record s { finished = true; log = s.log ++ span_ended report ∷ [] }
      else s

  -- What `Close` takes for the error of the consumption.
  unfoldable pub observed_error :
      Option l.Error × Option l.Error → Option l.Error → RowsState l → Option l.Error
  observed_error (a, b) raw_err s =
      let first = cancelled_by s.eof s.watched.0 a s.next_err in
      or_else (cancelled_by s.eof s.watched.1 b first) raw_err

  unfoldable pub kind_of : Option l.Error → RowsState l → Kind
  unfolding outcome
  kind_of observed s = elim observed as (λ _. Kind) [
    | some e ↦ failed (outcome l (some e))
    | none ↦
        if s.eof
        then at_eof
        else if s.in_transaction
        then transaction_close_unknown
        else early_close
  ]

  -- `Close`, with what the rows of the driver return and the errors of the two contexts if they are
  -- done.
  unfoldable pub close :
      Option l.Error
      → Option l.Error × Option l.Error
      → ℕ
      → RowsState l
      → RowsState l × Option l.Error
  unfolding finish observed_error kind_of
  close raw_err cancelled now s =
      let observed = observed_error cancelled raw_err s in
      let s' = finish (kind_of observed s) observed now (record s {
        closed = true;
        close_err = raw_err;
        watched = (false, false);
        log = s.log ++ raw_closed ∷ [];
      }) in
      if s.closed
      then (s, s.close_err)
      else if s.has_on_close
      then (record s' { log = s'.log ++ on_close_called ∷ [] }, raw_err)
      else (s', raw_err)
