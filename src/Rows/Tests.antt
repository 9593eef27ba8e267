-- ===== src/Rows/Tests.antt =====
-- Rows with one row, and the theorems of rows.go at them.
use firebirdsql_otel.Common.{◌≡◌, refl, Bool, true, false, none, some, List, [], ◌∷◌, arith}
use firebirdsql_otel.Errors.{Errors}
use firebirdsql_otel.Rows.{
  at_eof, raw_closed, on_close_called, span_ended, RowsState, new_rows, next, close,
}
use firebirdsql_otel.Rows.Once.{
  Call, nexting, closing, calls, IsOnce, open_rows, calls-IsOnce, close-again,
}

-- an error says whether it is io.EOF
abbrev errors : Errors
errors = record {
  Error = Bool;
  is = λ _ _. false;
  as_fb_error = λ _. none;
  is_net_error = λ _. false;
}

abbrev fresh : RowsState errors
fresh = new_rows true true false false (false, false) 10

abbrev one_row : List (Call errors)
one_row = nexting none 12 ∷ nexting (some true) 13 ∷ closing none (none, none) 15 ∷ []

fresh-IsOnce : IsOnce (λ e. e) fresh
unfolding new_rows
fresh-IsOnce = open_rows refl refl refl (omega arith)

calls-IsOnce_example : IsOnce (λ e. e) (calls (λ e. e) one_row fresh)
calls-IsOnce_example = calls-IsOnce (λ e. e) one_row fresh fresh-IsOnce

fresh_open : fresh.closed ≡ false
unfolding new_rows
fresh_open = refl

close-again_example :
    ((close
        (some false)
        (none, none)
        30
        (calls (λ e. e) one_row (close none (none, none) 20 fresh).0)).1
      ≡ none)
    × ((close
          (some false)
          (none, none)
          30
          (calls (λ e. e) one_row (close none (none, none) 20 fresh).0)).0.log
        ≡ (close none (none, none) 20 fresh).0.log)
close-again_example =
    close-again (λ e. e) none (some false) (none, none) (none, none) 20 30 one_row fresh fresh_open

one_row_log :
    (calls (λ e. e) one_row fresh).log
    ≡ raw_closed
      ∷ span_ended (record {
        delivered = 1;
        next_attempts = 2;
        eof = true;
        outcome = at_eof;
        lifetime = 5;
        first_delivery = some 2;
        error = none;
      })
      ∷ on_close_called
      ∷ []
unfolding new_rows close next
one_row_log = refl
