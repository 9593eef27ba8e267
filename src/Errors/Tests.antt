-- ===== src/Errors/Tests.antt =====
-- A server error with more codes than a report takes, and the theorem of errors.go at it.
use firebirdsql_otel.Common.{◌≡◌, false, some, [], ◌∷◌}
use firebirdsql_otel.Common.Int.{negsuc, pos}
use firebirdsql_otel.Text.{codes}
use firebirdsql_otel.Errors.{
  FbError, Errors, Report, IsReported, error_attributes, error_attributes-IsReported,
}

abbrev server_error : FbError
server_error = record {
  sql_code = negsuc 100;
  sql_state = codes "42000";
  gds_codes = pos 1 ∷ pos 2 ∷ [];
}

-- the only errors are server errors
abbrev errors : Errors
errors = record {
  Error = FbError;
  is = λ _ _. false;
  as_fb_error = λ e. some (some e);
  is_net_error = λ _. false;
}

error_attributes-IsReported_example :
    (r : Report) × ((error_attributes errors (some server_error) ≡ some r) × IsReported r)
error_attributes-IsReported_example = error_attributes-IsReported errors server_error
