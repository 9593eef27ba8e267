-- ===== src/Telemetry/Tests.antt =====
-- The theorem of telemetry.go at the safe configuration.
use firebirdsql_otel.Common.{ℕ, ◌≡◌, ◌≤◌, refl, Bool, length}
use firebirdsql_otel.Common.Int.{pos}
use firebirdsql_otel.Text.{codes, ascii}
use firebirdsql_otel.Config.{Foreign, Config, safe_config, normalize_config}
use firebirdsql_otel.Config.Normal.{IsNormal, normalize_config-IsNormal}
use firebirdsql_otel.Telemetry.{describe, describe-IsBounded}

abbrev foreign : Foreign
foreign = record {
  server_trace = Bool;
  starter = Bool;
  filter = Bool;
  tracer_provider = Bool;
  meter_provider = Bool;
  attribute = Bool;
  option = Bool;
}

abbrev accepted : Config foreign
accepted = (normalize_config safe_config).0

accepted-IsNormal : IsNormal accepted
unfolding normalize_config
accepted-IsNormal = normalize_config-IsNormal safe_config refl

describe-IsBounded_example :
    (n : ℕ) × ((accepted.sql.max_output_bytes ≡ pos n)
      × (length (describe ascii accepted.sql (codes "select 1")).text ≤ n))
describe-IsBounded_example = describe-IsBounded ascii accepted (codes "select 1") accepted-IsNormal
