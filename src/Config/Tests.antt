-- ===== src/Config/Tests.antt =====
-- The configurations that config.go offers, and its theorem at one of them.
use firebirdsql_otel.Common.{◌≡◌, refl, none, Bool, []}
use firebirdsql_otel.Config.{
  Foreign, Config, safe_config, diagnostic_config, compatibility_config, normalize_config,
}
use firebirdsql_otel.Config.Normal.{IsNormal, normalize_config-IsNormal}

abbrev outside : Foreign
outside = record {
  server_trace = Bool;
  starter = Bool;
  filter = Bool;
  tracer_provider = Bool;
  meter_provider = Bool;
  attribute = Bool;
  option = Bool;
}

abbrev safe : Config outside
safe = safe_config

safe_accepted : (normalize_config safe).1 ≡ none
unfolding normalize_config
safe_accepted = refl

diagnostic_accepted : (normalize_config {f = outside} diagnostic_config).1 ≡ none
unfolding normalize_config
diagnostic_accepted = refl

compatibility_accepted : (normalize_config {f = outside} (compatibility_config [])).1 ≡ none
unfolding normalize_config
compatibility_accepted = refl

normalize_config-IsNormal_example : IsNormal (normalize_config safe).0
normalize_config-IsNormal_example = normalize_config-IsNormal safe safe_accepted
