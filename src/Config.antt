-- ===== src/Config.antt =====
-- The configuration of the instrumented driver and `normalizeConfig` (config.go). What other
-- packages declare stands in `Foreign`; a nil interface or function is none.
pub mod Normal
mod Tests
use firebirdsql_otel.Common.{
  ℕ, zero, suc, Bool, true, false, ◌&&◌, ◌||◌, not, Option, none, some, List, [], ◌∷◌, length, leb,
  if◌then◌else◌,
}
use firebirdsql_otel.Common.Int.{ℤ, pos, negsuc, is_zero}
use firebirdsql_otel.Text.{Bytes, codes, equal, is_empty, valid_string}
use firebirdsql_otel.Sql.Describe.{max_input, max_output}

pub record Foreign : Type 1 where
  pub server_trace : Type 0
  pub starter : Type 0
  pub filter : Type 0
  pub tracer_provider : Type 0
  pub meter_provider : Type 0
  pub attribute : Type 0
  pub option : Type 0

pub record SqlPolicy : Type 0 where
  pub mode : Bytes
  pub max_input_bytes : ℤ
  pub max_output_bytes : ℤ

pub record ConnectionAttributes : Type 0 where
  pub namespace : Bytes
  pub host : Bytes
  pub port : ℤ
  pub parse_dsn_network : Bool

pub record ClientDiagnosticsConfig (f : Foreign) : Type 0 where
  pub rows : Bool
  pub connect : Bool
  pub prepare : Bool
  pub reset : Bool
  pub ping : Bool
  pub filter : Option f.filter

pub record ProfilerConfig (f : Foreign) : Type 0 where
  pub enabled : Bool
  pub starter : Option f.starter

pub record Config (f : Foreign) : Type 0 where
  pub server_trace : Option f.server_trace
  pub profiler : ProfilerConfig f
  pub profile : Bytes
  pub sql : SqlPolicy
  pub connection : ConnectionAttributes
  pub client : ClientDiagnosticsConfig f
  pub tracer_provider : Option f.tracer_provider
  pub meter_provider : Option f.meter_provider
  pub span_attributes : List f.attribute
  pub metric_attributes : List f.attribute
  pub otel_options : List f.option

abbrev pub compatibility : Bytes
compatibility = codes "compatibility"

abbrev pub safe_client : Bytes
safe_client = codes "safe_client"

abbrev pub diagnostic : Bytes
diagnostic = codes "diagnostic"

abbrev pub sql_off : Bytes
sql_off = codes "off"

abbrev pub sql_sanitized : Bytes
sql_sanitized = codes "sanitized"

abbrev pub sql_raw_explicit : Bytes
sql_raw_explicit = codes "raw_explicit"

pub data ConfigError : Type 0 where
  invalid_profile diagnostics_need_safe profiler_needs_starter options_need_compatibility :
      ConfigError
  invalid_mode limits_exceed invalid_text invalid_port attributes_exceed : ConfigError

abbrev pub is_set {ℓ} : {A : Type ℓ} → Option A → Bool
is_set none = false
is_set (some _) = true

-- `n < low || n > high`, for a natural `low`
unfoldable pub outside : ℕ → ℕ → ℤ → Bool
outside low high (pos n) = not (leb low n) || not (leb n high)
outside low high (negsuc n) = true

abbrev pub or_default : ℕ → ℤ → ℤ
or_default d n = if is_zero n then pos d else n

unfoldable pub is_profile : Bytes → Bool
unfolding equal
is_profile s = equal s compatibility || (equal s safe_client || equal s diagnostic)

unfoldable pub is_mode : Bytes → Bool
unfolding equal
is_mode s = equal s sql_off || (equal s sql_sanitized || equal s sql_raw_explicit)

module _ {f : Foreign} where
  unfoldable pub default_profile : Config f → Config f
  default_profile c = if is_empty c.profile then record c { profile = safe_client } else c

  unfoldable pub default_mode : Config f → Config f
  default_mode c =
      if is_empty c.sql.mode then record c { sql = record c.sql { mode = sql_sanitized } } else c

  unfoldable pub default_limits : Config f → Config f
  default_limits c = record c {
    sql = record c.sql {
      max_input_bytes = or_default max_input c.sql.max_input_bytes;
      max_output_bytes = or_default max_output c.sql.max_output_bytes;
    };
  }

  -- The checks behind the default limits.
  unfoldable pub check_limits : Config f → Config f × Option ConfigError
  unfolding outside valid_string
  check_limits c =
      if outside 1 max_input c.sql.max_input_bytes || outside 1 max_output c.sql.max_output_bytes
      then (c, some limits_exceed)
      else if not (valid_string c.connection.host) || not (valid_string c.connection.namespace)
      then (c, some invalid_text)
      else if outside 0 65535 c.connection.port
      then (c, some invalid_port)
      else if not (leb (length c.connection.namespace) 256)
          || (not (leb (length c.connection.host) 253)
              || (not (leb (length c.span_attributes) 32)
                  || not (leb (length c.metric_attributes) 16)))
      then (c, some attributes_exceed)
      else (c, none)

  unfoldable pub check_mode : Config f → Config f × Option ConfigError
  unfolding is_mode check_limits default_limits
  check_mode c =
      if not (is_mode c.sql.mode) then (c, some invalid_mode) else check_limits (default_limits c)

  unfoldable pub check_profile : Config f → Config f × Option ConfigError
  unfolding is_profile equal check_mode default_mode
  check_profile c =
      let compatible = equal c.profile compatibility in
      if not (is_profile c.profile)
      then (c, some invalid_profile)
      else if compatible
          && (is_set c.server_trace || (c.profiler.enabled || is_set c.profiler.starter))
      then (c, some diagnostics_need_safe)
      else if c.profiler.enabled && not (is_set c.profiler.starter)
      then (c, some profiler_needs_starter)
      else if not compatible && not (is_empty c.otel_options)
      then (c, some options_need_compatibility)
      else check_mode (default_mode c)

  -- `normalizeConfig`: the configuration, and the error if there is one
  unfoldable pub normalize_config : Config f → Config f × Option ConfigError
  unfolding check_profile default_profile
  normalize_config c = check_profile (default_profile c)

  abbrev no_diagnostics : ClientDiagnosticsConfig f
  no_diagnostics = record {
    rows = false;
    connect = false;
    prepare = false;
    reset = false;
    ping = false;
    filter = none;
  }

  -- A configuration whose other fields have their zero values.
  abbrev of_profile : Bytes → Bytes → ClientDiagnosticsConfig f → List f.option → Config f
  of_profile profile mode client options = record {
    server_trace = none;
    profiler = record { enabled = false; starter = none };
    profile = profile;
    sql = record { mode = mode; max_input_bytes = pos 0; max_output_bytes = pos 0 };
    connection = record { namespace = []; host = []; port = pos 0; parse_dsn_network = false };
    client = client;
    tracer_provider = none;
    meter_provider = none;
    span_attributes = [];
    metric_attributes = [];
    otel_options = options;
  }

  abbrev pub safe_config : Config f
  safe_config = of_profile safe_client sql_sanitized no_diagnostics []

  abbrev pub diagnostic_config : Config f
  diagnostic_config =
      of_profile diagnostic sql_sanitized
        (record {
          rows = true;
          connect = true;
          prepare = true;
          reset = true;
          ping = true;
          filter = none;
        })
        []

  abbrev pub compatibility_config : List f.option → Config f
  compatibility_config options = of_profile compatibility [] no_diagnostics options
