-- ===== src/Session/Tests.antt =====
-- A configuration that is accepted, and the theorem of the checks of `Start` (trace/runtime.go) at it.
use firebirdsql_otel.Common.{◌≡◌, inl, refl, false, []}
use firebirdsql_otel.Common.Int.{pos}
use firebirdsql_otel.Text.{codes, runes, is_control}
use firebirdsql_otel.Filter.{is_special}
use firebirdsql_otel.Session.{Config, Accepted, check_start}
use firebirdsql_otel.Session.Startable.{IsVerdict, check_start-IsVerdict}

abbrev config : Config
config = record {
  address = codes "h";
  user = codes "u";
  password = codes "p";
  database = codes "db";
  auth_plugin = [];
  name = codes "n";
  buffer = pos 0;
}

abbrev accepted : Accepted
accepted = record { filter = codes "\"db\""; buffer = 64 }

config-accepted : check_start false config ≡ inl accepted
unfolding check_start runes is_control is_special
config-accepted = refl

check_start-IsVerdict_example : IsVerdict false config (check_start false config)
check_start-IsVerdict_example = check_start-IsVerdict false config
