-- ===== src/Filter/Tests.antt =====
-- A path with a special rune and a brace, and the theorem of databaseFilter at it.
use firebirdsql_otel.Common.{◌≡◌, refl, some}
use firebirdsql_otel.Text.{Bytes, codes, runes, is_control}
use firebirdsql_otel.Filter.{database_filter, is_special}
use firebirdsql_otel.Filter.Reading.{IsAnswer, database_filter-IsAnswer}

abbrev path : Bytes
path = codes "a-{b"

path_written : database_filter path ≡ some (codes "\"a\\-\\{{b\"")
unfolding database_filter runes is_control is_special
path_written = refl

database_filter-IsAnswer_example : IsAnswer path (database_filter path)
database_filter-IsAnswer_example = database_filter-IsAnswer path
