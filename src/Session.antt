-- ===== src/Session.antt =====
-- What `Start` (trace/runtime.go) checks before it connects: the texts of the configuration, the filter
-- of the database and the bound of the queue.
pub mod Startable
mod Tests
use firebirdsql_otel.Common.{
  ℕ, ◌⊎◌, inl, inr, Bool, false, ◌&&◌, ◌||◌, not, Option, none, some, [], ◌∷◌, length, leb, ◌==◌,
  within, if◌then◌else◌,
}
use firebirdsql_otel.Common.Int.{ℤ, pos, negsuc}
use firebirdsql_otel.Text.{Bytes, codes, equal, is_empty, valid_string}
use firebirdsql_otel.Filter.{database_filter}

-- `Config`; the encryption of the wire is passed on as it is
pub record Config : Type 0 where
  pub address : Bytes
  pub user : Bytes
  pub password : Bytes
  pub database : Bytes
  pub auth_plugin : Bytes
  pub name : Bytes
  pub buffer : ℤ

pub data Refusal : Type 0 where
  cancelled fields_required limits_exceeded invalid_encoding invalid_name invalid_plugin : Refusal
  invalid_path invalid_queue : Refusal

-- What is asked of the service: the filter and the size of the queue.
pub record Accepted : Type 0 where
  pub filter : Bytes
  pub buffer : ℕ

-- `strings.ContainsAny(s, "\r\n")`
unfoldable pub has_line_break : Bytes → Bool
has_line_break [] = false
has_line_break (c ∷ s) = c == 0x0D || c == b'\n' || has_line_break s

abbrev pub is_plugin : Bytes → Bool
is_plugin s =
    is_empty s || equal s (codes "Srp256") || equal s (codes "Srp") || equal s (codes "Legacy_Auth")

-- `c.Buffer`, with its default, within its bounds
unfoldable pub queue_bound : ℤ → Option ℕ
queue_bound (negsuc n) = none
queue_bound (pos n) = let m = if n == 0 then 64 else n in if within 1 256 m then some m else none

abbrev pub is_long : Config → Bool
is_long c =
    not (leb (length c.address) 512)
    || not (leb (length c.user) 256)
    || not (leb (length c.password) 4096)
    || not (leb (length c.database) 1024)
    || not (leb (length c.name) 128)

abbrev pub is_encoded : Config → Bool
is_encoded c =
    valid_string c.address
    && valid_string c.user
    && valid_string c.password
    && valid_string c.database
    && valid_string c.name

-- The checks of `Start` in their order; the first argument is `ctx.Err() != nil`.
unfoldable pub check_start : Bool → Config → Accepted ⊎ Refusal
unfolding equal database_filter has_line_break queue_bound valid_string
check_start stopped c =
    if stopped
    then inr cancelled
    else if is_empty c.address || is_empty c.user || is_empty c.database || is_empty c.name
    then inr fields_required
    else if is_long c
    then inr limits_exceeded
    else if not (is_encoded c)
    then inr invalid_encoding
    else if has_line_break c.name
    then inr invalid_name
    else if not (is_plugin c.auth_plugin)
    then inr invalid_plugin
    else elim (database_filter c.database) as (λ _. Accepted ⊎ Refusal) [
      | none ↦ inr invalid_path
      | some filter ↦ elim (queue_bound c.buffer) as (λ _. Accepted ⊎ Refusal) [
        | none ↦ inr invalid_queue
        | some n ↦ inl (record { filter = filter; buffer = n })
      ]
    ]
