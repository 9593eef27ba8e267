-- ===== src/Session/Startable.antt =====
-- When `Start` (trace/runtime.go) goes on to connect, and why it refuses.
use firebirdsql_otel.Common.{
  ℕ, ◌≤◌, ◌<◌, ◌≡◌, ◌≢◌, ◌⊎◌, inl, inr, ap, subst, Bool, true, false, ◌||◌, not, none, some, [],
  ◌∷◌, length, if_rule, option_rule, All, arith,
}
use mathlib.Core.Logic.{⊎_elim}
use firebirdsql_otel.Common.Int.{ℤ, pos, negsuc}
use firebirdsql_otel.Text.{Bytes, codes, runes, equal_iff, is_empty, is_empty_lem, valid_string}
use firebirdsql_otel.Filter.{database_filter}
use firebirdsql_otel.Filter.Reading.{IsClean, read_value, IsAnswer, database_filter-IsAnswer}
use firebirdsql_otel.Session.{
  Config, Refusal, cancelled, fields_required, limits_exceeded, invalid_encoding, invalid_name,
  invalid_plugin, invalid_path, invalid_queue, Accepted, has_line_break, is_plugin, queue_bound,
  is_long, is_encoded, check_start,
}

-- A text without the two bytes that end a line.
abbrev IsLine : Bytes → Type 0
IsLine s = All (λ c. (c ≢ 13) × (c ≢ 10)) s

abbrev IsPlugin : Bytes → Type 0
IsPlugin s = (s ≡ []) ⊎ (s ≡ codes "Srp256") ⊎ (s ≡ codes "Srp") ⊎ (s ≡ codes "Legacy_Auth")

-- The number of events that the queue is to hold, where 0 stands for 64.
abbrev IsQueue : ℤ → ℕ → Type 0
IsQueue b n = ((b ≡ pos 0) × (n ≡ 64)) ⊎ ((b ≡ pos n) × (1 ≤ n) × (n ≤ 256))

-- A configuration with which `Start` goes on, and what it goes on with.
pub record IsStartable (c : Config) (a : Accepted) : Type 0 where
  address : (1 ≤ length c.address) × (length c.address ≤ 512) × (valid_string c.address ≡ true)
  user : (1 ≤ length c.user) × (length c.user ≤ 256) × (valid_string c.user ≡ true)
  password : (length c.password ≤ 4096) × (valid_string c.password ≡ true)
  database : (1 ≤ length c.database) × (length c.database ≤ 1024) × (valid_string c.database ≡ true)
  name : (1 ≤ length c.name) × (length c.name ≤ 128) × (valid_string c.name ≡ true)
  one_line : IsLine c.name
  plugin : IsPlugin c.auth_plugin
  filtered : read_value (runes a.filter) ≡ some (runes c.database)
  queue : IsQueue c.buffer a.buffer

abbrev Empty : Bytes → Type 0
Empty s = s ≡ []

-- What each refusal says of the configuration.
abbrev IsReason : Bool → Config → Refusal → Type 0
IsReason stopped c cancelled = stopped ≡ true
IsReason stopped c fields_required =
    Empty c.address ⊎ Empty c.user ⊎ Empty c.database ⊎ Empty c.name
IsReason stopped c limits_exceeded =
    (512 < length c.address)
    ⊎ (256 < length c.user)
    ⊎ (4096 < length c.password)
    ⊎ (1024 < length c.database)
    ⊎ (128 < length c.name)
IsReason stopped c invalid_encoding =
    (valid_string c.address ≡ false)
    ⊎ (valid_string c.user ≡ false)
    ⊎ (valid_string c.password ≡ false)
    ⊎ (valid_string c.database ≡ false)
    ⊎ (valid_string c.name ≡ false)
IsReason stopped c invalid_name = ¬ IsLine c.name
IsReason stopped c invalid_plugin = ¬ IsPlugin c.auth_plugin
IsReason stopped c invalid_path = ¬ IsClean (runes c.database)
IsReason stopped c invalid_queue = (n : ℕ) → ¬ IsQueue c.buffer n

pub IsVerdict : Bool → Config → Accepted ⊎ Refusal → Type 0
IsVerdict stopped c (inl a) = (stopped ≡ false) × IsStartable c a
IsVerdict stopped c (inr r) = IsReason stopped c r

length-is_empty : (s : Bytes) → is_empty s ≡ false → 1 ≤ length s
length-is_empty [] h = ground arith
length-is_empty (c ∷ s) h = omega arith

has_line_break-false : (s : Bytes) → has_line_break s ≡ false → IsLine s
unfolding has_line_break
has_line_break-false [] h = tt
has_line_break-false (c ∷ s) h =
    ((λ e. ground arith, λ e. ground arith), has_line_break-false s (ground arith))

has_line_break-true : (s : Bytes) → has_line_break s ≡ true → ¬ IsLine s
unfolding has_line_break
has_line_break-true [] h l = cc
has_line_break-true (c ∷ s) h l =
    ground (arith, l.0.0, l.0.1, λ (g : has_line_break s ≡ true). has_line_break-true s g l.1)

is_plugin-true : (s : Bytes) → is_plugin s ≡ true → IsPlugin s
is_plugin-true s h = ground (
  arith,
  is_empty_lem s,
  (equal_iff s (codes "Srp256")).0,
  (equal_iff s (codes "Srp")).0,
  (equal_iff s (codes "Legacy_Auth")).0,
)

is_plugin-false : (s : Bytes) → is_plugin s ≡ false → ¬ IsPlugin s
is_plugin-false s h p = ground (
  arith,
  (equal_iff s (codes "Srp256")).1,
  (equal_iff s (codes "Srp")).1,
  (equal_iff s (codes "Legacy_Auth")).1,
  ap (λ (t : Bytes). is_empty t) {x = s} {y = []},
)

queue_bound-some : (b : ℤ) (n : ℕ) → queue_bound b ≡ some n → IsQueue b n
unfolding queue_bound
queue_bound-some (negsuc k) n h = ground arith
queue_bound-some (pos k) n h = ground arith

queue_bound-none : (b : ℤ) → queue_bound b ≡ none → (n : ℕ) → ¬ IsQueue b n
unfolding queue_bound
queue_bound-none (negsuc k) h n q = ground arith
queue_bound-none (pos k) h n q = ground arith

path-IsClean :
    (path : Bytes)
    → is_empty path ≡ false
    → length path ≤ 1024
    → valid_string path ≡ true
    → database_filter path ≡ none
    → ¬ IsClean (runes path)
path-IsClean path full short valid e =
    ⊎_elim (λ n. absurd (ground (arith, ap (λ (t : Bytes). is_empty t) n)))
      (⊎_elim (λ n. absurd (omega arith)) (⊎_elim (λ n. absurd (ground arith)) (λ n. n)))
      (subst (IsAnswer path) e (database_filter-IsAnswer path))

module _ (stopped : Bool) (c : Config) where
  fields-IsReason :
      (is_empty c.address || is_empty c.user || is_empty c.database || is_empty c.name) ≡ true
      → IsReason stopped c fields_required
  fields-IsReason h = ground (
    arith,
    is_empty_lem c.address,
    is_empty_lem c.user,
    is_empty_lem c.database,
    is_empty_lem c.name,
  )

  limits-IsReason : is_long c ≡ true → IsReason stopped c limits_exceeded
  limits-IsReason h = ground arith

  encoding-IsReason : not (is_encoded c) ≡ true → IsReason stopped c invalid_encoding
  encoding-IsReason h = ground arith

  -- The checks of the filter and the queue, behind those of the texts.
  module _ (run : stopped ≡ false)
      (full : (is_empty c.address || is_empty c.user || is_empty c.database || is_empty c.name)
        ≡ false)
      (short : is_long c ≡ false) (encoded : not (is_encoded c) ≡ false)
      (line : has_line_break c.name ≡ false) (plugin : not (is_plugin c.auth_plugin) ≡ false) where
    accepted-IsStartable :
        (filter : Bytes) (n : ℕ)
        → database_filter c.database ≡ some filter
        → queue_bound c.buffer ≡ some n
        → IsStartable c (record { filter = filter; buffer = n })
    accepted-IsStartable filter n f q = record {
      address = (length-is_empty c.address (ground arith), ground arith, ground arith);
      user = (length-is_empty c.user (ground arith), ground arith, ground arith);
      password = (ground arith, ground arith);
      database = (length-is_empty c.database (ground arith), ground arith, ground arith);
      name = (length-is_empty c.name (ground arith), ground arith, ground arith);
      one_line = has_line_break-false c.name line;
      plugin = is_plugin-true c.auth_plugin (ground arith);
      filtered = subst (IsAnswer c.database) f (database_filter-IsAnswer c.database);
      queue = queue_bound-some c.buffer n q;
    }

    last-IsVerdict :
        IsVerdict stopped c (elim (database_filter c.database) as (λ _. Accepted ⊎ Refusal) [
          | none ↦ inr invalid_path
          | some filter ↦ elim (queue_bound c.buffer) as (λ _. Accepted ⊎ Refusal) [
            | none ↦ inr invalid_queue
            | some n ↦ inl (record { filter = filter; buffer = n })
          ]
        ])
    unfolding IsVerdict
    last-IsVerdict =
        option_rule (IsVerdict stopped c) (database_filter c.database)
          (path-IsClean c.database (ground arith) (ground arith) (ground arith))
          λ filter f.
            option_rule (IsVerdict stopped c) (queue_bound c.buffer) (queue_bound-none c.buffer)
              λ n q. (run, accepted-IsStartable filter n f q)

-- `Start` goes on to connect exactly with what it should: the address, the user, the database and the
-- name are there, all texts are valid and within their limits, the name is one line, the plugin is
-- known or left out, the filter is read as the pattern of the runes of the database's path, and the
-- queue holds the 1 to 256 events asked for, or 64 where 0 is. Each refusal has its reason in the
-- configuration, or in the context where that is what stopped `Start`.
pub check_start-IsVerdict :
    (stopped : Bool) (c : Config) → IsVerdict stopped c (check_start stopped c)
unfolding check_start IsVerdict
check_start-IsVerdict stopped c =
    let P : Accepted ⊎ Refusal → Type 0 = IsVerdict stopped c in
    if_rule P stopped (λ s. s)
      λ run.
        if_rule P (is_empty c.address || is_empty c.user || is_empty c.database || is_empty c.name)
          (fields-IsReason stopped c)
          λ full. if_rule P (is_long c) (limits-IsReason stopped c) λ short.
            if_rule P (not (is_encoded c)) (encoding-IsReason stopped c) λ encoded.
              if_rule P (has_line_break c.name) (has_line_break-true c.name) λ line.
                if_rule P (not (is_plugin c.auth_plugin))
                  (λ h. is_plugin-false c.auth_plugin (ground arith))
                  λ plugin. last-IsVerdict stopped c run full short encoded line plugin
