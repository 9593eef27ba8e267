-- ===== src/Config/Normal.antt =====
-- What a configuration has that `normalizeConfig` (config.go) accepts.
use firebirdsql_otel.Common.{
  ℕ, ◌≤◌, ◌≡◌, ◌⊎◌, inl, inr, refl, true, false, ◌&&◌, ◌||◌, not, Option, none, some, List, [], ◌∷◌,
  length, leb, if_rule, Bool-cases, arith,
}
use firebirdsql_otel.Common.Int.{ℤ, pos, negsuc}
use firebirdsql_otel.Text.{Bytes, equal, equal_iff, is_empty, valid_string}
use firebirdsql_otel.Sql.Describe.{max_input, max_output}
use firebirdsql_otel.Config.{
  Foreign, Config, ConfigError, compatibility, safe_client, diagnostic, sql_off, sql_sanitized,
  sql_raw_explicit, is_set, outside, default_profile, default_mode, default_limits, is_profile,
  is_mode, check_limits, check_mode, check_profile, normalize_config,
}

-- The integer is one of the naturals between the bounds.
abbrev pub Between : ℕ → ℕ → ℤ → Type 0
Between low high i = (n : ℕ) × ((i ≡ pos n) × ((low ≤ n) × (n ≤ high)))

module _ {f : Foreign} where
  pub record IsNormal (c : Config f) : Type 0 where
    pub profile :
        (c.profile ≡ compatibility) ⊎ ((c.profile ≡ safe_client) ⊎ (c.profile ≡ diagnostic))
    pub mode :
        (c.sql.mode ≡ sql_off) ⊎ ((c.sql.mode ≡ sql_sanitized) ⊎ (c.sql.mode ≡ sql_raw_explicit))
    pub input : Between 1 max_input c.sql.max_input_bytes
    pub output : Between 1 max_output c.sql.max_output_bytes
    pub host : valid_string c.connection.host ≡ true
    pub namespace : valid_string c.connection.namespace ≡ true
    pub port : Between 0 65535 c.connection.port
    pub namespace_length : length c.connection.namespace ≤ 256
    pub host_length : length c.connection.host ≤ 253
    pub spans : length c.span_attributes ≤ 32
    pub metrics : length c.metric_attributes ≤ 16
    pub compatible :
        c.profile ≡ compatibility
        → (c.server_trace ≡ none) × ((c.profiler.enabled ≡ false) × (c.profiler.starter ≡ none))
    pub profiled : c.profiler.enabled ≡ true → is_set c.profiler.starter ≡ true
    pub safe : (c.profile ≡ compatibility) ⊎ (c.otel_options ≡ [])

outside-Between : (low high : ℕ) (i : ℤ) → outside low high i ≡ false → Between low high i
unfolding outside
outside-Between low high (pos n) h = (n, (refl, (ground arith, ground arith)))
outside-Between low high (negsuc n) h = ground arith

is_empty-nil {ℓ} : {A : Type ℓ} (xs : List A) → is_empty xs ≡ true → xs ≡ []
is_empty-nil [] h = refl
is_empty-nil (x ∷ xs) h = ground arith

is_set-none {ℓ} : {A : Type ℓ} (o : Option A) → is_set o ≡ false → o ≡ none
is_set-none none h = refl
is_set-none (some a) h = ground arith

one_of_three :
    (s a b c : Bytes)
    → (equal s a || (equal s b || equal s c)) ≡ true
    → (s ≡ a) ⊎ ((s ≡ b) ⊎ (s ≡ c))
one_of_three s a b c h = elim (Bool-cases (equal s a)) [
  | inl e ↦ inl ((equal_iff s a).0 e)
  | inr e ↦ elim (Bool-cases (equal s b)) [
    | inl e' ↦ inr (inl ((equal_iff s b).0 e'))
    | inr e' ↦ inr (inr ((equal_iff s c).0 (ground arith)))
  ]
]

module _ {f : Foreign} where
  -- What the checks in front of the limits leave known.
  record IsChecked (c : Config f) : Type 0 where
    profile : is_profile c.profile ≡ true
    compatible :
        (equal c.profile compatibility
          && (is_set c.server_trace || (c.profiler.enabled || is_set c.profiler.starter)))
        ≡ false
    profiled : (c.profiler.enabled && not (is_set c.profiler.starter)) ≡ false
    options : (not (equal c.profile compatibility) && not (is_empty c.otel_options)) ≡ false

  abbrev Accepted : Config f × Option ConfigError → Type 0
  Accepted r = r.1 ≡ none → IsNormal r.0

  checked-compatible :
      (c : Config f)
      → IsChecked c
      → c.profile ≡ compatibility
      → (c.server_trace ≡ none) × ((c.profiler.enabled ≡ false) × (c.profiler.starter ≡ none))
  checked-compatible c k e =
      let same = (equal_iff c.profile compatibility).1 e in
      let none_set = k.compatible in
      (
        is_set-none c.server_trace (ground arith),
        (ground arith, is_set-none c.profiler.starter (ground arith)),
      )

  checked-safe : (c : Config f) → IsChecked c → (c.profile ≡ compatibility) ⊎ (c.otel_options ≡ [])
  checked-safe c k =
      let free = k.options in
      elim (Bool-cases (equal c.profile compatibility)) [
        | inl e ↦ inl ((equal_iff c.profile compatibility).0 e)
        | inr e ↦ inr (is_empty-nil c.otel_options (ground arith))
      ]

  check_limits-Accepted :
      (c : Config f) → IsChecked c → is_mode c.sql.mode ≡ true → Accepted (check_limits c)
  unfolding check_limits is_mode is_profile
  check_limits-Accepted c k m =
      if_rule Accepted
        (outside 1 max_input c.sql.max_input_bytes || outside 1 max_output c.sql.max_output_bytes)
        (λ _ e. ground arith)
        λ limits.
          if_rule Accepted
            (not (valid_string c.connection.host) || not (valid_string c.connection.namespace))
            (λ _ e. ground arith)
            λ texts.
              if_rule Accepted (outside 0 65535 c.connection.port) (λ _ e. ground arith)
                λ port.
                  if_rule Accepted
                    (not (leb (length c.connection.namespace) 256)
                      || (not (leb (length c.connection.host) 253)
                          || (not (leb (length c.span_attributes) 32)
                              || not (leb (length c.metric_attributes) 16))))
                    (λ _ e. ground arith)
                    λ sizes e. record {
                      profile =
                          one_of_three c.profile compatibility safe_client diagnostic k.profile;
                      mode = one_of_three c.sql.mode sql_off sql_sanitized sql_raw_explicit m;
                      input = outside-Between 1 max_input c.sql.max_input_bytes (ground arith);
                      output = outside-Between 1 max_output c.sql.max_output_bytes (ground arith);
                      host = ground arith;
                      namespace = ground arith;
                      port = outside-Between 0 65535 c.connection.port port;
                      namespace_length = ground arith;
                      host_length = ground arith;
                      spans = ground arith;
                      metrics = ground arith;
                      compatible = checked-compatible c k;
                      profiled = let p = k.profiled in λ h. ground arith;
                      safe = checked-safe c k;
                    }

  check_mode-Accepted : (c : Config f) → IsChecked c → Accepted (check_mode c)
  unfolding check_mode default_limits
  check_mode-Accepted c k =
      if_rule Accepted (not (is_mode c.sql.mode)) (λ _ e. ground arith)
        λ m.
          check_limits-Accepted (default_limits c)
            (record {
              profile = k.profile;
              compatible = k.compatible;
              profiled = k.profiled;
              options = k.options;
            })
            (ground arith)

  default_mode-IsChecked : (c : Config f) → IsChecked c → IsChecked (default_mode c)
  unfolding default_mode
  default_mode-IsChecked c k =
      if_rule IsChecked (is_empty c.sql.mode)
        (λ _. record {
          profile = k.profile;
          compatible = k.compatible;
          profiled = k.profiled;
          options = k.options;
        })
        λ _. k

  check_profile-Accepted : (c : Config f) → Accepted (check_profile c)
  unfolding check_profile
  check_profile-Accepted c =
      if_rule Accepted (not (is_profile c.profile)) (λ _ e. ground arith)
        λ profile.
          if_rule Accepted
            (equal c.profile compatibility
              && (is_set c.server_trace || (c.profiler.enabled || is_set c.profiler.starter)))
            (λ _ e. ground arith)
            λ compatible.
              if_rule Accepted (c.profiler.enabled && not (is_set c.profiler.starter))
                (λ _ e. ground arith)
                λ profiled.
                  if_rule Accepted
                    (not (equal c.profile compatibility) && not (is_empty c.otel_options))
                    (λ _ e. ground arith)
                    λ options. check_mode-Accepted (default_mode c) (
                      default_mode-IsChecked c (record {
                        profile = ground arith;
                        compatible = compatible;
                        profiled = profiled;
                        options = options;
                      }))

  -- A configuration that normalizeConfig accepts has a known profile and SQL mode, limits within
  -- the bounds, valid texts, a valid port and bounded attributes; the compatibility profile has no
  -- server diagnostics, any other no options, and an enabled profiler has a starter.
  pub normalize_config-IsNormal :
      (c : Config f) → (normalize_config c).1 ≡ none → IsNormal (normalize_config c).0
  unfolding normalize_config
  normalize_config-IsNormal c = check_profile-Accepted (default_profile c)
