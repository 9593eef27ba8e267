-- ===== src/Errors.antt =====
-- The classification of errors (errors.go). An error is a value of the driver or of a package
-- outside the repository: `Errors` has the tests that package errors makes of it.
mod Tests
use firebirdsql_otel.Common.{
  ℕ, zero, suc, ◌≤◌, ◌≡◌, ◌≢◌, refl, Bool, true, false, ◌&&◌, ◌||◌, not, Option, none, some, List,
  [], ◌∷◌, length, take, leb, ltb, ◌==◌, within, if◌then◌else◌, if_rule, length-take, min, arith,
}
use firebirdsql_otel.Common.Int.{ℤ}
use firebirdsql_otel.Text.{Bytes, codes, is_ascii_digit}

-- firebirdsql.FbError
pub record FbError : Type 0 where
  pub sql_code : ℤ
  pub sql_state : Bytes
  pub gds_codes : List ℤ

-- What `errors.Is` compares an error with.
pub data Sentinel : Type 0 where
  skip canceled deadline_exceeded instrumentation_failure bad_conn eof unexpected_eof unsupported :
      Sentinel

-- `errors.As` for an FbError returns the pointer that it found, which may be nil.
pub record Errors : Type 1 where
  pub Error : Type 0
  pub is : Error → Sentinel → Bool
  pub as_fb_error : Error → Option (Option FbError)
  pub is_net_error : Error → Bool

pub data Outcome : Type 0 where
  ok_outcome unsupported_outcome cancelled_outcome deadline_outcome instrumentation_outcome :
      Outcome
  connection_outcome server_outcome network_outcome unknown_outcome : Outcome

abbrev is_ok : Outcome → Bool
is_ok ok_outcome = true
is_ok _ = false

abbrev found {ℓ} : {A : Type ℓ} → Option A → Bool
found none = false
found (some _) = true

-- What an error is reported by; the fields are the attributes in their order.
pub record Report : Type 0 where
  pub kind : Outcome
  pub sql_code : Option ℤ
  pub sql_state : Option Bytes
  pub gds_codes : Option (List ℤ)

module _ (l : Errors) where
  -- `outcome`; a nil error is none
  unfoldable pub outcome : Option l.Error → Outcome
  outcome none = ok_outcome
  outcome (some e) =
      if l.is e skip
      then unsupported_outcome
      else if l.is e canceled
      then cancelled_outcome
      else if l.is e deadline_exceeded
      then deadline_outcome
      else if l.is e instrumentation_failure
      then instrumentation_outcome
      else if l.is e bad_conn || (l.is e eof || l.is e unexpected_eof)
      then connection_outcome
      else if l.is e unsupported
      then unsupported_outcome
      else if found (l.as_fb_error e)
      then server_outcome
      else if l.is_net_error e
      then network_outcome
      else unknown_outcome

  all_state : Bytes → Bool
  all_state [] = true
  all_state (c ∷ s) = (is_ascii_digit c || within b'A' b'Z' c) && all_state s

  -- sqlStatePattern
  state_of : Bytes → Option Bytes
  unfolding all_state
  state_of s = if length s == 5 && all_state s then some s else none

  report_of : Outcome → Option (Option FbError) → Report
  unfolding state_of
  report_of kind (some (some fb)) = record {
    kind = kind;
    sql_code = some fb.sql_code;
    sql_state = state_of fb.sql_state;
    gds_codes = some (take 16 fb.gds_codes);
  }
  report_of kind _ = record { kind = kind; sql_code = none; sql_state = none; gds_codes = none }

  -- `errors.As` finds nothing in a nil error.
  abbrev fb_error_of : Option l.Error → Option (Option FbError)
  fb_error_of none = none
  fb_error_of (some e) = l.as_fb_error e

  -- `ErrorAttributes`
  unfoldable pub error_attributes : Option l.Error → Option Report
  unfolding outcome report_of
  error_attributes err =
      let kind = outcome err in if is_ok kind then none else some (report_of kind (fb_error_of err))

abbrev Holds {ℓ} : {A : Type ℓ} → (A → Type 0) → Option A → Type 0
Holds P none = Unit
Holds P (some a) = P a

-- A report has another kind than ok, at most 16 codes, and five bytes of a state.
pub record IsReported (r : Report) : Type 0 where
  pub kind : r.kind ≢ ok_outcome
  pub state : Holds (λ s. length s ≡ 5) r.sql_state
  pub gds_codes : Holds (λ (cs : List ℤ). length cs ≤ 16) r.gds_codes

module _ (l : Errors) where
  outcome-is_ok : (e : l.Error) → is_ok (outcome l (some e)) ≡ false
  unfolding outcome
  outcome-is_ok e = ground arith

  outcome-ne-ok : (e : l.Error) → outcome l (some e) ≢ ok_outcome
  unfolding outcome
  outcome-ne-ok e = ground arith

  length-state_of : (s : Bytes) → Holds (λ t. length t ≡ 5) (state_of l s)
  unfolding state_of
  length-state_of s =
      if_rule (Holds (λ t. length t ≡ 5)) (length s == 5 && all_state l s) (λ h. ground arith)
        λ _. tt

  report_of-IsReported :
      (k : Outcome) (fb : Option (Option FbError)) → k ≢ ok_outcome → IsReported (report_of l k fb)
  unfolding report_of
  report_of-IsReported k none h = record { kind = h; state = tt; gds_codes = tt }
  report_of-IsReported k (some none) h = record { kind = h; state = tt; gds_codes = tt }
  report_of-IsReported k (some (some fb)) h = record {
    kind = h;
    state = length-state_of fb.sql_state;
    gds_codes = omega (arith, length-take 16 fb.gds_codes);
  }

  -- An error is reported, and no report has the kind ok, more than 16 codes or a state of another
  -- length than five.
  pub error_attributes-IsReported :
      (e : l.Error) → (r : Report) × ((error_attributes l (some e) ≡ some r) × IsReported r)
  unfolding error_attributes
  error_attributes-IsReported e = (
    report_of l (outcome l (some e)) (l.as_fb_error e),
    (
      ground (arith, outcome-is_ok e),
      report_of-IsReported (outcome l (some e)) (l.as_fb_error e) (outcome-ne-ok e),
    ),
  )
