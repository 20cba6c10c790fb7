-- ===== src/Error.antt =====
-- backend/src/error.rs: `AppError` with the HTTP status, the numeric code and the name that
-- `into_response` gives it, and results that carry such an error.
-- The body's request identifier, a constant, and its `error_code`, which a message can refine, are
-- left out.
pub mod Codes
use entitle_hub.Base.{ℕ, ◌≡◌, refl, ◌⊎◌, inl, inr, Bool, true, false, Option, none, some, String}

-- Each variant carries the message that is logged.
pub data AppError : Type 0 where
  account_disabled : String → AppError
  already_revoked : String → AppError
  app_disabled : String → AppError
  app_not_found : String → AppError
  business_rule_failed : String → AppError
  config : String → AppError
  conflict : String → AppError
  crypto : String → AppError
  csrf_failed : String → AppError
  dependency : String → AppError
  device_blacklisted : String → AppError
  device_limit_exceeded : String → AppError
  device_not_found : String → AppError
  device_not_activated : String → AppError
  duplicate_email : String → AppError
  forbidden : String → AppError
  invite_token_invalid : String → AppError
  invalid_license_state : String → AppError
  invalid_release_state : String → AppError
  invalid_request : String → AppError
  invalid_script_state : String → AppError
  invalid_credentials : String → AppError
  license_expired : String → AppError
  license_invalid : String → AppError
  license_not_found : String → AppError
  rate_limited : String → AppError
  login_rate_limited : String → AppError
  password_reset_rate_limited : String → AppError
  activation_rate_limited : String → AppError
  refresh_reuse_detected : String → AppError
  refresh_rate_limited : String → AppError
  release_not_found : String → AppError
  mfa_already_enabled : String → AppError
  mfa_failed : String → AppError
  mfa_not_enabled : String → AppError
  mfa_required : String → AppError
  not_found : String → AppError
  notification_channel_name_exists : String → AppError
  password_reset_token_invalid : String → AppError
  session_expired : String → AppError
  signature_invalid : String → AppError
  signature_required : String → AppError
  script_not_found : String → AppError
  subscription_inactive : String → AppError
  tenant_forbidden : String → AppError
  tenant_not_found : String → AppError
  token_expired : String → AppError
  token_invalid : String → AppError
  unauthenticated : String → AppError
  user_not_found : String → AppError
  validation_failed : String → AppError
  weak_password : String → AppError

pub record ErrorResponse : Type 0 where
  pub status : ℕ
  pub code : ℕ
  pub message : String

abbrev response : ℕ → ℕ → String → ErrorResponse
response s c m = record { status = s; code = c; message = m }

-- `into_response`
pub into_response : AppError → ErrorResponse
into_response (account_disabled _) = response 403 40302 "account_disabled"
into_response (already_revoked _) = response 409 40906 "already_revoked"
into_response (app_disabled _) = response 403 40310 "app_disabled"
into_response (app_not_found _) = response 404 40403 "app_not_found"
into_response (business_rule_failed _) = response 422 42200 "business_rule_failed"
into_response (config _) = response 500 50000 "internal_error"
into_response (conflict _) = response 409 40900 "conflict"
into_response (crypto _) = response 500 50005 "crypto_error"
into_response (csrf_failed _) = response 403 40105 "csrf_failed"
into_response (dependency _) = response 503 50300 "service_unavailable"
into_response (device_blacklisted _) = response 403 40303 "device_blacklisted"
into_response (device_limit_exceeded _) = response 409 40904 "device_limit_exceeded"
into_response (device_not_found _) = response 404 40405 "device_not_found"
into_response (device_not_activated _) = response 403 40309 "device_not_activated"
into_response (duplicate_email _) = response 409 40901 "duplicate_email"
into_response (forbidden _) = response 403 40300 "forbidden"
into_response (invite_token_invalid _) = response 401 40110 "invite_token_invalid"
into_response (invalid_license_state _) = response 422 42202 "invalid_license_state"
into_response (invalid_release_state _) = response 422 42203 "invalid_release_state"
into_response (invalid_request _) = response 400 40000 "invalid_request"
into_response (invalid_script_state _) = response 422 42204 "invalid_script_state"
into_response (invalid_credentials _) = response 401 40102 "invalid_credentials"
into_response (license_expired _) = response 403 40305 "license_expired"
into_response (license_invalid _) = response 403 40304 "license_invalid"
into_response (license_not_found _) = response 404 40404 "license_not_found"
into_response (rate_limited _) = response 429 42900 "rate_limited"
into_response (login_rate_limited _) = response 429 42901 "login_rate_limited"
into_response (password_reset_rate_limited _) = response 429 42902 "password_reset_rate_limited"
into_response (activation_rate_limited _) = response 429 42903 "activation_rate_limited"
into_response (refresh_reuse_detected _) = response 401 40108 "refresh_reuse_detected"
into_response (refresh_rate_limited _) = response 429 42904 "refresh_rate_limited"
into_response (release_not_found _) = response 404 40406 "release_not_found"
into_response (mfa_already_enabled _) = response 422 42206 "mfa_already_enabled"
into_response (mfa_failed _) = response 401 40104 "mfa_failed"
into_response (mfa_not_enabled _) = response 422 42207 "mfa_not_enabled"
into_response (mfa_required _) = response 401 40103 "mfa_required"
into_response (not_found _) = response 404 40400 "not_found"
into_response (notification_channel_name_exists _) =
    response 409 40909 "notification_channel_name_exists"
into_response (password_reset_token_invalid _) = response 401 40109 "password_reset_token_invalid"
into_response (session_expired _) = response 401 40101 "session_expired"
into_response (signature_invalid _) = response 403 40308 "signature_invalid"
into_response (signature_required _) = response 403 40307 "signature_required"
into_response (script_not_found _) = response 404 40407 "script_not_found"
into_response (subscription_inactive _) = response 403 40306 "subscription_inactive"
into_response (tenant_forbidden _) = response 403 40301 "tenant_forbidden"
into_response (tenant_not_found _) = response 404 40401 "tenant_not_found"
into_response (token_expired _) = response 401 40106 "token_expired"
into_response (token_invalid _) = response 401 40107 "token_invalid"
into_response (unauthenticated _) = response 401 40100 "unauthenticated"
into_response (user_not_found _) = response 404 40402 "user_not_found"
into_response (validation_failed _) = response 400 40001 "validation_failed"
into_response (weak_password _) = response 422 42201 "weak_password"

-- `Result<T, AppError>`
pub data Result {κ} (T : Type κ) : Type κ where
  err : AppError → Result T
  ok : T → Result T

-- `if test { return Err(e) }`
abbrev pub reject_if : Bool → AppError → Result (Unit {0})
reject_if false _ = ok tt
reject_if true e = err e

-- `ok_or_else`
abbrev pub ok_or {κ} : {T : Type κ} → Option T → AppError → Result T
ok_or (some v) _ = ok v
ok_or none e = err e

-- `is_ok`
abbrev pub is_ok {κ} : {T : Type κ} → Result T → Bool
is_ok (err _) = false
is_ok (ok _) = true

-- The operator `?`: the rest of a function runs on success only.
infixl 5 ◌>>=◌
abbrev pub ◌>>=◌ {κ μ} : {T : Type κ} {S : Type μ} → Result T → (T → Result S) → Result S
err e >>= rest = err e
ok v >>= rest = rest v

-- A check whose value is not used.
infixl 5 ◌>>◌
abbrev pub ◌>>◌ {μ} : {S : Type μ} → Result (Unit {0}) → Result S → Result S
check >> rest = check >>= λ _. rest

pub Result-cases {ℓ} :
    {T : Type ℓ} (r : Result T) → ((v : T) × (r ≡ ok v)) ⊎ ((e : AppError) × (r ≡ err e))
Result-cases (err e) = inr (e, refl)
Result-cases (ok v) = inl (v, refl)
