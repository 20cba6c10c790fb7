-- ===== src/Error/Codes.antt =====
-- What the numeric code of an error says about its HTTP status.
use entitle_hub.Base.{◌/◌, ◌≡◌, refl}
use entitle_hub.Error.{
  AppError, into_response, account_disabled, already_revoked, app_disabled, app_not_found,
  business_rule_failed, config, conflict, crypto, csrf_failed, dependency, device_blacklisted,
  device_limit_exceeded, device_not_found, device_not_activated, duplicate_email, forbidden,
  invite_token_invalid, invalid_license_state, invalid_release_state, invalid_request,
  invalid_script_state, invalid_credentials, license_expired, license_invalid, license_not_found,
  rate_limited, login_rate_limited, password_reset_rate_limited, activation_rate_limited,
  refresh_reuse_detected, refresh_rate_limited, release_not_found, mfa_already_enabled, mfa_failed,
  mfa_not_enabled, mfa_required, not_found, notification_channel_name_exists,
  password_reset_token_invalid, session_expired, signature_invalid, signature_required,
  script_not_found, subscription_inactive, tenant_forbidden, tenant_not_found, token_expired,
  token_invalid, unauthenticated, user_not_found, validation_failed, weak_password,
}

-- All variants but the failed CSRF check.
abbrev pub IsRegular : AppError → Type 0
IsRegular (csrf_failed m) = ⊥
IsRegular _ = Unit

-- The leading three digits of the numeric code are the HTTP status, for every error but the
-- failed CSRF check.
pub code-status :
    (e : AppError) → IsRegular e → (into_response e).code / 100 ≡ (into_response e).status
unfolding into_response
code-status (account_disabled m) h = refl
code-status (already_revoked m) h = refl
code-status (app_disabled m) h = refl
code-status (app_not_found m) h = refl
code-status (business_rule_failed m) h = refl
code-status (config m) h = refl
code-status (conflict m) h = refl
code-status (crypto m) h = refl
code-status (csrf_failed m) h = absurd h
code-status (dependency m) h = refl
code-status (device_blacklisted m) h = refl
code-status (device_limit_exceeded m) h = refl
code-status (device_not_found m) h = refl
code-status (device_not_activated m) h = refl
code-status (duplicate_email m) h = refl
code-status (forbidden m) h = refl
code-status (invite_token_invalid m) h = refl
code-status (invalid_license_state m) h = refl
code-status (invalid_release_state m) h = refl
code-status (invalid_request m) h = refl
code-status (invalid_script_state m) h = refl
code-status (invalid_credentials m) h = refl
code-status (license_expired m) h = refl
code-status (license_invalid m) h = refl
code-status (license_not_found m) h = refl
code-status (rate_limited m) h = refl
code-status (login_rate_limited m) h = refl
code-status (password_reset_rate_limited m) h = refl
code-status (activation_rate_limited m) h = refl
code-status (refresh_reuse_detected m) h = refl
code-status (refresh_rate_limited m) h = refl
code-status (release_not_found m) h = refl
code-status (mfa_already_enabled m) h = refl
code-status (mfa_failed m) h = refl
code-status (mfa_not_enabled m) h = refl
code-status (mfa_required m) h = refl
code-status (not_found m) h = refl
code-status (notification_channel_name_exists m) h = refl
code-status (password_reset_token_invalid m) h = refl
code-status (session_expired m) h = refl
code-status (signature_invalid m) h = refl
code-status (signature_required m) h = refl
code-status (script_not_found m) h = refl
code-status (subscription_inactive m) h = refl
code-status (tenant_forbidden m) h = refl
code-status (tenant_not_found m) h = refl
code-status (token_expired m) h = refl
code-status (token_invalid m) h = refl
code-status (unauthenticated m) h = refl
code-status (user_not_found m) h = refl
code-status (validation_failed m) h = refl
code-status (weak_password m) h = refl
