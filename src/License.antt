-- ===== src/License.antt =====
-- backend/src/modules/license/model.rs: the license record and the validation of inputs.
-- Instants are natural numbers, identifiers too. `Uuid::new_v4()` and `Utc::now()` are arguments.
pub mod Service
pub mod Laws
use entitle_hub.Base.{
  ℕ, ◌≤◌, ◌≡◌, Bool, ◌||◌, not, Option, none, some, String, str_eq, leb, ltb, if◌then◌else◌,
  unwrap_or,
}
use entitle_hub.Base.Int.{ℤ, pos, ltb_ℤ}
use entitle_hub.Base.Json.{Json}
use entitle_hub.Base.Text.{trim, is_empty, char_count}
use entitle_hub.Error.{Result, ok, err, validation_failed, ◌>>=◌, ◌>>◌}

pub record License (V : Type 0) : Type 0 where
  pub id : ℕ
  pub tenant_id : ℕ
  pub app_id : ℕ
  pub customer_id : Option ℕ
  pub license_key_hash : String
  pub license_type : String
  pub status : String
  pub max_devices : ℤ
  pub features : V
  pub starts_at : Option ℕ
  pub expires_at : Option ℕ
  pub revoked_at : Option ℕ
  pub metadata : V
  pub created_at : ℕ
  pub updated_at : ℕ
  pub deleted_at : Option ℕ

pub record NewLicense (V : Type 0) : Type 0 where
  pub id : ℕ
  pub tenant_id : ℕ
  pub app_id : ℕ
  pub customer_id : Option ℕ
  pub license_key_hash : String
  pub license_type : String
  pub max_devices : ℤ
  pub features : V
  pub starts_at : Option ℕ
  pub expires_at : Option ℕ
  pub metadata : V

pub record CreateLicenseInput (V : Type 0) : Type 0 where
  pub app_id : ℕ
  pub customer_id : Option ℕ
  pub license_type : Option String
  pub max_devices : Option ℤ
  pub features : Option V
  pub starts_at : Option ℕ
  pub expires_at : Option ℕ
  pub metadata : Option V

pub is_license_type : String → Bool
is_license_type t = str_eq t "standard" || str_eq t "trial" || str_eq t "enterprise"

-- `to_lowercase` of the standard library is the parameter `lower`.
lowered : (String → String) → Option String → String
lowered lower none = "standard"
lowered lower (some t) = let s = lower (trim t) in if is_empty s then "standard" else s

pub normalize_license_type : (String → String) → Option String → Result String
unfolding is_license_type lowered
normalize_license_type lower given =
    if is_license_type (lowered lower given)
    then ok (lowered lower given)
    else err (validation_failed "license type is invalid")

unfoldable pub normalize_features : {V : Type 0} → Json V → Option V → Result V
normalize_features J given =
    if J.is_array (unwrap_or given J.empty_array)
    then ok (unwrap_or given J.empty_array)
    else err (validation_failed "features must be an array")

pub validate_license_window : Option ℕ → Option ℕ → Result (Unit {0})
validate_license_window (some start) (some expiry) =
    if leb expiry start
    then err (validation_failed "expires_at must be greater than starts_at")
    else ok tt
validate_license_window none _ = ok tt
validate_license_window (some start) none = ok tt

unfoldable pub validate_max_devices : ℤ → Result (Unit {0})
validate_max_devices n =
    if ltb_ℤ n (pos 0)
    then err (validation_failed "max_devices must be greater than or equal to 0")
    else ok tt

-- `input.starts_at.or_else(|| Some(Utc::now()))`
or_now : Option ℕ → ℕ → Option ℕ
or_now (some t) now = some t
or_now none now = some now

-- `NewLicense::from_input`
unfoldable pub from_input :
    {V : Type 0}
    → Json V
    → (String → String)
    → (id now tenant_id : ℕ) → CreateLicenseInput V
    → String
    → Result (NewLicense V)
unfolding normalize_license_type normalize_features validate_license_window validate_max_devices
    or_now
from_input J lower id now tenant_id input key_hash = do
  license_type ← normalize_license_type lower input.license_type
  let max_devices = unwrap_or input.max_devices (pos 1)
  validate_max_devices max_devices
  features ← normalize_features J input.features
  let starts_at = or_now input.starts_at now
  validate_license_window starts_at input.expires_at
  ok (record {
    id = id;
    tenant_id = tenant_id;
    app_id = input.app_id;
    customer_id = input.customer_id;
    license_key_hash = key_hash;
    license_type = license_type;
    max_devices = max_devices;
    features = features;
    starts_at = starts_at;
    expires_at = input.expires_at;
    metadata = unwrap_or input.metadata J.empty_object;
  })

-- A license may be listed by one of these states, or by none.
pub validate_license_status_filter : Option String → Result (Unit {0})
validate_license_status_filter none = ok tt
validate_license_status_filter (some s) =
    if str_eq s "active" || str_eq s "suspended" || str_eq s "revoked" || str_eq s "expired"
    then ok tt
    else err (validation_failed "license status is invalid")

unfoldable pub validate_renew_expires_at : {V : Type 0} → License V → ℕ → Result (Unit {0})
unfolding validate_license_window
validate_renew_expires_at current expires_at =
    validate_license_window current.starts_at (some expires_at)

-- `.map(trim).filter(not empty)`
trimmed : Option String → Option String
trimmed none = none
trimmed (some s) = let t = trim s in if is_empty t then none else some t

limit_reason : Option String → Result String
limit_reason none = err (validation_failed "reason is required")
limit_reason (some s) =
    if ltb 500 (char_count s) then err (validation_failed "reason is too long") else ok s

unfoldable pub normalize_reset_device_reason : Option String → Result String
unfolding trimmed limit_reason
normalize_reset_device_reason reason = limit_reason (trimmed reason)
