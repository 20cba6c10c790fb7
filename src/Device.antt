-- ===== src/Device.antt =====
-- backend/src/modules/device/model.rs: devices, their keys, and the validation of inputs.
pub mod Binding
use entitle_hub.Base.{ℕ, Bool, ◌||◌, Option, none, some, String, str_eq, if◌then◌else◌, unwrap_or}
use entitle_hub.Base.Json.{Json}
use entitle_hub.Base.Text.{trim, is_empty}
use entitle_hub.Error.{Result, ok, err, validation_failed, ◌>>=◌, ◌>>◌}

pub record Device (V : Type 0) : Type 0 where
  pub id : ℕ
  pub tenant_id : ℕ
  pub app_id : ℕ
  pub customer_id : Option ℕ
  pub license_id : Option ℕ
  pub subscription_id : Option ℕ
  pub machine_id : String
  pub device_name : Option String
  pub os : Option String
  pub app_version : Option String
  pub status : String
  pub first_seen_at : ℕ
  pub last_seen_at : Option ℕ
  pub metadata : V
  pub created_at : ℕ
  pub updated_at : ℕ
  pub deleted_at : Option ℕ

pub record NewDevice (V : Type 0) : Type 0 where
  pub id : ℕ
  pub tenant_id : ℕ
  pub app_id : ℕ
  pub customer_id : Option ℕ
  pub license_id : Option ℕ
  pub subscription_id : Option ℕ
  pub machine_id : String
  pub device_name : Option String
  pub os : Option String
  pub app_version : Option String
  pub metadata : V

pub record DeviceBindInput (V : Type 0) : Type 0 where
  pub tenant_id : ℕ
  pub app_id : ℕ
  pub customer_id : Option ℕ
  pub license_id : Option ℕ
  pub subscription_id : Option ℕ
  pub machine_id : String
  pub device_name : Option String
  pub os : Option String
  pub app_version : Option String
  pub metadata : Option V

pub record DeviceKey : Type 0 where
  pub id : ℕ
  pub tenant_id : ℕ
  pub app_id : ℕ
  pub device_id : ℕ
  pub public_key : String
  pub algorithm : String
  pub status : String
  pub created_at : ℕ
  pub rotated_at : Option ℕ
  pub revoked_at : Option ℕ

pub record NewDeviceKey : Type 0 where
  pub id : ℕ
  pub tenant_id : ℕ
  pub app_id : ℕ
  pub device_id : ℕ
  pub public_key : String

unfoldable pub normalize_machine_id : String → Result String
normalize_machine_id m =
    if is_empty (trim m) then err (validation_failed "machine_id is required") else ok (trim m)

unfoldable pub clean_optional : Option String → Option String
clean_optional none = none
clean_optional (some s) = if is_empty (trim s) then none else some (trim s)

-- `NewDevice::from_bind_input`; the identifier is fresh.
unfoldable pub from_bind_input :
    {V : Type 0} → Json V → ℕ → DeviceBindInput V → Result (NewDevice V)
unfolding normalize_machine_id clean_optional
from_bind_input J id input = do
  machine_id ← normalize_machine_id input.machine_id
  ok (record {
    id = id;
    tenant_id = input.tenant_id;
    app_id = input.app_id;
    customer_id = input.customer_id;
    license_id = input.license_id;
    subscription_id = input.subscription_id;
    machine_id = machine_id;
    device_name = clean_optional input.device_name;
    os = clean_optional input.os;
    app_version = clean_optional input.app_version;
    metadata = unwrap_or input.metadata J.empty_object;
  })

-- `NewDeviceKey::new`. Whether a text parses as an Ed25519 public key is the parameter `parses`.
unfoldable pub new_device_key :
    (String → Bool) → (id tenant_id app_id device_id : ℕ) → String → Result NewDeviceKey
new_device_key parses id tenant_id app_id device_id public_key =
    if is_empty (trim public_key)
    then err (validation_failed "device_public_key is required")
    else if parses (trim public_key)
    then ok (record {
      id = id;
      tenant_id = tenant_id;
      app_id = app_id;
      device_id = device_id;
      public_key = trim public_key;
    })
    else err (validation_failed "device_public_key invalid")

pub validate_device_status_filter : Option String → Result (Unit {0})
validate_device_status_filter none = ok tt
validate_device_status_filter (some s) =
    if str_eq s "active" || str_eq s "disabled" || str_eq s "blacklisted" || str_eq s "unbound"
    then ok tt
    else err (validation_failed "device status is invalid")
