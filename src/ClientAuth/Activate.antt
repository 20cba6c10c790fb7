-- ===== src/ClientAuth/Activate.antt =====
-- backend/src/modules/client_auth/activate.rs: the activation of a machine with a license key. The
-- handler's changes are one transaction, so it returns a store on success only. The two hashes, the
-- parser of public keys, the outcome of the rate limiter, the signer and the fresh identifiers are
-- parameters.
pub mod Seats
use entitle_hub.Base.{
  ℕ, ◌+◌, Bool, true, false, not, Option, none, some, List, String, str_eq, if◌then◌else◌,
}
use entitle_hub.Base.Json.{Json}
use entitle_hub.Base.Text.{trim, is_empty}
use entitle_hub.Error.{
  Result, ok, err, ◌>>=◌, ◌>>◌, reject_if, ok_or, not_found, app_disabled, invalid_request,
  validation_failed,
}
use entitle_hub.License.{License}
use entitle_hub.License.Service.{validate_license_key}
use entitle_hub.Device.{Device, DeviceBindInput, new_device_key}
use entitle_hub.Device.Binding.{BindDeviceResult, bind_for_license}
use entitle_hub.Session.{ClientSession, new_client_session, new_client_refresh_token}
use entitle_hub.Store.{Store, Application, AuditEntry, record_audit}
use entitle_hub.Store.Devices.{create_device_key}
use entitle_hub.Store.Licenses.{find_by_app_key}
use entitle_hub.Store.Sessions.{create_client_session, create_client_refresh_token}
use entitle_hub.ClientAuth.Refresh.{TokenTtls, Generated, Signer}

pub record ActivateRequest : Type 0 where
  pub app_key : String
  pub license_key : String
  pub machine_id : String
  pub device_name : Option String
  pub os : Option String
  pub app_version : Option String
  pub device_public_key : String

pub record ActivateResponse (V : Type 0) : Type 0 where
  pub access_token : String
  pub refresh_token : String
  pub expires_in : ℕ
  pub refresh_expires_in : ℕ
  pub session_id : ℕ
  pub device_id : ℕ
  pub device_key_id : Option ℕ
  pub subscription_id : Option ℕ
  pub entitlement_id : Option ℕ
  pub entitlement_kind : Option String
  pub entitlement_status : String
  pub entitlement_active : Bool
  pub features : V

-- The identifiers of the rows that an activation may write.
pub record FreshIds : Type 0 where
  pub device : ℕ
  pub device_key : ℕ
  pub session : ℕ

unfoldable pub validate_device_public_key : (String → Bool) → String → Result (Unit {0})
validate_device_public_key parses public_key =
    if is_empty (trim public_key)
    then err (validation_failed "device_public_key is required")
    else if parses (trim public_key)
    then ok tt
    else err (validation_failed "device_public_key invalid")

module _ {V : Type 0} (J : Json V) (ttls : TokenTtls) (parses : String → Bool)
    (fresh : FreshIds) where
  abbrev pub bind_input : Application → License V → ActivateRequest → DeviceBindInput V
  bind_input application license payload = record {
    tenant_id = application.tenant_id;
    app_id = application.id;
    customer_id = license.customer_id;
    license_id = some license.id;
    subscription_id = none;
    machine_id = payload.machine_id;
    device_name = payload.device_name;
    os = payload.os;
    app_version = payload.app_version;
    metadata = none;
  }

  -- A new device gets a key.
  unfoldable pub register_key :
      ℕ → Store V → Application → String → BindDeviceResult V → Result (Option ℕ × Store V)
  register_key now s application public_key bound =
      if bound.created
      then (do
        new ←
            new_device_key parses fresh.device_key application.tenant_id application.id
              bound.device.id public_key
        (key, t) ← create_device_key now s new
        ok (some key.id, t))
      else ok (none, s)

  -- A new device is recorded in the audit log.
  audit_device_create : Store V → BindDeviceResult V → Store V
  audit_device_create s bound =
      if bound.created
      then record_audit s (record {
        tenant_id = bound.device.tenant_id;
        actor_type = "device";
        actor_id = some bound.device.id;
        action = "device.create";
        resource_type = "device";
        resource_id = some bound.device.id;
      })
      else s

  -- The transaction.
  unfoldable pub activate_with :
      ℕ
      → Store V
      → ActivateRequest
      → Application
      → License V
      → (refresh_token refresh_token_hash : String) → (refresh_id : ℕ) → Signer
      → Result (ActivateResponse V × Store V)
  unfolding register_key audit_device_create
  activate_with now s payload application license refresh_token refresh_hash refresh_id signer = do
    (bound, s₁) ←
        bind_for_license J now fresh.device s (bind_input application license payload) license
    (device_key_id, s₂) ← register_key now s₁ application payload.device_public_key bound
    (session, s₃) ← create_client_session now s₂ (
        new_client_session fresh.session application.tenant_id application.id license.customer_id
          bound.device.id bound.device.machine_id "license" (now + ttls.session))
    (_, s₄) ←
        create_client_refresh_token now s₃
          (new_client_refresh_token refresh_id session.id refresh_hash (now + ttls.refresh))
    access_token ← signer session now
    ok (
      record {
        access_token = access_token;
        refresh_token = refresh_token;
        expires_in = ttls.access;
        refresh_expires_in = ttls.refresh;
        session_id = session.id;
        device_id = bound.device.id;
        device_key_id = device_key_id;
        subscription_id = none;
        entitlement_id = some license.id;
        entitlement_kind = some "license";
        entitlement_status = license.status;
        entitlement_active = true;
        features = license.features;
      },
      audit_device_create s₄ bound,
    )

  unfoldable pub activate :
      (hash_license hash_refresh : String → Result String) (limiter : Result (Unit {0}))
      (prepare_signer : Result Signer) (refresh : Generated) (now : ℕ) (s : Store V)
      (payload : ActivateRequest)
      → Result (ActivateResponse V × Store V)
  unfolding validate_device_public_key activate_with
  activate hash_license hash_refresh limiter prepare_signer refresh now s payload = do
    limiter
    validate_device_public_key parses payload.device_public_key
    application ←
        ok_or (find_by_app_key s (trim payload.app_key)) (not_found "application not found")
    reject_if (not (str_eq application.status "active")) (app_disabled "application disabled")
    reject_if (str_eq application.auth_mode "subscription")
        (invalid_request "application does not allow license activation")
    license ←
        validate_license_key hash_license s.licenses application.tenant_id application.id
          payload.license_key now
    refresh_hash ← hash_refresh refresh.token
    signer ← prepare_signer
    activate_with now s payload application license refresh.token refresh_hash refresh.id signer
