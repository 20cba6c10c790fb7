-- ===== src/ClientAuth.antt =====
-- backend/src/modules/client_auth/session.rs: the entitlement of a device, and the gate that every
-- client request passes. The claims of a token whose signature is verified are an argument.
pub mod Refresh
pub mod Activate
pub mod Login
pub mod Presence
pub mod Recovery
pub mod Passes
pub mod Gate
pub mod Reuse
use entitle_hub.Base.{
  ℕ, Bool, true, false, ◌&&◌, ◌||◌, not, Option, none, some, String, str_eq, ◌==◌, leb,
  if◌then◌else◌, is_some, unwrap_or,
}
use entitle_hub.Base.Json.{Json}
use entitle_hub.Error.{
  Result, ok, err, ◌>>=◌, ◌>>◌, reject_if, ok_or, is_ok, session_expired, tenant_forbidden,
  app_not_found, app_disabled, device_not_found, device_blacklisted, device_not_activated,
  license_not_found, license_invalid, token_invalid, subscription_inactive,
}
use entitle_hub.License.{License}
use entitle_hub.License.Service.{validate_license_record}
use entitle_hub.Subscription.{Subscription}
use entitle_hub.Subscription.Service.{validate_subscription_record}
use entitle_hub.Device.{Device}
use entitle_hub.Session.{ClientSession}
use entitle_hub.Store.{Store, Application, Tenant}
use entitle_hub.Store.Devices.{find_device_by_id}
use entitle_hub.Store.Licenses.{
  find_license_by_id, find_subscription_by_id, find_application_by_id, find_tenant_by_id,
}
use entitle_hub.Store.Sessions.{find_session_by_id}

pub record ClientEntitlement (V : Type 0) : Type 0 where
  pub id : ℕ
  pub kind : String
  pub status : String
  pub active : Bool
  pub features : V
  pub expires_at : Option ℕ

pub record ClientContext (V : Type 0) : Type 0 where
  pub session_id : ℕ
  pub tenant_id : ℕ
  pub app_id : ℕ
  pub customer_id : Option ℕ
  pub device_id : ℕ
  pub machine_id : String
  pub auth_mode : String
  pub entitlement_id : Option ℕ
  pub entitlement_kind : Option String
  pub entitlement_status : String
  pub entitlement_active : Bool
  pub features : V
  pub entitlement_expires_at : Option ℕ

-- What the gate reads of `ClientAccessClaims`.
pub record ClientAccessClaims : Type 0 where
  pub session_id : ℕ
  pub tenant_id : ℕ
  pub app_id : ℕ
  pub device_id : ℕ
  pub machine_id : String

-- `as_deref() == Some("subscription")`
unfoldable pub is_subscription : Option String → Bool
is_subscription none = false
is_subscription (some kind) = str_eq kind "subscription"

module _ {V : Type 0} where
  unfoldable pub ensure_active_tenant : Store V → ℕ → Result (Unit {0})
  ensure_active_tenant s tenant_id = do
    tenant ← ok_or (find_tenant_by_id s tenant_id) (session_expired "session expired")
    reject_if (not (str_eq tenant.status "active")) (tenant_forbidden "tenant forbidden")

  pub license_entitlement : License V → ℕ → ClientEntitlement V
  license_entitlement l now = record {
    id = l.id;
    kind = "license";
    status = l.status;
    active = is_ok (validate_license_record l now);
    features = l.features;
    expires_at = l.expires_at;
  }

  pub subscription_entitlement : Subscription V → ℕ → ClientEntitlement V
  subscription_entitlement u now = record {
    id = u.id;
    kind = "subscription";
    status = u.status;
    active = is_ok (validate_subscription_record u now);
    features = u.features;
    expires_at = u.expires_at;
  }

  -- The license first, then the subscription.
  entitlement_of :
      Store V
      → (tenant_id now : ℕ) (license_id subscription_id : Option ℕ)
      → Result (Option (ClientEntitlement V))
  unfolding license_entitlement subscription_entitlement
  entitlement_of s tenant_id now (some id) _ = do
    license ← ok_or (find_license_by_id s tenant_id id) (license_not_found "license not found")
    ok (some (license_entitlement license now))
  entitlement_of s tenant_id now none (some id) = do
    subscription ←
        ok_or (find_subscription_by_id s tenant_id id) (license_invalid "subscription not found")
    ok (some (subscription_entitlement subscription now))
  entitlement_of s tenant_id now none none = ok none

  unfoldable pub load_client_entitlement :
      Store V → ClientSession → Device V → ℕ → Result (Option (ClientEntitlement V))
  unfolding entitlement_of
  load_client_entitlement s session device now =
      entitlement_of s session.tenant_id now device.license_id device.subscription_id

  -- What the gate and the refresh repeat: the tenant and the application of the session are active,
  -- and so is its device, which is returned.
  unfoldable pub ensure_session_device : Store V → ClientSession → Result (Device V)
  unfolding ensure_active_tenant
  ensure_session_device s session = do
    ensure_active_tenant s session.tenant_id
    application ←
        ok_or (find_application_by_id s session.tenant_id session.app_id)
          (app_not_found "application not found")
    reject_if (not (str_eq application.status "active")) (app_disabled "application disabled")
    device ←
        ok_or (find_device_by_id s session.tenant_id session.app_id session.device_id)
          (device_not_found "device not found")
    reject_if (str_eq device.status "blacklisted") (device_blacklisted "device blacklisted")
    reject_if (not (str_eq device.status "active")) (device_not_activated "device not activated")
    ok device

  abbrev pub entitlement_id : Option (ClientEntitlement V) → Option ℕ
  entitlement_id none = none
  entitlement_id (some e) = some e.id

  abbrev pub entitlement_kind : Option (ClientEntitlement V) → Option String
  entitlement_kind none = none
  entitlement_kind (some e) = some e.kind

  abbrev pub entitlement_status : Option (ClientEntitlement V) → String
  entitlement_status none = "none"
  entitlement_status (some e) = e.status

  abbrev pub entitlement_active : Option (ClientEntitlement V) → Bool
  entitlement_active none = false
  entitlement_active (some e) = e.active

  abbrev pub entitlement_expires_at : Option (ClientEntitlement V) → Option ℕ
  entitlement_expires_at none = none
  entitlement_expires_at (some e) = e.expires_at

  -- The features of an entitlement that is active.
  abbrev pub entitled_features : Json V → Option (ClientEntitlement V) → V
  entitled_features J none = J.empty_array
  entitled_features J (some e) = if e.active then e.features else J.empty_array

  unfoldable pub require_client_session :
      Json V → ℕ → Store V → ClientAccessClaims → Result (ClientContext V)
  unfolding ensure_session_device load_client_entitlement
  require_client_session J now s claims = do
    session ← ok_or (find_session_by_id s claims.session_id) (session_expired "session expired")
    reject_if (is_some session.revoked_at || leb session.expires_at now)
        (session_expired "session expired")
    reject_if
        (not (session.tenant_id == claims.tenant_id)
          || not (session.app_id == claims.app_id)
          || not (session.device_id == claims.device_id)
          || not (str_eq session.machine_id claims.machine_id))
        (token_invalid "access token invalid")
    device ← ensure_session_device s session
    entitlement ← load_client_entitlement s session device now
    ok (record {
      session_id = session.id;
      tenant_id = session.tenant_id;
      app_id = session.app_id;
      customer_id = session.customer_id;
      device_id = session.device_id;
      machine_id = session.machine_id;
      auth_mode = session.auth_mode;
      entitlement_id = entitlement_id entitlement;
      entitlement_kind = entitlement_kind entitlement;
      entitlement_status = entitlement_status entitlement;
      entitlement_active = entitlement_active entitlement;
      features = entitled_features J entitlement;
      entitlement_expires_at = entitlement_expires_at entitlement;
    })

  unfoldable pub ensure_active_entitlement : ClientContext V → Result (Unit {0})
  ensure_active_entitlement client =
      if client.entitlement_active && is_some client.entitlement_id
      then ok tt
      else err (subscription_inactive "active subscription or license required")

  unfoldable pub ensure_active_subscription : ClientContext V → Result (Unit {0})
  unfolding is_subscription
  ensure_active_subscription client =
      if client.entitlement_active && is_subscription client.entitlement_kind
      then ok tt
      else err (subscription_inactive "active subscription required")
