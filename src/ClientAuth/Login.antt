-- ===== src/ClientAuth/Login.antt =====
-- backend/src/modules/client_auth/login.rs: the login of a customer on a machine. The handler's
-- changes are one transaction, so it returns a store on success only. The lower-casing of the
-- language and of the database, the check and the hash of secrets, the parser of public keys, the
-- outcome of the rate limiter, the signer and the fresh identifiers are parameters.
pub mod Transaction
pub mod SignedIn
pub mod Chosen
use entitle_hub.Base.{
  ℕ, ◌+◌, Bool, true, false, not, ◌||◌, Option, none, some, List, String, str_eq, if◌then◌else◌,
}
use entitle_hub.Base.Json.{Json}
use entitle_hub.Base.Text.{trim, is_empty, has_code}
use entitle_hub.Error.{
  Result, ok, err, ◌>>=◌, ◌>>◌, reject_if, ok_or, not_found, app_disabled, invalid_request,
  invalid_credentials, account_disabled,
}
use entitle_hub.Customer.{Customer, find_by_email}
use entitle_hub.Subscription.{Subscription}
use entitle_hub.Subscription.Service.{validate_subscription_record}
use entitle_hub.Device.{Device, DeviceBindInput}
use entitle_hub.Device.Binding.{BindDeviceResult, bind_for_subscription, bind_for_customer_session}
use entitle_hub.Session.{ClientSession, new_client_session, new_client_refresh_token}
use entitle_hub.Store.{Store, Application, record_audit}
use entitle_hub.Store.Licenses.{find_by_app_key}
use entitle_hub.Store.Subscriptions.{find_active_for_customer}
use entitle_hub.Store.Sessions.{create_client_session, create_client_refresh_token}
use entitle_hub.ClientAuth.{
  ClientEntitlement, ClientAccessClaims, load_client_entitlement, is_subscription, entitlement_id,
  entitlement_kind, entitlement_status, entitlement_active, entitled_features,
}
use entitle_hub.ClientAuth.Refresh.{TokenTtls, Generated, Signer}
use entitle_hub.ClientAuth.Activate.{
  ActivateResponse, FreshIds, validate_device_public_key, register_key,
}

pub record CustomerLoginRequest : Type 0 where
  pub app_key : String
  pub email : String
  pub password : String
  pub machine_id : String
  pub device_name : Option String
  pub os : Option String
  pub app_version : Option String
  pub device_public_key : String

-- 64 is the code of `@`.
unfoldable pub normalize_email : (String → String) → String → Result String
normalize_email to_lowercase email = do
  let normalized = to_lowercase (trim email)
  reject_if (is_empty normalized || not (has_code 64 normalized))
      (invalid_credentials "invalid credentials")
  ok normalized

-- What the handler checks of a customer: the status before the password.
unfoldable pub check_credentials :
    (verify_password : String → String → Result Bool) (found : Option Customer) (password : String)
    → Result Customer
check_credentials verify_password found password = do
  customer ← ok_or found (invalid_credentials "invalid credentials")
  reject_if (not (str_eq customer.status "active")) (account_disabled "account disabled")
  password_hash ← ok_or customer.password_hash (invalid_credentials "invalid credentials")
  verified ← verify_password password password_hash
  reject_if (not verified) (invalid_credentials "invalid credentials")
  ok customer

-- What the gate reads of the claims that the handler signs.
abbrev pub access_claims : ClientSession → ClientAccessClaims
access_claims session = record {
  session_id = session.id;
  tenant_id = session.tenant_id;
  app_id = session.app_id;
  device_id = session.device_id;
  machine_id = session.machine_id;
}

module _ {V : Type 0} (J : Json V) (ttls : TokenTtls) (parses : String → Bool)
    (fresh : FreshIds) where
  abbrev pub subscription_id : Option (Subscription V) → Option ℕ
  subscription_id none = none
  subscription_id (some u) = some u.id

  abbrev pub login_input :
      Application → Customer → Option (Subscription V) → CustomerLoginRequest → DeviceBindInput V
  login_input application customer subscription payload = record {
    tenant_id = application.tenant_id;
    app_id = application.id;
    customer_id = some customer.id;
    license_id = none;
    subscription_id = subscription_id subscription;
    machine_id = payload.machine_id;
    device_name = payload.device_name;
    os = payload.os;
    app_version = payload.app_version;
    metadata = none;
  }

  -- With a subscription the machine takes one of its seats.
  unfoldable pub bind_login :
      ℕ
      → Store V
      → DeviceBindInput V
      → Option (Subscription V)
      → Result (BindDeviceResult V × Store V)
  bind_login now s input (some u) = bind_for_subscription J now fresh.device s input u
  bind_login now s input none = bind_for_customer_session J now fresh.device s input

  -- A new device is recorded in the audit log.
  unfoldable pub audit_login_device : Store V → BindDeviceResult V → ℕ → Store V
  audit_login_device s bound customer_id =
      if bound.created
      then record_audit s (record {
        tenant_id = bound.device.tenant_id;
        actor_type = "customer";
        actor_id = some customer_id;
        action = "device.create";
        resource_type = "device";
        resource_id = some bound.device.id;
      })
      else s

  -- `filter(|entitlement| entitlement.kind == "subscription")`
  abbrev entitled_subscription : Option (ClientEntitlement V) → Option ℕ
  entitled_subscription e = if is_subscription (entitlement_kind e) then entitlement_id e else none

  -- The transaction. The entitlement is read outside of it.
  unfoldable pub login_with :
      ℕ
      → Store V
      → CustomerLoginRequest
      → Application
      → Customer
      → Option (Subscription V)
      → (refresh_token refresh_token_hash : String) → (refresh_id : ℕ) → Signer
      → Result (ActivateResponse V × Store V)
  unfolding bind_login audit_login_device
  login_with now s payload application customer subscription refresh_token refresh_hash refresh_id
        signer =
      do
        (bound, s₁) ←
            bind_login now s (login_input application customer subscription payload) subscription
        (device_key_id, s₂) ←
            register_key J ttls parses fresh now s₁ application payload.device_public_key bound
        (session, s₃) ← create_client_session now s₂ (
            new_client_session fresh.session application.tenant_id application.id (some customer.id)
              bound.device.id bound.device.machine_id "subscription" (now + ttls.session))
        (_, s₄) ←
            create_client_refresh_token now s₃
              (new_client_refresh_token refresh_id session.id refresh_hash (now + ttls.refresh))
        access_token ← signer session now
        entitlement ← load_client_entitlement s session bound.device now
        ok (
          record {
            access_token = access_token;
            refresh_token = refresh_token;
            expires_in = ttls.access;
            refresh_expires_in = ttls.refresh;
            session_id = session.id;
            device_id = session.device_id;
            device_key_id = device_key_id;
            subscription_id = entitled_subscription entitlement;
            entitlement_id = entitlement_id entitlement;
            entitlement_kind = entitlement_kind entitlement;
            entitlement_status = entitlement_status entitlement;
            entitlement_active = entitlement_active entitlement;
            features = entitled_features J entitlement;
          },
          audit_login_device s₄ bound customer.id,
        )

  -- `if let Some(subscription) { validate_subscription_record(..)? }`
  unfoldable pub validate_if_some : Option (Subscription V) → ℕ → Result (Unit {0})
  validate_if_some none now = ok tt
  validate_if_some (some u) now = validate_subscription_record u now

  unfoldable pub login :
      (to_lowercase lower : String → String) (verify_password : String → String → Result Bool)
      (hash_refresh : String → Result String) (limiter : String → Result (Unit {0}))
      (prepare_signer : Result Signer) (refresh : Generated) (now : ℕ) (customers : List Customer)
      (s : Store V) (payload : CustomerLoginRequest)
      → Result (ActivateResponse V × Store V)
  unfolding validate_device_public_key login_with validate_if_some check_credentials normalize_email
  login to_lowercase lower verify_password hash_refresh limiter prepare_signer refresh now customers
        s payload =
      do
        email ← normalize_email to_lowercase payload.email
        limiter email
        validate_device_public_key parses payload.device_public_key
        application ←
            ok_or (find_by_app_key s (trim payload.app_key)) (not_found "application not found")
        reject_if (not (str_eq application.status "active")) (app_disabled "application disabled")
        reject_if (str_eq application.auth_mode "license")
            (invalid_request "application does not allow subscription login")
        customer ←
            check_credentials verify_password
              (find_by_email lower customers application.tenant_id email) payload.password
        let subscription =
            find_active_for_customer s application.tenant_id application.id customer.id now
        validate_if_some subscription now
        refresh_hash ← hash_refresh refresh.token
        signer ← prepare_signer
        login_with now s payload application customer subscription refresh.token refresh_hash
            refresh.id signer
