-- ===== src/Tests/Logins.antt =====
-- Tests of logins and logouts of customers.
use entitle_hub.Base.{
  ℕ, ◌≤◌, ◌≡◌, Bool, true, false, refl, none, some, String, [], ◌∷◌, str_eq, arith,
}
use entitle_hub.Base.Int.{pos, ◌≤ℤ◌}
use entitle_hub.Base.Rows.{find, exists, count, select, All}
use entitle_hub.Base.Text.{trim, trim_start, trim_end, is_whitespace, is_empty, has_code}
use entitle_hub.Error.{Result, ok, err, session_expired}
use entitle_hub.Customer.{Customer, find_by_email}
use entitle_hub.Subscription.{Subscription}
use entitle_hub.Subscription.Service.{validate_subscription_record}
use entitle_hub.Device.{new_device_key, from_bind_input, normalize_machine_id, clean_optional}
use entitle_hub.Device.Binding.{bind_for_subscription}
use entitle_hub.Session.{ClientSession}
use entitle_hub.Store.{Store, Application}
use entitle_hub.Store.Devices.{
  find_device_by_machine_id, is_blacklisted, create_device, create_device_key, is_device,
  active_device_count_for_subscription,
}
use entitle_hub.Store.Licenses.{
  find_by_app_key, find_application_by_id, find_tenant_by_id, find_subscription_by_id,
}
use entitle_hub.Store.Subscriptions.{
  find_active_for_customer, first_row, comes_before, is_active_for,
}
use entitle_hub.Store.Sessions.{
  find_session_by_id, create_client_session, create_client_refresh_token, revoke_session,
}
use entitle_hub.ClientAuth.{
  ClientContext, require_client_session, load_client_entitlement, is_subscription,
}
use entitle_hub.ClientAuth.Activate.{ActivateResponse, validate_device_public_key, register_key}
use entitle_hub.ClientAuth.Login.{
  CustomerLoginRequest, login, login_with, bind_login, normalize_email, check_credentials,
  audit_login_device, validate_if_some, access_claims,
}
use entitle_hub.ClientAuth.Login.SignedIn.{login-verified, login-passes_gate}
use entitle_hub.ClientAuth.Login.Chosen.{IsOwn, IsServedBefore, find_active-first}
use entitle_hub.ClientAuth.Presence.{logout}
use entitle_hub.ClientAuth.Presence.Ended.{logout-locks_out}
use entitle_hub.Tests.{value, J, plain_hash, application, subscription, tenant, session, store}
use entitle_hub.Tests.Clients.{ttls, parses, fresh, first, sign, no_activation}
use entitle_hub.Tests.Ledger.{customer}

abbrev open_application : Application
open_application = record application { auth_mode = "subscription" }

abbrev open_store : Store (Unit {0})
open_store = record store { applications = open_application ∷ [] }

abbrev request : CustomerLoginRequest
request = record {
  app_key = "app";
  email = "a@b.c ";
  password = "hash";
  machine_id = "second";
  device_name = none;
  os = none;
  app_version = none;
  device_public_key = "public";
}

abbrev same : String → String
same s = s

abbrev verify : String → String → Result Bool
verify password hash = ok (str_eq password hash)

abbrev allow : String → Result (Unit {0})
allow email = ok tt

abbrev signed_in : ActivateResponse (Unit {0}) × Store (Unit {0})
signed_in =
    value
      (login J ttls parses fresh same same verify plain_hash allow (ok sign) first 100
        (customer ∷ []) open_store request)
      (no_activation, open_store)

signed_in_ok :
    login J ttls parses fresh same same verify plain_hash allow
      (ok sign)
      first
      100
      (customer ∷ [])
      open_store
      request
    ≡ ok signed_in
unfolding login normalize_email trim trim_start trim_end is_whitespace is_empty has_code
    validate_device_public_key find_by_app_key find check_credentials find_by_email
    find_active_for_customer first_row comes_before is_active_for select validate_if_some
    validate_subscription_record login_with bind_login bind_for_subscription normalize_machine_id
    is_blacklisted exists find_device_by_machine_id active_device_count_for_subscription count
    from_bind_input clean_optional create_device register_key new_device_key create_device_key
    create_client_session create_client_refresh_token load_client_entitlement audit_login_device
    is_subscription find_subscription_by_id
signed_in_ok = refl

login-verified_example :
    (email : String) × (a : Application) × (c : Customer) × (normalize_email same "a@b.c "
      ≡ ok email)
    × (find_by_app_key open_store (trim "app") ≡ some a)
    × (find_by_email same (customer ∷ []) a.tenant_id email ≡ some c)
    × (c.status ≡ "active")
    × ((hash : String) × (c.password_hash ≡ some hash) × (verify "hash" hash ≡ ok true))
    × ((u : Subscription (Unit {0}))
        → find_active_for_customer open_store a.tenant_id a.id c.id 100 ≡ some u
        → ((id : ℕ) → count (is_device a.tenant_id id) open_store.devices ≤ 1)
        → pos (active_device_count_for_subscription open_store a.tenant_id a.id u.id)
          ≤ℤ u.max_devices
        → pos (active_device_count_for_subscription signed_in.1 a.tenant_id a.id u.id)
          ≤ℤ u.max_devices)
login-verified_example =
    login-verified J ttls parses fresh same same verify plain_hash allow (ok sign) first 100
      (customer ∷ []) open_store signed_in.1 request signed_in.0 signed_in_ok

login-passes_gate_example :
    (email : String) × (c : Customer) × (d : ClientSession) × (client : ClientContext (Unit {0}))
    × (normalize_email same "a@b.c " ≡ ok email)
    × (find_by_email same (customer ∷ []) 1 email ≡ some c)
    × (find_session_by_id signed_in.1 signed_in.0.session_id ≡ some d)
    × (require_client_session J 400 signed_in.1 (access_claims d) ≡ ok client)
    × (client.customer_id ≡ some c.id)
unfolding find_by_app_key find trim trim_start trim_end is_whitespace is_empty
    find_application_by_id find_tenant_by_id count
login-passes_gate_example =
    login-passes_gate J ttls parses fresh same same verify plain_hash allow (ok sign) first 100
      (customer ∷ []) open_store signed_in.1 request signed_in.0 open_application tenant 400
      signed_in_ok refl refl refl refl (λ id. ground arith) (omega arith)

abbrev client : ClientContext (Unit {0})
client = record {
  session_id = 6;
  tenant_id = 1;
  app_id = 2;
  customer_id = none;
  device_id = 5;
  machine_id = "machine";
  auth_mode = "license";
  entitlement_id = none;
  entitlement_kind = none;
  entitlement_status = "none";
  entitlement_active = false;
  features = tt;
  entitlement_expires_at = none;
}

abbrev logged_out : Store (Unit {0})
logged_out = revoke_session 100 store 6

logout-locks_out_example :
    require_client_session J 120 logged_out (access_claims session)
    ≡ err (session_expired "session expired")
unfolding logout exists
logout-locks_out_example =
    logout-locks_out J 100 120 (ok tt) store logged_out client true (access_claims session) refl
      refl

-- A second subscription, which ends sooner.
abbrev trial : Subscription (Unit {0})
trial = record subscription { id = 40; status = "trialing"; expires_at = some 300 }

abbrev two_subscriptions : Store (Unit {0})
two_subscriptions = record store { subscriptions = subscription ∷ trial ∷ [] }

find_active-first_example :
    IsOwn 1 2 7 100 trial
    × All (λ v. IsOwn 1 2 7 100 v → IsServedBefore trial v) two_subscriptions.subscriptions
unfolding find_active_for_customer select is_active_for first_row comes_before
find_active-first_example = find_active-first two_subscriptions 1 2 7 100 trial refl
