-- ===== src/Tests/Clients.antt =====
-- Tests of activations, refreshes and the gate.
use entitle_hub.Base.{ℕ, ◌≡◌, Bool, false, true, refl, Option, none, some, String, ◌==◌, ◌&&◌}
use entitle_hub.Base.Int.{pos, ◌≤ℤ◌}
use entitle_hub.Base.Rows.{find, exists, update, count}
use entitle_hub.Base.Text.{trim, trim_start, trim_end, is_whitespace, is_empty}
use entitle_hub.Error.{Result, ok, err, session_expired, refresh_reuse_detected}
use entitle_hub.Admin.{ensure_admin_permission}
use entitle_hub.License.{License}
use entitle_hub.License.Service.{
  validate_license_record, validate_license_key, normalize_license_key, find_by_app_and_key_hash,
}
use entitle_hub.License.Laws.{IsUsable}
use entitle_hub.LicenseAdmin.{revoke_license}
use entitle_hub.Device.{
  Device, new_device_key, from_bind_input, normalize_machine_id, clean_optional,
}
use entitle_hub.Device.Binding.{bind_for_license}
use entitle_hub.Session.{ClientSession}
use entitle_hub.Store.{Store, Application}
use entitle_hub.Store.Devices.{
  find_device_by_id, find_device_by_machine_id, is_blacklisted, create_device, create_device_key,
  active_device_count_for_license,
}
use entitle_hub.Store.Licenses.{
  find_license_by_id, find_subscription_by_id, find_application_by_id, find_tenant_by_id,
  find_by_app_key, set_license_status,
}
use entitle_hub.Store.Sessions.{
  find_session_by_id, find_refresh_token_by_hash, revoke_session, mark_refresh_token_used,
  create_client_session, create_client_refresh_token, revoke_license_sessions,
  revoke_license_refresh_tokens, is_session_of_license, is_live_session,
}
use entitle_hub.ClientAuth.{
  ClientContext, ClientAccessClaims, require_client_session, ensure_active_entitlement,
  ensure_session_device, ensure_active_tenant, load_client_entitlement,
}
use entitle_hub.ClientAuth.Gate.{
  IsLive, Entitled, require_client_session-Entitled, revoke_license-locks_out,
}
use entitle_hub.ClientAuth.Refresh.{
  TokenTtls, Generated, Signer, Prepared, RefreshResponse, prepare_refresh, commit_refresh, refresh,
}
use entitle_hub.ClientAuth.Reuse.{commit_refresh-once, refresh-replay}
use entitle_hub.ClientAuth.Activate.{
  ActivateRequest, ActivateResponse, FreshIds, validate_device_public_key, activate_with, activate,
}
use entitle_hub.ClientAuth.Activate.Seats.{activate-within, activate_with-not_rebound}
use entitle_hub.Tests.{
  value, J, plain_hash, application, license, device, session, token, store, admin,
}

abbrev pub ttls : TokenTtls
ttls = record { access = 90; refresh = 300; session = 800 }

abbrev pub sign : Signer
sign c now = ok "access"

abbrev pub first : Generated
first = record { token = "new"; id = 20 }

abbrev second : Generated
second = record { token = "newer"; id = 21 }

abbrev free : Option ℕ → Result (Unit {0})
free o = ok tt

abbrev refreshed : Store (Unit {0}) × Result (RefreshResponse (Unit {0}))
refreshed = refresh J ttls plain_hash free (ok sign) first 100 store "old"

abbrev no_response : RefreshResponse (Unit {0})
no_response = record {
  access_token = "";
  refresh_token = "";
  expires_in = 0;
  refresh_expires_in = 0;
  session_id = 0;
  device_id = 0;
  entitlement_id = none;
  entitlement_kind = none;
  entitlement_status = "none";
  entitlement_active = false;
  features = tt;
}

refresh-replay_example :
    ((refresh J ttls plain_hash free (ok sign) second 150 refreshed.0 "old").1
      ≡ err (refresh_reuse_detected "refresh token reuse detected"))
    × (exists
          (λ c. c.id == (value refreshed.1 no_response).session_id && is_live_session c)
          (refresh J ttls plain_hash free (ok sign) second 150 refreshed.0 "old").0.sessions
        ≡ false)
unfolding refresh prepare_refresh is_empty trim find_refresh_token_by_hash find find_session_by_id
    ensure_session_device find_tenant_by_id find_application_by_id find_device_by_id
    load_client_entitlement find_license_by_id commit_refresh mark_refresh_token_used exists
    create_client_refresh_token update is_whitespace trim_end trim_start ensure_active_tenant
    find_subscription_by_id revoke_session
refresh-replay_example =
    refresh-replay J ttls plain_hash free free (ok sign) (ok sign) first second 100 150 store
      refreshed.0 "old" (value refreshed.1 no_response) (λ o. refl) refl

abbrev prepared : Prepared (Unit {0})
prepared = record {
  stored_token = token;
  session = session;
  entitlement = none;
  next_refresh_token_hash = "new";
  signer = sign;
}

abbrev committed : Store (Unit {0}) × Result (RefreshResponse (Unit {0}))
committed = commit_refresh J ttls first 100 store prepared

commit_refresh-once_example : commit_refresh J ttls second 101 committed.0 prepared ≡ (
  revoke_session 101 committed.0 6,
  err (refresh_reuse_detected "refresh token reuse detected"),
)
unfolding commit_refresh mark_refresh_token_used exists create_client_refresh_token update
commit_refresh-once_example =
    commit_refresh-once J ttls first second 100 101 store committed.0 prepared prepared
      (value committed.1 no_response) refl refl

abbrev claims : ClientAccessClaims
claims = record { session_id = 6; tenant_id = 1; app_id = 2; device_id = 5; machine_id = "machine" }

abbrev no_client : ClientContext (Unit {0})
no_client = record {
  session_id = 0;
  tenant_id = 0;
  app_id = 0;
  customer_id = none;
  device_id = 0;
  machine_id = "";
  auth_mode = "";
  entitlement_id = none;
  entitlement_kind = none;
  entitlement_status = "none";
  entitlement_active = false;
  features = tt;
  entitlement_expires_at = none;
}

require_client_session-Entitled_example :
    (c : ClientSession) × (d : Device (Unit {0})) × IsLive J store claims c 100
    × (find_device_by_id store c.tenant_id c.app_id c.device_id ≡ some d)
    × (d.status ≡ "active")
    × Entitled J store c d 100
unfolding require_client_session find_session_by_id find find_tenant_by_id find_application_by_id
    find_device_by_id find_license_by_id ensure_active_entitlement validate_license_record
require_client_session-Entitled_example =
    require_client_session-Entitled J 100 store claims
      (value (require_client_session J 100 store claims) no_client) refl refl

abbrev revoked : License (Unit {0}) × Store (Unit {0})
revoked = value (revoke_license 100 store admin 3) (license, store)

revoke_license-locks_out_example :
    require_client_session J 200 revoked.1 claims ≡ err (session_expired "session expired")
unfolding revoke_license ensure_admin_permission find_license_by_id find set_license_status update
    find_session_by_id revoke_license_sessions revoke_license_refresh_tokens is_session_of_license
revoke_license-locks_out_example =
    revoke_license-locks_out J 100 200 store revoked.1 admin 3 revoked.0 claims
      (record session { revoked_at = some 100 }) refl refl refl

abbrev pub fresh : FreshIds
fresh = record { device = 50; device_key = 51; session = 52 }

abbrev pub parses : String → Bool
parses s = true

abbrev payload : ActivateRequest
payload = record {
  app_key = "app";
  license_key = " key ";
  machine_id = "second";
  device_name = none;
  os = none;
  app_version = none;
  device_public_key = "public";
}

abbrev pub no_activation : ActivateResponse (Unit {0})
no_activation = record {
  access_token = "";
  refresh_token = "";
  expires_in = 0;
  refresh_expires_in = 0;
  session_id = 0;
  device_id = 0;
  device_key_id = none;
  subscription_id = none;
  entitlement_id = none;
  entitlement_kind = none;
  entitlement_status = "none";
  entitlement_active = false;
  features = tt;
}

abbrev activated : ActivateResponse (Unit {0}) × Store (Unit {0})
activated =
    value
      (activate J ttls parses fresh plain_hash plain_hash (ok tt) (ok sign) first 100 store payload)
      (no_activation, store)

activate-within_example :
    (a : Application) × (l : License (Unit {0})) × (find_by_app_key store (trim "app") ≡ some a)
    × (validate_license_key plain_hash store.licenses a.tenant_id a.id " key " 100 ≡ ok l)
    × IsUsable l 100
    × ((c : ClientSession) × (find_session_by_id activated.1 activated.0.session_id ≡ some c)
        × (c.device_id ≡ activated.0.device_id)
        × (c.tenant_id ≡ a.tenant_id)
        × (c.app_id ≡ a.id)
        × (c.revoked_at ≡ none)
        × (c.expires_at ≡ 900)
        × (activated.0.entitlement_id ≡ some l.id))
    × (pos (active_device_count_for_license store a.tenant_id a.id l.id) ≤ℤ l.max_devices
        → pos (active_device_count_for_license activated.1 a.tenant_id a.id l.id) ≤ℤ l.max_devices)
unfolding activate is_empty trim find_by_app_key find validate_license_key bind_for_license
    is_blacklisted exists find_device_by_machine_id active_device_count_for_license count
    from_bind_input create_device new_device_key create_device_key create_client_session
    is_whitespace trim_end trim_start activate_with validate_device_public_key clean_optional
    normalize_machine_id find_by_app_and_key_hash normalize_license_key validate_license_record
    create_client_refresh_token
activate-within_example =
    activate-within J ttls parses fresh plain_hash plain_hash (ok tt) (ok sign) first 100 store
      activated.1 payload activated.0 refl

-- Another license, on the machine that the first one holds.
abbrev other_license : License (Unit {0})
other_license = record license { id = 33; license_key_hash = "other" }

abbrev same_machine : ActivateRequest
same_machine = record payload { machine_id = "machine"; license_key = "other" }

abbrev not_rebound : ActivateResponse (Unit {0}) × Store (Unit {0})
not_rebound =
    value
      (activate_with J ttls parses fresh 100 store same_machine application other_license "new"
        "new" 20 sign)
      (no_activation, store)

activate_with-not_rebound_example :
    (not_rebound.0.entitlement_id ≡ some 33)
    × (not_rebound.0.device_id ≡ device.id)
    × (not_rebound.1.devices ≡ store.devices)
unfolding find_device_by_machine_id find trim activate_with bind_for_license is_blacklisted exists
    create_client_session create_client_refresh_token
activate_with-not_rebound_example =
    activate_with-not_rebound J ttls parses fresh 100 store not_rebound.1 same_machine application
      other_license "new" "new" 20 sign not_rebound.0 device refl refl
