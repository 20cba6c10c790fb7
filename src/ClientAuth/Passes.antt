-- ===== src/ClientAuth/Passes.antt =====
-- backend/src/modules/client_auth/session.rs: which sessions pass the gate.
use entitle_hub.Base.{
  ℕ, ◌<◌, ◌≡◌, ap, true, some, none, arith, ==_refl, str_eq, ◌&&◌, ◌==◌, false, not, is_some,
  Option-cases, inl, inr, Option,
}
use entitle_hub.Base.Json.{Json}
use entitle_hub.Base.Rows.{find}
use entitle_hub.Error.{ok, Result-cases}
use entitle_hub.Device.{Device}
use entitle_hub.Session.{ClientSession}
use entitle_hub.Store.{Store, Application, Tenant}
use entitle_hub.Store.Devices.{is_device, find_device_by_id}
use entitle_hub.Store.Licenses.{
  find_application_by_id, find_tenant_by_id, find_license_by_id, find_subscription_by_id,
}
use entitle_hub.Store.Sessions.{find_session_by_id}
use entitle_hub.ClientAuth.{
  ClientContext, require_client_session, ensure_session_device, load_client_entitlement,
  ClientEntitlement, license_entitlement, subscription_entitlement, ensure_active_tenant,
}
use entitle_hub.ClientAuth.Login.{access_claims}

module _ {V : Type 0} (s t : Store V) where
  pub found_in :
      (tenant_id app_id id : ℕ)
      → s.devices ≡ t.devices
      → find_device_by_id s tenant_id app_id id ≡ find_device_by_id t tenant_id app_id id
  unfolding find_device_by_id
  found_in tenant_id app_id id same =
      ap (λ rows. find (λ d. d.app_id == app_id && is_device tenant_id id d) rows) same

  pub found_tenant :
      (id : ℕ) → s.tenants ≡ t.tenants → find_tenant_by_id s id ≡ find_tenant_by_id t id
  unfolding find_tenant_by_id
  found_tenant id same = ap (λ rows. find (λ a. a.id == id && not (is_some a.deleted_at)) rows) same

  pub found_application :
      (tenant_id id : ℕ)
      → s.applications ≡ t.applications
      → find_application_by_id s tenant_id id ≡ find_application_by_id t tenant_id id
  unfolding find_application_by_id
  found_application tenant_id id same =
      ap
        (λ rows.
          find (λ a. a.tenant_id == tenant_id && a.id == id && not (is_some a.deleted_at)) rows)
        same

  -- Which entitlement a device has depends on the licenses and subscriptions only; at another
  -- instant it can only become active or inactive.
  pub load_client_entitlement-later :
      (session : ClientSession) (device : Device V) (now later : ℕ)
      (e : Option (ClientEntitlement V))
      → t.licenses ≡ s.licenses
      → t.subscriptions ≡ s.subscriptions
      → load_client_entitlement s session device now ≡ ok e
      → (e' : Option (ClientEntitlement V)) × (load_client_entitlement t session device later
          ≡ ok e')
  unfolding load_client_entitlement find_license_by_id find_subscription_by_id
  load_client_entitlement-later session device now later e licenses subscriptions h =
      elim (Option-cases device.license_id) [
        | inr (id, bound) ↦ elim (Option-cases (find_license_by_id s session.tenant_id id)) [
          | inl k ↦ absurd (ground arith)
          | inr (l, k) ↦ (some (license_entitlement l later), ground arith)
        ]
        | inl unbound ↦ elim (Option-cases device.subscription_id) [
          | inl b ↦ (none, ground arith)
          | inr (id, bound) ↦ elim (Option-cases (find_subscription_by_id s session.tenant_id id)) [
            | inl k ↦ absurd (ground arith)
            | inr (u, k) ↦ (some (subscription_entitlement u later), ground arith)
          ]
        ]
      ]

  pub ensure_session_device_lem :
      (session : ClientSession) (tenant : Tenant) (a : Application) (device : Device V)
      → find_tenant_by_id s session.tenant_id ≡ some tenant
      → str_eq tenant.status "active" ≡ true
      → find_application_by_id s session.tenant_id session.app_id ≡ some a
      → str_eq a.status "active" ≡ true
      → find_device_by_id s session.tenant_id session.app_id session.device_id ≡ some device
      → device.status ≡ "active"
      → ensure_session_device s session ≡ ok device
  unfolding ensure_session_device ensure_active_tenant
  ensure_session_device_lem session tenant a device of_tenant tenant_active of_app app_active
        of_device active =
      let usable : str_eq device.status "active" ≡ true = ap (λ x. str_eq x "active") active in
      let listed : str_eq device.status "blacklisted" ≡ false =
        ap (λ x. str_eq x "blacklisted") active in
      ground arith

  -- A session that stands, with its device and its entitlement, passes the gate.
  pub require_client_session_lem :
      (J : Json V) (later : ℕ) (c : ClientSession) (device : Device V)
      (e : Option (ClientEntitlement V))
      → find_session_by_id s c.id ≡ some c
      → c.revoked_at ≡ none
      → later < c.expires_at
      → str_eq c.machine_id c.machine_id ≡ true
      → ensure_session_device s c ≡ ok device
      → load_client_entitlement s c device later ≡ ok e
      → (client : ClientContext V) × (require_client_session J later s (access_claims c)
          ≡ ok client)
        × (client.customer_id ≡ c.customer_id)
  unfolding require_client_session
  require_client_session_lem J later c device e found unrevoked unexpired machine checked loaded =
      elim (Result-cases (require_client_session J later s (access_claims c))) [
        | inr (e', k) ↦
            absurd (ground (arith, ==_refl c.tenant_id, ==_refl c.app_id, ==_refl c.device_id))
        | inl (client, k) ↦
            (client, k, ground (arith, ==_refl c.tenant_id, ==_refl c.app_id, ==_refl c.device_id))
      ]
