-- ===== src/ClientAuth/Gate.antt =====
-- What a request that passes the gate may rely on, and whom the gate locks out.
use entitle_hub.Base.{
  ℕ, ◌<◌, ◌≡◌, ◌⊎◌, inl, inr, true, ◌&&◌, some, none, arith, ◌==◌, eq_iff, Option-cases,
}
use entitle_hub.Base.Json.{Json}
use entitle_hub.Base.Rows.{found-exists}
use entitle_hub.Error.{ok, err, session_expired, Result-cases, is_ok}
use entitle_hub.Admin.{AdminContext}
use entitle_hub.License.{License}
use entitle_hub.License.Service.{validate_license_record}
use entitle_hub.License.Laws.{IsUsable, validate_license_record-IsUsable}
use entitle_hub.Subscription.{Subscription}
use entitle_hub.Subscription.Service.{validate_subscription_record}
use entitle_hub.Subscription.Laws.{
  IsUsable as IsUsableSubscription, validate_subscription_record-IsUsable,
}
use entitle_hub.Device.{Device}
use entitle_hub.Session.{ClientSession}
use entitle_hub.Store.{Store}
use entitle_hub.Store.Devices.{find_device_by_id}
use entitle_hub.Store.Licenses.{find_license_by_id, find_subscription_by_id}
use entitle_hub.Store.Sessions.{find_session_by_id, is_session_of_license, is_live_session}
use entitle_hub.LicenseAdmin.{revoke_license}
use entitle_hub.LicenseAdmin.Access.{revoke_license-NoAccess}
use entitle_hub.ClientAuth.{
  ClientContext, ClientEntitlement, ClientAccessClaims, license_entitlement,
  subscription_entitlement, ensure_session_device, require_client_session,
  ensure_active_entitlement, load_client_entitlement,
}

module _ {V : Type 0} (J : Json V) where
  -- The session of a request that passes.
  pub record IsLive (s : Store V) (claims : ClientAccessClaims) (session : ClientSession) (now : ℕ)
      : Type 0 where
    pub found : find_session_by_id s claims.session_id ≡ some session
    pub unrevoked : session.revoked_at ≡ none
    pub unexpired : now < session.expires_at
    pub of_tenant : session.tenant_id ≡ claims.tenant_id
    pub of_app : session.app_id ≡ claims.app_id
    pub of_device : session.device_id ≡ claims.device_id
    pub of_machine : session.machine_id ≡ claims.machine_id

  -- The device has a license that may be used, or no license and a subscription that may.
  abbrev pub Entitled : Store V → ClientSession → Device V → ℕ → Type 0
  Entitled s session device now =
      ((id : ℕ) × (l : License V) × (device.license_id ≡ some id)
        × (find_license_by_id s session.tenant_id id ≡ some l)
        × IsUsable l now)
      ⊎ ((id : ℕ) × (u : Subscription V) × (device.license_id ≡ none)
          × (device.subscription_id ≡ some id)
          × (find_subscription_by_id s session.tenant_id id ≡ some u)
          × IsUsableSubscription u now)

  require_client_session-IsLive :
      (now : ℕ) (s : Store V) (claims : ClientAccessClaims) (client : ClientContext V)
      → require_client_session J now s claims ≡ ok client
      → (session : ClientSession) × (device : Device V) × IsLive s claims session now
        × (ensure_session_device s session ≡ ok device)
  unfolding require_client_session
  require_client_session-IsLive now s claims client h =
      elim (Option-cases (find_session_by_id s claims.session_id)) [
        | inl e ↦ ground arith
        | inr (session, e) ↦ elim (Result-cases (ensure_session_device s session)) [
          | inr (e', k) ↦ ground arith
          | inl (device, k) ↦
              (session, device, ground (arith, eq_iff session.machine_id claims.machine_id), k)
        ]
      ]

  ensure_session_device-active :
      (s : Store V) (session : ClientSession) (device : Device V)
      → ensure_session_device s session ≡ ok device
      → (find_device_by_id s session.tenant_id session.app_id session.device_id ≡ some device)
        × (device.status ≡ "active")
  unfolding ensure_session_device
  ensure_session_device-active s session device h = ground (arith, eq_iff device.status "active")

  is_ok-license :
      (l : License V) (now : ℕ) → is_ok (validate_license_record l now) ≡ true → IsUsable l now
  is_ok-license l now h = ground (arith, validate_license_record-IsUsable l now)

  is_ok-subscription :
      (u : Subscription V) (now : ℕ)
      → is_ok (validate_subscription_record u now) ≡ true
      → IsUsableSubscription u now
  is_ok-subscription u now h = ground (arith, validate_subscription_record-IsUsable u now)

  load_client_entitlement-Entitled :
      (s : Store V) (session : ClientSession) (device : Device V) (now : ℕ)
      (e : ClientEntitlement V)
      → load_client_entitlement s session device now ≡ ok (some e)
      → e.active ≡ true
      → Entitled s session device now
  unfolding load_client_entitlement license_entitlement subscription_entitlement
  load_client_entitlement-Entitled s session device now e h a =
      elim (Option-cases device.license_id) [
        | inr (id, bound) ↦ elim (Option-cases (find_license_by_id s session.tenant_id id)) [
          | inl k ↦ ground arith
          | inr (l, k) ↦ inl (id, l, bound, k, is_ok-license l now (ground arith))
        ]
        | inl unbound ↦ elim (Option-cases device.subscription_id) [
          | inl b ↦ ground arith
          | inr (id, bound) ↦ elim (Option-cases (find_subscription_by_id s session.tenant_id id)) [
            | inl k ↦ ground arith
            | inr (u, k) ↦ inr (id, u, unbound, bound, k, is_ok-subscription u now (ground arith))
          ]
        ]
      ]

  -- A request that passes the gate and then asks for an entitlement comes from a session that is
  -- neither revoked nor expired and is the one its token claims; the session's device is active; and
  -- the device has a license that may be used now, or else a subscription.
  pub require_client_session-Entitled :
      (now : ℕ) (s : Store V) (claims : ClientAccessClaims) (client : ClientContext V)
      → require_client_session J now s claims ≡ ok client
      → ensure_active_entitlement client ≡ ok tt
      → (session : ClientSession) × (device : Device V) × IsLive s claims session now
        × (find_device_by_id s session.tenant_id session.app_id session.device_id ≡ some device)
        × (device.status ≡ "active")
        × Entitled s session device now
  unfolding ensure_active_entitlement require_client_session
  require_client_session-Entitled now s claims client h k =
      let (session, device, live, checked) = require_client_session-IsLive now s claims client h in
      let (found, active) = ensure_session_device-active s session device checked in
      (
        session,
        device,
        live,
        found,
        active,
        elim (Result-cases (load_client_entitlement s session device now)) [
          | inr (e, l) ↦ ground (arith, live)
          | inl (o, l) ↦ elim (Option-cases o) [
            | inl n ↦ ground (arith, live)
            | inr (e, n) ↦
                load_client_entitlement-Entitled s session device now e (ground arith)
                  (ground (arith, live))
          ]
        ],
      )

  -- After a license is revoked, every request whose token names a session of a device of that
  -- license is refused as expired.
  pub revoke_license-locks_out :
      (now later : ℕ) (s t : Store V) (admin : AdminContext) (id : ℕ) (l : License V)
      (claims : ClientAccessClaims) (session : ClientSession)
      → revoke_license now s admin id ≡ ok (l, t)
      → find_session_by_id t claims.session_id ≡ some session
      → is_session_of_license t.devices admin.tenant_id id session ≡ true
      → require_client_session J later t claims ≡ err (session_expired "session expired")
  unfolding require_client_session find_session_by_id
  revoke_license-locks_out now later s t admin id l claims session h found bound =
      let (locked, _) = revoke_license-NoAccess now s t admin id l h in
      let e =
        found-exists (λ c. c.id == claims.session_id)
          (λ c. is_session_of_license t.devices admin.tenant_id id c && is_live_session c)
          t.sessions session found locked in
      ground arith
