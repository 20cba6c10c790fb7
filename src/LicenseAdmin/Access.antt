-- ===== src/LicenseAdmin/Access.antt =====
-- What the administration of licenses guarantees about the access of its devices.
use entitle_hub.Base.{
  ℕ, ◌≡◌, refl, ap, true, false, ◌&&◌, not, is_some, Option, arith, ◌==◌, String,
}
use entitle_hub.Base.Rows.{exists, exists-update-gone, exists-update-same}
use entitle_hub.Error.{ok}
use entitle_hub.Admin.{AdminContext}
use entitle_hub.License.{License}
use entitle_hub.Store.{Store}
use entitle_hub.Store.Licenses.{set_license_status, reset_license_devices_rows}
use entitle_hub.Store.Sessions.{
  is_session_of_license, is_live_session, revoke_license_sessions, revoke_license_refresh_tokens,
}
use entitle_hub.LicenseAdmin.{
  revoke_license_access, revoke_license, suspend_license, reset_license_devices,
}

module _ {V : Type 0} where
  -- No session of a device of the license is live, and no refresh token of such a session is
  -- unrevoked.
  abbrev pub NoAccess : Store V → ℕ → ℕ → Type 0
  NoAccess s tenant_id license_id =
      (exists (λ c. is_session_of_license s.devices tenant_id license_id c && is_live_session c)
          s.sessions
        ≡ false)
      × (exists
            (λ t.
              exists
                (λ c.
                  c.id == t.session_id && is_session_of_license s.devices tenant_id license_id c)
                s.sessions
              && not (is_some t.revoked_at))
            s.refresh_tokens
          ≡ false)

  revoke_license_access-NoAccess :
      (now : ℕ) (s : Store V) (tenant_id license_id : ℕ)
      → NoAccess (revoke_license_access now s tenant_id license_id) tenant_id license_id
  unfolding revoke_license_access revoke_license_sessions revoke_license_refresh_tokens
      is_session_of_license
  revoke_license_access-NoAccess now s tenant_id license_id = (
    exists-update-gone _ _ _ s.sessions (λ c. ground arith) (λ c. refl),
    exists-update-gone _ _ _ s.refresh_tokens (λ t. ground arith)
        (λ t.
          ap (λ b. b && not (is_some t.revoked_at))
            (exists-update-same _ _ _ s.sessions (λ c. refl))),
  )

  -- A license that is revoked leaves no access: no session of a device of the license is live, and
  -- no refresh token of such a session is unrevoked.
  pub revoke_license-NoAccess :
      (now : ℕ) (s t : Store V) (admin : AdminContext) (id : ℕ) (l : License V)
      → revoke_license now s admin id ≡ ok (l, t)
      → NoAccess t admin.tenant_id id
  unfolding revoke_license
  revoke_license-NoAccess now s t admin id l h = ground (
    arith,
    revoke_license_access-NoAccess now
        (set_license_status now s admin.tenant_id id "revoked" true).1 admin.tenant_id id,
  )

  -- A license that is suspended leaves no access: no session of a device of the license is live,
  -- and no refresh token of such a session is unrevoked.
  pub suspend_license-NoAccess :
      (now : ℕ) (s t : Store V) (admin : AdminContext) (id : ℕ) (l : License V)
      → suspend_license now s admin id ≡ ok (l, t)
      → NoAccess t admin.tenant_id id
  unfolding suspend_license
  suspend_license-NoAccess now s t admin id l h = ground (
    arith,
    revoke_license_access-NoAccess now
        (set_license_status now s admin.tenant_id id "suspended" false).1 admin.tenant_id id,
  )

  -- The reset of a license's devices leaves no access: no session of a device of the license is
  -- live, and no refresh token of such a session is unrevoked.
  pub reset_license_devices-NoAccess :
      (now : ℕ) (s t : Store V) (admin : AdminContext) (id : ℕ) (reason : Option String)
      (l : License V)
      → reset_license_devices now s admin id reason ≡ ok (l, t)
      → NoAccess t admin.tenant_id id
  unfolding reset_license_devices
  reset_license_devices-NoAccess now s t admin id reason l h = ground (
    arith,
    revoke_license_access-NoAccess now (reset_license_devices_rows now s admin.tenant_id id)
        admin.tenant_id id,
  )
