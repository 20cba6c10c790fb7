-- ===== src/DeviceAdmin/Laws.antt =====
-- What the administration of devices guarantees about their access.
use text.Mathlib.TextPositions.{eq_refl}
use entitle_hub.Base.{
  ==_refl, inl, inr, Option-cases, ℕ, ◌≡◌, refl, ap, true, false, ◌&&◌, not, is_some, Option, some,
  arith, ◌==◌, String,
}
use entitle_hub.Base.Rows.{exists, exists-update-gone, exists-update-same}
use entitle_hub.Error.{ok, Result-cases}
use entitle_hub.Admin.{AdminContext}
use entitle_hub.Device.{Device}
use entitle_hub.Store.{Store}
use entitle_hub.Store.Devices.{
  find_by_id_for_admin, set_device_status, add_device_blacklist, is_blacklisted,
}
use entitle_hub.Store.Sessions.{
  is_session_of_device, is_live_session, revoke_device_sessions, revoke_device_refresh_tokens,
}
use entitle_hub.DeviceAdmin.{
  revoke_device, unbind_device, blacklist_device, normalize_blacklist_reason,
}

module _ {V : Type 0} where
  -- No session of the device is live, and no refresh token of such a session is unrevoked.
  abbrev pub NoAccess : Store V → ℕ → ℕ → Type 0
  NoAccess s tenant_id device_id =
      (exists (λ c. is_session_of_device tenant_id device_id c && is_live_session c) s.sessions
        ≡ false)
      × (exists
            (λ t.
              exists (λ c. c.id == t.session_id && is_session_of_device tenant_id device_id c)
                s.sessions
              && not (is_some t.revoked_at))
            s.refresh_tokens
          ≡ false)

  revoke_device-NoAccess :
      (now : ℕ) (s : Store V) (tenant_id device_id : ℕ)
      → NoAccess (revoke_device now s tenant_id device_id) tenant_id device_id
  unfolding revoke_device revoke_device_sessions revoke_device_refresh_tokens
  revoke_device-NoAccess now s tenant_id device_id = (
    exists-update-gone _ _ _ s.sessions (λ c. ground arith) (λ c. refl),
    exists-update-gone _ _ _ s.refresh_tokens (λ t. ground arith)
        (λ t.
          ap (λ b. b && not (is_some t.revoked_at))
            (exists-update-same _ _ _ s.sessions (λ c. refl))),
  )

  -- A device that is unbound by an administrator leaves no access: none of its sessions is live,
  -- and no refresh token of such a session is unrevoked.
  pub unbind_device-NoAccess :
      (now : ℕ) (s t : Store V) (admin : AdminContext) (id : ℕ) (d : Device V)
      → unbind_device now s admin id ≡ ok (d, t)
      → NoAccess t admin.tenant_id id
  unfolding unbind_device
  unbind_device-NoAccess now s t admin id d h = ground (
    arith,
    revoke_device-NoAccess now (set_device_status now s admin.tenant_id id "unbound").1
        admin.tenant_id id,
  )

  add_device_blacklist-is_blacklisted :
      (s : Store V) (tenant_id app_id : ℕ) (machine_id reason : String) (by : ℕ)
      → is_blacklisted
          (add_device_blacklist s tenant_id app_id machine_id reason by)
          tenant_id
          app_id
          machine_id
        ≡ true
  unfolding is_blacklisted add_device_blacklist exists
  add_device_blacklist-is_blacklisted s tenant_id app_id machine_id reason by =
      ground (arith, ==_refl tenant_id, ==_refl app_id, eq_refl machine_id)

  -- A device that is blacklisted leaves no access: none of its sessions is live, no refresh token
  -- of such a session is unrevoked, and its machine is on the blacklist of its application.
  pub blacklist_device-NoAccess :
      (now : ℕ) (s t : Store V) (admin : AdminContext) (id : ℕ) (reason : Option String)
      (d : Device V)
      → blacklist_device now s admin id reason ≡ ok (d, t)
      → NoAccess t admin.tenant_id id
        × ((b : Device V)
            → find_by_id_for_admin s admin.tenant_id id ≡ some b
            → is_blacklisted t admin.tenant_id b.app_id b.machine_id ≡ true)
  unfolding blacklist_device normalize_blacklist_reason is_blacklisted set_device_status
      revoke_device revoke_device_sessions revoke_device_refresh_tokens
  blacklist_device-NoAccess now s t admin id reason d h =
      elim (Result-cases (normalize_blacklist_reason reason)) [
        | inr (e, given) ↦ ground arith
        | inl (reason', given) ↦ elim (Option-cases (find_by_id_for_admin s admin.tenant_id id)) [
          | inl found ↦ ground arith
          | inr (b, found) ↦
              let listed =
                add_device_blacklist s admin.tenant_id b.app_id b.machine_id reason'
                  admin.team_member_id in
              (
                ground (
                  arith,
                  revoke_device-NoAccess now
                      (set_device_status now listed admin.tenant_id id "blacklisted").1
                      admin.tenant_id id,
                ),
                λ c found'. ground (
                  arith,
                  add_device_blacklist-is_blacklisted s admin.tenant_id b.app_id b.machine_id
                      reason' admin.team_member_id,
                ),
              )
        ]
      ]
