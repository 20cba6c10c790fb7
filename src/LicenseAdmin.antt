-- ===== src/LicenseAdmin.antt =====
-- backend/src/modules/license/admin.rs: revoke, suspend, renew and the reset of a license's devices.
-- A handler returns the license, with the store.
pub mod Access
pub mod Revival
use entitle_hub.Base.{ℕ, Bool, true, false, Option, none, some, String}
use entitle_hub.Error.{
  Result, ok, err, ◌>>=◌, ◌>>◌, ok_or, license_not_found, already_revoked, conflict,
}
use entitle_hub.Admin.{AdminContext, ensure_admin_permission}
use entitle_hub.License.{License, validate_renew_expires_at, normalize_reset_device_reason}
use entitle_hub.Store.{Store, AuditEntry, record_audit}
use entitle_hub.Store.Licenses.{
  find_license_by_id, set_license_status, renew_license_row, reset_license_devices_rows,
}
use entitle_hub.Store.Sessions.{revoke_license_sessions, revoke_license_refresh_tokens}

module _ {V : Type 0} (now : ℕ) where
  -- Refresh tokens first, then sessions.
  revoke_license_access : Store V → (tenant_id license_id : ℕ) → Store V
  revoke_license_access s tenant_id license_id =
      revoke_license_sessions now (revoke_license_refresh_tokens now s tenant_id license_id)
        tenant_id license_id

  audit_license_change : Store V → AdminContext → String → ℕ → Store V
  audit_license_change s admin action license_id = record_audit s (record {
    tenant_id = admin.tenant_id;
    actor_type = "team_member";
    actor_id = some admin.team_member_id;
    action = action;
    resource_type = "license";
    resource_id = some license_id;
  })

  unfoldable pub revoke_license : Store V → AdminContext → ℕ → Result (License V × Store V)
  unfolding revoke_license_access audit_license_change
  revoke_license s admin license_id = do
    ensure_admin_permission admin "license:revoke"
    before ←
        ok_or (find_license_by_id s admin.tenant_id license_id)
          (license_not_found "license not found")
    let (found, s₁) = set_license_status now s admin.tenant_id license_id "revoked" true
    license ← ok_or found (already_revoked "license already revoked")
    let s₂ = revoke_license_access s₁ admin.tenant_id license_id
    ok (license, audit_license_change s₂ admin "license.revoke" license.id)

  unfoldable pub suspend_license : Store V → AdminContext → ℕ → Result (License V × Store V)
  unfolding revoke_license_access audit_license_change
  suspend_license s admin license_id = do
    ensure_admin_permission admin "license:suspend"
    before ←
        ok_or (find_license_by_id s admin.tenant_id license_id)
          (license_not_found "license not found")
    let (found, s₁) = set_license_status now s admin.tenant_id license_id "suspended" false
    license ← ok_or found (conflict "license already suspended")
    let s₂ = revoke_license_access s₁ admin.tenant_id license_id
    ok (license, audit_license_change s₂ admin "license.suspend" license.id)

  unfoldable pub renew_license :
      Store V → AdminContext → (license_id expires_at : ℕ) → Result (License V × Store V)
  unfolding validate_renew_expires_at audit_license_change
  renew_license s admin license_id expires_at = do
    ensure_admin_permission admin "license:renew"
    before ←
        ok_or (find_license_by_id s admin.tenant_id license_id)
          (license_not_found "license not found")
    validate_renew_expires_at before expires_at
    let (found, s₁) = renew_license_row now s admin.tenant_id license_id expires_at
    license ← ok_or found (already_revoked "revoked license cannot be renewed")
    ok (license, audit_license_change s₁ admin "license.renew" license.id)

  -- The reason is that of the parsed body.
  unfoldable pub reset_license_devices :
      Store V → AdminContext → ℕ → Option String → Result (License V × Store V)
  unfolding revoke_license_access audit_license_change
  reset_license_devices s admin license_id reason = do
    ensure_admin_permission admin "license:reset_device"
    reason' ← normalize_reset_device_reason reason
    license ←
        ok_or (find_license_by_id s admin.tenant_id license_id)
          (license_not_found "license not found")
    let s₁ = reset_license_devices_rows now s admin.tenant_id license_id
    let s₂ = revoke_license_access s₁ admin.tenant_id license_id
    ok (license, audit_license_change s₂ admin "license.devices.reset" license.id)
