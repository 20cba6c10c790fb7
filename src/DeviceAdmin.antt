-- ===== src/DeviceAdmin.antt =====
-- backend/src/modules/device/admin.rs: unbind, blacklist and unblacklist. A handler returns the device
-- as it is left, with the store.
pub mod Laws
pub mod Seats
use entitle_hub.Base.{ℕ, Bool, Option, none, some, String, ltb, if◌then◌else◌, is_some, List}
use entitle_hub.Base.Text.{char_count}
use entitle_hub.Error.{Result, ok, err, ◌>>=◌, ◌>>◌, ok_or, device_not_found, validation_failed}
use entitle_hub.Admin.{AdminContext, ensure_admin_permission}
use entitle_hub.Device.{Device, clean_optional}
use entitle_hub.Store.{Store, AuditEntry, record_audit}
use entitle_hub.Store.Devices.{
  find_by_id_for_admin, find_device_by_id, set_device_status, add_device_blacklist,
  remove_device_blacklist,
}
use entitle_hub.Store.Sessions.{revoke_device_sessions, revoke_device_refresh_tokens}

limit_reason : Option String → Result String
limit_reason none = err (validation_failed "reason is required")
limit_reason (some s) =
    if ltb 500 (char_count s) then err (validation_failed "reason is too long") else ok s

pub normalize_blacklist_reason : Option String → Result String
unfolding limit_reason clean_optional
normalize_blacklist_reason reason = limit_reason (clean_optional reason)

module _ {V : Type 0} (now : ℕ) where
  -- Refresh tokens first, then sessions.
  revoke_device : Store V → (tenant_id device_id : ℕ) → Store V
  revoke_device s tenant_id device_id =
      revoke_device_sessions now (revoke_device_refresh_tokens now s tenant_id device_id) tenant_id
        device_id

  audit_device_change : Store V → AdminContext → String → ℕ → Store V
  audit_device_change s admin action device_id = record_audit s (record {
    tenant_id = admin.tenant_id;
    actor_type = "team_member";
    actor_id = some admin.team_member_id;
    action = action;
    resource_type = "device";
    resource_id = some device_id;
  })

  unfoldable pub unbind_device : Store V → AdminContext → ℕ → Result (Device V × Store V)
  unfolding revoke_device audit_device_change
  unbind_device s admin device_id = do
    ensure_admin_permission admin "device:unbind"
    before ←
        ok_or (find_by_id_for_admin s admin.tenant_id device_id)
          (device_not_found "device not found")
    let (found, s₁) = set_device_status now s admin.tenant_id device_id "unbound"
    device ← ok_or found (device_not_found "device not found")
    let s₂ = revoke_device s₁ admin.tenant_id device_id
    ok (device, audit_device_change s₂ admin "device.unbind" device.id)

  unfoldable pub blacklist_device :
      Store V → AdminContext → ℕ → Option String → Result (Device V × Store V)
  unfolding normalize_blacklist_reason revoke_device audit_device_change
  blacklist_device s admin device_id reason = do
    ensure_admin_permission admin "device:blacklist"
    reason' ← normalize_blacklist_reason reason
    before ←
        ok_or (find_by_id_for_admin s admin.tenant_id device_id)
          (device_not_found "device not found")
    let s₁ =
        add_device_blacklist s admin.tenant_id before.app_id before.machine_id reason'
          admin.team_member_id
    let (found, s₂) = set_device_status now s₁ admin.tenant_id device_id "blacklisted"
    device ← ok_or found (device_not_found "device not found")
    let s₃ = revoke_device s₂ admin.tenant_id device_id
    ok (device, audit_device_change s₃ admin "device.blacklist" device.id)

  -- The status is set to active whatever it was; no device limit is asked.
  unfoldable pub unblacklist_device : Store V → AdminContext → ℕ → Result (Device V × Store V)
  unfolding audit_device_change
  unblacklist_device s admin device_id = do
    ensure_admin_permission admin "device:unblacklist"
    before ←
        ok_or (find_by_id_for_admin s admin.tenant_id device_id)
          (device_not_found "device not found")
    let s₁ = remove_device_blacklist s admin.tenant_id before.app_id before.machine_id
    let (found, s₂) = set_device_status now s₁ admin.tenant_id device_id "active"
    device ← ok_or found (device_not_found "device not found")
    ok (device, audit_device_change s₂ admin "device.unblacklist" device.id)
