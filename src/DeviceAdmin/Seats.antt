-- ===== src/DeviceAdmin/Seats.antt =====
-- Taking a device off the blacklist gives it a seat.
use entitle_hub.Base.{ℕ, ◌≡◌, refl, some, arith}
use entitle_hub.Base.Rows.{find-update-same}
use entitle_hub.Error.{ok}
use entitle_hub.Admin.{AdminContext, ensure_admin_permission}
use entitle_hub.Device.{Device}
use entitle_hub.Store.{Store}
use entitle_hub.Store.Devices.{
  is_device, find_by_id_for_admin, remove_device_blacklist, set_device_status,
}
use entitle_hub.DeviceAdmin.{unblacklist_device, audit_device_change}

module _ {V : Type 0} where
  -- Taking a device off the blacklist makes it active whatever state it was in, unbound and disabled
  -- ones too, for every administrator with the permission and whatever the limit of its license.
  pub unblacklist_device-active :
      (now : ℕ) (s : Store V) (admin : AdminContext) (id : ℕ) (b : Device V)
      → ensure_admin_permission admin "device:unblacklist" ≡ ok tt
      → find_by_id_for_admin s admin.tenant_id id ≡ some b
      → let d : Device V = record b { status = "active"; updated_at = now } in
        (t : Store V) × (unblacklist_device now s admin id ≡ ok (d, t))
        × (find_by_id_for_admin t admin.tenant_id id ≡ some d)
  unfolding unblacklist_device find_by_id_for_admin set_device_status remove_device_blacklist
  unblacklist_device-active now s admin id b may found =
      let e =
        find-update-same (is_device admin.tenant_id id)
          (λ (d : Device V). record d { status = "active"; updated_at = now }) s.devices
          (λ d. refl) in
      (
        audit_device_change now
            (set_device_status now (remove_device_blacklist s admin.tenant_id b.app_id b.machine_id)
              admin.tenant_id id "active").1
            admin "device.unblacklist" b.id,
        ground arith,
        ground arith,
      )
