-- ===== src/Tests/Devices.antt =====
-- Tests of the binding of devices and of their administration.
use entitle_hub.Base.{ℕ, ◌≤◌, ◌≡◌, false, true, refl, none, some, [], ◌∷◌, arith}
use entitle_hub.Base.Int.{pos, ◌≤ℤ◌}
use entitle_hub.Base.Rows.{find, exists, update, count}
use entitle_hub.Base.Text.{trim, is_empty}
use entitle_hub.Error.{ok}
use entitle_hub.Admin.{ensure_admin_permission}
use entitle_hub.Device.{Device, DeviceBindInput, from_bind_input}
use entitle_hub.Device.Binding.{BindDeviceResult, bind_for_license, bind_for_subscription}
use entitle_hub.Device.Binding.Limits.{bind_for_license-within, bind_for_subscription-within}
use entitle_hub.DeviceAdmin.{unbind_device, blacklist_device, unblacklist_device}
use entitle_hub.DeviceAdmin.Laws.{NoAccess, blacklist_device-NoAccess}
use entitle_hub.DeviceAdmin.Seats.{unblacklist_device-active}
use entitle_hub.Store.{Store}
use entitle_hub.Store.Devices.{
  find_by_id_for_admin, find_device_by_machine_id, is_blacklisted, is_device, create_device,
  active_device_count_for_license, active_device_count_for_subscription, set_subscription_binding,
  set_device_status, add_device_blacklist,
}
use entitle_hub.Tests.{value, J, license, subscription, device, store, admin, second_machine}

abbrev bound : BindDeviceResult (Unit {0}) × Store (Unit {0})
bound =
    value (bind_for_license J 100 50 store second_machine license)
      (record { device = device; created = false }, store)

bind_for_license-within_example : pos (active_device_count_for_license bound.1 1 2 3) ≤ℤ pos 2
unfolding active_device_count_for_license count bind_for_license is_empty trim is_blacklisted exists
    find_device_by_machine_id find from_bind_input create_device
bind_for_license-within_example =
    bind_for_license-within J 100 50 store bound.1 second_machine bound.0 license refl (omega arith)
      refl

-- The machine of the license moves to the subscription.
abbrev same_machine : DeviceBindInput (Unit {0})
same_machine = record second_machine {
  machine_id = "machine";
  license_id = none;
  subscription_id = some 4;
}

abbrev moved : BindDeviceResult (Unit {0}) × Store (Unit {0})
moved =
    value (bind_for_subscription J 100 50 store same_machine subscription)
      (record { device = device; created = false }, store)

store-keyed : (id : ℕ) → count (is_device 1 id) store.devices ≤ 1
unfolding count
store-keyed id = ground arith

bind_for_subscription-within_example :
    pos (active_device_count_for_subscription moved.1 1 2 4) ≤ℤ pos 1
unfolding active_device_count_for_subscription count bind_for_subscription is_empty trim
    is_blacklisted exists find_device_by_machine_id find set_subscription_binding update
bind_for_subscription-within_example =
    bind_for_subscription-within J 100 50 store moved.1 same_machine moved.0 subscription
      store-keyed (omega arith) refl

abbrev unbound : Device (Unit {0}) × Store (Unit {0})
unbound = value (unbind_device 100 store admin 5) (device, store)

abbrev listed : Device (Unit {0}) × Store (Unit {0})
listed = value (blacklist_device 100 store admin 5 (some "stolen")) (device, store)

blacklist_device-NoAccess_example :
    NoAccess listed.1 1 5
    × ((b : Device (Unit {0}))
        → find_by_id_for_admin store 1 5 ≡ some b
        → is_blacklisted listed.1 1 b.app_id b.machine_id ≡ true)
unfolding blacklist_device ensure_admin_permission is_empty trim find_by_id_for_admin find
    set_device_status update add_device_blacklist
blacklist_device-NoAccess_example =
    blacklist_device-NoAccess 100 store listed.1 admin 5 (some "stolen") listed.0 refl

abbrev unbound_device : Device (Unit {0})
unbound_device = record device { status = "unbound" }

abbrev unbound_store : Store (Unit {0})
unbound_store = record store { devices = unbound_device ∷ [] }

unblacklist_device-active_example :
    (t : Store (Unit {0})) × (unblacklist_device 100 unbound_store admin 5
      ≡ ok (record unbound_device { status = "active"; updated_at = 100 }, t))
    × (find_by_id_for_admin t 1 5
        ≡ some (record unbound_device { status = "active"; updated_at = 100 }))
unfolding ensure_admin_permission find_by_id_for_admin find
unblacklist_device-active_example =
    unblacklist_device-active 100 unbound_store admin 5 unbound_device refl refl
