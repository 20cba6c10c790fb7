-- ===== src/Device/Binding/Limits.antt =====
-- Device limits: how many seats of a license or a subscription a binding leaves taken.
use entitle_hub.Base.Text.{trim}
use entitle_hub.Base.{
  inl, inr, Option-cases, ◌∷◌, ℕ, suc, ◌≤◌, ◌≡◌, true, ==_refl, none, some, arith, eq_iff,
}
use entitle_hub.Base.Int.{pos, ◌≤ℤ◌}
use entitle_hub.Base.Json.{Json}
use entitle_hub.Base.Rows.{count, count-update-le}
use entitle_hub.Error.{ok}
use entitle_hub.License.{License}
use entitle_hub.Subscription.{Subscription}
use entitle_hub.Device.{from_bind_input, DeviceBindInput}
use entitle_hub.Store.{Store}
use entitle_hub.Store.Devices.{
  find_device_by_machine_id, bind_to_subscription, is_device, seat_of_subscription, seat_of_license,
  active_device_count_for_license, create_device, active_device_count_for_subscription,
  set_subscription_binding,
}
use entitle_hub.Device.Binding.{
  create_new, BindDeviceResult, bind_for_license, bind_for_subscription,
}

module _ {V : Type 0} (J : Json V) (now fresh : ℕ) (s t : Store V) (input : DeviceBindInput V)
    (r : BindDeviceResult V) where
  -- Binding to a license never takes more seats than it has: where the input names the license and
  -- its seats are within the limit before a binding that succeeds, they are after it.
  pub bind_for_license-within :
      (license : License V)
      → input.license_id ≡ some license.id
      → pos (active_device_count_for_license s input.tenant_id input.app_id license.id)
        ≤ℤ license.max_devices
      → bind_for_license J now fresh s input license ≡ ok (r, t)
      → pos (active_device_count_for_license t input.tenant_id input.app_id license.id)
        ≤ℤ license.max_devices
  unfolding bind_for_license active_device_count_for_license create_device count
  bind_for_license-within license named within h = ground arith

  -- The row of a new device stands in front of the others, active and bound as the input says.
  pub record IsCreated : Type 0 where
    pub inserted : t.devices ≡ r.device ∷ s.devices
    pub of_tenant : r.device.tenant_id ≡ input.tenant_id
    pub of_app : r.device.app_id ≡ input.app_id
    pub of_license : r.device.license_id ≡ input.license_id
    pub of_subscription : r.device.subscription_id ≡ input.subscription_id
    pub active : r.device.status ≡ "active"
    pub undeleted : r.device.deleted_at ≡ none

  pub create_new-IsCreated : create_new J now fresh s input ≡ ok (r, t) → IsCreated
  unfolding create_new create_device from_bind_input
  create_new-IsCreated h = ground arith

  seat_of_new :
      (id : ℕ)
      → IsCreated
      → input.license_id ≡ some id
      → seat_of_license input.tenant_id input.app_id id r.device ≡ true
  seat_of_new id c named = ground (
    arith,
    ==_refl input.tenant_id,
    ==_refl input.app_id,
    ==_refl id,
    eq_iff r.device.status "active",
  )

  create_new-seat :
      (id : ℕ)
      → input.license_id ≡ some id
      → create_new J now fresh s input ≡ ok (r, t)
      → active_device_count_for_license t input.tenant_id input.app_id id
        ≡ suc (active_device_count_for_license s input.tenant_id input.app_id id)
  unfolding active_device_count_for_license count
  create_new-seat id named h =
      let c = create_new-IsCreated h in rw (c.inserted, seat_of_new id c named)

  -- Binding a machine that had no device, to the license that the input names, takes exactly one
  -- seat of that license.
  pub bind_for_license-seat :
      (license : License V)
      → input.license_id ≡ some license.id
      → r.created ≡ true
      → bind_for_license J now fresh s input license ≡ ok (r, t)
      → active_device_count_for_license t input.tenant_id input.app_id license.id
        ≡ suc (active_device_count_for_license s input.tenant_id input.app_id license.id)
  unfolding bind_for_license
  bind_for_license-seat license named new h = ground (arith, create_new-seat license.id named)

  -- Binding to a subscription never takes more seats than it has, also where it moves a device over
  -- from another entitlement: where the seats are within the limit before a binding that succeeds
  -- and identifiers of live devices are unique within the tenant, they are after it.
  pub bind_for_subscription-within :
      (subscription : Subscription V)
      → ((id : ℕ) → count (is_device input.tenant_id id) s.devices ≤ 1)
      → pos (active_device_count_for_subscription s input.tenant_id input.app_id subscription.id)
        ≤ℤ subscription.max_devices
      → bind_for_subscription J now fresh s input subscription ≡ ok (r, t)
      → pos (active_device_count_for_subscription t input.tenant_id input.app_id subscription.id)
        ≤ℤ subscription.max_devices
  unfolding bind_for_subscription active_device_count_for_subscription create_device count
      set_subscription_binding
  bind_for_subscription-within u keyed within h =
      elim (Option-cases
        (find_device_by_machine_id s input.tenant_id input.app_id (trim input.machine_id))) [
          | inl e ↦ ground arith
          | inr (d, e) ↦ ground (
            arith,
            keyed d.id,
            count-update-le (seat_of_subscription input.tenant_id input.app_id u.id)
                (is_device input.tenant_id d.id) (bind_to_subscription now u.customer_id u.id)
                s.devices,
          )
        ]
