-- ===== src/Device/Binding/Bound.antt =====
-- What a binding leaves in the table: the device that it returns, active.
use entitle_hub.Base.Text.{trim}
use entitle_hub.Base.{
  inl, inr, refl, Option-cases, Bool-cases, ℕ, ◌≤◌, ◌≡◌, ◌&&◌, ◌==◌, true, ==_refl, some, arith,
  eq_iff, is_id,
}
use entitle_hub.Base.Json.{Json}
use entitle_hub.Base.Rows.{count, find, find-true, update, find-update-same, find-update-if}
use entitle_hub.Base.Changes.{find_unique}
use entitle_hub.Error.{ok}
use entitle_hub.Subscription.{Subscription}
use entitle_hub.Device.{Device, DeviceBindInput, from_bind_input}
use entitle_hub.Store.{Store}
use entitle_hub.Store.Devices.{
  find_device_by_machine_id, find_device_by_id, bind_to_subscription, is_device, is_machine,
  create_device, set_subscription_binding,
}
use entitle_hub.Device.Binding.{
  BindDeviceResult, create_new, bind_for_subscription, bind_for_customer_session,
}
use entitle_hub.Device.Binding.Limits.{create_new-IsCreated}

module _ {V : Type 0} (J : Json V) (now fresh : ℕ) (s t : Store V) (input : DeviceBindInput V)
    (r : BindDeviceResult V) where
  -- The device stands in the table, active; nothing but the table of devices changed.
  pub record IsBound : Type 0 where
    pub found : find_device_by_id t input.tenant_id input.app_id r.device.id ≡ some r.device
    pub active : r.device.status ≡ "active"
    pub tables : t ≡ record s { devices = t.devices }

  found_machine :
      (d : Device V)
      → ((id : ℕ) → count (is_device input.tenant_id id) s.devices ≤ 1)
      → find_device_by_machine_id s input.tenant_id input.app_id (trim input.machine_id) ≡ some d
      → find_device_by_id s input.tenant_id input.app_id d.id ≡ some d
  unfolding find_device_by_machine_id find_device_by_id
  found_machine d keyed h =
      let own =
        find-true (is_machine input.tenant_id input.app_id (trim input.machine_id)) s.devices d h in
      find_unique (is_machine input.tenant_id input.app_id (trim input.machine_id))
        (is_device input.tenant_id d.id)
        (λ e. e.app_id == input.app_id && is_device input.tenant_id d.id e) s.devices d
        (λ e p. ground arith) (keyed d.id) h (ground (arith, ==_refl d.id))

  created-IsBound : create_new J now fresh s input ≡ ok (r, t) → IsBound
  unfolding create_new create_device find_device_by_id find
  created-IsBound h =
      let c = create_new-IsCreated J now fresh s t input r h in
      let at = c.inserted in
      let tenant = c.of_tenant in
      let app = c.of_app in
      let undeleted = c.undeleted in
      record {
        found =
            rw at
              (ground (arith, ==_refl input.tenant_id, ==_refl input.app_id, ==_refl r.device.id));
        active = c.active;
        tables = ground arith;
      }

  pub bind_for_customer_session-IsBound :
      ((id : ℕ) → count (is_device input.tenant_id id) s.devices ≤ 1)
      → bind_for_customer_session J now fresh s input ≡ ok (r, t)
      → IsBound
  unfolding bind_for_customer_session create_device from_bind_input
  bind_for_customer_session-IsBound keyed h =
      elim (Option-cases
        (find_device_by_machine_id s input.tenant_id input.app_id (trim input.machine_id))) [
          | inl e ↦ created-IsBound (ground arith)
          | inr (d, e) ↦
              let same : t ≡ s = ground arith in
              let row : r.device ≡ d = ground arith in
              record {
                found = rw (same, row) (found_machine d keyed e);
                active = ground (arith, eq_iff d.status "active");
                tables = ground arith;
              }
        ]

  rebound :
      (d : Device V) (u : Subscription V)
      → ((id : ℕ) → count (is_device input.tenant_id id) s.devices ≤ 1)
      → find_device_by_machine_id s input.tenant_id input.app_id (trim input.machine_id) ≡ some d
      → let rows =
          update
            (is_device input.tenant_id d.id)
            (bind_to_subscription now u.customer_id u.id)
            s.devices in
        (find (is_device input.tenant_id d.id) rows
          ≡ some (bind_to_subscription now u.customer_id u.id d))
        × (find (λ e. e.app_id == input.app_id && is_device input.tenant_id d.id e) rows
            ≡ some (bind_to_subscription now u.customer_id u.id d))
  unfolding find_device_by_machine_id find_device_by_id
  rebound d u keyed h =
      let change = bind_to_subscription now u.customer_id u.id in
      let test = is_device input.tenant_id d.id in
      let own =
        find-true (is_machine input.tenant_id input.app_id (trim input.machine_id)) s.devices d h in
      let passes : test d ≡ true = ground (arith, ==_refl d.id) in
      let at : find test s.devices ≡ some d =
        find_unique (is_machine input.tenant_id input.app_id (trim input.machine_id)) test test
          s.devices d (λ e p. p) (keyed d.id) h passes in
      let at_app = found_machine d keyed h in
      (
        rw (find-update-same test change s.devices (λ a. refl)) (rw at refl),
        rw
            (find-update-if (λ e. e.app_id == input.app_id && test e) test change s.devices
              (λ a. refl))
            (rw at_app (rw passes refl)),
      )

  pub bind_for_subscription-IsBound :
      (u : Subscription V)
      → ((id : ℕ) → count (is_device input.tenant_id id) s.devices ≤ 1)
      → bind_for_subscription J now fresh s input u ≡ ok (r, t)
      → IsBound
  unfolding bind_for_subscription set_subscription_binding find_device_by_id
  bind_for_subscription-IsBound u keyed h =
      elim (Option-cases
        (find_device_by_machine_id s input.tenant_id input.app_id (trim input.machine_id))) [
          | inl e ↦ created-IsBound (ground arith)
          | inr (d, e) ↦ elim (Bool-cases (is_id d.subscription_id u.id)) [
            | inl bound ↦
                let same : t ≡ s = ground arith in
                let row : r.device ≡ d = ground arith in
                record {
                  found = rw (same, row) (found_machine d keyed e);
                  active = ground (arith, eq_iff d.status "active");
                  tables = ground arith;
                }
            | inr other ↦
                let (at, at_app) = rebound d u keyed e in
                let left : t.devices
                    ≡ update (is_device input.tenant_id d.id)
                        (bind_to_subscription now u.customer_id u.id) s.devices =
                  ground arith in
                let row : r.device ≡ bind_to_subscription now u.customer_id u.id d = ground arith in
                record {
                  found = rw (left, row) at_app;
                  active = ground (arith, eq_iff d.status "active");
                  tables = ground arith;
                }
          ]
        ]
