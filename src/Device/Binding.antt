-- ===== src/Device/Binding.antt =====
-- backend/src/modules/device/service.rs: binding a machine to a license, to a subscription or to a
-- customer's session. The variants inside and outside a transaction have the same body; these are
-- the ones inside. The identifier of a new device is an argument.
pub mod Limits
pub mod Bound
use entitle_hub.Base.{
  ℕ, Bool, true, false, Option, none, some, String, str_eq, ◌||◌, ◌==◌, if◌then◌else◌, is_id,
}
use entitle_hub.Base.Int.{ℤ, pos, leb_ℤ}
use entitle_hub.Base.Json.{Json}
use entitle_hub.Error.{
  Result, ok, err, ◌>>=◌, ◌>>◌, reject_if, ok_or, device_blacklisted, device_not_activated,
  device_limit_exceeded, device_not_found, invalid_request,
}
use entitle_hub.License.{License}
use entitle_hub.Subscription.{Subscription}
use entitle_hub.Device.{Device, DeviceBindInput, normalize_machine_id, from_bind_input}
use entitle_hub.Store.{Store}
use entitle_hub.Store.Devices.{
  find_device_by_machine_id, is_blacklisted, create_device, active_device_count_for_license,
  active_device_count_for_subscription, set_subscription_binding,
}

pub record BindDeviceResult (V : Type 0) : Type 0 where
  pub device : Device V
  pub created : Bool

abbrev is_zero : ℤ → Bool
is_zero (pos n) = n == 0
is_zero _ = false

module _ {V : Type 0} where
  pub ensure_existing_device_usable : Device V → Result (Unit {0})
  ensure_existing_device_usable d =
      if str_eq d.status "active"
      then ok tt
      else if str_eq d.status "blacklisted"
      then err (device_blacklisted "device blacklisted")
      else if str_eq d.status "disabled" || str_eq d.status "unbound"
      then err (device_not_activated "device not activated")
      else err (invalid_request "device status is invalid")

  -- The limit is asked for the license of the input, if it names one.
  seats_left_for_license : Store V → DeviceBindInput V → Option ℕ → ℤ → Result (Unit {0})
  seats_left_for_license s input none limit = ok tt
  seats_left_for_license s input (some id) limit =
      reject_if
        (leb_ℤ limit (pos (active_device_count_for_license s input.tenant_id input.app_id id)))
        (device_limit_exceeded "device limit exceeded")

  pub ensure_device_limit_available : Store V → DeviceBindInput V → License V → Result (Unit {0})
  unfolding seats_left_for_license
  ensure_device_limit_available s input license = do
    reject_if (is_zero license.max_devices) (device_limit_exceeded "device limit exceeded")
    seats_left_for_license s input input.license_id license.max_devices

  pub ensure_subscription_device_limit_available :
      Store V → DeviceBindInput V → Subscription V → Result (Unit {0})
  ensure_subscription_device_limit_available s input subscription = do
    reject_if (is_zero subscription.max_devices) (device_limit_exceeded "device limit exceeded")
    reject_if
        (leb_ℤ subscription.max_devices (
          pos
            (active_device_count_for_subscription s input.tenant_id input.app_id subscription.id)))
        (device_limit_exceeded "device limit exceeded")

  module _ (J : Json V) (now fresh : ℕ) where
    pub create_new : Store V → DeviceBindInput V → Result (BindDeviceResult V × Store V)
    create_new s input = do
      new ← from_bind_input J fresh input
      (d, t) ← create_device now s new
      ok (record { device = d; created = true }, t)

    -- The device stands already: it is returned as it is, whatever it is bound to.
    keep_existing : Store V → Device V → Result (BindDeviceResult V × Store V)
    unfolding ensure_existing_device_usable
    keep_existing s d = do
      ensure_existing_device_usable d
      ok (record { device = d; created = false }, s)

    license_case :
        Store V
        → DeviceBindInput V
        → License V
        → Option (Device V)
        → Result (BindDeviceResult V × Store V)
    unfolding keep_existing create_new ensure_device_limit_available
    license_case s input license (some d) = keep_existing s d
    license_case s input license none = do
      ensure_device_limit_available s input license
      create_new s input

    unfoldable pub bind_for_license :
        Store V → DeviceBindInput V → License V → Result (BindDeviceResult V × Store V)
    unfolding license_case normalize_machine_id
    bind_for_license s input license = do
      machine_id ← normalize_machine_id input.machine_id
      reject_if (is_blacklisted s input.tenant_id input.app_id machine_id)
          (device_blacklisted "device blacklisted")
      license_case s input license
          (find_device_by_machine_id s input.tenant_id input.app_id machine_id)

    -- A device of another entitlement moves to the subscription.
    rebind :
        Store V
        → DeviceBindInput V
        → Subscription V
        → Device V
        → Result (BindDeviceResult V × Store V)
    unfolding ensure_subscription_device_limit_available
    rebind s input subscription d = do
      ensure_subscription_device_limit_available s input subscription
      let (found, t) =
          set_subscription_binding now s input.tenant_id d.id subscription.customer_id
            subscription.id
      device ← ok_or found (device_not_found "device not found")
      ok (record { device = device; created = false }, t)

    subscription_case :
        Store V
        → DeviceBindInput V
        → Subscription V
        → Option (Device V)
        → Result (BindDeviceResult V × Store V)
    unfolding ensure_existing_device_usable rebind create_new
        ensure_subscription_device_limit_available
    subscription_case s input subscription (some d) = do
      ensure_existing_device_usable d
      if is_id d.subscription_id subscription.id
          then ok (record { device = d; created = false }, s)
          else rebind s input subscription d
    subscription_case s input subscription none = do
      ensure_subscription_device_limit_available s input subscription
      create_new s input

    unfoldable pub bind_for_subscription :
        Store V → DeviceBindInput V → Subscription V → Result (BindDeviceResult V × Store V)
    unfolding subscription_case normalize_machine_id
    bind_for_subscription s input subscription = do
      machine_id ← normalize_machine_id input.machine_id
      reject_if (is_blacklisted s input.tenant_id input.app_id machine_id)
          (device_blacklisted "device blacklisted")
      subscription_case s input subscription
          (find_device_by_machine_id s input.tenant_id input.app_id machine_id)

    session_case :
        Store V → DeviceBindInput V → Option (Device V) → Result (BindDeviceResult V × Store V)
    unfolding keep_existing create_new
    session_case s input (some d) = keep_existing s d
    session_case s input none = create_new s input

    unfoldable pub bind_for_customer_session :
        Store V → DeviceBindInput V → Result (BindDeviceResult V × Store V)
    unfolding session_case normalize_machine_id
    bind_for_customer_session s input = do
      machine_id ← normalize_machine_id input.machine_id
      reject_if (is_blacklisted s input.tenant_id input.app_id machine_id)
          (device_blacklisted "device blacklisted")
      session_case s input (find_device_by_machine_id s input.tenant_id input.app_id machine_id)
