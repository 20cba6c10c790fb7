-- ===== src/Store/Devices.antt =====
-- backend/src/modules/device/repository.rs: the statements over `devices`, `device_blacklist` and
-- `device_keys`. A statement inside a transaction and its twin outside one are one definition.
use entitle_hub.Base.{
  ℕ, Bool, ◌&&◌, ◌||◌, not, Option, none, some, ◌∷◌, String, str_eq, ◌==◌, if◌then◌else◌, is_some,
  is_id,
}
use entitle_hub.Base.Rows.{find, exists, count, update, delete}
use entitle_hub.Error.{Result, ok, err, dependency}
use entitle_hub.Device.{Device, NewDevice, DeviceKey, NewDeviceKey}
use entitle_hub.Store.{Store, BlacklistEntry}

abbrev pub key_row : ℕ → NewDeviceKey → DeviceKey
key_row now k = record {
  id = k.id;
  tenant_id = k.tenant_id;
  app_id = k.app_id;
  device_id = k.device_id;
  public_key = k.public_key;
  algorithm = "Ed25519";
  status = "active";
  created_at = now;
  rotated_at = none;
  revoked_at = none;
}

module _ {V : Type 0} where
  -- The row of a machine in an application, unless it is deleted.
  abbrev pub is_machine : ℕ → ℕ → String → Device V → Bool
  is_machine tenant_id app_id machine_id d =
      d.tenant_id == tenant_id
      && d.app_id == app_id
      && str_eq d.machine_id machine_id
      && not (is_some d.deleted_at)

  abbrev pub is_device : ℕ → ℕ → Device V → Bool
  is_device tenant_id id d = d.tenant_id == tenant_id && d.id == id && not (is_some d.deleted_at)

  -- `status in ('active', 'disabled')`
  abbrev pub takes_seat : Device V → Bool
  takes_seat d =
      (str_eq d.status "active" || str_eq d.status "disabled") && not (is_some d.deleted_at)

  abbrev pub seat_of_license : ℕ → ℕ → ℕ → Device V → Bool
  seat_of_license tenant_id app_id license_id d =
      d.tenant_id == tenant_id
      && d.app_id == app_id
      && is_id d.license_id license_id
      && takes_seat d

  abbrev pub seat_of_subscription : ℕ → ℕ → ℕ → Device V → Bool
  seat_of_subscription tenant_id app_id subscription_id d =
      d.tenant_id == tenant_id
      && d.app_id == app_id
      && is_id d.subscription_id subscription_id
      && takes_seat d

  unfoldable pub find_device_by_machine_id : Store V → ℕ → ℕ → String → Option (Device V)
  find_device_by_machine_id s tenant_id app_id machine_id =
      find (is_machine tenant_id app_id machine_id) s.devices

  unfoldable pub find_device_by_id : Store V → (tenant_id app_id id : ℕ) → Option (Device V)
  find_device_by_id s tenant_id app_id id =
      find (λ d. d.app_id == app_id && is_device tenant_id id d) s.devices

  unfoldable pub find_by_id_for_admin : Store V → (tenant_id id : ℕ) → Option (Device V)
  find_by_id_for_admin s tenant_id id = find (is_device tenant_id id) s.devices

  -- The row that `insert into devices` writes, with the defaults of the table.
  abbrev pub device_row : ℕ → NewDevice V → Device V
  device_row now d = record {
    id = d.id;
    tenant_id = d.tenant_id;
    app_id = d.app_id;
    customer_id = d.customer_id;
    license_id = d.license_id;
    subscription_id = d.subscription_id;
    machine_id = d.machine_id;
    device_name = d.device_name;
    os = d.os;
    app_version = d.app_version;
    status = "active";
    first_seen_at = now;
    last_seen_at = none;
    metadata = d.metadata;
    created_at = now;
    updated_at = now;
    deleted_at = none;
  }

  -- The key of the table and the unique index over live machines.
  unfoldable pub create_device : ℕ → Store V → NewDevice V → Result (Device V × Store V)
  create_device now s d =
      if exists (λ e. e.id == d.id) s.devices
        || exists (is_machine d.tenant_id d.app_id d.machine_id) s.devices
      then err (dependency "device repository database error")
      else ok (device_row now d, record s { devices = device_row now d ∷ s.devices })

  unfoldable pub active_device_count_for_license : Store V → (tenant_id app_id license_id : ℕ) → ℕ
  active_device_count_for_license s tenant_id app_id license_id =
      count (seat_of_license tenant_id app_id license_id) s.devices

  unfoldable pub active_device_count_for_subscription :
      Store V → (tenant_id app_id subscription_id : ℕ) → ℕ
  active_device_count_for_subscription s tenant_id app_id subscription_id =
      count (seat_of_subscription tenant_id app_id subscription_id) s.devices

  abbrev pub bind_to_subscription : ℕ → ℕ → ℕ → Device V → Device V
  bind_to_subscription now customer_id subscription_id d = record d {
    customer_id = some customer_id;
    license_id = none;
    subscription_id = some subscription_id;
    updated_at = now;
  }

  -- `returning` gives the row as the update leaves it.
  unfoldable pub set_subscription_binding :
      ℕ
      → Store V
      → (tenant_id device_id customer_id subscription_id : ℕ) → Option (Device V) × Store V
  set_subscription_binding now s tenant_id device_id customer_id subscription_id =
      let rows =
        update (is_device tenant_id device_id)
          (bind_to_subscription now customer_id subscription_id) s.devices in
      (find (is_device tenant_id device_id) rows, record s { devices = rows })

  unfoldable pub is_blacklisted : Store V → (tenant_id app_id : ℕ) → String → Bool
  is_blacklisted s tenant_id app_id machine_id =
      exists
        (λ b.
          b.tenant_id == tenant_id
          && str_eq b.machine_id machine_id
          && (not (is_some b.app_id) || is_id b.app_id app_id))
        s.blacklist

  unfoldable pub touch_device : ℕ → Store V → (tenant_id app_id id : ℕ) → Option String → Store V
  touch_device now s tenant_id app_id id app_version = record s {
    devices =
        update (λ d. d.app_id == app_id && is_device tenant_id id d)
          (λ d. record d {
            last_seen_at = some now;
            app_version = elim app_version [ none ↦ d.app_version | some v ↦ some v ];
            updated_at = now;
          })
          s.devices;
  }

  unfoldable pub set_device_status :
      ℕ → Store V → (tenant_id device_id : ℕ) → String → Option (Device V) × Store V
  set_device_status now s tenant_id device_id status =
      let rows =
        update (is_device tenant_id device_id) (λ d. record d { status = status; updated_at = now })
          s.devices in
      (find (is_device tenant_id device_id) rows, record s { devices = rows })

  unfoldable pub remove_device_blacklist : Store V → (tenant_id app_id : ℕ) → String → Store V
  remove_device_blacklist s tenant_id app_id machine_id = record s {
    blacklist =
        delete
          (λ b. b.tenant_id == tenant_id && is_id b.app_id app_id && str_eq b.machine_id machine_id)
          s.blacklist;
  }

  -- The entry of the application is replaced.
  unfoldable pub add_device_blacklist :
      Store V → (tenant_id app_id : ℕ) → (machine_id reason : String) → ℕ → Store V
  unfolding remove_device_blacklist
  add_device_blacklist s tenant_id app_id machine_id reason created_by =
      let t = remove_device_blacklist s tenant_id app_id machine_id in
      let entry : BlacklistEntry = record {
        tenant_id = tenant_id;
        app_id = some app_id;
        machine_id = machine_id;
        reason = some reason;
        created_by = some created_by;
      } in
      record t { blacklist = entry ∷ t.blacklist }

  -- The key of the table and the unique index of one active key for each device.
  unfoldable pub create_device_key : ℕ → Store V → NewDeviceKey → Result (DeviceKey × Store V)
  create_device_key now s k =
      if exists (λ e. e.id == k.id) s.device_keys
        || exists (λ e. e.device_id == k.device_id && str_eq e.status "active") s.device_keys
      then err (dependency "device repository database error")
      else ok (key_row now k, record s { device_keys = key_row now k ∷ s.device_keys })
