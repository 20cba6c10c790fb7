-- ===== src/Tests.antt =====
-- Concrete rows and requests for the tests in the child modules. JSON values are `Unit`, hashes are
-- the texts themselves.
mod Clients
mod Devices
mod Licenses
mod Books
mod Logins
mod Accounts
mod Ledger
mod Outbox
mod Limits
mod Releases
mod Signatures
use entitle_hub.Base.{ℕ, ◌≡◌, refl, Bool, true, false, Option, none, some, List, [], ◌∷◌, String}
use entitle_hub.Base.Int.{ℤ, pos}
use entitle_hub.Base.Json.{Json}
use entitle_hub.Error.{Result, ok, err}
use entitle_hub.Admin.{AdminContext}
use entitle_hub.License.{License}
use entitle_hub.Subscription.{Subscription}
use entitle_hub.Device.{Device, DeviceBindInput}
use entitle_hub.Session.{ClientSession, ClientRefreshToken}
use entitle_hub.Store.{Store, Application, Tenant}

abbrev pub value : {A : Type 0} → Result A → A → A
value (ok a) d = a
value (err e) d = d

abbrev pub J : Json (Unit {0})
J = record {
  is_array = λ v. true;
  empty_array = tt;
  empty_object = tt;
  is_array-empty_array = refl;
}

abbrev pub plain_hash : String → Result String
plain_hash s = ok s

abbrev pub tenant : Tenant
tenant = record { id = 1; status = "active"; deleted_at = none }

abbrev pub application : Application
application = record {
  id = 2;
  tenant_id = 1;
  app_key = "app";
  auth_mode = "license";
  status = "active";
  deleted_at = none;
}

abbrev pub license : License (Unit {0})
license = record {
  id = 3;
  tenant_id = 1;
  app_id = 2;
  customer_id = none;
  license_key_hash = "key";
  license_type = "standard";
  status = "active";
  max_devices = pos 2;
  features = tt;
  starts_at = some 10;
  expires_at = some 1000;
  revoked_at = none;
  metadata = tt;
  created_at = 10;
  updated_at = 10;
  deleted_at = none;
}

abbrev pub subscription : Subscription (Unit {0})
subscription = record {
  id = 4;
  tenant_id = 1;
  app_id = 2;
  customer_id = 7;
  plan = "pro";
  status = "active";
  max_devices = pos 1;
  features = tt;
  starts_at = 10;
  expires_at = none;
  cancelled_at = none;
  metadata = tt;
  created_at = 10;
  updated_at = 10;
  deleted_at = none;
}

abbrev pub device : Device (Unit {0})
device = record {
  id = 5;
  tenant_id = 1;
  app_id = 2;
  customer_id = none;
  license_id = some 3;
  subscription_id = none;
  machine_id = "machine";
  device_name = none;
  os = none;
  app_version = none;
  status = "active";
  first_seen_at = 20;
  last_seen_at = none;
  metadata = tt;
  created_at = 20;
  updated_at = 20;
  deleted_at = none;
}

abbrev pub session : ClientSession
session = record {
  id = 6;
  tenant_id = 1;
  app_id = 2;
  customer_id = none;
  device_id = 5;
  machine_id = "machine";
  auth_mode = "license";
  user_agent = none;
  client_ip = none;
  last_used_at = none;
  expires_at = 900;
  revoked_at = none;
  created_at = 20;
}

abbrev pub token : ClientRefreshToken
token = record {
  id = 8;
  session_id = 6;
  token_hash = "old";
  created_at = 20;
  expires_at = 500;
  used_at = none;
  revoked_at = none;
}

abbrev pub store : Store (Unit {0})
store = record {
  tenants = tenant ∷ [];
  applications = application ∷ [];
  licenses = license ∷ [];
  subscriptions = subscription ∷ [];
  devices = device ∷ [];
  device_keys = [];
  blacklist = [];
  sessions = session ∷ [];
  refresh_tokens = token ∷ [];
  audit_logs = [];
}

abbrev pub admin : AdminContext
admin = record {
  session_id = 70;
  tenant_id = 1;
  team_member_id = 9;
  permissions =
      "license:revoke" ∷ "license:suspend" ∷ "license:renew" ∷ "license:reset_device"
      ∷ "device:unbind" ∷ "device:blacklist" ∷ "device:unblacklist" ∷ "ai:job:update"
      ∷ "ai:wallet:update" ∷ [];
}

-- The binding of another machine to the license.
abbrev pub second_machine : DeviceBindInput (Unit {0})
second_machine = record {
  tenant_id = 1;
  app_id = 2;
  customer_id = none;
  license_id = some 3;
  subscription_id = none;
  machine_id = " second ";
  device_name = some "laptop";
  os = none;
  app_version = none;
  metadata = none;
}
