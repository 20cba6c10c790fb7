-- ===== src/Tests/Licenses.antt =====
-- Tests of licenses and subscriptions and of their administration.
use entitle_hub.Base.{ℕ, ◌≡◌, false, ◌↔◌, ◌<◌, ◌/◌, refl, none, some, [], ◌∷◌, arith}
use entitle_hub.Base.Int.{pos}
use entitle_hub.Base.Rows.{find}
use entitle_hub.Base.Text.{trim, is_empty}
use entitle_hub.Error.{ok, conflict, into_response}
use entitle_hub.Error.Codes.{code-status}
use entitle_hub.Admin.{ensure_admin_permission}
use entitle_hub.License.{License, NewLicense, CreateLicenseInput, from_input}
use entitle_hub.License.Service.{validate_license_record}
use entitle_hub.License.Laws.{
  IsUsable, IsWellFormed, Started, validate_license_record-IsUsable, from_input-IsWellFormed,
}
use entitle_hub.Subscription.{NewSubscription, CreateSubscriptionInput}
use entitle_hub.LicenseAdmin.{revoke_license, suspend_license, reset_license_devices, renew_license}
use entitle_hub.LicenseAdmin.Revival.{revoked_license_revives}
use entitle_hub.Store.{Store}
use entitle_hub.Store.Licenses.{find_license_by_id, with_status, renewed}
use entitle_hub.Tests.{value, J, license, store, admin}

code-status_example :
    (into_response (conflict "license already suspended")).code / 100
    ≡ (into_response (conflict "license already suspended")).status
code-status_example = code-status (conflict "license already suspended") tt

validate_license_record-IsUsable_example :
    (validate_license_record license 100 ≡ ok tt) ↔ IsUsable license 100
validate_license_record-IsUsable_example = validate_license_record-IsUsable license 100

abbrev input : CreateLicenseInput (Unit {0})
input = record {
  app_id = 2;
  customer_id = none;
  license_type = some " trial ";
  max_devices = some (pos 3);
  features = none;
  starts_at = none;
  expires_at = some 500;
  metadata = none;
}

abbrev created : NewLicense (Unit {0})
created = record {
  id = 30;
  tenant_id = 1;
  app_id = 2;
  customer_id = none;
  license_key_hash = "hash";
  license_type = "trial";
  max_devices = pos 3;
  features = tt;
  starts_at = some 100;
  expires_at = some 500;
  metadata = tt;
}

from_input-IsWellFormed_example : IsWellFormed J created
unfolding from_input is_empty trim
from_input-IsWellFormed_example =
    from_input-IsWellFormed J (λ s. s) 30 100 1 input "hash" created refl

abbrev plan_input : CreateSubscriptionInput (Unit {0})
plan_input = record {
  app_id = 2;
  customer_id = 7;
  plan = " pro ";
  max_devices = none;
  starts_at = some 50;
  expires_at = some 500;
  features = none;
  metadata = none;
}

abbrev created_subscription : NewSubscription (Unit {0})
created_subscription = record {
  id = 31;
  tenant_id = 1;
  app_id = 2;
  customer_id = 7;
  plan = "pro";
  max_devices = pos 1;
  features = tt;
  starts_at = 50;
  expires_at = some 500;
  metadata = tt;
}

abbrev revoked : License (Unit {0}) × Store (Unit {0})
revoked = value (revoke_license 100 store admin 3) (license, store)

abbrev suspended : License (Unit {0}) × Store (Unit {0})
suspended = value (suspend_license 100 store admin 3) (license, store)

abbrev reset : License (Unit {0}) × Store (Unit {0})
reset = value (reset_license_devices 100 store admin 3 (some "lost")) (license, store)

abbrev revoked_row : License (Unit {0})
revoked_row = record license { status = "revoked"; revoked_at = some 100; updated_at = 100 }

abbrev revoked_store : Store (Unit {0})
revoked_store = record store { licenses = revoked_row ∷ [] }

revoked_license_revives_example :
    ((t u : Store (Unit {0})) × (suspend_license 200 revoked_store admin 3
        ≡ ok (with_status 200 "suspended" false revoked_row, t))
      × (renew_license 300 t admin 3 2000
          ≡ ok (renewed 300 2000 (with_status 200 "suspended" false revoked_row), u))
      × (find_license_by_id u 1 3
          ≡ some (renewed 300 2000 (with_status 200 "suspended" false revoked_row))))
    × ((at : ℕ)
        → Started (some 10) at
        → at < 2000
        → IsUsable (renewed 300 2000 (with_status 200 "suspended" false revoked_row)) at)
unfolding ensure_admin_permission find_license_by_id find
revoked_license_revives_example =
    revoked_license_revives 200 300 2000 revoked_store admin 3 revoked_row refl refl refl refl
      (omega arith)
