-- ===== src/Store/Licenses.antt =====
-- backend/src/modules/license/repository.rs and admin.rs, and the lookups of subscriptions,
-- applications and tenants: the statements over those tables.
use entitle_hub.Base.{
  ℕ, Bool, ◌&&◌, not, Option, none, some, String, str_eq, ◌==◌, if◌then◌else◌, is_some, is_id,
}
use entitle_hub.Base.Rows.{find, exists, update}
use entitle_hub.License.{License}
use entitle_hub.Subscription.{Subscription}
use entitle_hub.Store.{Store, Application, Tenant}

module _ {V : Type 0} where
  abbrev pub is_license : ℕ → ℕ → License V → Bool
  is_license tenant_id id l = l.tenant_id == tenant_id && l.id == id && not (is_some l.deleted_at)

  unfoldable pub find_license_by_id : Store V → (tenant_id id : ℕ) → Option (License V)
  find_license_by_id s tenant_id id = find (is_license tenant_id id) s.licenses

  unfoldable pub find_subscription_by_id : Store V → (tenant_id id : ℕ) → Option (Subscription V)
  find_subscription_by_id s tenant_id id =
      find (λ u. u.tenant_id == tenant_id && u.id == id && not (is_some u.deleted_at))
        s.subscriptions

  unfoldable pub find_application_by_id : Store V → (tenant_id id : ℕ) → Option Application
  find_application_by_id s tenant_id id =
      find (λ a. a.tenant_id == tenant_id && a.id == id && not (is_some a.deleted_at))
        s.applications

  unfoldable pub find_by_app_key : Store V → String → Option Application
  find_by_app_key s app_key =
      find (λ a. str_eq a.app_key app_key && not (is_some a.deleted_at)) s.applications

  unfoldable pub find_tenant_by_id : Store V → ℕ → Option Tenant
  find_tenant_by_id s id = find (λ t. t.id == id && not (is_some t.deleted_at)) s.tenants

  -- An update that returns its row: `none` when the clause selects no row.
  abbrev pub update_license :
      Store V → ℕ → ℕ → (License V → Bool) → (License V → License V) → Option (License V) × Store V
  update_license s tenant_id id allowed change =
      if exists (λ l. is_license tenant_id id l && allowed l) s.licenses
      then (let rows = update (λ l. is_license tenant_id id l && allowed l) change s.licenses in
          (find (is_license tenant_id id) rows, record s { licenses = rows }))
      else (none, s)

  abbrev pub with_status : ℕ → String → Bool → License V → License V
  with_status now status revoked l = record l {
    status = status;
    revoked_at = if revoked then some now else l.revoked_at;
    updated_at = now;
  }

  -- `set_status` and `set_license_status_in_transaction`
  unfoldable pub set_license_status :
      ℕ → Store V → (tenant_id license_id : ℕ) → String → Bool → Option (License V) × Store V
  set_license_status now s tenant_id license_id status revoked =
      update_license s tenant_id license_id (λ l. not (str_eq l.status status))
        (with_status now status revoked)

  abbrev pub renewed : ℕ → ℕ → License V → License V
  renewed now expires_at l = record l {
    status = "active";
    expires_at = some expires_at;
    revoked_at = none;
    updated_at = now;
  }

  -- `renew` and `renew_license_in_transaction`
  unfoldable pub renew_license_row :
      ℕ → Store V → (tenant_id license_id expires_at : ℕ) → Option (License V) × Store V
  renew_license_row now s tenant_id license_id expires_at =
      update_license s tenant_id license_id (λ l. not (str_eq l.status "revoked"))
        (renewed now expires_at)

  unfoldable pub reset_license_devices_rows : ℕ → Store V → (tenant_id license_id : ℕ) → Store V
  reset_license_devices_rows now s tenant_id license_id = record s {
    devices =
        update
          (λ d.
            d.tenant_id == tenant_id
            && is_id d.license_id license_id
            && not (str_eq d.status "unbound")
            && not (is_some d.deleted_at))
          (λ d. record d { status = "unbound"; updated_at = now }) s.devices;
  }
