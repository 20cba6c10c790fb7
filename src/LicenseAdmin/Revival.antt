-- ===== src/LicenseAdmin/Revival.antt =====
-- Suspending and renewing a license, and how a revoked license comes back.
use entitle_hub.Base.{ℕ, ◌<◌, ◌≡◌, refl, true, false, Bool, not, some, arith, str_eq}
use entitle_hub.Base.Rows.{find-update, exists_of_find}
use entitle_hub.Error.{ok}
use entitle_hub.Admin.{AdminContext, ensure_admin_permission}
use entitle_hub.License.{License, validate_renew_expires_at}
use entitle_hub.License.Laws.{Ordered, IsUsable, Started}
use entitle_hub.Store.{Store}
use entitle_hub.Store.Licenses.{
  update_license, find_license_by_id, set_license_status, is_license, with_status, renewed,
  renew_license_row,
}
use entitle_hub.Store.Sessions.{revoke_license_sessions, revoke_license_refresh_tokens}
use entitle_hub.LicenseAdmin.{
  audit_license_change, revoke_license_access, suspend_license, renew_license,
}

module _ {V : Type 0} where
  -- What the update of a license returns and leaves, where a license that it may change stands.
  update_license_lem :
      (s : Store V) (tenant_id id : ℕ) (allowed : License V → Bool) (change : License V → License V)
      (b : License V)
      → ((l : License V) → is_license tenant_id id (change l) ≡ is_license tenant_id id l)
      → find_license_by_id s tenant_id id ≡ some b
      → allowed b ≡ true
      → (update_license s tenant_id id allowed change).0 ≡ some (change b)
        × (find_license_by_id (update_license s tenant_id id allowed change).1 tenant_id id
            ≡ some (change b))
  unfolding find_license_by_id
  update_license_lem s tenant_id id allowed change b same found may = ground (
    arith,
    exists_of_find (is_license tenant_id id) allowed s.licenses b found,
    find-update (is_license tenant_id id) allowed change s.licenses same,
  )

  -- Suspending a license that is not suspended, and the license that is found afterwards.
  suspend_license_lem :
      (now : ℕ) (s : Store V) (admin : AdminContext) (id : ℕ) (l : License V)
      → ensure_admin_permission admin "license:suspend" ≡ ok tt
      → find_license_by_id s admin.tenant_id id ≡ some l
      → str_eq l.status "suspended" ≡ false
      → (t : Store V) × (suspend_license now s admin id
          ≡ ok (with_status now "suspended" false l, t))
        × (find_license_by_id t admin.tenant_id id ≡ some (with_status now "suspended" false l))
  unfolding suspend_license set_license_status find_license_by_id revoke_license_sessions
      revoke_license_refresh_tokens
  suspend_license_lem now s admin id l may found open_state =
      let e =
        update_license_lem s admin.tenant_id id (λ k. not (str_eq k.status "suspended"))
          (with_status now "suspended" false) l (λ k. refl) found (rw open_state) in
      (
        audit_license_change now
            (revoke_license_access now
              (set_license_status now s admin.tenant_id id "suspended" false).1 admin.tenant_id id)
            admin "license.suspend" l.id,
        ground arith,
        ground arith,
      )

  renew_license_lem :
      (now : ℕ) (s : Store V) (admin : AdminContext) (id expires_at : ℕ) (l : License V)
      → ensure_admin_permission admin "license:renew" ≡ ok tt
      → find_license_by_id s admin.tenant_id id ≡ some l
      → str_eq l.status "revoked" ≡ false
      → validate_renew_expires_at l expires_at ≡ ok tt
      → (t : Store V) × (renew_license now s admin id expires_at ≡ ok (renewed now expires_at l, t))
        × (find_license_by_id t admin.tenant_id id ≡ some (renewed now expires_at l))
  unfolding renew_license renew_license_row find_license_by_id
  renew_license_lem now s admin id expires_at l may found unrevoked window =
      let e =
        update_license_lem s admin.tenant_id id (λ k. not (str_eq k.status "revoked"))
          (renewed now expires_at) l (λ k. refl) found (rw unrevoked) in
      (
        audit_license_change now (renew_license_row now s admin.tenant_id id expires_at).1 admin
            "license.renew" l.id,
        ground arith,
        ground arith,
      )

  validate_renew_expires_at_of_Ordered :
      (l : License V) (expires_at : ℕ)
      → Ordered l.starts_at (some expires_at)
      → validate_renew_expires_at l expires_at ≡ ok tt
  unfolding validate_renew_expires_at
  validate_renew_expires_at_of_Ordered l expires_at h = ground arith

  -- An administrator with both permissions can suspend a revoked license and then renew it, to an
  -- expiry after its start: both actions succeed, and the license is usable again from its start to
  -- the new expiry.
  pub revoked_license_revives :
      (now later expires_at : ℕ) (s : Store V) (admin : AdminContext) (id : ℕ) (l : License V)
      → ensure_admin_permission admin "license:suspend" ≡ ok tt
      → ensure_admin_permission admin "license:renew" ≡ ok tt
      → find_license_by_id s admin.tenant_id id ≡ some l
      → l.status ≡ "revoked"
      → Ordered l.starts_at (some expires_at)
      → let l₁ = with_status now "suspended" false l in
        let l₂ = renewed later expires_at l₁ in
        ((t u : Store V) × (suspend_license now s admin id ≡ ok (l₁, t))
          × (renew_license later t admin id expires_at ≡ ok (l₂, u))
          × (find_license_by_id u admin.tenant_id id ≡ some l₂))
        × ((at : ℕ) → Started l.starts_at at → at < expires_at → IsUsable l₂ at)
  revoked_license_revives now later expires_at s admin id l may_suspend may_renew found revoked
        window =
      let (t, suspended, found') =
        suspend_license_lem now s admin id l may_suspend found (rw revoked) in
      let (u, renewed', found'') =
        renew_license_lem later t admin id expires_at (with_status now "suspended" false l)
          may_renew found' refl (validate_renew_expires_at_of_Ordered _ expires_at window) in
      (
        (t, u, suspended, renewed', found''),
        λ at a b. record { active = refl; unrevoked = refl; started = a; unexpired = b },
      )
