-- ===== src/Wallet/Billing/Double.antt =====
-- A hold that goes back twice: capturing a usage whose hold was released.
use entitle_hub.Base.{
  ℕ, ◌≡◌, ◌∙◌, sym, ap, refl, Bool, true, false, ◌&&◌, some, str_eq, ◌==◌, arith, ==_refl,
}
use entitle_hub.Base.Int.{ℤ, pos, ◌-ℤ◌, neg, ltb_ℤ}
use entitle_hub.Base.Rows.{find, update, find-update-if, find-true}
use entitle_hub.Error.{ok}
use entitle_hub.Wallet.{
  Books, WalletRecord, UsageRecord, JobRecord, update_wallet_hold, update_wallet_capture,
  update_wallet, add_held, captured, find_usage_for_update, find_wallet_by_id_for_update,
}
use entitle_hub.Wallet.Charge.{settle_charge}
use entitle_hub.Wallet.Billing.{
  move_hold, release_hold, fail_admin_job_and_release_usage, capture_usage, settlement_entry,
}
use entitle_hub.Wallet.Billing.Holds.{is_open}
use entitle_hub.Wallet.Billing.Preserved.{open-unsettled, -+ℤ-neg, wallets-update}

-- Capturing any usage that has not succeeded takes its hold off its wallet, whether or not the usage
-- still holds it.
capture_usage_lem :
    (b t : Books) (usage_id : ℕ) (u : UsageRecord) (w : WalletRecord) (charge : ℤ)
    → find (λ v. v.id == usage_id) b.usages ≡ some u
    → str_eq u.status "succeeded" ≡ false
    → find (λ v. v.id == u.wallet_id) b.wallets ≡ some w
    → capture_usage b (some usage_id) charge ≡ ok t
    → (v : WalletRecord) × (find (λ v. v.id == u.wallet_id) t.wallets ≡ some v)
      × (v.held_minor ≡ w.held_minor -ℤ u.held_minor)
unfolding capture_usage find_usage_for_update find_wallet_by_id_for_update update_wallet_capture
    update_wallet settlement_entry
capture_usage_lem b t usage_id u w charge found unsettled of_wallet e =
    let s = settle_charge charge u.held_minor w.balance_minor w.held_minor in
    let change = captured u.held_minor s.captured_minor in
    let left : t.wallets ≡ update (λ v. v.id == w.id) change b.wallets = ground arith in
    (
      change w,
      rw left (
          ground (
            arith,
            ==_refl w.id,
            wallets-update b.wallets (λ v. v.id == w.id) change (λ v. refl) u.wallet_id,
          )),
      refl,
    )

-- An administrator who fails a job whose usage is open gives its hold back; when the job's usage is
-- captured afterwards, with wallets and usages as they were left, the wallet loses the same hold a
-- second time.
pub fail_then_capture :
    (b t t₁ t' : Books) (job : JobRecord) (usage_id : ℕ) (u : UsageRecord) (w : WalletRecord)
    (charge : ℤ)
    → job.usage_id ≡ some usage_id
    → find (λ v. v.id == usage_id) b.usages ≡ some u
    → is_open u ≡ true
    → ltb_ℤ (pos 0) u.held_minor ≡ true
    → find (λ v. v.id == u.wallet_id) b.wallets ≡ some w
    → fail_admin_job_and_release_usage b job ≡ ok t
    → t₁.wallets ≡ t.wallets
    → t₁.usages ≡ t.usages
    → capture_usage t₁ (some usage_id) charge ≡ ok t'
    → (v : WalletRecord) × (find (λ v. v.id == u.wallet_id) t'.wallets ≡ some v)
      × (v.held_minor ≡ (w.held_minor -ℤ u.held_minor) -ℤ u.held_minor)
unfolding fail_admin_job_and_release_usage find_usage_for_update release_hold
    find_wallet_by_id_for_update move_hold update_wallet_hold update_wallet
fail_then_capture b t t₁ t' job usage_id u w charge of_job found opened holds of_wallet e
      same_wallets same_usages e' =
    let failed : UsageRecord = record u { status = "failed"; refunded_minor = u.held_minor } in
    let lowered = add_held (neg u.held_minor) w in
    let same : u.id ≡ usage_id = ground (arith, find-true (λ v. v.id == usage_id) b.usages u) in
    let close : UsageRecord → UsageRecord =
      λ v. record v { status = "failed"; refunded_minor = u.held_minor } in
    let test : WalletRecord → Bool = λ v. v.tenant_id == w.tenant_id && v.id == w.id in
    let closed : t.usages ≡ update (λ v. v.id == u.id) close b.usages =
      ground (arith, open-unsettled u opened) in
    let left : t.wallets ≡ update test (add_held (neg u.held_minor)) b.wallets =
      ground (arith, open-unsettled u opened) in
    let usages : find (λ v. v.id == usage_id) t.usages ≡ some failed = rw closed (
      ground (
        arith,
        ==_refl u.id,
        find-update-if (λ v. v.id == usage_id) (λ v. v.id == u.id) close b.usages (λ v. refl),
      )) in
    let wallets : find (λ v. v.id == u.wallet_id) t.wallets ≡ some lowered = rw left (
      ground (
        arith,
        ==_refl w.tenant_id,
        ==_refl w.id,
        wallets-update b.wallets test (add_held (neg u.held_minor)) (λ v. refl) u.wallet_id,
      )) in
    let (v, at, held) =
      capture_usage_lem t₁ t' usage_id failed lowered charge
        (ap (find (λ v. v.id == usage_id)) same_usages ∙ usages) refl
        (ap (find (λ v. v.id == u.wallet_id)) same_wallets ∙ wallets) e' in
    (v, at, held ∙ ap (λ h. h -ℤ u.held_minor) (sym (-+ℤ-neg w.held_minor u.held_minor)))
