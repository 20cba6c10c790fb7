-- ===== src/Wallet/Jobs/Twice.antt =====
-- The two actions of an administrator that release the hold of a job twice.
use entitle_hub.Base.{
  ℕ, suc, ◌≡◌, ◌∙◌, ap, refl, true, ◌&&◌, some, ◌==◌, arith, ==_refl, Option-cases, inl, inr,
  if◌then◌else◌,
}
use entitle_hub.Base.Int.{ℤ, pos, ◌-ℤ◌, ltb_ℤ}
use entitle_hub.Base.Rows.{find, update, find-update-if}
use entitle_hub.Error.{Result-cases, ok}
use entitle_hub.Admin.{AdminContext}
use entitle_hub.Wallet.{
  Books, WalletRecord, UsageRecord, JobRecord, mark_job_caching, find_usage_for_update,
  update_wallet, update_wallet_hold,
}
use entitle_hub.Wallet.Billing.{
  fail_admin_job_and_release_usage, capture_usage, release_hold, move_hold, is_unsettled,
}
use entitle_hub.Wallet.Billing.Holds.{is_open}
use entitle_hub.Wallet.Billing.Double.{fail_then_capture}
use entitle_hub.Wallet.Jobs.{
  load_admin_job, admitted, settled, finish_success, retry_ai_generation_job_cache,
  fail_ai_generation_job_release,
}

-- The jobs that a failure leaves.
fail_admin-jobs :
    (b t : Books) (job : JobRecord)
    → fail_admin_job_and_release_usage b job ≡ ok t
    → (refunded : ℤ) × (t.jobs
        ≡ update
            (λ j. j.id == job.id)
            (λ j. record j { status = "failed"; refunded_minor = refunded })
            b.jobs)
unfolding fail_admin_job_and_release_usage release_hold move_hold update_wallet_hold update_wallet
fail_admin-jobs b t job h = elim (Option-cases job.usage_id) [
  | inl e ↦ ground arith
  | inr (usage_id, e) ↦ elim (Result-cases (find_usage_for_update b usage_id)) [
    | inr (x, k) ↦ ground arith
    | inl (u, k) ↦ (if is_unsettled u then u.held_minor else job.refunded_minor, ground arith)
  ]
]

-- When an administrator fails a job whose usage is open with a positive hold, and directly
-- afterwards has it cached again, both with success, the hold leaves the wallet twice.
pub fail_release-retry_cache :
    (b t t' : Books) (admin : AdminContext) (job_id n : ℕ) (job : JobRecord) (usage_id : ℕ)
    (u : UsageRecord) (w : WalletRecord)
    → load_admin_job b admin.tenant_id job_id ≡ ok job
    → job.usage_id ≡ some usage_id
    → find (λ v. v.id == usage_id) b.usages ≡ some u
    → is_open u ≡ true
    → ltb_ℤ (pos 0) u.held_minor ≡ true
    → find (λ v. v.id == u.wallet_id) b.wallets ≡ some w
    → fail_ai_generation_job_release b admin job_id ≡ (t, ok tt)
    → retry_ai_generation_job_cache t admin job_id (some (suc n)) (ok tt) ≡ (t', ok tt)
    → (v : WalletRecord) × (find (λ v. v.id == u.wallet_id) t'.wallets ≡ some v)
      × (v.held_minor ≡ (w.held_minor -ℤ u.held_minor) -ℤ u.held_minor)
unfolding fail_ai_generation_job_release retry_ai_generation_job_cache admitted settled
    load_admin_job finish_success
fail_release-retry_cache b t t' admin job_id n job usage_id u w loaded of_job found opened holds
      of_wallet e e' =
    let failed : fail_admin_job_and_release_usage b job ≡ ok t = ground arith in
    let (refunded, jobs) = fail_admin-jobs b t job failed in
    elim (Option-cases (find (λ j. j.tenant_id == admin.tenant_id && j.id == job_id) t.jobs)) [
      | inl x ↦ ground arith
      | inr (job', x) ↦
          let mark : JobRecord → JobRecord =
            λ j. record j { status = "failed"; refunded_minor = refunded } in
          let kept =
            ap (find (λ j. j.tenant_id == admin.tenant_id && j.id == job_id)) jobs
            ∙ find-update-if (λ j. j.tenant_id == admin.tenant_id && j.id == job_id)
                (λ j. j.id == job.id) mark b.jobs (λ j. refl) in
          let same_usage : job'.usage_id ≡ some usage_id = ground (arith, kept, ==_refl job.id) in
          elim (Result-cases
            (capture_usage (mark_job_caching t job'.id) (some usage_id) job'.held_minor)) [
              | inr (x', k) ↦ ground arith
              | inl (t₂, k) ↦
                  let (v, at, held) =
                    fail_then_capture b t (mark_job_caching t job'.id) t₂ job usage_id u w
                      job'.held_minor of_job found opened holds of_wallet failed refl refl k in
                  (v, ground (arith, same_usage, x, at), held)
            ]
    ]
