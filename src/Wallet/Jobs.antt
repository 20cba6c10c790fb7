-- ===== src/Wallet/Jobs.antt =====
-- backend/src/modules/ai/jobs.rs: one poll of the worker, and the actions of administrators on jobs.
-- The statements outside a transaction are committed one by one, so these return the books as they
-- are left on every outcome. The provider's answer, the cached assets and the audit log are
-- parameters or left out.
pub mod Twice
use entitle_hub.Base.{
  ℕ, Bool, true, false, ◌&&◌, ◌||◌, not, Option, none, some, String, str_eq, ◌==◌, if◌then◌else◌,
}
use entitle_hub.Base.Int.{ℤ, pos, leb_ℤ, ltb_ℤ}
use entitle_hub.Base.Rows.{find}
use entitle_hub.Base.Text.{is_empty}
use entitle_hub.Error.{
  Result, ok, err, ◌>>=◌, ◌>>◌, reject_if, ok_or, business_rule_failed, not_found, AppError,
}
use entitle_hub.Admin.{AdminContext, ensure_admin_permission}
use entitle_hub.Wallet.{Books, JobRecord, mark_job_running, mark_job_caching, mark_job_succeeded}
use entitle_hub.Wallet.Billing.{
  capture_usage, fail_job_and_release_usage, fail_admin_job_and_release_usage, refund_admin_job,
}

-- What a poll of the provider gives. The assets of a success are cached, or are not.
pub data Poll : Type 0 where
  waiting : Poll
  succeeded : Result (Unit {0}) → Poll
  failed : Poll

-- The books that a transaction leaves.
unfoldable pub settled : Books → Result Books → Books × Result (Unit {0})
settled b (err e) = (b, err e)
settled b (ok t) = (t, ok tt)

-- `charge_minor_from_job` and `charge_minor_from_admin_job`: each mode charges the hold.
abbrev pub charge_minor_from_job : JobRecord → ℤ
charge_minor_from_job job = job.held_minor

capture_and_mark : Books → JobRecord → Result Books → Books × Result (Unit {0})
capture_and_mark b job (err e) = (b, err e)
capture_and_mark b job (ok t) = (mark_job_succeeded t job.id (charge_minor_from_job job), ok tt)

-- After the assets are cached: capture, then mark.
unfoldable pub finish_success : Books → JobRecord → Books × Result (Unit {0})
unfolding capture_and_mark
finish_success b job =
    capture_and_mark b job (capture_usage b job.usage_id (charge_minor_from_job job))

after_poll : Books → JobRecord → Poll → Books × Result (Unit {0})
unfolding settled finish_success
after_poll b job waiting = (mark_job_running b job.id, ok tt)
after_poll b job (succeeded (ok _)) = finish_success (mark_job_caching b job.id) job
after_poll b job (succeeded (err e)) = (mark_job_caching (mark_job_caching b job.id) job.id, ok tt)
after_poll b job failed = settled b (fail_job_and_release_usage b job)

process_by_id : Books → JobRecord → Option String → Poll → Books × Result (Unit {0})
unfolding after_poll settled
process_by_id b job none poll = settled b (fail_job_and_release_usage b job)
process_by_id b job (some id) poll = after_poll b job poll

-- A job that the worker has claimed, with the answer of the provider.
unfoldable pub process_generation_job : Books → JobRecord → Poll → Books × Result (Unit {0})
unfolding process_by_id
process_generation_job b job poll = process_by_id b job job.provider_job_id poll

unfoldable pub ensure_job_can_retry_cache : JobRecord → Result (Unit {0})
ensure_job_can_retry_cache job = do
  reject_if (ltb_ℤ (pos 0) job.charged_minor)
      (business_rule_failed "ai generation job has already been charged")
  if str_eq job.status "caching"
        || str_eq job.status "timeout_review"
        || str_eq job.status "failed"
        || str_eq job.status "provider_failed"
      then ok tt
      else err (business_rule_failed "ai generation job cannot be cached again in this status")

unfoldable pub ensure_job_can_fail_release : JobRecord → Result (Unit {0})
ensure_job_can_fail_release job = do
  reject_if (ltb_ℤ (pos 0) job.charged_minor)
      (business_rule_failed "charged ai generation job must be refunded instead")
  if str_eq job.status "submitted"
        || str_eq job.status "running"
        || str_eq job.status "caching"
        || str_eq job.status "timeout_review"
        || str_eq job.status "provider_failed"
        || str_eq job.status "failed"
      then ok tt
      else err (business_rule_failed "ai generation job cannot be marked failed in this status")

unfoldable pub ensure_job_can_refund : JobRecord → Result (Unit {0})
ensure_job_can_refund job = do
  reject_if (not (str_eq job.status "succeeded"))
      (business_rule_failed "only succeeded ai generation jobs can be refunded")
  reject_if (leb_ℤ job.charged_minor job.refunded_minor)
      (business_rule_failed "ai generation job has no refundable charge")

unfoldable pub load_admin_job : Books → (tenant_id job_id : ℕ) → Result JobRecord
load_admin_job b tenant_id job_id =
    ok_or (find (λ j. j.tenant_id == tenant_id && j.id == job_id) b.jobs)
      (not_found "ai generation job not found")

-- What the actions check before they touch the books.
unfoldable pub admitted :
    Books → AdminContext → ℕ → (JobRecord → Result (Unit {0})) → Result JobRecord
unfolding load_admin_job
admitted b admin job_id allowed = do
  ensure_admin_permission admin "ai:job:update"
  job ← load_admin_job b admin.tenant_id job_id
  allowed job
  ok job

retry_with : Books → Result JobRecord → Option ℕ → Result (Unit {0}) → Books × Result (Unit {0})
unfolding finish_success
retry_with b (err e) result cached = (b, err e)
retry_with b (ok job) none cached =
    (b, err (business_rule_failed "ai generation job has no provider result"))
retry_with b (ok job) (some urls) (err e) =
    if urls == 0
    then (b, err (business_rule_failed "ai generation job provider result has no asset urls"))
    else (mark_job_caching b job.id, err e)
retry_with b (ok job) (some urls) (ok _) =
    if urls == 0
    then (b, err (business_rule_failed "ai generation job provider result has no asset urls"))
    else finish_success (mark_job_caching b job.id) job

-- The stored result has so many asset addresses, if there is one; caching them has an outcome.
unfoldable pub retry_ai_generation_job_cache :
    Books → AdminContext → ℕ → Option ℕ → Result (Unit {0}) → Books × Result (Unit {0})
unfolding retry_with
retry_ai_generation_job_cache b admin job_id result cached =
    retry_with b (admitted b admin job_id ensure_job_can_retry_cache) result cached

unfoldable pub fail_ai_generation_job_release : Books → AdminContext → ℕ → Books × Result (Unit {0})
fail_ai_generation_job_release b admin job_id = settled b (
    admitted b admin job_id ensure_job_can_fail_release >>= λ job.
    fail_admin_job_and_release_usage b job)

unfoldable pub refund_ai_generation_job : Books → AdminContext → ℕ → Books × Result (Unit {0})
refund_ai_generation_job b admin job_id =
    settled b (admitted b admin job_id ensure_job_can_refund >>= λ job. refund_admin_job b job)
