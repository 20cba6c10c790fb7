-- ===== src/Tests/Books.antt =====
-- Tests of wallets, usages and jobs.
use entitle_hub.Base.{◌≡◌, true, refl, none, some, [], ◌∷◌, ◌==◌, arith, inl}
use entitle_hub.Base.Int.{pos, ◌+ℤ◌, ◌-ℤ◌, neg, max_ℤ, min_ℤ, saturate}
use entitle_hub.Base.Rows.{find, exists, update, count}
use entitle_hub.Error.{ok}
use entitle_hub.Admin.{ensure_admin_permission}
use entitle_hub.Wallet.{
  Books, WalletRecord, UsageRecord, JobRecord, find_usage_for_update, find_wallet_by_id_for_update,
  update_wallet, update_wallet_hold, update_wallet_capture,
}
use entitle_hub.Wallet.Charge.{settle_charge, IsSettled, settle_charge-IsSettled}
use entitle_hub.Wallet.Billing.{
  JobModel, BillingReservation, reserve_wallet_and_create_usage, capture_usage, settlement_entry,
  fail_job_and_release_usage, fail_admin_job_and_release_usage, release_hold, move_hold,
}
use entitle_hub.Wallet.Billing.Holds.{HoldsAreExact, is_open, open_held}
use entitle_hub.Wallet.Billing.Preserved.{capture_usage-exact, fail_job_and_release_usage-exact}
use entitle_hub.Wallet.Jobs.{
  load_admin_job, fail_ai_generation_job_release, retry_ai_generation_job_cache, admitted, settled,
  finish_success, ensure_job_can_fail_release, ensure_job_can_retry_cache,
}
use entitle_hub.Wallet.Jobs.Twice.{fail_release-retry_cache}
use entitle_hub.Tests.{value, admin}

abbrev pub wallet : WalletRecord
wallet = record {
  id = 1;
  tenant_id = 1;
  customer_id = 7;
  currency = "CNY";
  balance_minor = pos 100;
  held_minor = pos 60;
  ai_enabled = true;
  daily_spend_limit_minor = none;
}

abbrev pub usage : UsageRecord
usage = record {
  id = 2;
  tenant_id = 1;
  wallet_id = 1;
  customer_id = 7;
  model_id = 4;
  status = "running";
  held_minor = pos 20;
  charged_minor = pos 0;
  refunded_minor = pos 0;
  created_at = 50;
}

abbrev other_usage : UsageRecord
other_usage = record usage { id = 3; held_minor = pos 40 }

abbrev job : JobRecord
job = record {
  id = 5;
  tenant_id = 1;
  customer_id = 7;
  usage_id = some 2;
  status = "running";
  provider_job_id = some "remote";
  held_minor = pos 20;
  charged_minor = pos 0;
  refunded_minor = pos 0;
}

abbrev pub books : Books
books = record {
  wallets = wallet ∷ [];
  usages = usage ∷ other_usage ∷ [];
  jobs = job ∷ [];
  ledger = [];
}

books-HoldsAreExact : HoldsAreExact books
unfolding find count open_held is_open
books-HoldsAreExact = record {
  exact = λ id w e. ground arith;
  nonnegative = λ id u e. ground arith;
  keyed = λ id. ground arith;
}

abbrev captured : Books
captured = value (capture_usage books (some 2) (pos 20)) books

capture_usage-exact_example : HoldsAreExact captured
unfolding find is_open capture_usage find_usage_for_update find_wallet_by_id_for_update
    update_wallet_capture ◌-ℤ◌ settle_charge
capture_usage-exact_example =
    capture_usage-exact books captured 2 usage (pos 20) books-HoldsAreExact refl (inl refl) refl

abbrev released : Books
released = value (fail_job_and_release_usage books job) books

fail_job_and_release_usage-exact_example : HoldsAreExact released
unfolding find is_open fail_job_and_release_usage find_usage_for_update find_wallet_by_id_for_update
    ◌+ℤ◌ neg
fail_job_and_release_usage-exact_example =
    fail_job_and_release_usage-exact books released job 2 usage books-HoldsAreExact refl refl
      (inl refl) refl

settle_charge-IsSettled_example :
    IsSettled
      (pos 70)
      (pos 20)
      (pos 100)
      (pos 60)
      (settle_charge (pos 70) (pos 20) (pos 100) (pos 60))
settle_charge-IsSettled_example =
    settle_charge-IsSettled (pos 70) (pos 20) (pos 100) (pos 60) (omega arith) (omega arith)
      (omega arith) (omega arith) (omega arith)

abbrev pub model : JobModel
model = record { id = 4; currency = "CNY"; daily_spend_limit_minor = none }

abbrev reserved : BillingReservation × Books
reserved =
    value (reserve_wallet_and_create_usage 8 9 60 40 books 1 7 model (pos 30))
      (record { usage_id = 0; wallet_id = 0; held_minor = pos 0 }, books)

abbrev failed : Books
failed = (fail_ai_generation_job_release books admin 5).0

abbrev retried : Books
retried = (retry_ai_generation_job_cache failed admin 5 (some 1) (ok tt)).0

fail_release-retry_cache_example :
    (v : WalletRecord) × (find (λ w. w.id == 1) retried.wallets ≡ some v)
    × (v.held_minor ≡ (pos 60 -ℤ pos 20) -ℤ pos 20)
unfolding load_admin_job find is_open fail_ai_generation_job_release settled admitted
    ensure_admin_permission ensure_job_can_fail_release fail_admin_job_and_release_usage
    find_usage_for_update find_wallet_by_id_for_update ◌+ℤ◌ neg retry_ai_generation_job_cache update
    ensure_job_can_retry_cache capture_usage max_ℤ min_ℤ saturate ◌-ℤ◌ exists move_hold release_hold
    settlement_entry settle_charge finish_success update_wallet update_wallet_capture
    update_wallet_hold
fail_release-retry_cache_example =
    fail_release-retry_cache books failed retried admin 5 0 job 2 usage wallet refl refl refl refl
      refl refl refl refl
