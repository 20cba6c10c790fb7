-- ===== src/Wallet/Billing.antt =====
-- backend/src/modules/ai/jobs.rs: the transactions over wallets, usage records and jobs: reserving,
-- capturing, releasing and refunding. A transaction that fails is rolled back: it returns books on
-- success only. Identifiers that the source generates, and the start of the day, are arguments.
pub mod Reserve
pub mod Holds
pub mod Preserved
pub mod Double
use entitle_hub.Base.{
  ℕ, Bool, true, false, ◌&&◌, ◌||◌, not, Option, none, some, List, [], ◌∷◌, String, str_eq, ◌==◌,
  leb, if◌then◌else◌,
}
use entitle_hub.Base.Int.{ℤ, pos, ◌+ℤ◌, ◌-ℤ◌, neg, leb_ℤ, ltb_ℤ, saturate}
use entitle_hub.Base.Rows.{find}
use entitle_hub.Error.{
  Result, ok, err, ◌>>=◌, ◌>>◌, reject_if, ok_or, business_rule_failed, dependency, conflict,
  not_found,
}
use entitle_hub.Wallet.{
  Books, WalletRecord, UsageRecord, JobRecord, ensure_wallet_exists, find_wallet_for_update,
  find_wallet_by_id_for_update, find_usage_for_update, update_wallet_hold, update_wallet_capture,
  update_wallet_balance, insert_wallet_ledger_entry, update_usage_succeeded, update_usage_failed,
  update_usage_refunded, update_job_failed, update_job_refunded, mark_job_cancelled,
}
use entitle_hub.Wallet.Charge.{settle_charge}

-- What a reservation reads of `JobModel`.
pub record JobModel : Type 0 where
  pub id : ℕ
  pub currency : String
  pub daily_spend_limit_minor : Option ℤ

pub record BillingReservation : Type 0 where
  pub usage_id : ℕ
  pub wallet_id : ℕ
  pub held_minor : ℤ

-- What a usage record adds to the spending of its day.
unfoldable pub spend_of : UsageRecord → ℤ
spend_of u =
    if str_eq u.status "succeeded"
    then u.charged_minor
    else if str_eq u.status "pending" || str_eq u.status "running"
    then u.held_minor
    else pos 0

-- `$2::uuid is null or customer_id = $2`
abbrev pub is_given : Option ℕ → ℕ → Bool
is_given none id = true
is_given (some given) id = id == given

unfoldable pub sum_spend : (UsageRecord → Bool) → List UsageRecord → ℤ
unfolding spend_of
sum_spend test [] = pos 0
sum_spend test (u ∷ usages) =
    if test u then spend_of u +ℤ sum_spend test usages else sum_spend test usages

-- A number of a row that a query returns: `sum` of a `bigint` column is a `numeric`.
pub data SqlNumber : Type 0 where
  bigint : ℤ → SqlNumber
  numeric : ℤ → SqlNumber

-- A column read as an `i64`: the type of the column must be `bigint`.
unfoldable pub decode_i64 : SqlNumber → Result ℤ
decode_i64 (bigint n) = ok n
decode_i64 (numeric n) = err (dependency "ai generation job database error")

unfoldable pub daily_spend_minor :
    Books → (day_start tenant_id : ℕ) (customer_id model_id : Option ℕ) → Result ℤ
unfolding sum_spend decode_i64
daily_spend_minor b day_start tenant_id customer_id model_id = decode_i64 (
    numeric (
      sum_spend
        (λ u.
          u.tenant_id == tenant_id
          && leb day_start u.created_at
          && is_given customer_id u.customer_id
          && is_given model_id u.model_id)
        b.usages))

unfoldable pub ensure_daily_limit_available : String → (limit used hold : ℤ) → Result (Unit {0})
ensure_daily_limit_available message limit used hold =
    reject_if (ltb_ℤ limit (saturate (used +ℤ hold))) (business_rule_failed message)

-- A limit that is not set is not asked.
unfoldable pub within_limit : String → Option ℤ → Result ℤ → (hold : ℤ) → Result (Unit {0})
unfolding ensure_daily_limit_available
within_limit message none spent hold = ok tt
within_limit message (some limit) spent hold =
    spent >>= λ used. ensure_daily_limit_available message limit used hold

unfoldable pub ensure_daily_spend_limits :
    Books → (day_start tenant_id customer_id : ℕ) → JobModel → WalletRecord → ℤ → Result (Unit {0})
unfolding within_limit
ensure_daily_spend_limits b day_start tenant_id customer_id model wallet hold_minor =
    if leb_ℤ hold_minor (pos 0) then ok tt else (do
      within_limit "customer ai daily spend limit exceeded" wallet.daily_spend_limit_minor
          (daily_spend_minor b day_start tenant_id (some customer_id) none) hold_minor
      within_limit "ai model daily spend limit exceeded" model.daily_spend_limit_minor
          (daily_spend_minor b day_start tenant_id none (some model.id)) hold_minor)

-- `if hold_minor > 0 { update_wallet_hold } else { wallet }`, and the entry of the ledger.
unfoldable pub move_hold : Books → WalletRecord → ℤ → String → ℤ → ℕ → Result Books
unfolding update_wallet_hold
move_hold b wallet amount entry_type delta usage_id =
    if ltb_ℤ (pos 0) amount
    then (do
      (updated, t) ← update_wallet_hold b wallet.tenant_id wallet.id delta
      ok (insert_wallet_ledger_entry t updated entry_type delta usage_id))
    else ok b

abbrev pub usage_row : (usage_id tenant_id customer_id now : ℕ) → JobModel → ℕ → ℤ → UsageRecord
usage_row usage_id tenant_id customer_id now model wallet_id hold_minor = record {
  id = usage_id;
  tenant_id = tenant_id;
  wallet_id = wallet_id;
  customer_id = customer_id;
  model_id = model.id;
  status = "running";
  held_minor = hold_minor;
  charged_minor = pos 0;
  refunded_minor = pos 0;
  created_at = now;
}

unfoldable pub reserve_wallet_and_create_usage :
    (fresh_wallet usage_id now day_start : ℕ)
    → Books
    → (tenant_id customer_id : ℕ) → JobModel
    → ℤ
    → Result (BillingReservation × Books)
unfolding move_hold
reserve_wallet_and_create_usage fresh_wallet usage_id now day_start b₀ tenant_id customer_id model
      hold_minor =
    do
      let b = ensure_wallet_exists b₀ fresh_wallet tenant_id customer_id
      wallet ← find_wallet_for_update b tenant_id customer_id
      reject_if (not wallet.ai_enabled) (business_rule_failed "customer ai access is frozen")
      reject_if (not (str_eq wallet.currency model.currency))
          (business_rule_failed "ai wallet currency does not match model currency")
      reject_if (ltb_ℤ (wallet.balance_minor -ℤ wallet.held_minor) hold_minor)
          (business_rule_failed "ai wallet available balance is insufficient")
      ensure_daily_spend_limits b day_start tenant_id customer_id model wallet hold_minor
      t ← move_hold b wallet hold_minor "hold" hold_minor usage_id
      ok (
        record { usage_id = usage_id; wallet_id = wallet.id; held_minor = hold_minor },
        record t {
          usages =
              usage_row usage_id tenant_id customer_id now model wallet.id hold_minor ∷ t.usages;
        },
      )

-- The entry of a capture: what is charged, or else what is released.
unfoldable pub settlement_entry : Books → WalletRecord → (captured_minor held_minor : ℤ) → ℕ → Books
settlement_entry b wallet captured_minor held_minor usage_id =
    if ltb_ℤ (pos 0) captured_minor
    then insert_wallet_ledger_entry b wallet "capture" (neg captured_minor) usage_id
    else if ltb_ℤ (pos 0) held_minor
    then insert_wallet_ledger_entry b wallet "release" (neg held_minor) usage_id
    else b

abbrev pub required_usage : Option ℕ → Result ℕ
required_usage usage_id = ok_or usage_id (dependency "ai generation usage id missing")

-- A usage that has succeeded is left alone; any other is charged.
unfoldable pub capture_usage : Books → Option ℕ → ℤ → Result Books
unfolding settlement_entry
capture_usage b given charge_minor = do
  usage_id ← ok_or given (dependency "ai usage id missing")
  usage ← find_usage_for_update b usage_id
  if str_eq usage.status "succeeded" then ok b else (do
    wallet ← find_wallet_by_id_for_update b usage.wallet_id
    let settlement =
        settle_charge charge_minor usage.held_minor wallet.balance_minor wallet.held_minor
    (updated, t) ← update_wallet_capture b wallet.id usage.held_minor settlement.captured_minor
    let t' = settlement_entry t updated settlement.captured_minor usage.held_minor usage_id
    ok (update_usage_succeeded t' usage_id settlement.captured_minor))

-- The submission to the provider failed.
unfoldable pub release_usage : Books → BillingReservation → Result Books
unfolding move_hold
release_usage b reservation = do
  wallet ← find_wallet_by_id_for_update b reservation.wallet_id
  t ←
      move_hold b wallet reservation.held_minor "release" (neg reservation.held_minor)
        reservation.usage_id
  ok (update_usage_failed t reservation.usage_id reservation.held_minor)

-- `usage.status != "failed" && usage.status != "succeeded"`
abbrev pub is_unsettled : UsageRecord → Bool
is_unsettled u = not (str_eq u.status "failed") && not (str_eq u.status "succeeded")

-- The hold of a usage goes back, and the usage fails.
unfoldable pub release_hold : Books → UsageRecord → Result Books
unfolding move_hold
release_hold b usage = do
  wallet ← find_wallet_by_id_for_update b usage.wallet_id
  t ← move_hold b wallet usage.held_minor "release" (neg usage.held_minor) usage.id
  ok (update_usage_failed t usage.id usage.held_minor)

unfoldable pub fail_job_and_release_usage : Books → JobRecord → Result Books
unfolding release_hold
fail_job_and_release_usage b job = do
  usage_id ← required_usage job.usage_id
  usage ← find_usage_for_update b usage_id
  t ← if is_unsettled usage then release_hold b usage else ok b
  ok (update_job_failed t job.id "provider_failed" usage.held_minor)

unfoldable pub fail_admin_job_and_release_usage : Books → JobRecord → Result Books
unfolding release_hold
fail_admin_job_and_release_usage b job = do
  usage_id ← required_usage job.usage_id
  usage ← find_usage_for_update b usage_id
  t ← if is_unsettled usage then release_hold b usage else ok b
  ok (
      update_job_failed t job.id "failed"
        (if is_unsettled usage then usage.held_minor else job.refunded_minor))

unfoldable pub ensure_job_can_cancel : JobRecord → Result (Unit {0})
ensure_job_can_cancel job =
    if str_eq job.status "pending"
      || str_eq job.status "submitted"
      || str_eq job.status "running"
      || str_eq job.status "provider_succeeded"
      || str_eq job.status "caching"
      || str_eq job.status "timeout_review"
    then ok tt
    else if str_eq job.status "cancelled"
    then err (conflict "ai generation job already cancelled")
    else err (business_rule_failed "ai generation job cannot be cancelled in this status")

unfoldable pub load_customer_job_for_update :
    Books → (tenant_id customer_id job_id : ℕ) → Result JobRecord
load_customer_job_for_update b tenant_id customer_id job_id =
    ok_or
      (find (λ j. j.tenant_id == tenant_id && j.customer_id == customer_id && j.id == job_id)
        b.jobs)
      (not_found "ai generation job not found")

unfoldable pub cancel_server_job_and_release_usage :
    Books → (tenant_id customer_id job_id : ℕ) → Result Books
unfolding release_hold ensure_job_can_cancel
cancel_server_job_and_release_usage b tenant_id customer_id job_id = do
  job ← load_customer_job_for_update b tenant_id customer_id job_id
  ensure_job_can_cancel job
  usage_id ← required_usage job.usage_id
  usage ← find_usage_for_update b usage_id
  let releases = is_unsettled usage && ltb_ℤ (pos 0) usage.held_minor
  t ← if releases then release_hold b usage else ok b
  ok (
      mark_job_cancelled t tenant_id customer_id job_id
        (if releases then usage.held_minor else pos 0))

unfoldable pub refund_admin_job : Books → JobRecord → Result Books
refund_admin_job b job = do
  usage_id ← required_usage job.usage_id
  usage ← find_usage_for_update b usage_id
  reject_if (not (str_eq usage.status "succeeded"))
      (business_rule_failed "only succeeded usage can be refunded")
  let refund_minor = saturate (job.charged_minor -ℤ job.refunded_minor)
  reject_if (leb_ℤ refund_minor (pos 0)) (business_rule_failed "ai generation job already refunded")
  wallet ← find_wallet_by_id_for_update b usage.wallet_id
  (updated, t) ← update_wallet_balance b wallet.id refund_minor
  let t₁ = insert_wallet_ledger_entry t updated "refund" refund_minor usage_id
  let t₂ = update_usage_refunded t₁ usage_id refund_minor
  ok (update_job_refunded t₂ job.id refund_minor)
