-- ===== src/Wallet.antt =====
-- backend/src/modules/ai/jobs.rs: the wallet of a customer, the usage records that hold money of it,
-- the generation jobs, and the statements over these tables. Amounts are signed, in minor units. The
-- JSON bodies of provider responses, metadata and reasons are left out.
pub mod Charge
pub mod Billing
pub mod Jobs
pub mod Admin
pub mod Ledger
use entitle_hub.Base.{
  ℕ, Bool, true, false, ◌&&◌, ◌||◌, not, Option, none, some, List, [], ◌∷◌, String, str_eq, ◌==◌,
  leb, if◌then◌else◌, is_id,
}
use entitle_hub.Base.Int.{ℤ, pos, ◌+ℤ◌, ◌-ℤ◌, leb_ℤ, i64_max}
use entitle_hub.Base.Rows.{find, exists, update}
use entitle_hub.Error.{Result, ok, err, ◌>>=◌, ◌>>◌, reject_if, ok_or, dependency, AppError}

pub record WalletRecord : Type 0 where
  pub id : ℕ
  pub tenant_id : ℕ
  pub customer_id : ℕ
  pub currency : String
  pub balance_minor : ℤ
  pub held_minor : ℤ
  pub ai_enabled : Bool
  pub daily_spend_limit_minor : Option ℤ

-- What the modelled code reads of `ai_usage_records`; `held_minor` is that of the price snapshot.
pub record UsageRecord : Type 0 where
  pub id : ℕ
  pub tenant_id : ℕ
  pub wallet_id : ℕ
  pub customer_id : ℕ
  pub model_id : ℕ
  pub status : String
  pub held_minor : ℤ
  pub charged_minor : ℤ
  pub refunded_minor : ℤ
  pub created_at : ℕ

-- What it reads of `ai_generation_jobs` (`AdminJobRecord` and `JobWorkerRecord`).
pub record JobRecord : Type 0 where
  pub id : ℕ
  pub tenant_id : ℕ
  pub customer_id : ℕ
  pub usage_id : Option ℕ
  pub status : String
  pub provider_job_id : Option String
  pub held_minor : ℤ
  pub charged_minor : ℤ
  pub refunded_minor : ℤ

pub record LedgerEntry : Type 0 where
  pub wallet_id : ℕ
  pub entry_type : String
  pub amount_minor : ℤ
  pub balance_after_minor : ℤ
  pub held_after_minor : ℤ
  pub reference_id : Option ℕ

pub record Books : Type 0 where
  pub wallets : List WalletRecord
  pub usages : List UsageRecord
  pub jobs : List JobRecord
  pub ledger : List LedgerEntry

-- The check constraint of `ai_wallets`, and the range of a `bigint`.
unfoldable pub is_wallet_row : WalletRecord → Bool
is_wallet_row w =
    leb_ℤ (pos 0) w.balance_minor
    && leb_ℤ (pos 0) w.held_minor
    && leb_ℤ w.held_minor w.balance_minor
    && leb_ℤ w.balance_minor i64_max

abbrev pub db_error : AppError
db_error = dependency "ai generation job database error"

-- An update that returns its row; a row that breaks a constraint is an error.
unfoldable pub update_wallet :
    Books → (WalletRecord → Bool) → (WalletRecord → WalletRecord) → Result (WalletRecord × Books)
unfolding is_wallet_row
update_wallet b test change = do
  wallet ← ok_or (find test b.wallets) db_error
  reject_if (not (is_wallet_row (change wallet))) db_error
  ok (change wallet, record b { wallets = update test change b.wallets })

abbrev pub add_held : ℤ → WalletRecord → WalletRecord
add_held delta w = record w { held_minor = w.held_minor +ℤ delta }

abbrev pub captured : ℤ → ℤ → WalletRecord → WalletRecord
captured held charge w = record w {
  balance_minor = w.balance_minor -ℤ charge;
  held_minor = w.held_minor -ℤ held;
}

abbrev pub add_balance : ℤ → WalletRecord → WalletRecord
add_balance delta w = record w { balance_minor = w.balance_minor +ℤ delta }

unfoldable pub update_wallet_hold :
    Books → (tenant_id wallet_id : ℕ) → ℤ → Result (WalletRecord × Books)
unfolding update_wallet
update_wallet_hold b tenant_id wallet_id delta =
    update_wallet b (λ w. w.tenant_id == tenant_id && w.id == wallet_id) (add_held delta)

unfoldable pub update_wallet_capture :
    Books → ℕ → (held_minor charge_minor : ℤ) → Result (WalletRecord × Books)
unfolding update_wallet
update_wallet_capture b wallet_id held_minor charge_minor =
    update_wallet b (λ w. w.id == wallet_id) (captured held_minor charge_minor)

unfoldable pub update_wallet_balance : Books → ℕ → ℤ → Result (WalletRecord × Books)
unfolding update_wallet
update_wallet_balance b wallet_id delta =
    update_wallet b (λ w. w.id == wallet_id) (add_balance delta)

-- The defaults of the table; the identifier is fresh.
unfoldable pub ensure_wallet_exists : Books → (fresh tenant_id customer_id : ℕ) → Books
ensure_wallet_exists b fresh tenant_id customer_id =
    if exists (λ w. w.tenant_id == tenant_id && w.customer_id == customer_id) b.wallets
    then b
    else (let wallet : WalletRecord = record {
      id = fresh;
      tenant_id = tenant_id;
      customer_id = customer_id;
      currency = "CNY";
      balance_minor = pos 0;
      held_minor = pos 0;
      ai_enabled = true;
      daily_spend_limit_minor = none;
    } in
        record b { wallets = wallet ∷ b.wallets })

unfoldable pub find_wallet_for_update : Books → (tenant_id customer_id : ℕ) → Result WalletRecord
find_wallet_for_update b tenant_id customer_id =
    ok_or (find (λ w. w.tenant_id == tenant_id && w.customer_id == customer_id) b.wallets) db_error

unfoldable pub find_wallet_by_id_for_update : Books → ℕ → Result WalletRecord
find_wallet_by_id_for_update b wallet_id = ok_or (find (λ w. w.id == wallet_id) b.wallets) db_error

unfoldable pub find_usage_for_update : Books → ℕ → Result UsageRecord
find_usage_for_update b usage_id = ok_or (find (λ u. u.id == usage_id) b.usages) db_error

abbrev pub insert_wallet_ledger_entry : Books → WalletRecord → String → ℤ → ℕ → Books
insert_wallet_ledger_entry b wallet entry_type amount usage_id =
    let entry : LedgerEntry = record {
      wallet_id = wallet.id;
      entry_type = entry_type;
      amount_minor = amount;
      balance_after_minor = wallet.balance_minor;
      held_after_minor = wallet.held_minor;
      reference_id = some usage_id;
    } in
    record b { ledger = entry ∷ b.ledger }

abbrev pub update_usage : Books → ℕ → (UsageRecord → UsageRecord) → Books
update_usage b usage_id change = record b {
  usages = update (λ u. u.id == usage_id) change b.usages;
}

abbrev pub update_usage_succeeded : Books → ℕ → ℤ → Books
update_usage_succeeded b usage_id charged_minor =
    update_usage b usage_id (λ u. record u { status = "succeeded"; charged_minor = charged_minor })

abbrev pub update_usage_failed : Books → ℕ → ℤ → Books
update_usage_failed b usage_id refunded_minor =
    update_usage b usage_id (λ u. record u { status = "failed"; refunded_minor = refunded_minor })

abbrev pub update_usage_refunded : Books → ℕ → ℤ → Books
update_usage_refunded b usage_id refund_minor =
    update_usage b usage_id
      (λ u. record u { status = "refunded"; refunded_minor = u.refunded_minor +ℤ refund_minor })

abbrev pub update_job : Books → ℕ → (JobRecord → JobRecord) → Books
update_job b job_id change = record b { jobs = update (λ j. j.id == job_id) change b.jobs }

abbrev pub mark_job_running : Books → ℕ → Books
mark_job_running b job_id = update_job b job_id (λ j. record j { status = "running" })

-- `mark_job_provider_succeeded` and `mark_job_caching_failed`
abbrev pub mark_job_caching : Books → ℕ → Books
mark_job_caching b job_id = update_job b job_id (λ j. record j { status = "caching" })

abbrev pub mark_job_succeeded : Books → ℕ → ℤ → Books
mark_job_succeeded b job_id charged_minor =
    update_job b job_id (λ j. record j { status = "succeeded"; charged_minor = charged_minor })

abbrev pub update_job_failed : Books → ℕ → String → ℤ → Books
update_job_failed b job_id status refunded_minor =
    update_job b job_id (λ j. record j { status = status; refunded_minor = refunded_minor })

abbrev pub update_job_refunded : Books → ℕ → ℤ → Books
update_job_refunded b job_id refund_minor =
    update_job b job_id
      (λ j. record j { status = "failed"; refunded_minor = j.refunded_minor +ℤ refund_minor })

abbrev pub mark_job_cancelled : Books → (tenant_id customer_id job_id : ℕ) → ℤ → Books
mark_job_cancelled b tenant_id customer_id job_id released_minor = record b {
  jobs =
      update (λ j. j.tenant_id == tenant_id && j.customer_id == customer_id && j.id == job_id)
        (λ j. record j {
          status = "cancelled";
          refunded_minor = j.refunded_minor +ℤ released_minor;
        })
        b.jobs;
}
