-- ===== src/Wallet/Admin.antt =====
-- backend/src/modules/ai/admin.rs: the administration of wallets: adjusting a balance, setting the
-- daily limit and access. Each handler's changes are one transaction, so it returns books on success
-- only. The check of the metadata's JSON is an argument; the audit log is left out.
use Prim.Native.String as Text
use entitle_hub.Base.{
  ℕ, Bool, ◌&&◌, ◌||◌, not, Option, none, some, List, ◌∷◌, String, ◌==◌, ltb, if◌then◌else◌,
}
use entitle_hub.Base.Int.{ℤ, pos, ◌+ℤ◌, neg, ltb_ℤ, leb_ℤ, fits_i64, i64_min}
use entitle_hub.Base.Rows.{find}
use entitle_hub.Base.Text.{trim, is_empty, byte_len, has_code}
use entitle_hub.Error.{
  Result, ok, ◌>>=◌, ◌>>◌, reject_if, ok_or, validation_failed, business_rule_failed,
}
use entitle_hub.Admin.{AdminContext, ensure_admin_permission}
use entitle_hub.Customer.{Customer, ensure_customer_exists}
use entitle_hub.Wallet.{
  Books, WalletRecord, LedgerEntry, ensure_wallet_exists, find_wallet_for_update, update_wallet,
  db_error,
}

pub record AdjustAiWalletRequest : Type 0 where
  pub amount_minor : ℤ
  pub reason : String

unfoldable pub normalize_name : String → String → ℕ → Result String
normalize_name value label max_len = do
  reject_if
      (is_empty (trim value) || ltb max_len (byte_len (trim value)) || has_code 0 (trim value))
      (validation_failed (Text.◌++◌ label " is invalid"))
  ok (trim value)

unfoldable pub normalize_reason : String → Result String
unfolding normalize_name
normalize_reason value = normalize_name value "ai wallet adjustment reason" 500

-- `i64::abs` in a release build: the least value is its own absolute value.
unfoldable pub wrapping_abs : ℤ → ℤ
wrapping_abs a = if leb_ℤ a i64_min then i64_min else if ltb_ℤ a (pos 0) then neg a else a

unfoldable pub normalize_adjustment_amount : ℤ → Result ℤ
unfolding wrapping_abs
normalize_adjustment_amount amount_minor = do
  reject_if
      ((leb_ℤ amount_minor (pos 0) && leb_ℤ (pos 0) amount_minor)
        || ltb_ℤ (pos 100000000000) (wrapping_abs amount_minor))
      (validation_failed "ai wallet adjustment amount is invalid")
  ok amount_minor

unfoldable pub validate_optional_limit : Option ℤ → String → Result (Unit {0})
validate_optional_limit none label = ok tt
validate_optional_limit (some value) label =
    reject_if (ltb_ℤ value (pos 0))
      (validation_failed (Text.◌++◌ label " must be greater than or equal to 0"))

abbrev pub is_wallet_of : (tenant_id wallet_id : ℕ) → WalletRecord → Bool
is_wallet_of tenant_id wallet_id w = w.tenant_id == tenant_id && w.id == wallet_id

-- The new balance is written as it was computed from the row read before.
unfoldable pub update_wallet_balance_in_transaction :
    Books → (tenant_id wallet_id : ℕ) → ℤ → Result (WalletRecord × Books)
unfolding update_wallet
update_wallet_balance_in_transaction b tenant_id wallet_id amount_minor = do
  wallet ← ok_or (find (is_wallet_of tenant_id wallet_id) b.wallets) db_error
  let new_balance = wallet.balance_minor +ℤ amount_minor
  reject_if (not (fits_i64 new_balance)) (validation_failed "wallet balance adjustment overflow")
  reject_if (ltb_ℤ new_balance wallet.held_minor)
      (business_rule_failed "wallet balance cannot be lower than held amount")
  update_wallet b (is_wallet_of tenant_id wallet_id) (λ w. record w { balance_minor = new_balance })

unfoldable pub update_wallet_quota_in_transaction :
    Books → (tenant_id wallet_id : ℕ) → Option ℤ → Result (WalletRecord × Books)
unfolding update_wallet
update_wallet_quota_in_transaction b tenant_id wallet_id limit =
    update_wallet b (is_wallet_of tenant_id wallet_id)
      (λ w. record w { daily_spend_limit_minor = limit })

unfoldable pub update_wallet_access_in_transaction :
    Books → (tenant_id wallet_id : ℕ) → Bool → Result (WalletRecord × Books)
unfolding update_wallet
update_wallet_access_in_transaction b tenant_id wallet_id ai_enabled =
    update_wallet b (is_wallet_of tenant_id wallet_id) (λ w. record w { ai_enabled = ai_enabled })

-- `insert_wallet_ledger_entry` of this module: the entry refers to nothing.
abbrev pub insert_adjustment_entry : Books → WalletRecord → String → ℤ → Books
insert_adjustment_entry b wallet entry_type amount =
    let entry : LedgerEntry = record {
      wallet_id = wallet.id;
      entry_type = entry_type;
      amount_minor = amount;
      balance_after_minor = wallet.balance_minor;
      held_after_minor = wallet.held_minor;
      reference_id = none;
    } in
    record b { ledger = entry ∷ b.ledger }

-- What the handlers repeat: the wallet of a customer of the tenant, which is made where it is missing.
unfoldable pub open_wallet :
    List Customer → Books → (fresh tenant_id customer_id : ℕ) → Result (WalletRecord × Books)
open_wallet customers b fresh tenant_id customer_id = do
  ensure_customer_exists customers tenant_id customer_id
  let t = ensure_wallet_exists b fresh tenant_id customer_id
  before ← find_wallet_for_update t tenant_id customer_id
  ok (before, t)

unfoldable pub adjust_ai_wallet :
    List Customer
    → Books
    → AdminContext
    → (fresh customer_id : ℕ) → AdjustAiWalletRequest
    → Result (Unit {0})
    → Result (WalletRecord × Books)
adjust_ai_wallet customers b admin fresh customer_id payload metadata = do
  ensure_admin_permission admin "ai:wallet:update"
  amount_minor ← normalize_adjustment_amount payload.amount_minor
  reason ← normalize_reason payload.reason
  metadata
  (before, b₁) ← open_wallet customers b fresh admin.tenant_id customer_id
  (updated, b₂) ← update_wallet_balance_in_transaction b₁ admin.tenant_id before.id amount_minor
  let entry_type = if ltb_ℤ (pos 0) amount_minor then "credit" else "debit"
  ok (updated, insert_adjustment_entry b₂ updated entry_type amount_minor)

unfoldable pub update_ai_wallet_quota :
    List Customer
    → Books
    → AdminContext
    → (fresh customer_id : ℕ) → Option ℤ
    → Result (WalletRecord × Books)
update_ai_wallet_quota customers b admin fresh customer_id daily_spend_limit_minor = do
  ensure_admin_permission admin "ai:wallet:update"
  validate_optional_limit daily_spend_limit_minor "ai wallet daily spend limit"
  (before, b₁) ← open_wallet customers b fresh admin.tenant_id customer_id
  update_wallet_quota_in_transaction b₁ admin.tenant_id before.id daily_spend_limit_minor

unfoldable pub update_ai_wallet_access :
    List Customer
    → Books
    → AdminContext
    → (fresh customer_id : ℕ) → Bool
    → Result (WalletRecord × Books)
update_ai_wallet_access customers b admin fresh customer_id ai_enabled = do
  ensure_admin_permission admin "ai:wallet:update"
  (before, b₁) ← open_wallet customers b fresh admin.tenant_id customer_id
  update_wallet_access_in_transaction b₁ admin.tenant_id before.id ai_enabled
