-- ===== src/Wallet/Ledger/Admin.antt =====
-- backend/src/modules/ai/admin.rs: the administration of wallets keeps the ledger exact.
use entitle_hub.Base.{
  ℕ, ◌≡◌, inl, inr, refl, Bool, false, Option, none, List, String, str_eq, if◌then◌else◌, arith,
  Option-cases, Bool-cases,
}
use entitle_hub.Base.Int.{ℤ, pos, ◌+ℤ◌, ltb_ℤ}
use entitle_hub.Base.Rows.{find, update, find-true}
use entitle_hub.Error.{Result, Result-cases, ok}
use entitle_hub.Admin.{AdminContext}
use entitle_hub.Customer.{Customer}
use entitle_hub.Wallet.{Books, WalletRecord, update_wallet, ensure_wallet_exists}
use entitle_hub.Wallet.Admin.{
  AdjustAiWalletRequest, adjust_ai_wallet, update_ai_wallet_quota, update_ai_wallet_access,
  open_wallet, update_wallet_balance_in_transaction, update_wallet_quota_in_transaction,
  update_wallet_access_in_transaction, is_wallet_of, insert_adjustment_entry,
  normalize_adjustment_amount,
}
use entitle_hub.Wallet.Ledger.{purse_of, LedgerIsExact}
use entitle_hub.Wallet.Ledger.Kept.{kept-LedgerIsExact}
use entitle_hub.Wallet.Ledger.Transactions.{IsFresh, ensure_wallet_exists-LedgerIsExact}
use entitle_hub.Wallet.Ledger.Settlements.{credited-LedgerIsExact}

-- The wallet that a handler opens.
open_wallet-LedgerIsExact :
    (customers : List Customer) (b t : Books) (fresh tenant_id customer_id : ℕ) (w : WalletRecord)
    → LedgerIsExact b
    → IsFresh b fresh
    → open_wallet customers b fresh tenant_id customer_id ≡ ok (w, t)
    → LedgerIsExact t
unfolding open_wallet
open_wallet-LedgerIsExact customers b t fresh tenant_id customer_id w h unused e =
    let same : t ≡ ensure_wallet_exists b fresh tenant_id customer_id = ground arith in
    rw same (ensure_wallet_exists-LedgerIsExact b fresh tenant_id customer_id h unused)

-- A balance that is adjusted, with its entry.
adjusted-LedgerIsExact :
    (b t : Books) (tenant_id wallet_id : ℕ) (amount : ℤ) (entry_type : String) (u : WalletRecord)
    → LedgerIsExact b
    → str_eq entry_type "hold" ≡ false
    → str_eq entry_type "release" ≡ false
    → update_wallet_balance_in_transaction b tenant_id wallet_id amount ≡ ok (u, t)
    → LedgerIsExact (insert_adjustment_entry t u entry_type amount)
unfolding update_wallet_balance_in_transaction update_wallet
adjusted-LedgerIsExact b t tenant_id wallet_id amount entry_type u h not_hold not_release e =
    let test = is_wallet_of tenant_id wallet_id in
    elim (Option-cases (find test b.wallets)) [
      | inl k ↦ absurd (ground arith)
      | inr (v, k) ↦
          let own = find-true test b.wallets v k in
          let change : WalletRecord → WalletRecord =
            λ a. record a { balance_minor = v.balance_minor +ℤ amount } in
          let updated : u ≡ change v = ground arith in
          let left : t ≡ record b { wallets = update test change b.wallets } = ground arith in
          rw (updated, left)
            (credited-LedgerIsExact b _ test change v entry_type amount none h k
              (λ a hit. ground arith) (λ a. refl) refl not_hold not_release refl refl refl)
    ]

pub adjust-LedgerIsExact :
    (customers : List Customer) (b t : Books) (admin : AdminContext) (fresh customer_id : ℕ)
    (payload : AdjustAiWalletRequest) (metadata : Result (Unit {0})) (w : WalletRecord)
    → LedgerIsExact b
    → IsFresh b fresh
    → adjust_ai_wallet customers b admin fresh customer_id payload metadata ≡ ok (w, t)
    → LedgerIsExact t
unfolding adjust_ai_wallet normalize_adjustment_amount
adjust-LedgerIsExact customers b t admin fresh customer_id payload metadata w h unused e =
    elim (Result-cases (open_wallet customers b fresh admin.tenant_id customer_id)) [
      | inr (e', k) ↦ absurd (ground arith)
      | inl ((before, b₁), k) ↦
          let h₁ =
            open_wallet-LedgerIsExact customers b b₁ fresh admin.tenant_id customer_id before h
              unused k in
          elim (Result-cases (
            update_wallet_balance_in_transaction b₁ admin.tenant_id before.id
              payload.amount_minor)) [
                | inr (e', m) ↦ absurd (ground arith)
                | inl ((u, b₂), m) ↦
                    let entry_type : String =
                      if ltb_ℤ (pos 0) payload.amount_minor then "credit" else "debit" in
                    let left : t ≡ insert_adjustment_entry b₂ u entry_type payload.amount_minor =
                      ground arith in
                    rw left (
                      adjusted-LedgerIsExact b₁ b₂ admin.tenant_id before.id payload.amount_minor
                        entry_type u h₁
                        (elim (Bool-cases (ltb_ℤ (pos 0) payload.amount_minor)) [
                          | inl p ↦ rw p refl
                          | inr p ↦ rw p refl
                        ])
                        (elim (Bool-cases (ltb_ℤ (pos 0) payload.amount_minor)) [
                          | inl p ↦ rw p refl
                          | inr p ↦ rw p refl
                        ])
                        m)
              ]
    ]

-- A change of a wallet that leaves its money.
settings-LedgerIsExact :
    (b t : Books) (test : WalletRecord → Bool) (change : WalletRecord → WalletRecord)
    (u : WalletRecord)
    → LedgerIsExact b
    → ((v : WalletRecord) → (change v).id ≡ v.id)
    → ((v : WalletRecord) → purse_of (change v) ≡ purse_of v)
    → update_wallet b test change ≡ ok (u, t)
    → LedgerIsExact t
unfolding update_wallet
settings-LedgerIsExact b t test change u h same unmoved e =
    elim (Option-cases (find test b.wallets)) [
      | inl k ↦ absurd (ground arith)
      | inr (v, k) ↦
          let usages : t.usages ≡ b.usages = ground arith in
          kept-LedgerIsExact b t test change v h same unmoved (ground arith) (ground arith)
            (rw usages h.nonnegative)
    ]

pub quota-LedgerIsExact :
    (customers : List Customer) (b t : Books) (admin : AdminContext) (fresh customer_id : ℕ)
    (limit : Option ℤ) (w : WalletRecord)
    → LedgerIsExact b
    → IsFresh b fresh
    → update_ai_wallet_quota customers b admin fresh customer_id limit ≡ ok (w, t)
    → LedgerIsExact t
unfolding update_ai_wallet_quota update_wallet_quota_in_transaction
quota-LedgerIsExact customers b t admin fresh customer_id limit w h unused e =
    elim (Result-cases (open_wallet customers b fresh admin.tenant_id customer_id)) [
      | inr (e', k) ↦ absurd (ground arith)
      | inl ((before, b₁), k) ↦
          settings-LedgerIsExact b₁ t (is_wallet_of admin.tenant_id before.id)
            (λ v. record v { daily_spend_limit_minor = limit }) w
            (open_wallet-LedgerIsExact customers b b₁ fresh admin.tenant_id customer_id before h
              unused k)
            (λ v. refl) (λ v. refl) (ground arith)
    ]

pub access-LedgerIsExact :
    (customers : List Customer) (b t : Books) (admin : AdminContext) (fresh customer_id : ℕ)
    (enabled : Bool) (w : WalletRecord)
    → LedgerIsExact b
    → IsFresh b fresh
    → update_ai_wallet_access customers b admin fresh customer_id enabled ≡ ok (w, t)
    → LedgerIsExact t
unfolding update_ai_wallet_access update_wallet_access_in_transaction
access-LedgerIsExact customers b t admin fresh customer_id enabled w h unused e =
    elim (Result-cases (open_wallet customers b fresh admin.tenant_id customer_id)) [
      | inr (e', k) ↦ absurd (ground arith)
      | inl ((before, b₁), k) ↦
          settings-LedgerIsExact b₁ t (is_wallet_of admin.tenant_id before.id)
            (λ v. record v { ai_enabled = enabled }) w
            (open_wallet-LedgerIsExact customers b b₁ fresh admin.tenant_id customer_id before h
              unused k)
            (λ v. refl) (λ v. refl) (ground arith)
    ]
