-- ===== src/Wallet/Ledger/Settlements.antt =====
-- backend/src/modules/ai/jobs.rs: reserving, capturing and refunding keep the ledger exact.
use entitle_hub.Base.{
  ℕ, ◌≡◌, inl, inr, refl, Bool, true, false, Option, some, ◌∷◌, ◌==◌, String, str_eq, arith,
  Option-cases, Bool-cases,
}
use entitle_hub.Base.Int.{ℤ, pos, ◌≤ℤ◌, ◌-ℤ◌, ◌+ℤ◌, neg, ltb_ℤ, saturate}
use entitle_hub.Base.Rows.{find, update, find-true}
use entitle_hub.Base.Changes.{All-find}
use entitle_hub.Error.{Result-cases, ok}
use entitle_hub.Wallet.{
  Books, WalletRecord, UsageRecord, JobRecord, LedgerEntry, update_wallet_capture,
  update_wallet_balance, update_wallet, add_balance, captured, find_usage_for_update,
  find_wallet_by_id_for_update, find_wallet_for_update, ensure_wallet_exists,
}
use entitle_hub.Wallet.Charge.{settle_charge, captured-nonnegative, -ℤ_zero}
use entitle_hub.Wallet.Billing.{
  BillingReservation, JobModel, move_hold, reserve_wallet_and_create_usage, capture_usage,
  settlement_entry, refund_admin_job,
}
use entitle_hub.Wallet.Billing.Preserved.{ -+ℤ-neg}
use entitle_hub.Wallet.Ledger.{purse_of, moves_money, LedgerIsExact}
use entitle_hub.Wallet.Ledger.Kept.{posted-LedgerIsExact, kept-LedgerIsExact}
use entitle_hub.Wallet.Ledger.Transactions.{
  same-LedgerIsExact, status-LedgerIsExact, move_hold-LedgerIsExact, IsFresh,
  ensure_wallet_exists-LedgerIsExact,
}

pub reserve-LedgerIsExact :
    (fresh usage_id now day_start : ℕ) (b t : Books) (tenant_id customer_id : ℕ) (model : JobModel)
    (hold : ℤ) (r : BillingReservation)
    → LedgerIsExact b
    → IsFresh b fresh
    → pos 0 ≤ℤ hold
    → reserve_wallet_and_create_usage fresh usage_id now day_start b tenant_id customer_id model
        hold
      ≡ ok (r, t)
    → LedgerIsExact t
unfolding reserve_wallet_and_create_usage
reserve-LedgerIsExact fresh usage_id now day_start b t tenant_id customer_id model hold r h unused
      positive e =
    let b₁ = ensure_wallet_exists b fresh tenant_id customer_id in
    let h₁ = ensure_wallet_exists-LedgerIsExact b fresh tenant_id customer_id h unused in
    elim (Result-cases (find_wallet_for_update b₁ tenant_id customer_id)) [
      | inr (e', k) ↦ absurd (ground arith)
      | inl (w, k) ↦ elim (Result-cases (move_hold b₁ w hold "hold" hold usage_id)) [
        | inr (e', m) ↦ absurd (ground arith)
        | inl (t', m) ↦
            let h' = move_hold-LedgerIsExact b₁ t' w hold hold "hold" usage_id h₁ refl m in
            let row : UsageRecord = record {
              id = usage_id;
              tenant_id = tenant_id;
              wallet_id = w.id;
              customer_id = customer_id;
              model_id = model.id;
              status = "running";
              held_minor = hold;
              charged_minor = pos 0;
              refunded_minor = pos 0;
              created_at = now;
            } in
            let usages : t.usages ≡ row ∷ t'.usages = ground arith in
            same-LedgerIsExact t' t h' (ground arith) (ground arith)
              (rw usages (positive, h'.nonnegative))
      ]
    ]

-- The settlement of a usage, before the usage is marked.
settled-LedgerIsExact :
    (b t t' : Books) (w u : WalletRecord) (hold charge : ℤ) (usage_id : ℕ)
    → LedgerIsExact b
    → pos 0 ≤ℤ hold
    → pos 0 ≤ℤ charge
    → update_wallet_capture b w.id hold charge ≡ ok (u, t)
    → t' ≡ settlement_entry t u charge hold usage_id
    → LedgerIsExact t'
unfolding update_wallet_capture update_wallet settlement_entry moves_money
settled-LedgerIsExact b t t' w u hold charge usage_id h nonneg nonneg' e e' =
    let test : WalletRecord → Bool = λ v. v.id == w.id in
    elim (Option-cases (find test b.wallets)) [
      | inl k ↦ absurd (ground arith)
      | inr (v, k) ↦
          let own = find-true test b.wallets v k in
          let left : t'.wallets ≡ update test (captured hold charge) b.wallets = ground arith in
          let usages : t'.usages ≡ b.usages = ground arith in
          let entry : String → ℤ → LedgerEntry = λ entry_type amount. record {
            wallet_id = v.id;
            entry_type = entry_type;
            amount_minor = amount;
            balance_after_minor = v.balance_minor -ℤ charge;
            held_after_minor = v.held_minor -ℤ hold;
            reference_id = some usage_id;
          } in
          elim (Bool-cases (ltb_ℤ (pos 0) charge)) [
            | inl p ↦
                posted-LedgerIsExact b t' test (captured hold charge) v
                  (entry "capture" (neg charge)) h k (λ a hit. ground arith) (λ a. refl) left
                  (ground arith) refl (ground (arith, -+ℤ-neg v.balance_minor charge)) refl
                  (rw usages h.nonnegative)
            | inr p ↦
                let nothing : charge ≡ pos 0 = ground arith in
                elim (Bool-cases (ltb_ℤ (pos 0) hold)) [
                  | inl q ↦
                      posted-LedgerIsExact b t' test (captured hold charge) v
                        (entry "release" (neg hold)) h k (λ a hit. ground arith) (λ a. refl) left
                        (ground arith) refl (rw nothing (ground (arith, -ℤ_zero v.balance_minor)))
                        refl (rw usages h.nonnegative)
                  | inr q ↦
                      let none_held : hold ≡ pos 0 = ground arith in
                      kept-LedgerIsExact b t' test (captured hold charge) v h (λ a. refl)
                        (λ a.
                          rw (nothing, none_held)
                            (ground (arith, -ℤ_zero a.balance_minor, -ℤ_zero a.held_minor)))
                        left (ground arith) (rw usages h.nonnegative)
                ]
          ]
    ]

pub capture_usage-LedgerIsExact :
    (b t : Books) (given : Option ℕ) (charge : ℤ)
    → LedgerIsExact b
    → capture_usage b given charge ≡ ok t
    → LedgerIsExact t
unfolding capture_usage find_usage_for_update find_wallet_by_id_for_update
capture_usage-LedgerIsExact b t given charge h e = elim (Option-cases given) [
  | inl k ↦ absurd (ground arith)
  | inr (id, k) ↦ elim (Option-cases (find (λ u. u.id == id) b.usages)) [
    | inl m ↦ absurd (ground arith)
    | inr (u, m) ↦ elim (Bool-cases (str_eq u.status "succeeded")) [
      | inl done ↦ let same : t ≡ b = ground arith in rw same h
      | inr opened ↦ elim (Option-cases (find (λ w. w.id == u.wallet_id) b.wallets)) [
        | inl n ↦ absurd (ground arith)
        | inr (w, n) ↦
            let s = settle_charge charge u.held_minor w.balance_minor w.held_minor in
            elim (Result-cases (update_wallet_capture b w.id u.held_minor s.captured_minor)) [
              | inr (e', o) ↦ absurd (ground arith)
              | inl ((v, t₁), o) ↦
                  let t₂ = settlement_entry t₁ v s.captured_minor u.held_minor id in
                  let h₂ =
                    settled-LedgerIsExact b t₁ t₂ w v u.held_minor s.captured_minor id h
                      (All-find (λ u. pos 0 ≤ℤ u.held_minor) (λ u. u.id == id) b.usages u
                        h.nonnegative m)
                      (captured-nonnegative charge u.held_minor w.balance_minor w.held_minor) o
                      refl in
                  status-LedgerIsExact t₂ t (λ v. v.id == id)
                    (λ v. record v { status = "succeeded"; charged_minor = s.captured_minor }) h₂
                    (ground arith) (ground arith) (ground arith) (λ v. refl)
            ]
      ]
    ]
  ]
]

-- A credit of any wallet row, before usages and jobs change.
pub credited-LedgerIsExact :
    (b t : Books) (test : WalletRecord → Bool) (change : WalletRecord → WalletRecord)
    (w : WalletRecord) (entry_type : String) (amount : ℤ) (reference_id : Option ℕ)
    → LedgerIsExact b
    → find test b.wallets ≡ some w
    → ((v : WalletRecord) → test v ≡ true → (v.id == w.id) ≡ true)
    → ((v : WalletRecord) → (change v).id ≡ v.id)
    → purse_of (change w) ≡ record { balance = w.balance_minor +ℤ amount; held = w.held_minor }
    → str_eq entry_type "hold" ≡ false
    → str_eq entry_type "release" ≡ false
    → t.wallets ≡ update test change b.wallets
    → t.ledger
      ≡ record {
        wallet_id = w.id;
        entry_type = entry_type;
        amount_minor = amount;
        balance_after_minor = (change w).balance_minor;
        held_after_minor = (change w).held_minor;
        reference_id = reference_id;
      }
        ∷ b.ledger
    → t.usages ≡ b.usages
    → LedgerIsExact t
unfolding moves_money
credited-LedgerIsExact b t test change w entry_type amount reference_id h found one same moved
      not_hold not_release left entered usages =
    posted-LedgerIsExact b t test change w
      (record {
        wallet_id = w.id;
        entry_type = entry_type;
        amount_minor = amount;
        balance_after_minor = (change w).balance_minor;
        held_after_minor = (change w).held_minor;
        reference_id = reference_id;
      })
      h found one same left entered refl (ground arith) refl (rw usages h.nonnegative)

pub refund_job-LedgerIsExact :
    (b t : Books) (job : JobRecord)
    → LedgerIsExact b
    → refund_admin_job b job ≡ ok t
    → LedgerIsExact t
unfolding refund_admin_job find_usage_for_update find_wallet_by_id_for_update update_wallet_balance
    update_wallet
refund_job-LedgerIsExact b t job h e = elim (Option-cases job.usage_id) [
  | inl k ↦ absurd (ground arith)
  | inr (id, k) ↦ elim (Option-cases (find (λ u. u.id == id) b.usages)) [
    | inl m ↦ absurd (ground arith)
    | inr (u, m) ↦
        let refund = saturate (job.charged_minor -ℤ job.refunded_minor) in
        elim (Option-cases (find (λ w. w.id == u.wallet_id) b.wallets)) [
          | inl n ↦ absurd (ground arith)
          | inr (w, n) ↦
              let test : WalletRecord → Bool = λ v. v.id == w.id in
              elim (Option-cases (find test b.wallets)) [
                | inl o ↦ absurd (ground arith)
                | inr (v, o) ↦
                    let own = find-true test b.wallets v o in
                    let t' : Books = record b {
                      wallets = update test (add_balance refund) b.wallets;
                      ledger =
                          record {
                            wallet_id = v.id;
                            entry_type = "refund";
                            amount_minor = refund;
                            balance_after_minor = v.balance_minor +ℤ refund;
                            held_after_minor = v.held_minor;
                            reference_id = some id;
                          }
                          ∷ b.ledger;
                    } in
                    let h' : LedgerIsExact t' =
                      credited-LedgerIsExact b t' test (add_balance refund) v "refund" refund
                        (some id) h o (λ a hit. ground arith) (λ a. refl) refl refl refl refl refl
                        refl in
                    status-LedgerIsExact t' t (λ v. v.id == id)
                      (λ v. record v {
                        status = "refunded";
                        refunded_minor = v.refunded_minor +ℤ refund;
                      })
                      h' (ground arith) (ground arith) (ground arith) (λ v. refl)
              ]
        ]
  ]
]
