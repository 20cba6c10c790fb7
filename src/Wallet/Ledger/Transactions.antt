-- ===== src/Wallet/Ledger/Transactions.antt =====
-- backend/src/modules/ai/jobs.rs: each transaction over wallets and usage records keeps the ledger
-- exact.
use entitle_hub.Base.{
  ℕ, ◌≡◌, inl, inr, refl, sym, ap, ◌∙◌, Bool, true, false, ◌&&◌, ◌||◌, some, List, [], ◌∷◌, str_eq,
  ◌==◌, String, if◌then◌else◌, arith, Option-cases, Bool-cases,
}
use entitle_hub.Base.Int.{ℤ, pos, ◌≤ℤ◌, ◌+ℤ◌, neg, ltb_ℤ}
use entitle_hub.Base.Rows.{find, exists, update, count, All, find-true}
use entitle_hub.Base.Changes.{All-update, exists-count}
use entitle_hub.Error.{Result-cases, ok}
use entitle_hub.Wallet.{
  Books, WalletRecord, UsageRecord, JobRecord, LedgerEntry, update_wallet_hold, update_wallet,
  add_held, find_usage_for_update, find_wallet_by_id_for_update, ensure_wallet_exists,
}
use entitle_hub.Wallet.Billing.{
  BillingReservation, move_hold, release_hold, fail_job_and_release_usage,
  fail_admin_job_and_release_usage, cancel_server_job_and_release_usage, release_usage,
  is_unsettled, load_customer_job_for_update,
}
use entitle_hub.Wallet.Ledger.{moves_money, replay, empty_purse, LedgerIsExact}
use entitle_hub.Wallet.Ledger.Kept.{posted-LedgerIsExact}

-- The conditions on what a transaction does not touch.
pub same-LedgerIsExact :
    (b t : Books)
    → LedgerIsExact b
    → t.wallets ≡ b.wallets
    → t.ledger ≡ b.ledger
    → All (λ u. pos 0 ≤ℤ u.held_minor) t.usages
    → LedgerIsExact t
same-LedgerIsExact b t h wallets ledger nonnegative = record {
  exact = λ id w e. rw ledger (h.exact id w (rw (sym wallets) e));
  sound = rw ledger h.sound;
  keyed = λ id. rw wallets (h.keyed id);
  nonnegative = nonnegative;
}

-- Usages whose status changes keep what they hold.
pub status-LedgerIsExact :
    (b t : Books) (test : UsageRecord → Bool) (f : UsageRecord → UsageRecord)
    → LedgerIsExact b
    → t.wallets ≡ b.wallets
    → t.ledger ≡ b.ledger
    → t.usages ≡ update test f b.usages
    → ((u : UsageRecord) → (f u).held_minor ≡ u.held_minor)
    → LedgerIsExact t
status-LedgerIsExact b t test f h wallets ledger usages same =
    same-LedgerIsExact b t h wallets ledger (
      rw usages (
        All-update (λ u. pos 0 ≤ℤ u.held_minor) test f b.usages (λ u hit held. rw (same u) held)
          h.nonnegative))

replay-unused :
    (id : ℕ) (entries : List LedgerEntry)
    → exists (λ e. e.wallet_id == id) entries ≡ false
    → replay id entries ≡ empty_purse
unfolding replay exists
replay-unused id [] h = refl
replay-unused id (e ∷ entries) h = ground (arith, replay-unused id entries)

-- An identifier that no row has used.
unfoldable pub IsFresh : Books → ℕ → Type 0
IsFresh b id =
    (exists (λ w. w.id == id) b.wallets ≡ false)
    × (exists (λ e. e.wallet_id == id) b.ledger ≡ false)

pub ensure_wallet_exists-LedgerIsExact :
    (b : Books) (fresh tenant_id customer_id : ℕ)
    → LedgerIsExact b
    → IsFresh b fresh
    → LedgerIsExact (ensure_wallet_exists b fresh tenant_id customer_id)
unfolding ensure_wallet_exists IsFresh find count
ensure_wallet_exists-LedgerIsExact b fresh tenant_id customer_id h (unused, unposted) =
    elim (Bool-cases
      (exists (λ w. w.tenant_id == tenant_id && w.customer_id == customer_id) b.wallets)) [
        | inl there ↦ rw there h
        | inr missing ↦ rw missing (record {
          exact = λ id w e. elim (Bool-cases (fresh == id)) [
            | inl new ↦
                let p : id ≡ fresh = ground arith in
                let gone : exists (λ e. e.wallet_id == id) b.ledger ≡ false =
                  ap (λ i. exists (λ e. e.wallet_id == i) b.ledger) p ∙ unposted in
                ground (arith, replay-unused id b.ledger gone)
            | inr old ↦ ground (arith, h.exact id w)
          ];
          sound = h.sound;
          keyed = λ id. elim (Bool-cases (fresh == id)) [
            | inl new ↦
                let p : id ≡ fresh = ground arith in
                let gone : exists (λ w. w.id == id) b.wallets ≡ false =
                  ap (λ i. exists (λ w. w.id == i) b.wallets) p ∙ unused in
                ground (arith, exists-count (λ w. w.id == id) b.wallets gone)
            | inr old ↦ ground (arith, h.keyed id)
          ];
          nonnegative = h.nonnegative;
        })
      ]

-- A hold that is taken or given back.
pub move_hold-LedgerIsExact :
    (b t : Books) (w : WalletRecord) (amount delta : ℤ) (entry_type : String) (usage_id : ℕ)
    → LedgerIsExact b
    → str_eq entry_type "hold" || str_eq entry_type "release" ≡ true
    → move_hold b w amount entry_type delta usage_id ≡ ok t
    → LedgerIsExact t
unfolding move_hold update_wallet_hold update_wallet moves_money
move_hold-LedgerIsExact b t w amount delta entry_type usage_id h kind e =
    let test : WalletRecord → Bool = λ v. v.tenant_id == w.tenant_id && v.id == w.id in
    elim (Bool-cases (ltb_ℤ (pos 0) amount)) [
      | inr p ↦ let same : t ≡ b = ground arith in rw same h
      | inl p ↦ elim (Option-cases (find test b.wallets)) [
        | inl k ↦ absurd (ground arith)
        | inr (v, k) ↦
            let own = find-true test b.wallets v k in
            let usages : t.usages ≡ b.usages = ground arith in
            posted-LedgerIsExact b t test (add_held delta) v
              (record {
                wallet_id = v.id;
                entry_type = entry_type;
                amount_minor = delta;
                balance_after_minor = v.balance_minor;
                held_after_minor = v.held_minor +ℤ delta;
                reference_id = some usage_id;
              })
              h k (λ a hit. ground arith) (λ a. refl) (ground arith) (ground arith) refl
              (ground arith) refl (rw usages h.nonnegative)
      ]
    ]

release_hold-LedgerIsExact :
    (b t : Books) (u : UsageRecord) → LedgerIsExact b → release_hold b u ≡ ok t → LedgerIsExact t
unfolding release_hold find_wallet_by_id_for_update
release_hold-LedgerIsExact b t u h e =
    elim (Option-cases (find (λ w. w.id == u.wallet_id) b.wallets)) [
      | inl k ↦ absurd (ground arith)
      | inr (w, k) ↦
          elim (Result-cases (move_hold b w u.held_minor "release" (neg u.held_minor) u.id)) [
            | inr (e', m) ↦ absurd (ground arith)
            | inl (t', m) ↦
                status-LedgerIsExact t' t (λ v. v.id == u.id)
                  (λ v. record v { status = "failed"; refunded_minor = u.held_minor })
                  (move_hold-LedgerIsExact b t' w u.held_minor (neg u.held_minor) "release" u.id h
                    refl m)
                  (ground arith) (ground arith) (ground arith) (λ v. refl)
          ]
    ]

pub release_usage-LedgerIsExact :
    (b t : Books) (r : BillingReservation)
    → LedgerIsExact b
    → release_usage b r ≡ ok t
    → LedgerIsExact t
unfolding release_usage find_wallet_by_id_for_update
release_usage-LedgerIsExact b t r h e =
    elim (Option-cases (find (λ w. w.id == r.wallet_id) b.wallets)) [
      | inl k ↦ absurd (ground arith)
      | inr (w, k) ↦
          elim (Result-cases (move_hold b w r.held_minor "release" (neg r.held_minor) r.usage_id)) [
            | inr (e', m) ↦ absurd (ground arith)
            | inl (t', m) ↦
                status-LedgerIsExact t' t (λ v. v.id == r.usage_id)
                  (λ v. record v { status = "failed"; refunded_minor = r.held_minor })
                  (move_hold-LedgerIsExact b t' w r.held_minor (neg r.held_minor) "release"
                    r.usage_id h refl m)
                  (ground arith) (ground arith) (ground arith) (λ v. refl)
          ]
    ]

-- What failing and cancelling a job share: the hold goes back where `releases`, and then the jobs
-- change only.
released-LedgerIsExact :
    (b t : Books) (u : UsageRecord) (releases : Bool) (t' : Books)
    → LedgerIsExact b
    → (if releases then release_hold b u else ok b) ≡ ok t'
    → t.wallets ≡ t'.wallets
    → t.ledger ≡ t'.ledger
    → t.usages ≡ t'.usages
    → LedgerIsExact t
released-LedgerIsExact b t u true t' h e wallets ledger usages =
    let h' = release_hold-LedgerIsExact b t' u h e in
    same-LedgerIsExact t' t h' wallets ledger (rw usages h'.nonnegative)
released-LedgerIsExact b t u false t' h e wallets ledger usages =
    let same : t' ≡ b = ground arith in
    let h' : LedgerIsExact t' = rw same h in
    same-LedgerIsExact t' t h' wallets ledger (rw usages h'.nonnegative)

pub fail_job-LedgerIsExact :
    (b t : Books) (job : JobRecord)
    → LedgerIsExact b
    → fail_job_and_release_usage b job ≡ ok t
    → LedgerIsExact t
unfolding fail_job_and_release_usage find_usage_for_update
fail_job-LedgerIsExact b t job h e = elim (Option-cases job.usage_id) [
  | inl k ↦ absurd (ground arith)
  | inr (id, k) ↦ elim (Option-cases (find (λ u. u.id == id) b.usages)) [
    | inl m ↦ absurd (ground arith)
    | inr (u, m) ↦ elim (Result-cases (if is_unsettled u then release_hold b u else ok b)) [
      | inr (e', n) ↦ absurd (ground arith)
      | inl (t', n) ↦
          released-LedgerIsExact b t u (is_unsettled u) t' h n (ground arith) (ground arith)
            (ground arith)
    ]
  ]
]

pub fail_admin_job-LedgerIsExact :
    (b t : Books) (job : JobRecord)
    → LedgerIsExact b
    → fail_admin_job_and_release_usage b job ≡ ok t
    → LedgerIsExact t
unfolding fail_admin_job_and_release_usage find_usage_for_update
fail_admin_job-LedgerIsExact b t job h e = elim (Option-cases job.usage_id) [
  | inl k ↦ absurd (ground arith)
  | inr (id, k) ↦ elim (Option-cases (find (λ u. u.id == id) b.usages)) [
    | inl m ↦ absurd (ground arith)
    | inr (u, m) ↦ elim (Result-cases (if is_unsettled u then release_hold b u else ok b)) [
      | inr (e', n) ↦ absurd (ground arith)
      | inl (t', n) ↦
          released-LedgerIsExact b t u (is_unsettled u) t' h n (ground arith) (ground arith)
            (ground arith)
    ]
  ]
]

pub cancel_job-LedgerIsExact :
    (b t : Books) (tenant_id customer_id job_id : ℕ)
    → LedgerIsExact b
    → cancel_server_job_and_release_usage b tenant_id customer_id job_id ≡ ok t
    → LedgerIsExact t
unfolding cancel_server_job_and_release_usage find_usage_for_update
cancel_job-LedgerIsExact b t tenant_id customer_id job_id h e =
    elim (Result-cases (load_customer_job_for_update b tenant_id customer_id job_id)) [
      | inr (e', k) ↦ absurd (ground arith)
      | inl (job, k) ↦ elim (Option-cases job.usage_id) [
        | inl m ↦ absurd (ground arith)
        | inr (id, m) ↦ elim (Option-cases (find (λ u. u.id == id) b.usages)) [
          | inl n ↦ absurd (ground arith)
          | inr (u, n) ↦
              let releases = is_unsettled u && ltb_ℤ (pos 0) u.held_minor in
              elim (Result-cases (if releases then release_hold b u else ok b)) [
                | inr (e', o) ↦ absurd (ground arith)
                | inl (t', o) ↦
                    released-LedgerIsExact b t u releases t' h o (ground arith) (ground arith)
                      (ground arith)
              ]
        ]
      ]
    ]
