-- ===== src/Wallet/Ledger/Run.antt =====
-- Runs of transactions over the books, by the jobs, the customers' servers and the administrators.
use entitle_hub.Base.{ℕ, ◌≡◌, Bool, Option, List, [], ◌∷◌, inl, inr, arith}
use entitle_hub.Base.Int.{ℤ, pos, ◌≤ℤ◌}
use entitle_hub.Error.{Result, Result-cases, ok, err, ◌>>=◌}
use entitle_hub.Admin.{AdminContext}
use entitle_hub.Customer.{Customer}
use entitle_hub.Wallet.{Books, JobRecord}
use entitle_hub.Wallet.Billing.{
  BillingReservation, JobModel, reserve_wallet_and_create_usage, capture_usage, release_usage,
  fail_job_and_release_usage, fail_admin_job_and_release_usage, cancel_server_job_and_release_usage,
  refund_admin_job,
}
use entitle_hub.Wallet.Admin.{
  AdjustAiWalletRequest, adjust_ai_wallet, update_ai_wallet_quota, update_ai_wallet_access,
}
use entitle_hub.Wallet.Ledger.{LedgerIsExact}
use entitle_hub.Wallet.Ledger.Transactions.{
  IsFresh, release_usage-LedgerIsExact, fail_job-LedgerIsExact, fail_admin_job-LedgerIsExact,
  cancel_job-LedgerIsExact,
}
use entitle_hub.Wallet.Ledger.Settlements.{
  reserve-LedgerIsExact, capture_usage-LedgerIsExact, refund_job-LedgerIsExact,
}
use entitle_hub.Wallet.Ledger.Admin.{
  adjust-LedgerIsExact, quota-LedgerIsExact, access-LedgerIsExact,
}

-- A transaction with what it is given.
pub data Transaction : Type 0 where
  reserve : (fresh usage_id now day_start tenant_id customer_id : ℕ) → JobModel → ℤ → Transaction
  capture : Option ℕ → ℤ → Transaction
  release : BillingReservation → Transaction
  fail_job : JobRecord → Transaction
  fail_admin_job : JobRecord → Transaction
  cancel : (tenant_id customer_id job_id : ℕ) → Transaction
  refund : JobRecord → Transaction
  adjust :
      AdminContext
      → (fresh customer_id : ℕ) → AdjustAiWalletRequest
      → Result (Unit {0})
      → Transaction
  set_quota : AdminContext → (fresh customer_id : ℕ) → Option ℤ → Transaction
  set_access : AdminContext → (fresh customer_id : ℕ) → Bool → Transaction

-- The books of a result that carries a value too.
abbrev pub books_of {ℓ} : {A : Type ℓ} → Result (A × Books) → Result Books
books_of r = r >>= λ p. ok p.1

unfoldable pub transact : List Customer → Books → Transaction → Result Books
transact customers b (reserve fresh usage_id now day_start tenant_id customer_id model hold) =
    books_of (
      reserve_wallet_and_create_usage fresh usage_id now day_start b tenant_id customer_id model
        hold)
transact customers b (capture usage_id charge) = capture_usage b usage_id charge
transact customers b (release reservation) = release_usage b reservation
transact customers b (fail_job job) = fail_job_and_release_usage b job
transact customers b (fail_admin_job job) = fail_admin_job_and_release_usage b job
transact customers b (cancel tenant_id customer_id job_id) =
    cancel_server_job_and_release_usage b tenant_id customer_id job_id
transact customers b (refund job) = refund_admin_job b job
transact customers b (adjust admin fresh customer_id payload metadata) =
    books_of (adjust_ai_wallet customers b admin fresh customer_id payload metadata)
transact customers b (set_quota admin fresh customer_id limit) =
    books_of (update_ai_wallet_quota customers b admin fresh customer_id limit)
transact customers b (set_access admin fresh customer_id enabled) =
    books_of (update_ai_wallet_access customers b admin fresh customer_id enabled)

-- A transaction that fails is rolled back.
abbrev pub committed : Books → Result Books → Books
committed b (ok t) = t
committed b (err e) = b

unfoldable pub run : List Customer → Books → List Transaction → Books
run customers b [] = b
run customers b (x ∷ xs) = run customers (committed b (transact customers b x)) xs

-- A transaction that may open a wallet is given an identifier that no row has used, and what is
-- reserved is not negative.
unfoldable pub IsSane : Books → Transaction → Type 0
IsSane b (reserve fresh usage_id now day_start tenant_id customer_id model hold) =
    IsFresh b fresh × (pos 0 ≤ℤ hold)
IsSane b (adjust admin fresh customer_id payload metadata) = IsFresh b fresh
IsSane b (set_quota admin fresh customer_id limit) = IsFresh b fresh
IsSane b (set_access admin fresh customer_id enabled) = IsFresh b fresh
IsSane b _ = Unit

unfoldable pub AreSane : List Customer → Books → List Transaction → Type 0
unfolding IsSane
AreSane customers b [] = Unit
AreSane customers b (x ∷ xs) =
    IsSane b x × AreSane customers (committed b (transact customers b x)) xs

books_of-ok {ℓ} :
    {A : Type ℓ} (r : Result (A × Books)) (t : Books)
    → books_of r ≡ ok t
    → (a : A) × (r ≡ ok (a, t))
books_of-ok (ok (a, b)) t e = (a, ground arith)
books_of-ok (err e') t e = absurd (ground arith)

transact-LedgerIsExact :
    (customers : List Customer) (b t : Books) (x : Transaction)
    → LedgerIsExact b
    → IsSane b x
    → transact customers b x ≡ ok t
    → LedgerIsExact t
unfolding transact IsSane
transact-LedgerIsExact customers b t
      (reserve fresh usage_id now day_start tenant_id customer_id model hold) h sane e =
    let (r, e') = books_of-ok _ t e in
    reserve-LedgerIsExact fresh usage_id now day_start b t tenant_id customer_id model hold r h
      sane.0 sane.1 e'
transact-LedgerIsExact customers b t (capture usage_id charge) h sane e =
    capture_usage-LedgerIsExact b t usage_id charge h e
transact-LedgerIsExact customers b t (release reservation) h sane e =
    release_usage-LedgerIsExact b t reservation h e
transact-LedgerIsExact customers b t (fail_job job) h sane e = fail_job-LedgerIsExact b t job h e
transact-LedgerIsExact customers b t (fail_admin_job job) h sane e =
    fail_admin_job-LedgerIsExact b t job h e
transact-LedgerIsExact customers b t (cancel tenant_id customer_id job_id) h sane e =
    cancel_job-LedgerIsExact b t tenant_id customer_id job_id h e
transact-LedgerIsExact customers b t (refund job) h sane e = refund_job-LedgerIsExact b t job h e
transact-LedgerIsExact customers b t (adjust admin fresh customer_id payload metadata) h sane e =
    let (w, e') = books_of-ok _ t e in
    adjust-LedgerIsExact customers b t admin fresh customer_id payload metadata w h sane e'
transact-LedgerIsExact customers b t (set_quota admin fresh customer_id limit) h sane e =
    let (w, e') = books_of-ok _ t e in
    quota-LedgerIsExact customers b t admin fresh customer_id limit w h sane e'
transact-LedgerIsExact customers b t (set_access admin fresh customer_id enabled) h sane e =
    let (w, e') = books_of-ok _ t e in
    access-LedgerIsExact customers b t admin fresh customer_id enabled w h sane e'

-- The stored wallets implement their ledger through every run of transactions, those that fail
-- included: where at the start each wallet's balance is the sum of the entries that move its money,
-- its held amount is that of its last entry and every entry states the balance up to it, this is so
-- at the end. A reservation is of an amount that is not negative, and the identifier for a wallet
-- that is missing is one that no row has used.
pub run-LedgerIsExact :
    (customers : List Customer) (b : Books) (xs : List Transaction)
    → LedgerIsExact b
    → AreSane customers b xs
    → LedgerIsExact (run customers b xs)
unfolding run AreSane
run-LedgerIsExact customers b [] h sane = h
run-LedgerIsExact customers b (x ∷ xs) h (sane, rest) =
    elim (Result-cases (transact customers b x)) [
      | inl (t, e) ↦
          let next : committed b (transact customers b x) ≡ t = ground arith in
          run-LedgerIsExact customers (committed b (transact customers b x)) xs
            (rw next (transact-LedgerIsExact customers b t x h sane e)) rest
      | inr (e', e) ↦
          let next : committed b (transact customers b x) ≡ b = ground arith in
          run-LedgerIsExact customers (committed b (transact customers b x)) xs (rw next h) rest
    ]
