-- ===== src/Wallet/Billing/Preserved.antt =====
-- Capturing and releasing keep every wallet holding exactly what its open usages hold.
use mathlib.Core.Option
use entitle_hub.Base.{
  ℕ, ◌≡◌, ◌⊎◌, inl, inr, refl, ap, Bool, true, false, ◌&&◌, some, List, str_eq, ◌==◌, if◌then◌else◌,
  arith, ==_refl, eq_iff, Option-cases, Bool-cases,
}
use entitle_hub.Base.Int.{ℤ, pos, ◌≤ℤ◌, ◌-ℤ◌, ◌+ℤ◌, neg, ltb_ℤ}
use entitle_hub.Base.Rows.{find, update, find-update-if, find-true}
use entitle_hub.Error.{Result-cases, ok}
use entitle_hub.Wallet.{
  Books, WalletRecord, UsageRecord, JobRecord, update_wallet_hold, update_wallet_capture,
  update_wallet, add_held, captured, find_usage_for_update, find_wallet_by_id_for_update,
}
use entitle_hub.Wallet.Charge.{settle_charge}
use entitle_hub.Wallet.Billing.{
  move_hold, release_hold, fail_job_and_release_usage, capture_usage, settlement_entry,
}
use entitle_hub.Wallet.Billing.Holds.{
  is_open, open_held, HoldsAreExact, open_held-update, count-update-same,
}

-- A usage is closed and its hold leaves its wallet; `new_row` is what the update makes of a wallet.
module _ (b : Books) (u : UsageRecord) (w : WalletRecord) (uid : ℕ)
    (close : UsageRecord → UsageRecord) (new_row : WalletRecord → WalletRecord) (t : Books) where
  closed-exact :
      HoldsAreExact b
      → find (λ v. v.id == uid) b.usages ≡ some u
      → is_open u ≡ true
      → find (λ v. v.id == u.wallet_id) b.wallets ≡ some w
      → ((v : UsageRecord) → is_open (close v) ≡ false)
      → (w.held_minor -ℤ u.held_minor ≡ (new_row w).held_minor)
      → ((v : WalletRecord) → (v.id == u.wallet_id) ≡ false → new_row v ≡ v)
      → ((id : ℕ)
          → find (λ v. v.id == id) t.wallets
            ≡ Option.map new_row (find (λ v. v.id == id) b.wallets))
      → (id : ℕ) (v : WalletRecord) → find (λ w. w.id == id) t.wallets ≡ some v
      → v.held_minor ≡ pos (open_held id (update (λ v. v.id == uid) close b.usages))
  unfolding ◌-ℤ◌
  closed-exact h found opened of_wallet closes taken others looked id v found' =
      elim (Option-cases (find (λ v. v.id == id) b.wallets)) [
        | inl e ↦ ground (arith, looked id)
        | inr (v₀, e) ↦ ground (
          arith,
          looked id,
          others v₀,
          h.exact id v₀,
          h.nonnegative uid u,
          find-true (λ v. v.id == id) b.wallets v₀,
          open_held-update id uid close b.usages u closes (h.keyed uid) found opened,
        )
      ]

  closed-HoldsAreExact :
      HoldsAreExact b
      → find (λ v. v.id == uid) b.usages ≡ some u
      → is_open u ≡ true
      → find (λ v. v.id == u.wallet_id) b.wallets ≡ some w
      → ((v : UsageRecord) → is_open (close v) ≡ false)
      → ((v : UsageRecord) → (close v).id ≡ v.id)
      → ((v : UsageRecord) → (close v).held_minor ≡ v.held_minor)
      → (w.held_minor -ℤ u.held_minor ≡ (new_row w).held_minor)
      → ((v : WalletRecord) → (v.id == u.wallet_id) ≡ false → new_row v ≡ v)
      → ((id : ℕ)
          → find (λ v. v.id == id) t.wallets
            ≡ Option.map new_row (find (λ v. v.id == id) b.wallets))
      → t.usages ≡ update (λ v. v.id == uid) close b.usages
      → HoldsAreExact t
  closed-HoldsAreExact h found opened of_wallet closes same_id same_held taken others looked
        usages =
      record {
        exact = λ id v e.
            ground (arith, closed-exact h found opened of_wallet closes taken others looked id v e);
        nonnegative = λ id v found'. elim (Option-cases (find (λ v. v.id == id) b.usages)) [
          | inl e ↦ ground (
            arith,
            find-update-if (λ v. v.id == id) (λ v. v.id == uid) close b.usages
                (λ a. ground (arith, same_id a)),
          )
          | inr (v₀, e) ↦ ground (
            arith,
            h.nonnegative id v₀,
            same_held v₀,
            find-update-if (λ v. v.id == id) (λ v. v.id == uid) close b.usages
                (λ a. ground (arith, same_id a)),
          )
        ];
        keyed = λ id. ground (arith, h.keyed id, count-update-same uid id close b.usages same_id);
      }

-- The rows that an update of one wallet leaves.
pub wallets-update :
    (wallets : List WalletRecord) (test : WalletRecord → Bool)
    (change : WalletRecord → WalletRecord)
    → ((v : WalletRecord) → (change v).id ≡ v.id)
    → (id : ℕ)
    → find (λ v. v.id == id) (update test change wallets)
      ≡ Option.map (λ v. if test v then change v else v) (find (λ v. v.id == id) wallets)
wallets-update wallets test change same id =
    find-update-if (λ v. v.id == id) test change wallets (λ v. ground (arith, same v))

is_open-failed :
    (v : UsageRecord) (refunded : ℤ)
    → is_open (record v { status = "failed"; refunded_minor = refunded }) ≡ false
unfolding is_open
is_open-failed v refunded = refl

pub found-id :
    (wallets : List WalletRecord) (id : ℕ) (w : WalletRecord)
    → find (λ v. v.id == id) wallets ≡ some w
    → w.id ≡ id
found-id wallets id w h = ground (arith, find-true (λ v. v.id == id) wallets w)

pub -+ℤ-neg : (a b : ℤ) → a -ℤ b ≡ a +ℤ neg b
unfolding ◌+ℤ◌ ◌-ℤ◌ neg
-+ℤ-neg a b = ground arith

-ℤ-none : (a b : ℤ) → pos 0 ≤ℤ b → ltb_ℤ (pos 0) b ≡ false → a -ℤ b ≡ a
unfolding ◌-ℤ◌
-ℤ-none a b h k = ground arith

-- The hold of an open usage goes back exactly.
release_hold-exact :
    (b t : Books) (u : UsageRecord)
    → HoldsAreExact b
    → find (λ v. v.id == u.id) b.usages ≡ some u
    → is_open u ≡ true
    → release_hold b u ≡ ok t
    → HoldsAreExact t
unfolding release_hold find_wallet_by_id_for_update move_hold update_wallet_hold update_wallet
release_hold-exact b t u h found opened e =
    let close : UsageRecord → UsageRecord =
      λ v. record v { status = "failed"; refunded_minor = u.held_minor } in
    elim (Option-cases (find (λ v. v.id == u.wallet_id) b.wallets)) [
      | inl k ↦ ground arith
      | inr (w, k) ↦ elim (Bool-cases (ltb_ℤ (pos 0) u.held_minor)) [
        | inl p ↦
            let test : WalletRecord → Bool = λ v. v.tenant_id == w.tenant_id && v.id == w.id in
            let change = add_held (neg u.held_minor) in
            let left : t.wallets ≡ update test change b.wallets = ground arith in
            closed-HoldsAreExact b u w u.id close (λ v. if test v then change v else v) t h found
              opened k (λ v. is_open-failed v u.held_minor) (λ v. refl) (λ v. refl)
              (ground (arith, ==_refl w.tenant_id, ==_refl w.id, -+ℤ-neg w.held_minor u.held_minor))
              (λ v o. ground (arith, found-id b.wallets u.wallet_id w k))
              (λ id. rw left (wallets-update b.wallets test change (λ v. refl) id)) (ground arith)
        | inr p ↦
            closed-HoldsAreExact b u w u.id close (λ v. v) t h found opened k
              (λ v. is_open-failed v u.held_minor) (λ v. refl) (λ v. refl)
              (-ℤ-none w.held_minor u.held_minor (h.nonnegative u.id u found) p) (λ v o. refl)
              (λ id. ground arith) (ground arith)
      ]
    ]

open-cases : (u : UsageRecord) → is_open u ≡ true → (u.status ≡ "pending") ⊎ (u.status ≡ "running")
unfolding is_open
open-cases u h = ground (arith, eq_iff u.status "pending", eq_iff u.status "running")

pub open-unsettled :
    (u : UsageRecord)
    → is_open u ≡ true
    → (str_eq u.status "succeeded" ≡ false) × (str_eq u.status "failed" ≡ false)
open-unsettled u h = elim (open-cases u h) [
  | inl e ↦ (ap (λ s. str_eq s "succeeded") e, ap (λ s. str_eq s "failed") e)
  | inr e ↦ (ap (λ s. str_eq s "succeeded") e, ap (λ s. str_eq s "failed") e)
]

same-exact :
    (b t : Books) → t.wallets ≡ b.wallets → t.usages ≡ b.usages → HoldsAreExact b → HoldsAreExact t
same-exact b t w u h = record {
  exact = λ id v e. ground (arith, h.exact id v);
  nonnegative = λ id v e. ground (arith, h.nonnegative id v);
  keyed = λ id. ground (arith, h.keyed id);
}

-- Failing a job leaves every wallet holding exactly what its open usages hold, where it did before
-- and the usage of the job is open, failed or succeeded: an open one gives its hold back.
pub fail_job_and_release_usage-exact :
    (b t : Books) (job : JobRecord) (usage_id : ℕ) (u : UsageRecord)
    → HoldsAreExact b
    → job.usage_id ≡ some usage_id
    → find (λ v. v.id == usage_id) b.usages ≡ some u
    → (is_open u ≡ true) ⊎ (u.status ≡ "failed") ⊎ (u.status ≡ "succeeded")
    → fail_job_and_release_usage b job ≡ ok t
    → HoldsAreExact t
unfolding fail_job_and_release_usage find_usage_for_update is_open
fail_job_and_release_usage-exact b t job usage_id u h of_job found (inr settled) e =
    same-exact b t (ground (arith, eq_iff u.status "failed", eq_iff u.status "succeeded"))
      (ground (arith, eq_iff u.status "failed", eq_iff u.status "succeeded")) h
fail_job_and_release_usage-exact b t job usage_id u h of_job found (inl opened) e =
    let same : u.id ≡ usage_id = ground (arith, find-true (λ v. v.id == usage_id) b.usages u) in
    elim (Result-cases (release_hold b u)) [
      | inr (x, k) ↦ ground (arith, open-unsettled u opened)
      | inl (t', k) ↦
          same-exact t' t (ground (arith, open-unsettled u opened))
            (ground (arith, open-unsettled u opened))
            (release_hold-exact b t' u h (ground arith) opened k)
    ]

-- Capturing the usage of a job leaves every wallet holding exactly what its open usages hold, where
-- it did before and the usage is open or has succeeded.
pub capture_usage-exact :
    (b t : Books) (usage_id : ℕ) (u : UsageRecord) (charge : ℤ)
    → HoldsAreExact b
    → find (λ v. v.id == usage_id) b.usages ≡ some u
    → (is_open u ≡ true) ⊎ (u.status ≡ "succeeded")
    → capture_usage b (some usage_id) charge ≡ ok t
    → HoldsAreExact t
unfolding capture_usage find_usage_for_update find_wallet_by_id_for_update update_wallet_capture
    update_wallet settlement_entry is_open
capture_usage-exact b t usage_id u charge h found (inr settled) e =
    same-exact b t (ground (arith, eq_iff u.status "succeeded"))
      (ground (arith, eq_iff u.status "succeeded")) h
capture_usage-exact b t usage_id u charge h found (inl opened) e =
    elim (Option-cases (find (λ v. v.id == u.wallet_id) b.wallets)) [
      | inl k ↦ ground (arith, open-unsettled u opened)
      | inr (w, k) ↦
          let s = settle_charge charge u.held_minor w.balance_minor w.held_minor in
          let test : WalletRecord → Bool = λ v. v.id == w.id in
          let change = captured u.held_minor s.captured_minor in
          let close : UsageRecord → UsageRecord =
            λ v. record v { status = "succeeded"; charged_minor = s.captured_minor } in
          let unsettled : str_eq u.status "succeeded" ≡ false =
            ground (arith, open-unsettled u opened) in
          let left : t.wallets ≡ update test change b.wallets = ground arith in
          closed-HoldsAreExact b u w usage_id close (λ v. if test v then change v else v) t h found
            opened k (λ v. refl) (λ v. refl) (λ v. refl) (ground (arith, ==_refl w.id))
            (λ v o. ground (arith, found-id b.wallets u.wallet_id w k))
            (λ id. rw left (wallets-update b.wallets test change (λ v. refl) id)) (ground arith)
    ]
