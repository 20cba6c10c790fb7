-- ===== src/Wallet/Billing/Holds.antt =====
-- What a wallet must hold: the sum of the holds of its open usages.
use entitle_hub.Base.{
  ℕ, ◌+◌, ◌≤◌, ◌≡◌, refl, Bool, true, false, ◌&&◌, ◌||◌, some, List, [], ◌∷◌, str_eq, ◌==◌,
  if◌then◌else◌, arith,
}
use entitle_hub.Base.Int.{pos, pos_part, ◌≤ℤ◌}
use entitle_hub.Base.Rows.{find, count, update}
use entitle_hub.Wallet.{Books, WalletRecord, UsageRecord}

-- The usage still holds money: the states in which `daily_spend_minor` counts its hold.
unfoldable pub is_open : UsageRecord → Bool
is_open u = str_eq u.status "pending" || str_eq u.status "running"

unfoldable pub open_held : ℕ → List UsageRecord → ℕ
unfolding is_open
open_held wallet_id [] = 0
open_held wallet_id (u ∷ usages) =
    if u.wallet_id == wallet_id && is_open u
    then pos_part u.held_minor + open_held wallet_id usages
    else open_held wallet_id usages

-- Every wallet holds exactly what its open usages hold, no hold is negative, and identifiers of
-- usages are unique.
pub record HoldsAreExact (b : Books) : Type 0 where
  pub exact :
      (id : ℕ) (w : WalletRecord)
      → find (λ w. w.id == id) b.wallets ≡ some w
      → w.held_minor ≡ pos (open_held id b.usages)
  pub nonnegative :
      (id : ℕ) (u : UsageRecord) → find (λ u. u.id == id) b.usages ≡ some u → pos 0 ≤ℤ u.held_minor
  pub keyed : (id : ℕ) → count (λ u. u.id == id) b.usages ≤ 1

update-none :
    (id : ℕ) (f : UsageRecord → UsageRecord) (usages : List UsageRecord)
    → count (λ u. u.id == id) usages ≡ 0
    → update (λ u. u.id == id) f usages ≡ usages
unfolding count update
update-none id f [] h = refl
update-none id f (u ∷ usages) h = ground (arith, update-none id f usages)

-- Closing an open usage takes its hold from the sum of its wallet, and from no other.
pub open_held-update :
    (wallet_id id : ℕ) (f : UsageRecord → UsageRecord) (usages : List UsageRecord) (u : UsageRecord)
    → ((v : UsageRecord) → is_open (f v) ≡ false)
    → count (λ v. v.id == id) usages ≤ 1
    → find (λ v. v.id == id) usages ≡ some u
    → is_open u ≡ true
    → open_held wallet_id usages
      ≡ (if u.wallet_id == wallet_id then pos_part u.held_minor else 0)
        + open_held wallet_id (update (λ v. v.id == id) f usages)
unfolding open_held count find update
open_held-update wallet_id id f [] u closes keyed found opened = cc
open_held-update wallet_id id f (v ∷ usages) u closes keyed found opened =
    ground
      (arith, closes v, update-none id f usages, open_held-update wallet_id id f usages u closes)

pub count-update-same :
    (id other : ℕ) (f : UsageRecord → UsageRecord) (usages : List UsageRecord)
    → ((v : UsageRecord) → (f v).id ≡ v.id)
    → count (λ v. v.id == other) (update (λ v. v.id == id) f usages)
      ≡ count (λ v. v.id == other) usages
unfolding count update
count-update-same id other f [] h = refl
count-update-same id other f (v ∷ usages) h =
    ground (arith, h v, count-update-same id other f usages h)
