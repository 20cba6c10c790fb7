-- ===== src/Wallet/Ledger.antt =====
-- The ledger of the wallets as the history that their rows must agree with.
pub mod Kept
pub mod Transactions
pub mod Settlements
pub mod Admin
pub mod Run
use entitle_hub.Base.{
  ℕ, ◌≤◌, ◌≡◌, Bool, not, ◌&&◌, some, List, [], ◌∷◌, str_eq, ◌==◌, if◌then◌else◌,
}
use entitle_hub.Base.Int.{ℤ, pos, ◌+ℤ◌, ◌≤ℤ◌}
use entitle_hub.Base.Rows.{find, count, All}
use entitle_hub.Wallet.{Books, WalletRecord, LedgerEntry}

-- What a wallet holds: its money, and how much of it is reserved.
pub record Purse : Type 0 where
  pub balance : ℤ
  pub held : ℤ

abbrev pub empty_purse : Purse
empty_purse = record { balance = pos 0; held = pos 0 }

abbrev pub purse_of : WalletRecord → Purse
purse_of w = record { balance = w.balance_minor; held = w.held_minor }

-- The entries that move money into a wallet or out of it; the others move it between free and held.
unfoldable pub moves_money : LedgerEntry → Bool
moves_money e = not (str_eq e.entry_type "hold") && not (str_eq e.entry_type "release")

abbrev pub posted : LedgerEntry → Purse → Purse
posted e p = record {
  balance = if moves_money e then p.balance +ℤ e.amount_minor else p.balance;
  held = e.held_after_minor;
}

-- The purse that the entries of a wallet give, from nothing; the last entry stands first.
unfoldable pub replay : ℕ → List LedgerEntry → Purse
unfolding moves_money
replay wallet_id [] = empty_purse
replay wallet_id (e ∷ entries) =
    if e.wallet_id == wallet_id
    then posted e (replay wallet_id entries)
    else replay wallet_id entries

-- Each entry states the balance that the entries up to it give.
unfoldable pub IsSound : List LedgerEntry → Type 0
IsSound [] = Unit
IsSound (e ∷ entries) =
    (e.balance_after_minor ≡ (replay e.wallet_id (e ∷ entries)).balance) × IsSound entries

-- Every wallet is what its entries give; entries state the running balance; identifiers of wallets
-- are unique, and no usage holds a negative amount.
pub record LedgerIsExact (b : Books) : Type 0 where
  pub exact :
      (id : ℕ) (w : WalletRecord)
      → find (λ w. w.id == id) b.wallets ≡ some w
      → purse_of w ≡ replay id b.ledger
  pub sound : IsSound b.ledger
  pub keyed : (id : ℕ) → count (λ w. w.id == id) b.wallets ≤ 1
  pub nonnegative : All (λ u. pos 0 ≤ℤ u.held_minor) b.usages
