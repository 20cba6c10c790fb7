-- ===== src/Wallet/Ledger/Kept.antt =====
-- How changes of wallets, with the entries that record them, keep the ledger exact.
use mathlib.Core.Option
use entitle_hub.Base.{
  ℕ, ◌≤◌, ◌≡◌, inl, inr, sym, ◌∙◌, ap, Bool, true, some, ◌∷◌, ◌==◌, if◌then◌else◌, arith, ==_refl,
  Option-cases, Bool-cases,
}
use entitle_hub.Base.Int.{pos, ◌≤ℤ◌}
use entitle_hub.Base.Rows.{find, count, update, find-update-if, find-true, count-update-same, All}
use entitle_hub.Base.Changes.{find-only}
use entitle_hub.Wallet.{Books, WalletRecord, LedgerEntry}
use entitle_hub.Wallet.Ledger.{purse_of, posted, replay, IsSound, LedgerIsExact}

-- The rows `w` that pass `test` are changed; they have one identifier.
module _ (b t : Books) (test : WalletRecord → Bool) (change : WalletRecord → WalletRecord)
    (w : WalletRecord) where
  looked_up :
      ((v : WalletRecord) → (change v).id ≡ v.id)
      → t.wallets ≡ update test change b.wallets
      → (id : ℕ)
      → find (λ v. v.id == id) t.wallets
        ≡ Option.map (λ v. if test v then change v else v) (find (λ v. v.id == id) b.wallets)
  looked_up same left id =
      rw left (find-update-if (λ v. v.id == id) test change b.wallets (λ v. ground (arith, same v)))

  keyed-update :
      LedgerIsExact b
      → ((v : WalletRecord) → (change v).id ≡ v.id)
      → t.wallets ≡ update test change b.wallets
      → (id : ℕ) → count (λ v. v.id == id) t.wallets ≤ 1
  keyed-update h same left id = rw left (
      ground (
        arith,
        h.keyed id,
        count-update-same (λ v. v.id == id) test change b.wallets (λ v. ground (arith, same v)),
      ))

  -- A wallet changes as its new entry says.
  pub posted-LedgerIsExact :
      (e : LedgerEntry)
      → LedgerIsExact b
      → find test b.wallets ≡ some w
      → ((v : WalletRecord) → test v ≡ true → (v.id == w.id) ≡ true)
      → ((v : WalletRecord) → (change v).id ≡ v.id)
      → t.wallets ≡ update test change b.wallets
      → t.ledger ≡ e ∷ b.ledger
      → e.wallet_id ≡ w.id
      → purse_of (change w) ≡ posted e (purse_of w)
      → e.balance_after_minor ≡ (change w).balance_minor
      → All (λ u. pos 0 ≤ℤ u.held_minor) t.usages
      → LedgerIsExact t
  unfolding replay IsSound
  posted-LedgerIsExact e h found one same left entered of_wallet moved stated nonnegative =
      let at : find (λ v. v.id == w.id) b.wallets ≡ some w =
        find-only test (λ v. v.id == w.id) b.wallets w one (h.keyed w.id) found in
      record {
        exact = λ id v e'. elim (Option-cases (find (λ v. v.id == id) b.wallets)) [
          | inl k ↦ absurd (ground (arith, looked_up same left id))
          | inr (v₀, k) ↦
              let row : v ≡ (if test v₀ then change v₀ else v₀) =
                ground (arith, looked_up same left id) in
              let own = find-true (λ v. v.id == id) b.wallets v₀ k in
              rw entered (elim (Bool-cases (v₀.id == w.id)) [
                | inl i ↦
                    let p : id ≡ w.id = ground arith in
                    let only : some v₀ ≡ some w =
                      sym k ∙ ap (λ i. find (λ v. v.id == i) b.wallets) p ∙ at in
                    let same_row : v₀ ≡ w = ground arith in
                    let hit : test v₀ ≡ true =
                      ap test same_row ∙ find-true test b.wallets w found in
                    let changed : v ≡ change w = ground arith in ground (arith, h.exact id v₀ k)
                | inr i ↦
                    let kept : v ≡ v₀ = ground (arith, one v₀) in ground (arith, h.exact id v₀ k)
              ])
        ];
        sound = rw entered (ground (arith, ==_refl w.id, h.exact w.id w at, h.sound));
        keyed = keyed-update h same left;
        nonnegative = nonnegative;
      }

  -- A wallet keeps its money.
  pub kept-LedgerIsExact :
      LedgerIsExact b
      → ((v : WalletRecord) → (change v).id ≡ v.id)
      → ((v : WalletRecord) → purse_of (change v) ≡ purse_of v)
      → t.wallets ≡ update test change b.wallets
      → t.ledger ≡ b.ledger
      → All (λ u. pos 0 ≤ℤ u.held_minor) t.usages
      → LedgerIsExact t
  kept-LedgerIsExact h same unmoved left entered nonnegative = record {
    exact = λ id v e'. elim (Option-cases (find (λ v. v.id == id) b.wallets)) [
      | inl k ↦ absurd (ground (arith, looked_up same left id))
      | inr (v₀, k) ↦
          rw entered (ground (arith, looked_up same left id, h.exact id v₀ k, unmoved v₀))
    ];
    sound = rw entered h.sound;
    keyed = keyed-update h same left;
    nonnegative = nonnegative;
  }
