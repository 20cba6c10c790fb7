-- ===== src/Wallet/Charge.antt =====
-- backend/src/modules/ai/jobs.rs: the settlement of a charge (`settle_charge`).
use entitle_hub.Base.{ℕ, ◌+◌, ◌-◌, ◌^◌, ◌≤◌, leb, ◌≡◌, if◌then◌else◌, arith}
use entitle_hub.Base.Int.{ℤ, pos, negsuc, ◌+ℤ◌, ◌-ℤ◌, ◌≤ℤ◌, ◌<ℤ◌, max_ℤ, min_ℤ, saturate, i64_max}

pub record ChargeSettlement : Type 0 where
  pub requested_minor : ℤ
  pub captured_minor : ℤ
  pub released_minor : ℤ
  pub additional_minor : ℤ
  pub shortfall_minor : ℤ

-- `wallet_balance_minor.saturating_sub(wallet_held_minor).max(0)`
pub available : ℤ → ℤ → ℤ
unfolding saturate max_ℤ ◌-ℤ◌
available balance held = max_ℤ (saturate (balance -ℤ held)) (pos 0)

-- The differences are of two amounts that are not negative, so they do not overflow.
unfoldable pub settle_charge :
    (requested_minor reservation_held_minor wallet_balance_minor wallet_held_minor : ℤ)
    → ChargeSettlement
unfolding available saturate max_ℤ min_ℤ ◌-ℤ◌ ◌+ℤ◌
settle_charge requested_minor reservation_held_minor wallet_balance_minor wallet_held_minor =
    let requested = max_ℤ requested_minor (pos 0) in
    let reservation = max_ℤ reservation_held_minor (pos 0) in
    let capturable = saturate (reservation +ℤ available wallet_balance_minor wallet_held_minor) in
    let captured = min_ℤ requested capturable in
    record {
      requested_minor = requested;
      captured_minor = captured;
      released_minor = max_ℤ (reservation -ℤ captured) (pos 0);
      additional_minor = max_ℤ (captured -ℤ reservation) (pos 0);
      shortfall_minor = max_ℤ (requested -ℤ captured) (pos 0);
    }

-- What the settlement of a charge `requested` that is not negative, against a reservation of a
-- wallet whose balance covers its holds and whose holds cover the reservation, accounts for.
pub record IsSettled (requested reservation balance held : ℤ) (s : ChargeSettlement) : Type 0 where
  pub requested_all : s.requested_minor ≡ requested
  pub nonnegative : pos 0 ≤ℤ s.captured_minor
  -- The charge is captured or fails to be.
  pub accounted : requested ≡ s.captured_minor +ℤ s.shortfall_minor
  -- The reservation is captured, with what comes on top, or released.
  pub balanced : s.captured_minor +ℤ s.released_minor ≡ reservation +ℤ s.additional_minor
  -- A charge within the reservation takes nothing on top and releases the rest of the reservation.
  pub within :
      s.captured_minor ≤ℤ reservation
      → (s.captured_minor +ℤ s.released_minor ≡ reservation) × (s.additional_minor ≡ pos 0)
  -- A charge beyond the reservation takes the excess on top and releases nothing.
  pub beyond :
      reservation ≤ℤ s.captured_minor
      → (s.captured_minor ≡ reservation +ℤ s.additional_minor) × (s.released_minor ≡ pos 0)
  -- A shortfall is left only when the reservation and all free money are taken.
  pub exhausted : pos 0 <ℤ s.shortfall_minor → s.captured_minor ≡ reservation +ℤ (balance -ℤ held)
  -- What is captured leaves the other holds covered.
  pub covered : held -ℤ reservation ≤ℤ balance -ℤ s.captured_minor

max_ℤ-pos : (a : ℕ) → max_ℤ (pos a) (pos 0) ≡ pos a
unfolding max_ℤ
max_ℤ-pos a = ground arith

-- The part of a difference above zero.
max_ℤ-sub : (a b : ℕ) → max_ℤ (pos a -ℤ pos b) (pos 0) ≡ pos (a - b)
unfolding max_ℤ ◌-ℤ◌
max_ℤ-sub a b = ground arith

saturate-pos : (a : ℕ) → a ≤ 2 ^ 63 - 1 → saturate (pos a) ≡ pos a
unfolding saturate
saturate-pos a h = ground arith

saturate-sub : (a b : ℕ) → b ≤ a → a ≤ 2 ^ 63 - 1 → saturate (pos a -ℤ pos b) ≡ pos (a - b)
unfolding saturate ◌-ℤ◌
saturate-sub a b h k = ground arith

+ℤ-pos : (a b : ℕ) → pos a +ℤ pos b ≡ pos (a + b)
unfolding ◌+ℤ◌
+ℤ-pos a b = ground arith

abbrev min_ℕ : ℕ → ℕ → ℕ
min_ℕ a b = if leb a b then a else b

min_ℤ-pos : (a b : ℕ) → min_ℤ (pos a) (pos b) ≡ pos (min_ℕ a b)
unfolding min_ℤ
min_ℤ-pos a b = ground arith

-- The settlement on natural numbers.
settle_charge_lem :
    (requested reservation balance held : ℕ)
    → reservation ≤ held
    → held ≤ balance
    → balance ≤ 2 ^ 63 - 1
    → let captured = min_ℕ requested (reservation + (balance - held)) in
      settle_charge (pos requested) (pos reservation) (pos balance) (pos held) ≡ record {
        requested_minor = pos requested;
        captured_minor = pos captured;
        released_minor = pos (reservation - captured);
        additional_minor = pos (captured - reservation);
        shortfall_minor = pos (requested - captured);
      }
unfolding settle_charge available
settle_charge_lem requested reservation balance held c d top = rw (
  max_ℤ-pos requested,
  max_ℤ-pos reservation,
  saturate-sub balance held d top,
  max_ℤ-pos (balance - held),
  +ℤ-pos reservation (balance - held),
  saturate-pos (reservation + (balance - held)) (omega arith),
  min_ℤ-pos requested (reservation + (balance - held)),
  max_ℤ-sub reservation (min_ℕ requested (reservation + (balance - held))),
  max_ℤ-sub (min_ℕ requested (reservation + (balance - held))) reservation,
  max_ℤ-sub requested (min_ℕ requested (reservation + (balance - held))),
)

-- A charge and a reservation that are not negative, where the holds of the wallet cover the
-- reservation, its balance covers the holds and the balance fits an `i64`: what is not captured of
-- the charge is the shortfall, which is left only when all free money is taken; what is not captured
-- of the reservation is released, what is captured beyond it is the additional amount, and the
-- balance that is left covers the other holds.
pub settle_charge-IsSettled :
    (requested reservation balance held : ℤ)
    → pos 0 ≤ℤ requested
    → pos 0 ≤ℤ reservation
    → reservation ≤ℤ held
    → held ≤ℤ balance
    → balance ≤ℤ i64_max
    → IsSettled requested reservation balance held
        (settle_charge requested reservation balance held)
unfolding ◌+ℤ◌ ◌-ℤ◌
settle_charge-IsSettled (pos requested) (pos reservation) (pos balance) (pos held) r n c d top =
    rw
      (settle_charge_lem requested reservation balance held (omega arith) (omega arith)
        (omega arith))
      (ground arith)
settle_charge-IsSettled (negsuc x) reservation balance held r n c d top = ground arith
settle_charge-IsSettled (pos requested) (negsuc x) balance held r n c d top = ground arith
settle_charge-IsSettled (pos requested) (pos reservation) balance (negsuc x) r n c d top =
    ground arith
settle_charge-IsSettled (pos requested) (pos reservation) (negsuc x) (pos held) r n c d top =
    ground arith

max_ℤ-nonnegative : (a : ℤ) → pos 0 ≤ℤ max_ℤ a (pos 0)
unfolding max_ℤ
max_ℤ-nonnegative a = ground arith

saturate-nonnegative : (a b : ℤ) → pos 0 ≤ℤ a → pos 0 ≤ℤ b → pos 0 ≤ℤ saturate (a +ℤ b)
unfolding saturate ◌+ℤ◌
saturate-nonnegative a b h k = ground arith

min_ℤ-nonnegative : (a b : ℤ) → pos 0 ≤ℤ a → pos 0 ≤ℤ b → pos 0 ≤ℤ min_ℤ a b
unfolding min_ℤ
min_ℤ-nonnegative a b h k = ground arith

-- What is captured is never negative.
pub captured-nonnegative :
    (charge hold balance held : ℤ)
    → pos 0 ≤ℤ (settle_charge charge hold balance held).captured_minor
unfolding settle_charge available
captured-nonnegative charge hold balance held = min_ℤ-nonnegative _ _ (max_ℤ-nonnegative charge) (
    saturate-nonnegative _ _ (max_ℤ-nonnegative hold)
      (max_ℤ-nonnegative (saturate (balance -ℤ held))))

pub -ℤ_zero : (a : ℤ) → a -ℤ pos 0 ≡ a
unfolding ◌-ℤ◌
-ℤ_zero a = ground arith
