-- ===== src/Subscription/Laws.antt =====
-- What the validation of subscriptions establishes.
use entitle_hub.Base.{
  ℕ, ◌≤◌, ◌≡◌, ◌↔◌, ◌⊎◌, true, false, Option, none, some, String, eq_iff, arith, unwrap_or,
}
use entitle_hub.Base.Int.{pos, ◌≤ℤ◌}
use entitle_hub.Base.Json.{Json}
use entitle_hub.Base.Text.{is_empty}
use entitle_hub.Error.{ok}
use entitle_hub.License.Laws.{Unexpired, Ordered}
use entitle_hub.Subscription.{
  Subscription, NewSubscription, CreateSubscriptionInput, from_input, validate_subscription_window,
}
use entitle_hub.Subscription.Service.{validate_subscription_record}

-- A subscription that may be used at the instant `now`.
pub record IsUsable {V : Type 0} (s : Subscription V) (now : ℕ) : Type 0 where
  pub active : (s.status ≡ "active") ⊎ (s.status ≡ "trialing")
  pub uncancelled : s.cancelled_at ≡ none
  pub started : s.starts_at ≤ now
  pub unexpired : Unexpired s.expires_at now

-- A subscription passes exactly when it is active or on trial, not cancelled, started and not
-- expired.
pub validate_subscription_record-IsUsable :
    {V : Type 0} (s : Subscription V) (now : ℕ)
    → (validate_subscription_record s now ≡ ok tt) ↔ IsUsable s now
unfolding validate_subscription_record
validate_subscription_record-IsUsable s now = (
  λ h. ground (arith, eq_iff s.status "active", eq_iff s.status "trialing"),
  λ u. ground (arith, eq_iff s.status "active", eq_iff s.status "trialing"),
)

-- What the table's check constraints and the schema ask of a new subscription.
pub record IsValid {V : Type 0} (J : Json V) (s : NewSubscription V) : Type 0 where
  pub named : is_empty s.plan ≡ false
  pub counted : pos 0 ≤ℤ s.max_devices
  pub listed : J.is_array s.features ≡ true
  pub windowed : Ordered (some s.starts_at) s.expires_at

validate_subscription_window-Ordered :
    (a : ℕ) (b : Option ℕ) → validate_subscription_window a b ≡ ok tt → Ordered (some a) b
unfolding validate_subscription_window
validate_subscription_window-Ordered a none h = tt
validate_subscription_window-Ordered a (some b) h = ground arith

-- Every input that is accepted gives a subscription with a plan, a device limit that is not
-- negative, a list of features and a window that is not empty.
pub from_input-IsValid :
    {V : Type 0} (J : Json V) (lower : String → String) (id now tenant_id : ℕ)
    (input : CreateSubscriptionInput V) (s : NewSubscription V)
    → from_input J lower id now tenant_id input ≡ ok s
    → IsValid J s
unfolding from_input
from_input-IsValid J lower id now tenant_id input s h =
    ground
      (arith, validate_subscription_window-Ordered (unwrap_or input.starts_at now) input.expires_at)
