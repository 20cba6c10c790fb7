-- ===== src/Subscription.antt =====
-- backend/src/modules/subscription/model.rs: the subscription record and the validation of inputs.
-- Instants are natural numbers, identifiers too. `Uuid::new_v4()` and `Utc::now()` are arguments.
pub mod Service
pub mod Laws
use entitle_hub.Base.{
  ℕ, ◌≡◌, Bool, ◌||◌, not, Option, none, some, String, str_eq, leb, ltb, if◌then◌else◌, unwrap_or,
}
use entitle_hub.Base.Int.{ℤ, pos}
use entitle_hub.Base.Json.{Json}
use entitle_hub.Base.Text.{trim, is_empty}
use entitle_hub.Error.{Result, ok, err, validation_failed, ◌>>=◌, ◌>>◌}
use entitle_hub.License.{normalize_features, validate_max_devices}

pub record Subscription (V : Type 0) : Type 0 where
  pub id : ℕ
  pub tenant_id : ℕ
  pub app_id : ℕ
  pub customer_id : ℕ
  pub plan : String
  pub status : String
  pub max_devices : ℤ
  pub features : V
  pub starts_at : ℕ
  pub expires_at : Option ℕ
  pub cancelled_at : Option ℕ
  pub metadata : V
  pub created_at : ℕ
  pub updated_at : ℕ
  pub deleted_at : Option ℕ

pub record NewSubscription (V : Type 0) : Type 0 where
  pub id : ℕ
  pub tenant_id : ℕ
  pub app_id : ℕ
  pub customer_id : ℕ
  pub plan : String
  pub max_devices : ℤ
  pub features : V
  pub starts_at : ℕ
  pub expires_at : Option ℕ
  pub metadata : V

pub record CreateSubscriptionInput (V : Type 0) : Type 0 where
  pub app_id : ℕ
  pub customer_id : ℕ
  pub plan : String
  pub max_devices : Option ℤ
  pub starts_at : Option ℕ
  pub expires_at : Option ℕ
  pub features : Option V
  pub metadata : Option V

-- `to_lowercase` of the standard library is the parameter `lower`.
normalize_plan : (String → String) → String → Result String
normalize_plan lower plan =
    if is_empty (lower (trim plan))
    then err (validation_failed "plan is required")
    else ok (lower (trim plan))

validate_subscription_window : ℕ → Option ℕ → Result (Unit {0})
validate_subscription_window start none = ok tt
validate_subscription_window start (some expiry) =
    if leb expiry start
    then err (validation_failed "expires_at must be greater than starts_at")
    else ok tt

-- `NewSubscription::from_input`. Its feature list and its device limit are checked as a license's.
unfoldable pub from_input :
    {V : Type 0}
    → Json V
    → (String → String)
    → (id now tenant_id : ℕ) → CreateSubscriptionInput V
    → Result (NewSubscription V)
unfolding normalize_plan validate_subscription_window normalize_features validate_max_devices
from_input J lower id now tenant_id input = do
  plan ← normalize_plan lower input.plan
  let max_devices = unwrap_or input.max_devices (pos 1)
  validate_max_devices max_devices
  features ← normalize_features J input.features
  let starts_at = unwrap_or input.starts_at now
  validate_subscription_window starts_at input.expires_at
  ok (record {
    id = id;
    tenant_id = tenant_id;
    app_id = input.app_id;
    customer_id = input.customer_id;
    plan = plan;
    max_devices = max_devices;
    features = features;
    starts_at = starts_at;
    expires_at = input.expires_at;
    metadata = unwrap_or input.metadata J.empty_object;
  })

pub validate_subscription_status_filter : Option String → Result (Unit {0})
validate_subscription_status_filter none = ok tt
validate_subscription_status_filter (some s) =
    if str_eq s "active"
      || str_eq s "trialing"
      || str_eq s "past_due"
      || str_eq s "suspended"
      || str_eq s "cancelled"
      || str_eq s "expired"
    then ok tt
    else err (validation_failed "subscription status is invalid")

pub validate_renew_expires_at : {V : Type 0} → Subscription V → ℕ → Result (Unit {0})
unfolding validate_subscription_window
validate_renew_expires_at current expires_at =
    validate_subscription_window current.starts_at (some expires_at)
