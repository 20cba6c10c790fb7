-- ===== src/Subscription/Service.antt =====
-- backend/src/modules/subscription/service.rs: when a subscription may be used.
use Prim.Native.String as Text
use entitle_hub.Base.{ℕ, not, ◌||◌, str_eq, ltb, is_some}
use entitle_hub.Error.{Result, ok, ◌>>◌, reject_if, subscription_inactive}
use entitle_hub.License.Service.{has_passed}
use entitle_hub.Subscription.{Subscription}

unfoldable pub validate_subscription_record : {V : Type 0} → Subscription V → ℕ → Result (Unit {0})
validate_subscription_record s now = do
  reject_if (not (str_eq s.status "active" || str_eq s.status "trialing"))
      (subscription_inactive (Text.◌++◌ "subscription is " s.status))
  reject_if (is_some s.cancelled_at) (subscription_inactive "subscription is cancelled")
  reject_if (ltb now s.starts_at) (subscription_inactive "subscription is not active yet")
  reject_if (has_passed s.expires_at now) (subscription_inactive "subscription is expired")
  ok tt
