-- ===== src/Store/Subscriptions.antt =====
-- backend/src/modules/subscription/repository.rs: the subscription that a customer's login uses.
use entitle_hub.Base.{
  ℕ, Bool, true, false, ◌&&◌, ◌||◌, not, Option, none, some, List, [], ◌∷◌, str_eq, ◌==◌, ltb, leb,
  if◌then◌else◌, is_some,
}
use entitle_hub.Base.Rows.{select}
use entitle_hub.Subscription.{Subscription}
use entitle_hub.Store.{Store}

-- `expires_at is null or expires_at > $4`
abbrev pub is_after : Option ℕ → ℕ → Bool
is_after none now = true
is_after (some at) now = ltb now at

-- `order by expires_at nulls last`
abbrev pub ends_sooner : Option ℕ → Option ℕ → Bool
ends_sooner none b = false
ends_sooner (some a) none = true
ends_sooner (some a) (some b) = ltb a b

module _ {V : Type 0} where
  unfoldable pub is_active_for : (tenant_id app_id customer_id now : ℕ) → Subscription V → Bool
  is_active_for tenant_id app_id customer_id now u =
      u.tenant_id == tenant_id
      && u.app_id == app_id
      && u.customer_id == customer_id
      && not (is_some u.deleted_at)
      && (str_eq u.status "active" || str_eq u.status "trialing")
      && not (is_some u.cancelled_at)
      && leb u.starts_at now
      && is_after u.expires_at now

  -- `order by expires_at nulls last, created_at desc, id`
  unfoldable pub comes_before : Subscription V → Subscription V → Bool
  comes_before u v =
      if ends_sooner u.expires_at v.expires_at
      then true
      else if ends_sooner v.expires_at u.expires_at
      then false
      else if ltb v.created_at u.created_at
      then true
      else if ltb u.created_at v.created_at
      then false
      else ltb u.id v.id

  -- The first of two rows; of rows that tie, the one that stands first.
  abbrev pub earlier : Subscription V → Option (Subscription V) → Subscription V
  earlier u none = u
  earlier u (some v) = if comes_before v u then v else u

  -- `order by ... limit 1`
  unfoldable pub first_row : List (Subscription V) → Option (Subscription V)
  unfolding comes_before
  first_row [] = none
  first_row (u ∷ rows) = some (earlier u (first_row rows))

  unfoldable pub find_active_for_customer :
      Store V → (tenant_id app_id customer_id now : ℕ) → Option (Subscription V)
  unfolding is_active_for first_row
  find_active_for_customer s tenant_id app_id customer_id now =
      first_row (select (is_active_for tenant_id app_id customer_id now) s.subscriptions)
