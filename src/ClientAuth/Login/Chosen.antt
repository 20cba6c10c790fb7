-- ===== src/ClientAuth/Login/Chosen.antt =====
-- The subscription that a login binds to.
use entitle_hub.Base.{
  ℕ, ◌≤◌, ◌≡◌, sym, true, false, some, none, List, [], ◌∷◌, arith, eq_iff, inl, inr, Option-cases,
  Bool-cases,
}
use entitle_hub.Base.Rows.{select, All, All-map}
use entitle_hub.Base.Changes.{All-select, All-of_select}
use entitle_hub.Subscription.{Subscription}
use entitle_hub.Subscription.Laws.{IsUsable}
use entitle_hub.Store.{Store}
use entitle_hub.Store.Subscriptions.{
  find_active_for_customer, first_row, comes_before, is_active_for,
}

module _ {V : Type 0} where
  comes_before-irreflexive : (u : Subscription V) → comes_before u u ≡ false
  unfolding comes_before
  comes_before-irreflexive u = ground arith

  comes_before-asymmetric :
      (u v : Subscription V) → comes_before u v ≡ true → comes_before v u ≡ false
  unfolding comes_before
  comes_before-asymmetric u v h = ground arith

  -- What does not come before a row does not come before one that stands after it.
  comes_before-cut :
      (u v w : Subscription V)
      → comes_before v w ≡ false
      → comes_before w u ≡ false
      → comes_before v u ≡ false
  unfolding comes_before
  comes_before-cut u v w h k = ground arith

  All-trivial : (rows : List (Subscription V)) → All (λ v. Unit {0}) rows
  All-trivial [] = tt
  All-trivial (v ∷ rows) = (tt, All-trivial rows)

  first_row-none :
      (P : Subscription V → Type 0) (rows : List (Subscription V))
      → first_row rows ≡ none
      → All P rows
  unfolding first_row
  first_row-none P [] h = tt
  first_row-none P (u ∷ rows) h = absurd (ground arith)

  -- What holds of all rows holds of the first.
  first_row-All :
      (P : Subscription V → Type 0) (rows : List (Subscription V)) (u : Subscription V)
      → first_row rows ≡ some u
      → All P rows
      → P u
  unfolding first_row
  first_row-All P [] u h held = absurd (ground arith)
  first_row-All P (v ∷ rows) u h (first, held) = elim (Option-cases (first_row rows)) [
    | inl e ↦ let same : v ≡ u = ground arith in rw (sym same) first
    | inr (w, e) ↦ elim (Bool-cases (comes_before w v)) [
      | inl p ↦ let same : w ≡ u = ground arith in rw (sym same) (first_row-All P rows w e held)
      | inr p ↦ let same : v ≡ u = ground arith in rw (sym same) first
    ]
  ]

  first_row-first :
      (rows : List (Subscription V)) (u : Subscription V)
      → first_row rows ≡ some u
      → All (λ v. comes_before v u ≡ false) rows
  unfolding first_row
  first_row-first [] u h = tt
  first_row-first (v ∷ rows) u h = elim (Option-cases (first_row rows)) [
    | inl e ↦
        let same : v ≡ u = ground arith in
        (
          rw (sym same) (comes_before-irreflexive v),
          first_row-none (λ x. comes_before x u ≡ false) rows e,
        )
    | inr (w, e) ↦ elim (Bool-cases (comes_before w v)) [
      | inl p ↦
          let same : w ≡ u = ground arith in
          (
            rw (sym same) (comes_before-asymmetric w v p),
            All-map rows (λ x before. rw (sym same) before) (first_row-first rows w e),
          )
      | inr p ↦
          let same : v ≡ u = ground arith in
          (
            rw (sym same) (comes_before-irreflexive v),
            All-map rows (λ x before. rw (sym same) (comes_before-cut v x w before p))
                (first_row-first rows w e),
          )
    ]
  ]

  -- A row is served before another when it ends no later, a row without an end being last; of rows
  -- that end together when it was created no earlier; of those when its identifier is no larger.
  pub record IsServedBefore (u v : Subscription V) : Type 0 where
    pub ends : (b : ℕ) → v.expires_at ≡ some b → (a : ℕ) × (u.expires_at ≡ some a) × (a ≤ b)
    pub created : u.expires_at ≡ v.expires_at → v.created_at ≤ u.created_at
    pub numbered : u.expires_at ≡ v.expires_at → u.created_at ≡ v.created_at → u.id ≤ v.id

  comes_before-IsServedBefore :
      (u v : Subscription V) → comes_before v u ≡ false → IsServedBefore u v
  unfolding comes_before
  comes_before-IsServedBefore u v h = record {
    ends = λ b at. elim (Option-cases u.expires_at) [
      | inl e ↦ absurd (ground arith)
      | inr (a, e) ↦ (a, e, ground arith)
    ];
    created = λ same. elim (Option-cases v.expires_at) [
      | inl e ↦ ground arith
      | inr (b, e) ↦ ground arith
    ];
    numbered = λ same together. elim (Option-cases v.expires_at) [
      | inl e ↦ ground arith
      | inr (b, e) ↦ ground arith
    ];
  }

  -- What makes a row one that the customer may use at an instant.
  pub record IsOwn (tenant_id app_id customer_id now : ℕ) (v : Subscription V) : Type 0 where
    pub of_tenant : v.tenant_id ≡ tenant_id
    pub of_app : v.app_id ≡ app_id
    pub of_customer : v.customer_id ≡ customer_id
    pub kept : v.deleted_at ≡ none
    pub usable : IsUsable v now

  is_active_for-IsOwn :
      (tenant_id app_id customer_id now : ℕ) (u : Subscription V)
      → is_active_for tenant_id app_id customer_id now u ≡ true
      → IsOwn tenant_id app_id customer_id now u
  unfolding is_active_for
  is_active_for-IsOwn tenant_id app_id customer_id now u h =
      let usable : IsUsable u now =
        ground (arith, eq_iff u.status "active", eq_iff u.status "trialing") in
      record {
        of_tenant = ground arith;
        of_app = ground arith;
        of_customer = ground arith;
        kept = ground arith;
        usable = usable;
      }

  IsOwn-is_active_for :
      (tenant_id app_id customer_id now : ℕ) (u : Subscription V)
      → IsOwn tenant_id app_id customer_id now u
      → is_active_for tenant_id app_id customer_id now u ≡ true
  unfolding is_active_for
  IsOwn-is_active_for tenant_id app_id customer_id now u own = ground (
    arith,
    own.of_tenant,
    own.of_app,
    own.of_customer,
    own.kept,
    own.usable,
    eq_iff u.status "active",
    eq_iff u.status "trialing",
  )

  -- The subscription that a login finds belongs to the customer, in the tenant and the application,
  -- and may be used at that instant, so that its second check cannot fail; and it is served before
  -- every other row of which this holds: none ends sooner, none that ends with it was created later,
  -- and none that was also created with it has a smaller identifier.
  pub find_active-first :
      (s : Store V) (tenant_id app_id customer_id now : ℕ) (u : Subscription V)
      → find_active_for_customer s tenant_id app_id customer_id now ≡ some u
      → IsOwn tenant_id app_id customer_id now u
        × All (λ v. IsOwn tenant_id app_id customer_id now v → IsServedBefore u v) s.subscriptions
  unfolding find_active_for_customer
  find_active-first s tenant_id app_id customer_id now u h =
      let own = is_active_for tenant_id app_id customer_id now in
      let rows = select own s.subscriptions in
      (
        is_active_for-IsOwn tenant_id app_id customer_id now u (
            first_row-All (λ v. own v ≡ true) rows u h
              (All-map rows (λ v held. held.1)
                (All-select (λ v. Unit {0}) own s.subscriptions (All-trivial s.subscriptions)))),
        All-map s.subscriptions
            (λ v before mine. before (IsOwn-is_active_for tenant_id app_id customer_id now v mine))
            (All-of_select (IsServedBefore u) own s.subscriptions
              (All-map rows (comes_before-IsServedBefore u) (first_row-first rows u h))),
      )
