-- ===== src/ClientAuth/Login/Transaction.antt =====
-- The check of the credentials and the transaction of a login, read off their success.
use entitle_hub.Base.{
  ℕ, ◌+◌, ◌<◌, ◌≤◌, ◌≡◌, ◌∙◌, refl, sym, ap, Bool, true, some, none, arith, ==_refl, eq_iff, String,
  str_eq, Option-cases, inl, inr, Option,
}
use entitle_hub.Base.Int.{pos, ◌≤ℤ◌}
use entitle_hub.Base.Json.{Json}
use entitle_hub.Base.Rows.{find, count}
use entitle_hub.Error.{ok, Result, Result-cases}
use entitle_hub.Customer.{Customer}
use entitle_hub.Subscription.{Subscription}
use entitle_hub.Device.Binding.{BindDeviceResult, bind_for_subscription}
use entitle_hub.Device.Binding.Limits.{bind_for_subscription-within}
use entitle_hub.Device.Binding.Bound.{
  IsBound, bind_for_subscription-IsBound, bind_for_customer_session-IsBound,
}
use entitle_hub.Session.{ClientSession, new_client_session}
use entitle_hub.Store.{Store, Application, Tenant}
use entitle_hub.Store.Devices.{
  is_device, active_device_count_for_subscription, create_device_key, find_device_by_id,
}
use entitle_hub.Store.Licenses.{find_application_by_id, find_tenant_by_id}
use entitle_hub.Store.Sessions.{
  create_client_session, create_client_refresh_token, find_session_by_id, session_row,
}
use entitle_hub.ClientAuth.{
  ClientContext, require_client_session, ensure_session_device, load_client_entitlement,
  ClientEntitlement,
}
use entitle_hub.ClientAuth.Passes.{
  found_in, found_tenant, found_application, load_client_entitlement-later,
  ensure_session_device_lem, require_client_session_lem,
}
use entitle_hub.ClientAuth.Refresh.{TokenTtls, Signer}
use entitle_hub.ClientAuth.Activate.{ActivateResponse, FreshIds, register_key}
use entitle_hub.ClientAuth.Login.{
  CustomerLoginRequest, login_input, bind_login, login_with, audit_login_device, access_claims,
  check_credentials,
}

-- The checks of the credentials, read off their success.
pub check_credentials-verified :
    (verify_password : String → String → Result Bool) (found : Option Customer) (password : String)
    (c : Customer)
    → check_credentials verify_password found password ≡ ok c
    → (found ≡ some c)
      × (c.status ≡ "active")
      × ((hash : String) × (c.password_hash ≡ some hash)
          × (verify_password password hash ≡ ok true))
unfolding check_credentials
check_credentials-verified verify_password none password c h = absurd (ground arith)
check_credentials-verified verify_password (some d) password c h =
    elim (Option-cases d.password_hash) [
      | inl e ↦ absurd (ground arith)
      | inr (hash, e) ↦ elim (Result-cases (verify_password password hash)) [
        | inr (e', k) ↦ absurd (ground arith)
        | inl (verified, k) ↦
            let same : d ≡ c = ground arith in
            let passed : verified ≡ true = ground arith in
            (
              ap some same,
              ground (arith, eq_iff d.status "active"),
              (hash, ground arith, k ∙ ap ok passed),
            )
      ]
    ]

module _ {V : Type 0} (J : Json V) (ttls : TokenTtls) (parses : String → Bool)
    (fresh : FreshIds) where
  bind_login-IsBound :
      (now : ℕ) (s t : Store V) (payload : CustomerLoginRequest) (a : Application) (c : Customer)
      (subscription : Option (Subscription V)) (bound : BindDeviceResult V)
      → ((id : ℕ) → count (is_device a.tenant_id id) s.devices ≤ 1)
      → bind_login J ttls parses fresh now s
          (login_input J ttls parses fresh a c subscription payload)
          subscription
        ≡ ok (bound, t)
      → IsBound J now fresh.device s t
          (login_input J ttls parses fresh a c subscription payload)
          bound
  unfolding bind_login
  bind_login-IsBound now s t payload a c (some u) bound keyed h =
      bind_for_subscription-IsBound J now fresh.device s t _ bound u keyed h
  bind_login-IsBound now s t payload a c none bound keyed h =
      bind_for_customer_session-IsBound J now fresh.device s t _ bound keyed h

  -- The transaction, read off its success.
  module _ (now : ℕ) (s t : Store V) (payload : CustomerLoginRequest) (a : Application)
      (c : Customer) (subscription : Option (Subscription V)) (token token_hash : String)
      (refresh_id : ℕ) (signer : Signer) (r : ActivateResponse V) where
    abbrev row : BindDeviceResult V → ClientSession
    row bound = session_row now (
        new_client_session fresh.session a.tenant_id a.id (some c.id) bound.device.id
          bound.device.machine_id "subscription" (now + ttls.session))

    login_with-tables :
        login_with J ttls parses fresh now s payload a c subscription token token_hash refresh_id
            signer
          ≡ ok (r, t)
        → (bound : BindDeviceResult V) × (s₁ : Store V) × (bind_login J ttls parses fresh now s
              (login_input J ttls parses fresh a c subscription payload)
              subscription
            ≡ ok (bound, s₁))
          × (t.devices ≡ s₁.devices)
          × (t.tenants ≡ s₁.tenants)
          × (t.applications ≡ s₁.applications)
          × (t.licenses ≡ s₁.licenses)
          × (t.subscriptions ≡ s₁.subscriptions)
          × (find_session_by_id t r.session_id ≡ some (row bound))
          × (r.device_id ≡ bound.device.id)
          × (r.session_id ≡ fresh.session)
          × ((e : Option (ClientEntitlement V)) × (load_client_entitlement s
                  (row bound)
                  bound.device
                  now
                ≡ ok e))
    unfolding login_with register_key create_device_key create_client_session
        create_client_refresh_token find_session_by_id find audit_login_device
    login_with-tables h =
        elim (Result-cases (
          bind_login J ttls parses fresh now s
            (login_input J ttls parses fresh a c subscription payload) subscription)) [
              | inr (e, k) ↦ absurd (ground arith)
              | inl ((bound, s₁), k) ↦
                  elim (Result-cases (load_client_entitlement s (row bound) bound.device now)) [
                    | inr (e, m) ↦ absurd (ground arith)
                    | inl (e, m) ↦ (
                      bound,
                      s₁,
                      k,
                      ground arith,
                      ground arith,
                      ground arith,
                      ground arith,
                      ground arith,
                      ground (arith, ==_refl fresh.session),
                      ground arith,
                      ground arith,
                      (e, m),
                    )
                  ]
            ]

    -- The seats of the subscription that the login binds to.
    pub login_with-within :
        (u : Subscription V)
        → subscription ≡ some u
        → ((id : ℕ) → count (is_device a.tenant_id id) s.devices ≤ 1)
        → pos (active_device_count_for_subscription s a.tenant_id a.id u.id) ≤ℤ u.max_devices
        → login_with J ttls parses fresh now s payload a c subscription token token_hash refresh_id
            signer
          ≡ ok (r, t)
        → pos (active_device_count_for_subscription t a.tenant_id a.id u.id) ≤ℤ u.max_devices
    unfolding bind_login active_device_count_for_subscription
    login_with-within u named keyed within h =
        let (bound, s₁, k, left, _, _, _, _, _, _, _, _) = login_with-tables h in
        let bind : bind_for_subscription J now fresh.device s
              (login_input J ttls parses fresh a c subscription payload) u
            ≡ ok (bound, s₁) =
          ground arith in
        rw left (
          bind_for_subscription-within J now fresh.device s s₁
            (login_input J ttls parses fresh a c subscription payload) bound u keyed within bind)

    -- The gate that the session passes.
    pub login_with-passes_gate :
        (tenant : Tenant) (later : ℕ)
        → ((id : ℕ) → count (is_device a.tenant_id id) s.devices ≤ 1)
        → find_tenant_by_id s a.tenant_id ≡ some tenant
        → str_eq tenant.status "active" ≡ true
        → find_application_by_id s a.tenant_id a.id ≡ some a
        → str_eq a.status "active" ≡ true
        → later < now + ttls.session
        → login_with J ttls parses fresh now s payload a c subscription token token_hash refresh_id
            signer
          ≡ ok (r, t)
        → (session : ClientSession) × (find_session_by_id t r.session_id ≡ some session)
          × ((client : ClientContext V) × (require_client_session J later t (access_claims session)
                ≡ ok client)
              × (client.customer_id ≡ some c.id))
    login_with-passes_gate tenant later keyed of_tenant tenant_active of_app app_active unexpired
          h =
        let (
          bound,
          s₁,
          k,
          devices,
          tenants,
          applications,
          licenses,
          subscriptions,
          found,
          same,
          same_id,
          (e, loaded),
        ) =
          login_with-tables h in
        let b = bind_login-IsBound now s s₁ payload a c subscription bound keyed k in
        let tables = b.tables in
        let device : find_device_by_id t a.tenant_id a.id bound.device.id ≡ some bound.device =
          found_in t s₁ a.tenant_id a.id bound.device.id devices ∙ b.found in
        let checked : ensure_session_device t (row bound) ≡ ok bound.device =
          ensure_session_device_lem t t (row bound) tenant a bound.device
            (found_tenant t s a.tenant_id (tenants ∙ ap Store.tenants tables) ∙ of_tenant)
            tenant_active
            (found_application t s a.tenant_id a.id (applications ∙ ap Store.applications tables)
              ∙ of_app)
            app_active device b.active in
        let (e', loaded') =
          load_client_entitlement-later s t (row bound) bound.device now later e
            (licenses ∙ ap Store.licenses tables) (subscriptions ∙ ap Store.subscriptions tables)
            loaded in
        let at : find_session_by_id t fresh.session ≡ some (row bound) =
          ap (find_session_by_id t) (sym same_id) ∙ found in
        let machine : str_eq bound.device.machine_id bound.device.machine_id ≡ true =
          (eq_iff bound.device.machine_id bound.device.machine_id).1 refl in
        let passed =
          require_client_session_lem t t J later (row bound) bound.device e' at refl unexpired
            machine checked loaded' in
        (row bound, found, passed)
