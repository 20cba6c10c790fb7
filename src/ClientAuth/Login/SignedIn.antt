-- ===== src/ClientAuth/Login/SignedIn.antt =====
-- What a login that succeeds leaves: credentials that were checked, a session that the gate passes,
-- and no seat beyond the limit of the subscription.
use entitle_hub.Base.{
  ℕ, ◌+◌, ◌<◌, ◌≤◌, ◌≡◌, sym, ap, Bool, true, some, arith, String, str_eq, Option-cases, inl, inr,
  List,
}
use entitle_hub.Base.Int.{pos, ◌≤ℤ◌}
use entitle_hub.Base.Text.{trim}
use entitle_hub.Base.Json.{Json}
use entitle_hub.Base.Rows.{count}
use entitle_hub.Error.{ok, Result, Result-cases}
use entitle_hub.Customer.{Customer, find_by_email}
use entitle_hub.Subscription.{Subscription}
use entitle_hub.Session.{ClientSession}
use entitle_hub.Store.{Store, Application, Tenant}
use entitle_hub.Store.Devices.{is_device, active_device_count_for_subscription}
use entitle_hub.Store.Licenses.{find_by_app_key, find_application_by_id, find_tenant_by_id}
use entitle_hub.Store.Subscriptions.{find_active_for_customer}
use entitle_hub.Store.Sessions.{find_session_by_id}
use entitle_hub.ClientAuth.{ClientContext, require_client_session}
use entitle_hub.ClientAuth.Refresh.{TokenTtls, Generated, Signer}
use entitle_hub.ClientAuth.Activate.{ActivateResponse, FreshIds}
use entitle_hub.ClientAuth.Login.{
  CustomerLoginRequest, login_with, login, access_claims, check_credentials, normalize_email,
}
use entitle_hub.ClientAuth.Login.Transaction.{
  check_credentials-verified, login_with-within, login_with-passes_gate,
}

module _ {V : Type 0} (J : Json V) (ttls : TokenTtls) (parses : String → Bool)
    (fresh : FreshIds) where
  -- The handler, read off its success.
  module _ (to_lowercase lower : String → String) (verify_password : String → String → Result Bool)
      (hash_refresh : String → Result String) (limiter : String → Result (Unit {0}))
      (prepare_signer : Result Signer) (refresh : Generated) (now : ℕ) (customers : List Customer)
      (s t : Store V) (payload : CustomerLoginRequest) (r : ActivateResponse V) where
    login-checked :
        login J ttls parses fresh to_lowercase lower verify_password hash_refresh limiter
            prepare_signer refresh now customers s payload
          ≡ ok (r, t)
        → (email : String) × (a : Application) × (c : Customer) × (normalize_email to_lowercase
              payload.email
            ≡ ok email)
          × (find_by_app_key s (trim payload.app_key) ≡ some a)
          × (str_eq a.status "active" ≡ true)
          × (check_credentials verify_password
                (find_by_email lower customers a.tenant_id email)
                payload.password
              ≡ ok c)
          × ((refresh_hash : String) × (signer : Signer) × (login_with J ttls parses fresh now s
                  payload a c
                  (find_active_for_customer s a.tenant_id a.id c.id now)
                  refresh.token
                  refresh_hash
                  refresh.id
                  signer
                ≡ ok (r, t)))
    unfolding login
    login-checked h = elim (Result-cases (normalize_email to_lowercase payload.email)) [
      | inr (e, k) ↦ absurd (ground arith)
      | inl (email, k) ↦ elim (Option-cases (find_by_app_key s (trim payload.app_key))) [
        | inl l ↦ absurd (ground arith)
        | inr (a, l) ↦
            elim (Result-cases (
              check_credentials verify_password (find_by_email lower customers a.tenant_id email)
                payload.password)) [
                  | inr (e, m) ↦ absurd (ground arith)
                  | inl (c, m) ↦ elim (Result-cases (hash_refresh refresh.token)) [
                    | inr (e, n) ↦ absurd (ground arith)
                    | inl (refresh_hash, n) ↦ elim (Result-cases prepare_signer) [
                      | inr (e, o) ↦ absurd (ground arith)
                      | inl (signer, o) ↦
                          (email, a, c, k, l, ground arith, m, (refresh_hash, signer, ground arith))
                    ]
                  ]
                ]
      ]
    ]

    -- A login that succeeds was given the email of a customer of the application's tenant who is
    -- active, and a password that the hash of that customer verifies. Where the customer has an
    -- active subscription whose seats are within its limit, they are within it afterwards, if the
    -- identifiers of the tenant's devices are unique.
    pub login-verified :
        login J ttls parses fresh to_lowercase lower verify_password hash_refresh limiter
            prepare_signer refresh now customers s payload
          ≡ ok (r, t)
        → (email : String) × (a : Application) × (c : Customer) × (normalize_email to_lowercase
              payload.email
            ≡ ok email)
          × (find_by_app_key s (trim payload.app_key) ≡ some a)
          × (find_by_email lower customers a.tenant_id email ≡ some c)
          × (c.status ≡ "active")
          × ((hash : String) × (c.password_hash ≡ some hash)
              × (verify_password payload.password hash ≡ ok true))
          × ((u : Subscription V)
              → find_active_for_customer s a.tenant_id a.id c.id now ≡ some u
              → ((id : ℕ) → count (is_device a.tenant_id id) s.devices ≤ 1)
              → pos (active_device_count_for_subscription s a.tenant_id a.id u.id) ≤ℤ u.max_devices
              → pos (active_device_count_for_subscription t a.tenant_id a.id u.id) ≤ℤ u.max_devices)
    login-verified h =
        let (email, a, c, k, l, active, m, (refresh_hash, signer, done)) = login-checked h in
        let (found, usable, verified) =
          check_credentials-verified verify_password
            (find_by_email lower customers a.tenant_id email) payload.password c m in
        (
          email,
          a,
          c,
          k,
          l,
          found,
          usable,
          verified,
          λ u of_customer keyed within.
              login_with-within J ttls parses fresh now s t payload a c
                (find_active_for_customer s a.tenant_id a.id c.id now) refresh.token refresh_hash
                refresh.id signer r u of_customer keyed within done,
        )

    -- The session that a login returns passes the gate until it expires, for requests with the
    -- claims that the handler signs, and stands for the customer who signed in: where the tenant of
    -- the application `a` is active, `a` is found by its identifier too, and the identifiers of the
    -- tenant's devices are unique.
    pub login-passes_gate :
        (a : Application) (tenant : Tenant) (later : ℕ)
        → login J ttls parses fresh to_lowercase lower verify_password hash_refresh limiter
            prepare_signer refresh now customers s payload
          ≡ ok (r, t)
        → find_by_app_key s (trim payload.app_key) ≡ some a
        → find_application_by_id s a.tenant_id a.id ≡ some a
        → find_tenant_by_id s a.tenant_id ≡ some tenant
        → tenant.status ≡ "active"
        → ((id : ℕ) → count (is_device a.tenant_id id) s.devices ≤ 1)
        → later < now + ttls.session
        → (email : String) × (c : Customer) × (session : ClientSession) × (client : ClientContext V)
          × (normalize_email to_lowercase payload.email ≡ ok email)
          × (find_by_email lower customers a.tenant_id email ≡ some c)
          × (find_session_by_id t r.session_id ≡ some session)
          × (require_client_session J later t (access_claims session) ≡ ok client)
          × (client.customer_id ≡ some c.id)
    login-passes_gate a tenant later h of_key of_id of_tenant tenant_active keyed unexpired =
        let (email, a', c, k, l, active, m, (refresh_hash, signer, done)) = login-checked h in
        let same : a ≡ a' = ground arith in
        let (found, usable, verified) =
          check_credentials-verified verify_password
            (find_by_email lower customers a'.tenant_id email) payload.password c m in
        let (session, at, (client, passed, named)) =
          login_with-passes_gate J ttls parses fresh now s t payload a' c
            (find_active_for_customer s a'.tenant_id a'.id c.id now) refresh.token refresh_hash
            refresh.id signer r tenant later (rw (sym same) keyed) (rw (sym same) of_tenant)
            (ap (λ x. str_eq x "active") tenant_active) (rw (sym same) of_id) active unexpired
            done in
        (email, c, session, client, k, rw same found, at, passed, named)
