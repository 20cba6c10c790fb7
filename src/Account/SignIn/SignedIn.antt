-- ===== src/Account/SignIn/SignedIn.antt =====
-- What a login of an administrator leaves: a session that the gate passes.
use entitle_hub.Base.{
  ap, ◌∙◌, ℕ, ◌+◌, ◌<◌, ◌≤◌, ◌≡◌, true, ◌&&◌, Option, some, none, List, ◌∷◌, String, str_eq, ◌==◌,
  ltb, arith, ==_refl, inl, inr, is_some, not,
}
use entitle_hub.Base.Rows.{find, count, find-true}
use entitle_hub.Base.Changes.{find_unique}
use entitle_hub.Error.{Result, Result-cases, ok}
use entitle_hub.Admin.{AdminContext}
use entitle_hub.Store.{Tenant}
use entitle_hub.Account.{
  Accounts, TeamMember, AdminSession, is_member, find_member, is_live, create_admin_session,
  create_admin_refresh_token,
}
use entitle_hub.Account.Gate.{require_admin_session, load_session, joined, tenant_of}
use entitle_hub.Account.SignIn.{
  Checks, Issued, LoginRequest, login, check_password, check_mfa, open_admin_session, is_candidate,
  verify_member_mfa_code, given_code,
}
use entitle_hub.Account.SignIn.Checked.{check_password-checked, check_mfa-Accepted}

-- What the transaction of a login writes.
record IsOpened (ttl now : ℕ) (b t : Accounts) (m : TeamMember) (session : AdminSession)
    : Type 0 where
  inserted : t.sessions ≡ session ∷ b.sessions
  members : t.members ≡ b.members
  tenants : t.tenants ≡ b.tenants
  of_tenant : session.tenant_id ≡ m.tenant_id
  of_member : session.team_member_id ≡ m.id
  expires : session.expires_at ≡ now + ttl
  unrevoked : session.revoked_at ≡ none

open_admin_session-IsOpened :
    (checks : Checks) (ttl now : ℕ) (issued : Issued) (user_agent : Option String) (b t : Accounts)
    (m : TeamMember) (session : AdminSession)
    → open_admin_session checks ttl now issued user_agent b m ≡ ok (session, t)
    → IsOpened ttl now b t m session
unfolding open_admin_session create_admin_session create_admin_refresh_token
open_admin_session-IsOpened checks ttl now issued user_agent b t m session h =
    elim (Result-cases (checks.hash_refresh issued.token)) [
      | inr (e, k) ↦ absurd (ground arith)
      | inl (token_hash, k) ↦ record {
        inserted = ground arith;
        members = ground arith;
        tenants = ground arith;
        of_tenant = ground arith;
        of_member = ground arith;
        expires = ground arith;
        unrevoked = ground arith;
      }
    ]

joined_lem :
    (t : Accounts) (session : AdminSession) (m : TeamMember) (tenant : Tenant)
    (o : Option AdminSession)
    → o ≡ some session
    → find_member t session.tenant_id session.team_member_id ≡ some m
    → tenant_of t session.tenant_id ≡ some tenant
    → joined t o ≡ some (record { session = session; member = m; tenant = tenant })
unfolding joined
joined_lem t session m tenant o found member its_tenant = ground arith

-- A session that was opened passes the gate until it expires.
opened-passes :
    (permissions_of : ℕ → ℕ → List String) (ttl now later : ℕ) (b t : Accounts) (m : TeamMember)
    (tenant : Tenant) (session : AdminSession)
    → IsOpened ttl now b t m session
    → find_member b m.tenant_id m.id ≡ some m
    → tenant_of b m.tenant_id ≡ some tenant
    → m.status ≡ "active"
    → tenant.status ≡ "active"
    → later < now + ttl
    → (admin : AdminContext) × (require_admin_session permissions_of later t (some session.id)
        ≡ ok admin)
      × (admin.tenant_id ≡ m.tenant_id)
      × (admin.team_member_id ≡ m.id)
unfolding require_admin_session load_session find find_member
opened-passes permissions_of ttl now later b t m tenant session o found of_tenant active
      tenant_active unexpired =
    let at = o.inserted in
    let tenant_id = o.of_tenant in
    let member_id = o.of_member in
    let expires = o.expires in
    let unrevoked = o.unrevoked in
    let row : find (λ s. s.id == session.id && is_live s && ltb later s.expires_at) t.sessions
        ≡ some session =
      rw at (ground (arith, ==_refl session.id)) in
    let member : find_member t session.tenant_id session.team_member_id ≡ some m =
      rw (tenant_id, member_id)
        (ap (λ rows. find (is_member m.tenant_id m.id) rows) o.members ∙ found) in
    let its_tenant : tenant_of t session.tenant_id ≡ some tenant = rw tenant_id (
      ap (λ rows. find (λ k. k.id == m.tenant_id && not (is_some k.deleted_at)) rows) o.tenants
      ∙ of_tenant) in
    let looked : load_session later t session.id
        ≡ some (record { session = session; member = m; tenant = tenant }) =
      joined_lem t session m tenant _ row member its_tenant in
    let usable : str_eq m.status "active" ≡ true = ap (λ s. str_eq s "active") active in
    let open_tenant : str_eq tenant.status "active" ≡ true =
      ap (λ s. str_eq s "active") tenant_active in
    elim (Result-cases (require_admin_session permissions_of later t (some session.id))) [
      | inr (e, k) ↦ absurd (ground arith)
      | inl (admin, k) ↦ (admin, k, ground arith, ground arith)
    ]

-- The member that was found by email is found by identifier.
found_by_id :
    (a b : Accounts) (lower : String → String) (email : String) (m : TeamMember)
    → ((tenant_id id : ℕ) → count (is_member tenant_id id) a.members ≤ 1)
    → find (is_candidate lower a email) a.members ≡ some m
    → b.members ≡ a.members
    → find_member b m.tenant_id m.id ≡ some m
unfolding find_member
found_by_id a b lower email m keyed found same =
    let own = find-true (is_candidate lower a email) a.members m found in
    let passes : is_member m.tenant_id m.id m ≡ true =
      ground (arith, ==_refl m.tenant_id, ==_refl m.id) in
    rw same (
      find_unique (is_candidate lower a email) (is_member m.tenant_id m.id)
        (is_member m.tenant_id m.id) a.members m (λ k p. p) (keyed m.tenant_id m.id) found passes)

-- A login of an administrator that succeeds was given the email of exactly one member, who is active
-- with an active tenant, a password that the member's hash verifies and, where the member has a
-- second factor, a code that was accepted. The session that it returns passes the gate until it
-- expires and stands for that member, where the identifiers of a tenant's members are unique.
pub login-opens_gate :
    (checks : Checks) (permissions_of : ℕ → ℕ → List String)
    (limiter mfa_limiter : Result (Unit {0})) (ttl now later : ℕ) (issued : Issued)
    (user_agent : Option String) (a t : Accounts) (payload : LoginRequest) (session : AdminSession)
    → login checks limiter mfa_limiter ttl now issued user_agent a payload ≡ (t, ok session)
    → ((tenant_id id : ℕ) → count (is_member tenant_id id) a.members ≤ 1)
    → later < now + ttl
    → (m : TeamMember) × (tenant : Tenant) × (find
          (is_candidate checks.lower a payload.email)
          a.members
        ≡ some m)
      × (count (is_candidate checks.lower a payload.email) a.members ≡ 1)
      × (m.status ≡ "active")
      × (tenant_of a m.tenant_id ≡ some tenant)
      × (tenant.status ≡ "active")
      × (checks.verify_password payload.password m.password_hash ≡ ok true)
      × (m.mfa_enabled ≡ true
          → (code : String) × (given_code payload.mfa_code ≡ ok code)
            × ((verify_member_mfa_code checks now a m code).1 ≡ ok true))
      × ((admin : AdminContext) × (require_admin_session permissions_of later t (some session.id)
            ≡ ok admin)
          × (admin.tenant_id ≡ m.tenant_id)
          × (admin.team_member_id ≡ m.id))
unfolding login
login-opens_gate checks permissions_of limiter mfa_limiter ttl now later issued user_agent a t
      payload session h keyed unexpired =
    elim (Result-cases limiter) [
      | inr (e, l) ↦ absurd (ground arith)
      | inl (_, l) ↦ elim (Result-cases (check_password checks a payload.email payload.password)) [
        | inr (e, k) ↦ absurd (ground arith)
        | inl (m, k) ↦
            let (tenant, found, one, of_tenant, active, tenant_active, verified) =
              check_password-checked checks a payload.email payload.password m k in
            let checked = check_mfa checks now a m mfa_limiter payload.mfa_code in
            elim (Result-cases checked.1) [
              | inr (e, n) ↦ absurd (ground arith)
              | inl (_, n) ↦
                  let (kept, accepted) =
                    check_mfa-Accepted checks now a checked.0 m mfa_limiter payload.mfa_code
                      (ground arith) in
                  elim (Result-cases
                    (open_admin_session checks ttl now issued user_agent checked.0 m)) [
                      | inr (e, o) ↦ absurd (ground arith)
                      | inl ((s, b), o) ↦
                          let opened : open_admin_session checks ttl now issued user_agent checked.0
                                m
                              ≡ ok (session, t) =
                            ground arith in
                          (
                            m,
                            tenant,
                            found,
                            one,
                            active,
                            of_tenant,
                            tenant_active,
                            verified,
                            accepted,
                            opened-passes permissions_of ttl now later checked.0 t m tenant session
                                (open_admin_session-IsOpened checks ttl now issued user_agent
                                  checked.0 t m session opened)
                                (found_by_id a checked.0 checks.lower payload.email m keyed found
                                  kept.members)
                                (ap
                                    (λ rows.
                                      find (λ x. x.id == m.tenant_id && not (is_some x.deleted_at))
                                        rows)
                                    kept.tenants
                                  ∙ of_tenant)
                                active tenant_active unexpired,
                          )
                    ]
            ]
      ]
    ]
