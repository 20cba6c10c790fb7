-- ===== src/Account/Password/Revoked.antt =====
-- Which sessions pass the gate after a password is changed.

use entitle_hub.Base.{
  ℕ, ◌≡◌, refl, sym, Bool, false, ◌&&◌, Option, some, none, List, String, ◌==◌, ltb, arith, ==_refl,
  Option-cases, inl, inr,
}
use entitle_hub.Base.Rows.{find, exists, exists-update-gone, found-exists, find-true}
use entitle_hub.Error.{Result-cases, ok}
use entitle_hub.Admin.{AdminContext}
use entitle_hub.Account.{
  Accounts, AdminSession, find_member, is_live, is_not, is_session_of_member, revoke_admin_sessions,
  revoke_admin_refresh_tokens, revoked_session,
}
use entitle_hub.Account.Gate.{require_admin_session, load_session, joined}
use entitle_hub.Account.Password.{
  Secrets, ChangePasswordRequest, revoke_all, change_password, update_member_password,
}

-- A request that passes comes from a live session of its member.
passes-live :
    (permissions_of : ℕ → ℕ → List String) (later : ℕ) (t : Accounts) (cookie : Option ℕ)
    (admin : AdminContext) (q : AdminSession → Bool)
    → require_admin_session permissions_of later t cookie ≡ ok admin
    → exists q t.sessions ≡ false
    → (s : AdminSession) × (q s ≡ false)
      × (s.revoked_at ≡ none)
      × (s.id ≡ admin.session_id)
      × (s.tenant_id ≡ admin.tenant_id)
      × (s.team_member_id ≡ admin.team_member_id)
unfolding require_admin_session load_session joined
passes-live permissions_of later t cookie admin q h gone = elim (Option-cases cookie) [
  | inl e ↦ absurd (ground arith)
  | inr (id, e) ↦
      let test : AdminSession → Bool = λ s. s.id == id && is_live s && ltb later s.expires_at in
      elim (Option-cases (find test t.sessions)) [
        | inl k ↦ absurd (ground arith)
        | inr (s, k) ↦
            let own = find-true test t.sessions s k in
            let away = found-exists test q t.sessions s k gone in
            (s, away, ground arith, ground arith, ground arith, ground arith)
      ]
]

-- Of the member whose sessions were revoked, none but the exception passes.
pub revoke_all-passes :
    (permissions_of : ℕ → ℕ → List String) (now later : ℕ) (a : Accounts)
    (tenant_id team_member_id : ℕ) (except cookie : Option ℕ) (admin : AdminContext)
    → require_admin_session permissions_of later
        (revoke_all now a tenant_id team_member_id except)
        cookie
      ≡ ok admin
    → (admin.tenant_id == tenant_id
        && admin.team_member_id == team_member_id
        && is_not except admin.session_id)
      ≡ false
unfolding revoke_admin_sessions revoke_admin_refresh_tokens
revoke_all-passes permissions_of now later a tenant_id team_member_id except cookie admin h =
    let q : AdminSession → Bool =
      λ s. is_session_of_member tenant_id team_member_id s && is_live s && is_not except s.id in
    let (s, away, live, id, tenant, member) =
      passes-live permissions_of later (revoke_all now a tenant_id team_member_id except) cookie
        admin q h
        (exists-update-gone q q (revoked_session now) a.sessions (λ s. ground arith) (λ s. refl)) in
    ground arith

change_password-revoked :
    (x : Secrets) (now : ℕ) (a t : Accounts) (admin : AdminContext)
    (payload : ChangePasswordRequest)
    → change_password x now a admin payload ≡ ok t
    → (b : Accounts) × (t
        ≡ revoke_all now b admin.tenant_id admin.team_member_id (some admin.session_id))
unfolding change_password
change_password-revoked x now a t admin payload h =
    elim (Option-cases (find_member a admin.tenant_id admin.team_member_id)) [
      | inl e ↦ absurd (ground arith)
      | inr (m, e) ↦ elim (Result-cases (x.verify_password payload.old_password m.password_hash)) [
        | inr (e', k) ↦ absurd (ground arith)
        | inl (old, k) ↦
            elim (Result-cases (x.verify_password payload.new_password m.password_hash)) [
              | inr (e', l) ↦ absurd (ground arith)
              | inl (new, l) ↦ elim (Result-cases (x.hash_password payload.new_password)) [
                | inr (e', n) ↦ absurd (ground arith)
                | inl (hash, n) ↦
                    elim (Result-cases
                      (update_member_password a admin.tenant_id admin.team_member_id hash)) [
                        | inr (e', o) ↦ absurd (ground arith)
                        | inl (b, o) ↦ (b, ground arith)
                      ]
              ]
            ]
      ]
    ]

-- After a change of a password, a request of the same member passes the gate only from the session
-- in which the password was changed.
pub change_password-ends_others :
    (x : Secrets) (permissions_of : ℕ → ℕ → List String) (now later : ℕ) (a t : Accounts)
    (admin client : AdminContext) (payload : ChangePasswordRequest) (cookie : Option ℕ)
    → change_password x now a admin payload ≡ ok t
    → require_admin_session permissions_of later t cookie ≡ ok client
    → client.tenant_id ≡ admin.tenant_id
    → client.team_member_id ≡ admin.team_member_id
    → client.session_id ≡ admin.session_id
change_password-ends_others x permissions_of now later a t admin client payload cookie h passed
      tenant member =
    let (b, left) = change_password-revoked x now a t admin payload h in
    let kept =
      revoke_all-passes permissions_of now later b admin.tenant_id admin.team_member_id
        (some admin.session_id) cookie client (rw (sym left) passed) in
    ground (arith, ==_refl admin.tenant_id, ==_refl admin.team_member_id)
