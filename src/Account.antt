-- ===== src/Account.antt =====
-- backend/src/modules/auth and team: the accounts of administrators, their sessions and tokens, and
-- the statements over these tables (team/model.rs, auth/admin_session.rs, auth/one_time_token.rs,
-- auth/mfa_recovery.rs). Names, phones and addresses are left out.
pub mod Gate
pub mod SignIn
pub mod Refresh
pub mod Password
use entitle_hub.Base.{
  ℕ, Bool, true, ◌&&◌, ◌||◌, not, Option, none, some, List, ◌∷◌, String, str_eq, ◌==◌, ltb,
  if◌then◌else◌, is_some, is_id,
}
use entitle_hub.Base.Rows.{find, exists, update, update_returning}
use entitle_hub.Error.{Result, ok, err, ◌>>=◌, ok_or, dependency, refresh_reuse_detected, AppError}
use entitle_hub.Store.{Tenant}

pub record TeamMember : Type 0 where
  pub id : ℕ
  pub tenant_id : ℕ
  pub email : String
  pub password_hash : String
  pub status : String
  pub mfa_enabled : Bool
  pub mfa_secret_encrypted : Option String
  pub deleted_at : Option ℕ

pub record AdminSession : Type 0 where
  pub id : ℕ
  pub tenant_id : ℕ
  pub team_member_id : ℕ
  pub user_agent : Option String
  pub created_at : ℕ
  pub last_seen_at : Option ℕ
  pub expires_at : ℕ
  pub revoked_at : Option ℕ

pub record AdminRefreshToken : Type 0 where
  pub id : ℕ
  pub session_id : ℕ
  pub token_hash : String
  pub created_at : ℕ
  pub expires_at : ℕ
  pub used_at : Option ℕ
  pub revoked_at : Option ℕ

pub record MfaRecoveryCode : Type 0 where
  pub id : ℕ
  pub tenant_id : ℕ
  pub team_member_id : ℕ
  pub code_hash : String
  pub used_at : Option ℕ
  pub revoked_at : Option ℕ

pub record OneTimeToken : Type 0 where
  pub id : ℕ
  pub tenant_id : Option ℕ
  pub purpose : String
  pub subject_type : String
  pub subject_id : Option ℕ
  pub email : Option String
  pub token_hash : String
  pub created_by : Option ℕ
  pub expires_at : ℕ
  pub consumed_at : Option ℕ
  pub revoked_at : Option ℕ
  pub created_at : ℕ

pub record Accounts : Type 0 where
  pub tenants : List Tenant
  pub members : List TeamMember
  pub sessions : List AdminSession
  pub refresh_tokens : List AdminRefreshToken
  pub recovery_codes : List MfaRecoveryCode
  pub one_time_tokens : List OneTimeToken

abbrev pub is_live : AdminSession → Bool
is_live s = not (is_some s.revoked_at)

-- `used_at is null and revoked_at is null`
abbrev pub is_fresh : AdminRefreshToken → Bool
is_fresh t = not (is_some t.used_at) && not (is_some t.revoked_at)

abbrev pub is_member : (tenant_id id : ℕ) → TeamMember → Bool
is_member tenant_id id m = m.tenant_id == tenant_id && m.id == id && not (is_some m.deleted_at)

abbrev pub is_session_of_member : (tenant_id team_member_id : ℕ) → AdminSession → Bool
is_session_of_member tenant_id team_member_id s =
    s.tenant_id == tenant_id && s.team_member_id == team_member_id

-- `$3::uuid is null or id <> $3`
abbrev pub is_not : Option ℕ → ℕ → Bool
is_not none id = true
is_not (some except) id = not (id == except)

unfoldable pub find_member : Accounts → (tenant_id id : ℕ) → Option TeamMember
find_member a tenant_id id = find (is_member tenant_id id) a.members

unfoldable pub find_admin_session : Accounts → ℕ → Option AdminSession
find_admin_session a id = find (λ s. s.id == id) a.sessions

unfoldable pub find_admin_refresh_token_by_hash : Accounts → String → Option AdminRefreshToken
find_admin_refresh_token_by_hash a token_hash =
    find (λ t. str_eq t.token_hash token_hash) a.refresh_tokens

abbrev pub revoked_session : ℕ → AdminSession → AdminSession
revoked_session now s = record s { revoked_at = some now }

unfoldable pub revoke_admin_session : ℕ → Accounts → ℕ → Accounts
revoke_admin_session now a session_id = record a {
  sessions = update (λ s. s.id == session_id && is_live s) (revoked_session now) a.sessions;
}

unfoldable pub revoke_refresh_tokens_for_session : ℕ → Accounts → ℕ → Accounts
revoke_refresh_tokens_for_session now a session_id = record a {
  refresh_tokens =
      update (λ t. t.session_id == session_id && is_fresh t)
        (λ t. record t { revoked_at = some now }) a.refresh_tokens;
}

unfoldable pub revoke_admin_sessions :
    ℕ → Accounts → (tenant_id team_member_id : ℕ) → Option ℕ → Accounts
revoke_admin_sessions now a tenant_id team_member_id except = record a {
  sessions =
      update
        (λ s. is_session_of_member tenant_id team_member_id s && is_live s && is_not except s.id)
        (revoked_session now) a.sessions;
}

unfoldable pub revoke_admin_refresh_tokens :
    ℕ → Accounts → (tenant_id team_member_id : ℕ) → Option ℕ → Accounts
revoke_admin_refresh_tokens now a tenant_id team_member_id except = record a {
  refresh_tokens =
      update
        (λ t.
          exists
            (λ s.
              s.id == t.session_id
              && is_session_of_member tenant_id team_member_id s
              && is_not except s.id)
            a.sessions
          && is_fresh t)
        (λ t. record t { revoked_at = some now }) a.refresh_tokens;
}

abbrev pub account_error : AppError
account_error = dependency "admin session repository database error"

unfoldable pub create_admin_session :
    (now id : ℕ)
    → Accounts
    → (tenant_id team_member_id : ℕ) → Option String
    → ℕ
    → Result (AdminSession × Accounts)
create_admin_session now id a tenant_id team_member_id user_agent expires_at =
    if exists (λ s. s.id == id) a.sessions
    then err account_error
    else (let session : AdminSession = record {
      id = id;
      tenant_id = tenant_id;
      team_member_id = team_member_id;
      user_agent = user_agent;
      created_at = now;
      last_seen_at = none;
      expires_at = expires_at;
      revoked_at = none;
    } in
        ok (session, record a { sessions = session ∷ a.sessions }))

unfoldable pub create_admin_refresh_token :
    (now id : ℕ) → Accounts → (session_id : ℕ) → String → ℕ → Result Accounts
create_admin_refresh_token now id a session_id token_hash expires_at =
    if exists (λ t. t.id == id) a.refresh_tokens
      || exists (λ t. str_eq t.token_hash token_hash) a.refresh_tokens
    then err account_error
    else (let token : AdminRefreshToken = record {
      id = id;
      session_id = session_id;
      token_hash = token_hash;
      created_at = now;
      expires_at = expires_at;
      used_at = none;
      revoked_at = none;
    } in
        ok (record a { refresh_tokens = token ∷ a.refresh_tokens }))

unfoldable pub mark_admin_refresh_token_used : ℕ → Accounts → ℕ → Result Accounts
mark_admin_refresh_token_used now a token_id =
    if exists (λ t. t.id == token_id && is_fresh t) a.refresh_tokens
    then ok (record a {
      refresh_tokens =
          update (λ t. t.id == token_id && is_fresh t) (λ t. record t { used_at = some now })
            a.refresh_tokens;
    })
    else err (refresh_reuse_detected "refresh token reuse detected")

abbrev pub extended : (now expires_at : ℕ) → AdminSession → AdminSession
extended now expires_at s = record s { expires_at = expires_at; last_seen_at = some now }

unfoldable pub extend_admin_session :
    ℕ → Accounts → (session_id expires_at : ℕ) → Result (AdminSession × Accounts)
unfolding update_returning
extend_admin_session now a session_id expires_at = do
  session ←
      ok_or
        (update_returning (λ s. s.id == session_id && is_live s) (extended now expires_at)
          a.sessions)
        account_error
  ok (
    session,
    record a {
      sessions = update (λ s. s.id == session_id && is_live s) (extended now expires_at) a.sessions;
    },
  )

unfoldable pub update_session_user_agent : Accounts → ℕ → Option String → Accounts
update_session_user_agent a session_id user_agent = record a {
  sessions =
      update (λ s. s.id == session_id)
        (λ s. record s {
          user_agent = elim user_agent [ none ↦ s.user_agent | some agent ↦ some agent ];
        })
        a.sessions;
}

-- A token that is neither expired nor consumed nor revoked.
abbrev pub is_active_token : ℕ → OneTimeToken → Bool
is_active_token now t =
    ltb now t.expires_at && not (is_some t.consumed_at) && not (is_some t.revoked_at)

-- `OneTimeTokenRepository::consume`, and the statements with the same text of other modules.
unfoldable pub consume_token : ℕ → List OneTimeToken → ℕ → AppError → Result (List OneTimeToken)
consume_token now tokens id e =
    if exists (λ t. t.id == id && is_active_token now t) tokens
    then ok (
        update (λ t. t.id == id && is_active_token now t) (λ t. record t { consumed_at = some now })
          tokens)
    else err e
