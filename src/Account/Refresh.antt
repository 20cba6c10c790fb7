-- ===== src/Account/Refresh.antt =====
-- backend/src/modules/auth/refresh.rs: the rotation of an administrator's refresh token. The handler
-- reads and checks, then marks the token and writes its successor in one transaction; another request
-- may run between the two, so they are two definitions. The token is the one of the cookie. The hash,
-- the outcomes of the rate limiter and what is generated are parameters.
pub mod Reuse
use entitle_hub.Base.{
  ℕ, ◌+◌, Bool, true, false, ◌||◌, not, Option, none, some, String, str_eq, leb, if◌then◌else◌,
  is_some,
}
use entitle_hub.Base.Text.{trim, is_empty}
use entitle_hub.Error.{
  AppError, Result, ok, err, ◌>>=◌, ◌>>◌, reject_if, ok_or, unauthenticated, session_expired,
  account_disabled, tenant_forbidden, refresh_reuse_detected,
}
use entitle_hub.Account.{
  Accounts, AdminSession, AdminRefreshToken, find_admin_session, find_admin_refresh_token_by_hash,
  revoke_admin_session, revoke_refresh_tokens_for_session, mark_admin_refresh_token_used,
  create_admin_refresh_token, extend_admin_session, update_session_user_agent,
}
use entitle_hub.Account.Gate.{SessionCandidate, joined}

pub record Renewal : Type 0 where
  pub stored_token : AdminRefreshToken
  pub session : AdminSession
  pub token_hash : String

-- What is generated for the next token.
pub record Next : Type 0 where
  pub id : ℕ
  pub token : String

-- What the reuse of a token ends.
abbrev pub end_session : ℕ → Accounts → ℕ → Accounts
end_session now a session_id =
    revoke_refresh_tokens_for_session now (revoke_admin_session now a session_id) session_id

-- `load_refresh_principal`
unfoldable pub load_refresh_principal : Accounts → ℕ → Option SessionCandidate
unfolding joined
load_refresh_principal a session_id = joined a (find_admin_session a session_id)

-- The checks that change nothing.
unfoldable pub renewable :
    (String → Result String) → ℕ → Accounts → AdminRefreshToken → String → Result Renewal
unfolding load_refresh_principal
renewable hash now a stored next = do
  reject_if (leb stored.expires_at now) (session_expired "session expired")
  session ← ok_or (find_admin_session a stored.session_id) (session_expired "session expired")
  reject_if (is_some session.revoked_at) (session_expired "session expired")
  principal ← ok_or (load_refresh_principal a session.id) (session_expired "session expired")
  reject_if (not (str_eq principal.member.status "active")) (account_disabled "account disabled")
  reject_if (not (str_eq principal.tenant.status "active")) (tenant_forbidden "tenant forbidden")
  token_hash ← hash next
  ok (record { stored_token = stored; session = session; token_hash = token_hash })

found_token :
    (String → Result String)
    → (Option ℕ → Result (Unit {0}))
    → ℕ
    → Accounts
    → String
    → Option AdminRefreshToken
    → Accounts × Result Renewal
unfolding renewable
found_token hash limiter now a next none =
    (a, limiter none >>= λ _. err (unauthenticated "unauthenticated"))
found_token hash limiter now a next (some stored) = elim (limiter (some stored.session_id)) [
  | err e ↦ (a, err e)
  | ok _ ↦
      if is_some stored.used_at || is_some stored.revoked_at
      then (
        end_session now a stored.session_id,
        err (refresh_reuse_detected "refresh token reuse detected"),
      )
      else (a, renewable hash now a stored next)
]

hashed_token :
    (String → Result String)
    → (Option ℕ → Result (Unit {0}))
    → ℕ
    → Accounts
    → String
    → Result String
    → Accounts × Result Renewal
unfolding found_token
hashed_token hash limiter now a next (err e) = (a, err e)
hashed_token hash limiter now a next (ok token_hash) =
    found_token hash limiter now a next (find_admin_refresh_token_by_hash a token_hash)

-- Up to the transaction; the token of the cookie is trimmed and must not be blank.
unfoldable pub prepare_renewal :
    (String → Result String)
    → (Option ℕ → Result (Unit {0}))
    → ℕ
    → Accounts
    → Next
    → Option String
    → Accounts × Result Renewal
unfolding hashed_token
prepare_renewal hash limiter now a next none = (a, err (unauthenticated "unauthenticated"))
prepare_renewal hash limiter now a next (some cookie) =
    if is_empty (trim cookie)
    then (a, err (unauthenticated "unauthenticated"))
    else hashed_token hash limiter now a next.token (hash (trim cookie))

-- The successor and the session, which lives on.
renewed :
    (ttl now : ℕ) → Accounts → Next → Option String → Renewal → Result (AdminSession × Accounts)
renewed ttl now a next user_agent p = do
  b ← create_admin_refresh_token now next.id a p.session.id p.token_hash (now + ttl)
  (session, c) ← extend_admin_session now b p.session.id (now + ttl)
  ok (session, update_session_user_agent c session.id user_agent)

kept_or : Accounts → Result (AdminSession × Accounts) → Accounts × Result AdminSession
kept_or a (err e) = (a, err e)
kept_or a (ok (session, b)) = (b, ok session)

-- A token that is used up by now is a reuse: the transaction is rolled back and the session ended.
marked :
    (ttl now : ℕ)
    → Accounts
    → Next
    → Option String
    → Renewal
    → Result Accounts
    → Accounts × Result AdminSession
unfolding renewed kept_or
marked ttl now a next user_agent p (ok b) = kept_or a (renewed ttl now b next user_agent p)
marked ttl now a next user_agent p (err (refresh_reuse_detected e)) =
    (end_session now a p.stored_token.session_id, err (refresh_reuse_detected e))
marked ttl now a next user_agent p (err e) = (a, err e)

unfoldable pub commit_renewal :
    (ttl now : ℕ) → Accounts → Next → Option String → Renewal → Accounts × Result AdminSession
unfolding marked
commit_renewal ttl now a next user_agent p =
    marked ttl now a next user_agent p (mark_admin_refresh_token_used now a p.stored_token.id)
