-- ===== src/Account/Gate.antt =====
-- backend/src/modules/auth/session.rs: the gate of administrators' requests. The identifier in the
-- signed cookie, if it verifies, is an argument, and so are the permissions of a member.
use entitle_hub.Base.{ℕ, ◌&&◌, not, Option, none, some, List, String, str_eq, ◌==◌, ltb, is_some}
use entitle_hub.Base.Rows.{find}
use entitle_hub.Error.{
  Result, ok, ◌>>=◌, ◌>>◌, reject_if, ok_or, unauthenticated, session_expired, account_disabled,
  tenant_forbidden,
}
use entitle_hub.Admin.{AdminContext}
use entitle_hub.Store.{Tenant}
use entitle_hub.Account.{Accounts, AdminSession, TeamMember, is_live, find_member}

pub record SessionCandidate : Type 0 where
  pub session : AdminSession
  pub member : TeamMember
  pub tenant : Tenant

abbrev pub tenant_of : Accounts → ℕ → Option Tenant
tenant_of a tenant_id = find (λ t. t.id == tenant_id && not (is_some t.deleted_at)) a.tenants

-- The session with its member and its tenant, as the joins of the queries give them.
unfoldable pub joined : Accounts → Option AdminSession → Option SessionCandidate
joined a none = none
joined a (some s) = elim (find_member a s.tenant_id s.team_member_id) [
  | none ↦ none
  | some m ↦ elim (tenant_of a s.tenant_id) [
    | none ↦ none
    | some t ↦ some (record { session = s; member = m; tenant = t })
  ]
]

unfoldable pub load_session : ℕ → Accounts → ℕ → Option SessionCandidate
unfolding joined
load_session now a session_id =
    joined a (find (λ s. s.id == session_id && is_live s && ltb now s.expires_at) a.sessions)

unfoldable pub require_admin_session :
    ((tenant_id team_member_id : ℕ) → List String) → ℕ → Accounts → Option ℕ → Result AdminContext
require_admin_session permissions_of now a cookie = do
  session_id ← ok_or cookie (unauthenticated "unauthenticated")
  candidate ← ok_or (load_session now a session_id) (session_expired "session expired")
  reject_if (not (str_eq candidate.member.status "active")) (account_disabled "account disabled")
  reject_if (not (str_eq candidate.tenant.status "active")) (tenant_forbidden "tenant forbidden")
  ok (record {
    session_id = candidate.session.id;
    tenant_id = candidate.session.tenant_id;
    team_member_id = candidate.session.team_member_id;
    permissions = permissions_of candidate.session.tenant_id candidate.session.team_member_id;
  })
