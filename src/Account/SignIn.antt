-- ===== src/Account/SignIn.antt =====
-- backend/src/modules/auth/login.rs, logout.rs and the check of a second factor in mfa.rs. A recovery
-- code is used up outside the transaction of the login, so the login returns the accounts with its
-- result. Lower-casing, the checks of passwords and of one-time codes, the spelling of recovery
-- codes, hashes, the outcomes of the rate limiter and the fresh identifiers are parameters.
pub mod Checked
pub mod SignedIn
use entitle_hub.Base.{
  ℕ, ◌+◌, Bool, true, false, ◌&&◌, ◌||◌, not, Option, none, some, List, [], ◌∷◌, String, str_eq,
  ◌==◌, if◌then◌else◌, is_some,
}
use entitle_hub.Base.Rows.{exists, update, select, take}
use entitle_hub.Base.Text.{trim, is_empty}
use entitle_hub.Error.{
  Result, ok, err, ◌>>=◌, ◌>>◌, reject_if, ok_or, invalid_credentials, mfa_required, mfa_failed,
  config, AppError,
}
use entitle_hub.Admin.{AdminContext}
use entitle_hub.Account.{
  Accounts, AdminSession, TeamMember, MfaRecoveryCode, create_admin_session,
  create_admin_refresh_token, revoke_admin_session, revoke_refresh_tokens_for_session,
}
use entitle_hub.Account.Gate.{tenant_of}

pub record LoginRequest : Type 0 where
  pub email : String
  pub password : String
  pub mfa_code : Option String

-- What a login generates.
pub record Issued : Type 0 where
  pub session_id : ℕ
  pub token_id : ℕ
  pub token : String

pub record Checks : Type 0 where
  pub lower : String → String
  pub verify_password : String → String → Result Bool
  -- `decrypt_secret_text` and `verify_totp_code`
  pub verify_totp : String → String → Result Bool
  pub normalize_recovery_code : String → Option String
  pub hash_code : String → Result String
  pub hash_refresh : String → Result String

-- Members with the email whose tenant is not deleted.
abbrev pub is_candidate : (String → String) → Accounts → String → TeamMember → Bool
is_candidate lower a email m =
    str_eq (lower m.email) (lower email)
    && not (is_some m.deleted_at)
    && is_some (tenant_of a m.tenant_id)

-- `limit 2`
unfoldable pub find_login_candidates : (String → String) → Accounts → String → List TeamMember
find_login_candidates lower a email = take 2 (select (is_candidate lower a email) a.members)

-- `candidates.len() != 1`
unfoldable pub the_only : List TeamMember → Option TeamMember
the_only [] = none
the_only (m ∷ []) = some m
the_only (m ∷ n ∷ rows) = none

abbrev bad_credentials : AppError
bad_credentials = invalid_credentials "invalid credentials"

-- The same error for an unknown email, an inactive member or tenant, and a wrong password.
unfoldable pub check_password : Checks → Accounts → (email password : String) → Result TeamMember
check_password checks a email password = do
  member ← ok_or (the_only (find_login_candidates checks.lower a email)) bad_credentials
  tenant ← ok_or (tenant_of a member.tenant_id) bad_credentials
  reject_if (not (str_eq member.status "active") || not (str_eq tenant.status "active"))
      bad_credentials
  verified ← checks.verify_password password member.password_hash
  reject_if (not verified) bad_credentials
  ok member

abbrev pub is_unused_code : TeamMember → String → MfaRecoveryCode → Bool
is_unused_code m code_hash c =
    c.tenant_id == m.tenant_id
    && c.team_member_id == m.id
    && str_eq c.code_hash code_hash
    && not (is_some c.used_at)
    && not (is_some c.revoked_at)

-- A recovery code is used up by the check.
unfoldable pub use_recovery_code : ℕ → Accounts → TeamMember → String → Accounts × Bool
use_recovery_code now a m code_hash = (
  record a {
    recovery_codes =
        update (is_unused_code m code_hash) (λ c. record c { used_at = some now }) a.recovery_codes;
  },
  exists (is_unused_code m code_hash) a.recovery_codes,
)

hashed_code : ℕ → Accounts → TeamMember → Result String → Accounts × Result Bool
unfolding use_recovery_code
hashed_code now a m (err e) = (a, err e)
hashed_code now a m (ok code_hash) =
    let (t, used) = use_recovery_code now a m code_hash in (t, ok used)

recovery_code : Checks → ℕ → Accounts → TeamMember → Option String → Accounts × Result Bool
unfolding hashed_code
recovery_code checks now a m none = (a, ok false)
recovery_code checks now a m (some code) = hashed_code now a m (checks.hash_code code)

totp_or_recovery_code :
    Checks → ℕ → Accounts → TeamMember → String → Result Bool → Accounts × Result Bool
unfolding recovery_code
totp_or_recovery_code checks now a m code (err e) = (a, err e)
totp_or_recovery_code checks now a m code (ok true) = (a, ok true)
totp_or_recovery_code checks now a m code (ok false) =
    recovery_code checks now a m (checks.normalize_recovery_code code)

unfoldable pub verify_member_mfa_code :
    Checks → ℕ → Accounts → TeamMember → String → Accounts × Result Bool
unfolding totp_or_recovery_code
verify_member_mfa_code checks now a m code = elim m.mfa_secret_encrypted [
  | none ↦ (a, err (config "mfa secret is not configured"))
  | some secret ↦ totp_or_recovery_code checks now a m code (checks.verify_totp secret code)
]

-- `payload.mfa_code`, trimmed, unless it is blank.
unfoldable pub given_code : Option String → Result String
given_code none = err (mfa_required "mfa required")
given_code (some code) =
    if is_empty (trim code) then err (mfa_required "mfa required") else ok (trim code)

mfa_outcome : Accounts × Result Bool → Accounts × Result (Unit {0})
mfa_outcome (a, err e) = (a, err e)
mfa_outcome (a, ok true) = (a, ok tt)
mfa_outcome (a, ok false) = (a, err (mfa_failed "mfa failed"))

code_then_mfa : Checks → ℕ → Accounts → TeamMember → Result String → Accounts × Result (Unit {0})
unfolding mfa_outcome
code_then_mfa checks now a m (err e) = (a, err e)
code_then_mfa checks now a m (ok code) = mfa_outcome (verify_member_mfa_code checks now a m code)

-- A member without a second factor is not asked for one.
unfoldable pub check_mfa :
    Checks
    → ℕ
    → Accounts
    → TeamMember
    → Result (Unit {0})
    → Option String
    → Accounts × Result (Unit {0})
unfolding code_then_mfa
check_mfa checks now a m limiter mfa_code =
    if m.mfa_enabled
    then code_then_mfa checks now a m (given_code mfa_code >>= λ code. (limiter >>= λ _. ok code))
    else (a, ok tt)

-- The transaction.
unfoldable pub open_admin_session :
    Checks
    → (ttl now : ℕ) → Issued
    → Option String
    → Accounts
    → TeamMember
    → Result (AdminSession × Accounts)
open_admin_session checks ttl now issued user_agent a m = do
  token_hash ← checks.hash_refresh issued.token
  (session, b) ←
      create_admin_session now issued.session_id a m.tenant_id m.id user_agent (now + ttl)
  c ← create_admin_refresh_token now issued.token_id b session.id token_hash (now + ttl)
  ok (session, c)

-- The accounts that a transaction leaves.
abbrev pub settled : Accounts → Result (AdminSession × Accounts) → Accounts × Result AdminSession
settled a (err e) = (a, err e)
settled a (ok (session, b)) = (b, ok session)

abbrev pub after_mfa :
    Checks
    → (ttl now : ℕ) → Issued
    → Option String
    → TeamMember
    → Accounts × Result (Unit {0})
    → Accounts × Result AdminSession
after_mfa checks ttl now issued user_agent m (a, err e) = (a, err e)
after_mfa checks ttl now issued user_agent m (a, ok _) =
    settled a (open_admin_session checks ttl now issued user_agent a m)

unfoldable pub login :
    Checks
    → (limiter mfa_limiter : Result (Unit {0})) (ttl now : ℕ) → Issued
    → Option String
    → Accounts
    → LoginRequest
    → Accounts × Result AdminSession
login checks limiter mfa_limiter ttl now issued user_agent a payload =
    elim (limiter >>= λ _. check_password checks a payload.email payload.password) [
      | err e ↦ (a, err e)
      | ok m ↦
          after_mfa checks ttl now issued user_agent m
            (check_mfa checks now a m mfa_limiter payload.mfa_code)
    ]

-- The two statements are committed one by one.
unfoldable pub logout : ℕ → Accounts → AdminContext → Accounts
unfolding revoke_admin_session revoke_refresh_tokens_for_session
logout now a admin =
    revoke_refresh_tokens_for_session now (revoke_admin_session now a admin.session_id)
      admin.session_id
