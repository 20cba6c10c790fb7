-- ===== src/Account/Password.antt =====
-- backend/src/modules/auth/password.rs: changing a password, asking for its reset, and the reset. The
-- checks and hashes of passwords and tokens, the lower-casing, the outcome of the rate limiter and
-- fresh identifiers are parameters; the email of the outbox and the audit log are left out.
pub mod Revoked
pub mod Reset
use entitle_hub.Base.{
  ℕ, ◌+◌, ◌*◌, Bool, true, false, ◌&&◌, ◌||◌, not, Option, none, some, List, [], ◌∷◌, String,
  str_eq, ◌==◌, ltb, leb, if◌then◌else◌, is_some,
}
use entitle_hub.Base.Rows.{find, exists, update, select}
use entitle_hub.Base.Text.{trim, is_empty, byte_len, has_code, all_codes, is_ascii_alphanumeric}
use entitle_hub.Error.{
  Result, ok, err, ◌>>=◌, ◌>>◌, reject_if, ok_or, validation_failed, weak_password, invalid_request,
  invalid_credentials, user_not_found, password_reset_token_invalid, AppError,
}
use entitle_hub.Admin.{AdminContext}
use entitle_hub.Account.{
  Accounts, TeamMember, OneTimeToken, is_member, find_member, revoke_admin_sessions,
  revoke_admin_refresh_tokens, is_active_token, consume_token, account_error,
}
use entitle_hub.Account.Gate.{tenant_of}
use entitle_hub.Account.SignIn.{find_login_candidates, the_only, is_candidate}

pub record PasswordResetConfirmRequest : Type 0 where
  pub token : String
  pub new_password : String

pub record ChangePasswordRequest : Type 0 where
  pub old_password : String
  pub new_password : String

-- What the module uses of other libraries.
pub record Secrets : Type 0 where
  pub to_lowercase : String → String
  pub to_ascii_lowercase : String → String
  -- `lower` of the database
  pub lower : String → String
  pub verify_password : String → String → Result Bool
  pub hash_password : String → Result String
  pub hash_token : String → Result String

unfoldable pub normalize_email : Secrets → String → Option String
normalize_email x email =
    let normalized = x.to_lowercase (trim email) in
    if has_code 64 normalized && leb (byte_len normalized) 254 then some normalized else none

unfoldable pub normalize_token : String → Result String
normalize_token token = do
  reject_if (is_empty (trim token)) (invalid_request "token is required")
  ok (trim token)

abbrev is_letter : ℕ → Bool
is_letter c = (leb 97 c && leb c 122) || (leb 65 c && leb c 90)

abbrev is_digit : ℕ → Bool
is_digit c = leb 48 c && leb c 57

-- `chars().any`
abbrev pub any_code : (ℕ → Bool) → String → Bool
any_code p s = not (all_codes (λ c. not (p c)) s)

abbrev pub weak_passwords : List String
weak_passwords =
    "password" ∷ "password123" ∷ "password@123" ∷ "1234567890" ∷ "qwerty12345" ∷ "admin12345" ∷ []

unfoldable pub validate_new_password : Secrets → String → Result (Unit {0})
validate_new_password x password = do
  reject_if (ltb (byte_len password) 10)
      (validation_failed "password must be at least 10 characters")
  reject_if
      (not (
        any_code is_letter password
        && any_code is_digit password
        && any_code (λ c. not (is_ascii_alphanumeric c)) password))
      (validation_failed "password must include letters, digits, and special characters")
  reject_if (exists (λ w. str_eq w (x.to_ascii_lowercase password)) weak_passwords)
      (weak_password "weak password")

unfoldable pub update_member_password :
    Accounts → (tenant_id team_member_id : ℕ) → String → Result Accounts
update_member_password a tenant_id team_member_id password_hash =
    if exists (is_member tenant_id team_member_id) a.members
    then ok (record a {
      members =
          update (is_member tenant_id team_member_id)
            (λ m. record m { password_hash = password_hash }) a.members;
    })
    else err (user_not_found "user not found")

-- The accounts after a password is changed: the sessions but one are revoked, and their tokens.
abbrev pub revoke_all : ℕ → Accounts → (tenant_id team_member_id : ℕ) → Option ℕ → Accounts
revoke_all now a tenant_id team_member_id except =
    revoke_admin_refresh_tokens now (revoke_admin_sessions now a tenant_id team_member_id except)
      tenant_id team_member_id except

unfoldable pub change_password :
    Secrets → ℕ → Accounts → AdminContext → ChangePasswordRequest → Result Accounts
change_password x now a admin payload = do
  validate_new_password x payload.new_password
  member ←
      ok_or (find_member a admin.tenant_id admin.team_member_id) (user_not_found "user not found")
  old_password_ok ← x.verify_password payload.old_password member.password_hash
  reject_if (not old_password_ok) (invalid_credentials "invalid credentials")
  same_password ← x.verify_password payload.new_password member.password_hash
  reject_if same_password (validation_failed "new_password must be different from old_password")
  password_hash ← x.hash_password payload.new_password
  b ← update_member_password a admin.tenant_id admin.team_member_id password_hash
  ok (revoke_all now b admin.tenant_id admin.team_member_id (some admin.session_id))

unfoldable pub create_reset_token :
    Secrets → (now id : ℕ) → Accounts → TeamMember → (token_hash : String) → ℕ → Result Accounts
create_reset_token x now id a m token_hash expires_at =
    if exists (λ t. t.id == id || str_eq t.token_hash token_hash) a.one_time_tokens
    then err account_error
    else (let token : OneTimeToken = record {
      id = id;
      tenant_id = some m.tenant_id;
      purpose = "admin_password_reset";
      subject_type = "team_member";
      subject_id = some m.id;
      email = some (x.lower m.email);
      token_hash = token_hash;
      created_by = none;
      expires_at = expires_at;
      consumed_at = none;
      revoked_at = none;
      created_at = now;
    } in
        ok (record a { one_time_tokens = token ∷ a.one_time_tokens }))

-- The token lives two hours.
unfoldable pub create_password_reset_for_candidate :
    Secrets → (now id : ℕ) → String → Accounts → TeamMember → Result Accounts
create_password_reset_for_candidate x now id token a m = do
  token_hash ← x.hash_token token
  create_reset_token x now id a m token_hash (now + 2 * 3600)

-- A token is made for an email that is the only one of an active member of an active tenant.
unfoldable pub reset_for : Secrets → (now id : ℕ) → String → Accounts → String → Result Accounts
reset_for x now id token a email = elim (the_only (find_login_candidates x.lower a email)) [
  | none ↦ ok a
  | some m ↦ elim (tenant_of a m.tenant_id) [
    | none ↦ ok a
    | some t ↦
        if str_eq m.status "active" && str_eq t.status "active"
        then create_password_reset_for_candidate x now id token a m
        else ok a
  ]
]

-- The limiter is asked under the email, or under "invalid-email".
unfoldable pub request_password_reset :
    Secrets
    → (String → Result (Unit {0}))
    → (now id : ℕ) → String
    → Accounts
    → String
    → Result Accounts
request_password_reset x limiter now id token a email = elim (normalize_email x email) [
  | none ↦ limiter "invalid-email" >> ok a
  | some normalized ↦ limiter normalized >> reset_for x now id token a normalized
]

abbrev pub is_reset_token : ℕ → String → OneTimeToken → Bool
is_reset_token now token_hash t =
    str_eq t.purpose "admin_password_reset"
    && str_eq t.subject_type "team_member"
    && str_eq t.token_hash token_hash
    && is_some t.tenant_id
    && is_some t.subject_id
    && is_some t.email
    && is_active_token now t

abbrev pub invalid_token : AppError
invalid_token = password_reset_token_invalid "password reset token invalid"

unfoldable pub find_active_reset_subject : ℕ → Accounts → String → Result OneTimeToken
find_active_reset_subject now a token_hash =
    ok_or (find (is_reset_token now token_hash) a.one_time_tokens) invalid_token

unfoldable pub confirm_password_reset :
    Secrets → ℕ → Accounts → PasswordResetConfirmRequest → Result Accounts
confirm_password_reset x now a payload = do
  token ← normalize_token payload.token
  validate_new_password x payload.new_password
  token_hash ← x.hash_token token
  password_hash ← x.hash_password payload.new_password
  subject ← find_active_reset_subject now a token_hash
  tenant_id ← ok_or subject.tenant_id invalid_token
  team_member_id ← ok_or subject.subject_id invalid_token
  before ← ok_or (find_member a tenant_id team_member_id) (user_not_found "user not found")
  b ← update_member_password a tenant_id team_member_id password_hash
  tokens ← consume_token now b.one_time_tokens subject.id invalid_token
  ok (revoke_all now (record b { one_time_tokens = tokens }) tenant_id team_member_id none)
