-- ===== src/ClientAuth/Recovery.antt =====
-- backend/src/modules/client_auth/password.rs and email_verify.rs: the reset of a customer's password
-- and the verification of an email, both by a token that serves once. The checks and hashes of
-- secrets, the outcome of the rate limiter and what is generated are parameters; the email of the
-- outbox and the audit log are left out.
pub mod Laws
use entitle_hub.Base.{
  ℕ, ◌+◌, ◌*◌, Bool, true, ◌&&◌, ◌||◌, not, Option, none, some, List, ◌∷◌, String, str_eq, ◌==◌,
  if◌then◌else◌, is_some, is_id,
}
use entitle_hub.Base.Rows.{find, exists, update, update_returning}
use entitle_hub.Error.{
  Result, ok, err, ◌>>=◌, ◌>>◌, reject_if, ok_or, not_found, invalid_request, conflict,
  token_invalid, password_reset_token_invalid, dependency, AppError,
}
use entitle_hub.Customer.{Customer}
use entitle_hub.Session.{ClientSession}
use entitle_hub.Store.{Store}
use entitle_hub.Store.Sessions.{is_live_session, is_unused, revoke, revoke_token}
use entitle_hub.Account.{OneTimeToken, is_active_token, consume_token}
use entitle_hub.Account.Password.{Secrets, normalize_token, validate_new_password}
use entitle_hub.ClientAuth.{ClientContext}

-- The tables of a customer's account.
pub record CustomerAccounts (V : Type 0) : Type 0 where
  pub store : Store V
  pub customers : List Customer
  pub one_time_tokens : List OneTimeToken

pub record CustomerPasswordResetConfirmRequest : Type 0 where
  pub token : String
  pub new_password : String

abbrev pub is_customer : (tenant_id id : ℕ) → Customer → Bool
is_customer tenant_id id c = c.tenant_id == tenant_id && c.id == id && not (is_some c.deleted_at)

abbrev pub is_customer_token : (purpose : String) → ℕ → String → OneTimeToken → Bool
is_customer_token purpose now token_hash t =
    str_eq t.purpose purpose
    && str_eq t.subject_type "customer"
    && str_eq t.token_hash token_hash
    && is_active_token now t

-- A reset asks for a token that names its subject too.
abbrev pub is_password_token : ℕ → String → OneTimeToken → Bool
is_password_token now token_hash t =
    is_customer_token "customer_password_reset" now token_hash t
    && is_some t.tenant_id
    && is_some t.subject_id
    && is_some t.email

abbrev pub is_session_of_customer : (tenant_id customer_id : ℕ) → ClientSession → Bool
is_session_of_customer tenant_id customer_id s =
    s.tenant_id == tenant_id && is_id s.customer_id customer_id

abbrev pub no_reset : AppError
no_reset = password_reset_token_invalid "password reset token invalid"

abbrev pub no_verification : AppError
no_verification = token_invalid "email verify token invalid"

abbrev customer_error : AppError
customer_error = dependency "customer password reset database error"

unfoldable pub find_customer : List Customer → (tenant_id id : ℕ) → Result Customer
find_customer customers tenant_id id =
    ok_or (find (is_customer tenant_id id) customers) (not_found "customer not found")

-- An update of the customer that returns the row.
unfoldable pub update_customer :
    List Customer → (tenant_id id : ℕ) → (Customer → Customer) → Result (Customer × List Customer)
unfolding update_returning
update_customer customers tenant_id id change = do
  customer ← ok_or (update_returning (is_customer tenant_id id) change customers) customer_error
  ok (customer, update (is_customer tenant_id id) change customers)

abbrev pub with_password : String → Customer → Customer
with_password hash c = record c { password_hash = some hash }

abbrev pub with_verified_email : Customer → Customer
with_verified_email c = record c { email_verified = true }

module _ {V : Type 0} where
  unfoldable pub find_active_password_reset_token :
      ℕ → CustomerAccounts V → String → Result OneTimeToken
  find_active_password_reset_token now a token_hash =
      ok_or (find (is_password_token now token_hash) a.one_time_tokens) no_reset

  unfoldable pub revoke_customer_sessions : ℕ → Store V → (tenant_id customer_id : ℕ) → Store V
  revoke_customer_sessions now s tenant_id customer_id = record s {
    sessions =
        update (λ c. is_session_of_customer tenant_id customer_id c && is_live_session c)
          (revoke now) s.sessions;
  }

  unfoldable pub revoke_customer_refresh_tokens :
      ℕ → Store V → (tenant_id customer_id : ℕ) → Store V
  revoke_customer_refresh_tokens now s tenant_id customer_id = record s {
    refresh_tokens =
        update
          (λ t.
            exists (λ c. c.id == t.session_id && is_session_of_customer tenant_id customer_id c)
              s.sessions
            && is_unused t)
          (revoke_token now) s.refresh_tokens;
  }

  unfoldable pub confirm_customer_password_reset :
      Secrets
      → ℕ
      → CustomerAccounts V
      → CustomerPasswordResetConfirmRequest
      → Result (CustomerAccounts V)
  confirm_customer_password_reset x now a payload = do
    token ← normalize_token payload.token
    validate_new_password x payload.new_password
    token_hash ← x.hash_token token
    password_hash ← x.hash_password payload.new_password
    one_time_token ← find_active_password_reset_token now a token_hash
    customer_id ← ok_or one_time_token.subject_id no_reset
    tenant_id ← ok_or one_time_token.tenant_id no_reset
    before ← find_customer a.customers tenant_id customer_id
    (customer, customers) ←
        update_customer a.customers tenant_id customer_id (with_password password_hash)
    tokens ← consume_token now a.one_time_tokens one_time_token.id no_reset
    ok (record {
      store =
          revoke_customer_refresh_tokens now
            (revoke_customer_sessions now a.store tenant_id customer_id) tenant_id customer_id;
      customers = customers;
      one_time_tokens = tokens;
    })

  -- The token lives a day.
  unfoldable pub request_email_verify :
      Secrets
      → Result (Unit {0})
      → (now id : ℕ) → (token : String) → CustomerAccounts V
      → ClientContext V
      → Result (ℕ × CustomerAccounts V)
  request_email_verify x limiter now id token a client = do
    customer_id ← ok_or client.customer_id (invalid_request "session has no customer")
    limiter
    customer ← find_customer a.customers client.tenant_id customer_id
    reject_if customer.email_verified (conflict "customer email already verified")
    token_hash ← x.hash_token token
    reject_if (exists (λ t. t.id == id || str_eq t.token_hash token_hash) a.one_time_tokens)
        customer_error
    let row : OneTimeToken = record {
      id = id;
      tenant_id = some client.tenant_id;
      purpose = "email_verify";
      subject_type = "customer";
      subject_id = some customer.id;
      email = some (x.lower customer.email);
      token_hash = token_hash;
      created_by = none;
      expires_at = now + 24 * 3600;
      consumed_at = none;
      revoked_at = none;
      created_at = now;
    }
    ok (now + 24 * 3600, record a { one_time_tokens = row ∷ a.one_time_tokens })

  unfoldable pub confirm_email_verify :
      Secrets → ℕ → CustomerAccounts V → String → Result (Customer × CustomerAccounts V)
  confirm_email_verify x now a given = do
    token ← normalize_token given
    token_hash ← x.hash_token token
    one_time_token ←
        ok_or (find (is_customer_token "email_verify" now token_hash) a.one_time_tokens)
          no_verification
    customer_id ← ok_or one_time_token.subject_id no_verification
    tenant_id ← ok_or one_time_token.tenant_id no_verification
    before ← find_customer a.customers tenant_id customer_id
    (customer, customers) ← update_customer a.customers tenant_id customer_id with_verified_email
    tokens ← consume_token now a.one_time_tokens one_time_token.id no_verification
    ok (customer, record a { customers = customers; one_time_tokens = tokens })
