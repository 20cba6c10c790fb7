-- ===== src/Tests/Accounts.antt =====
-- Tests of the accounts of administrators and customers.
use entitle_hub.Base.{
  ℕ, ◌≡◌, Bool, true, false, refl, Option, none, some, String, List, [], ◌∷◌, str_eq, ◌==◌, ◌&&◌,
  arith,
}
use entitle_hub.Base.Rows.{find, exists, update, count, select, take}
use entitle_hub.Base.Text.{trim, trim_start, trim_end, is_whitespace, is_empty, byte_len, all_codes}
use entitle_hub.Error.{Result, ok, err, session_expired, refresh_reuse_detected}
use entitle_hub.Admin.{AdminContext}
use entitle_hub.Customer.{Customer}
use entitle_hub.Session.{ClientSession}
use entitle_hub.Store.{Tenant}
use entitle_hub.Store.Sessions.{find_session_by_id}
use entitle_hub.Account.{
  Accounts, TeamMember, AdminSession, AdminRefreshToken, OneTimeToken, find_member,
  create_admin_session, create_admin_refresh_token, consume_token, mark_admin_refresh_token_used,
  extend_admin_session, update_session_user_agent, revoke_admin_sessions,
  revoke_admin_refresh_tokens,
}
use entitle_hub.Account.Gate.{require_admin_session, load_session, joined, tenant_of}
use entitle_hub.Account.SignIn.{
  Checks, Issued, LoginRequest, login, check_password, check_mfa, open_admin_session,
  find_login_candidates, the_only, is_candidate, verify_member_mfa_code, given_code,
}
use entitle_hub.Account.SignIn.SignedIn.{login-opens_gate}
use entitle_hub.Account.Refresh.{Renewal, Next, commit_renewal}
use entitle_hub.Account.Refresh.Reuse.{commit_renewal-once}
use entitle_hub.Account.Password.{
  Secrets, PasswordResetConfirmRequest, ChangePasswordRequest, confirm_password_reset,
  change_password, normalize_token, validate_new_password, find_active_reset_subject,
  update_member_password, invalid_token,
}
use entitle_hub.Account.Password.Revoked.{change_password-ends_others}
use entitle_hub.Account.Password.Reset.{NamesMember, confirm_password_reset-once}
use entitle_hub.ClientAuth.{ClientAccessClaims, require_client_session}
use entitle_hub.ClientAuth.Recovery.{
  CustomerAccounts, CustomerPasswordResetConfirmRequest, confirm_customer_password_reset,
  find_customer, update_customer, find_active_password_reset_token, is_session_of_customer,
  no_reset,
}
use entitle_hub.ClientAuth.Recovery.Laws.{NamesCustomer, confirm_customer_password_reset-once}
use entitle_hub.Tests.{value, plain_hash, tenant, store, J}
use entitle_hub.Tests.Ledger.{customer}

abbrev member : TeamMember
member = record {
  id = 9;
  tenant_id = 1;
  email = "x@y.z";
  password_hash = "Secret#123";
  status = "active";
  mfa_enabled = true;
  mfa_secret_encrypted = some "seed";
  deleted_at = none;
}

abbrev current : AdminSession
current = record {
  id = 70;
  tenant_id = 1;
  team_member_id = 9;
  user_agent = none;
  created_at = 10;
  last_seen_at = none;
  expires_at = 900;
  revoked_at = none;
}

abbrev renewal_token : AdminRefreshToken
renewal_token = record {
  id = 80;
  session_id = 70;
  token_hash = "old";
  created_at = 10;
  expires_at = 900;
  used_at = none;
  revoked_at = none;
}

abbrev reset_token : OneTimeToken
reset_token = record {
  id = 90;
  tenant_id = some 1;
  purpose = "admin_password_reset";
  subject_type = "team_member";
  subject_id = some 9;
  email = some "x@y.z";
  token_hash = "reset";
  created_by = none;
  expires_at = 500;
  consumed_at = none;
  revoked_at = none;
  created_at = 20;
}

abbrev accounts : Accounts
accounts = record {
  tenants = tenant ∷ [];
  members = member ∷ [];
  sessions = current ∷ record current { id = 71 } ∷ [];
  refresh_tokens = renewal_token ∷ [];
  recovery_codes = [];
  one_time_tokens = reset_token ∷ [];
}

abbrev same : String → String
same s = s

abbrev verify : String → String → Result Bool
verify password hash = ok (str_eq password hash)

abbrev checks : Checks
checks = record {
  lower = same;
  verify_password = verify;
  verify_totp = verify;
  normalize_recovery_code = λ code. none;
  hash_code = plain_hash;
  hash_refresh = plain_hash;
}

abbrev secrets : Secrets
secrets = record {
  to_lowercase = same;
  to_ascii_lowercase = same;
  lower = same;
  verify_password = verify;
  hash_password = plain_hash;
  hash_token = plain_hash;
}

abbrev permissions_of : ℕ → ℕ → List String
permissions_of tenant_id member_id = []

abbrev issued : Issued
issued = record { session_id = 72; token_id = 81; token = "new" }

abbrev request : LoginRequest
request = record { email = "x@y.z"; password = "Secret#123"; mfa_code = some "seed" }

abbrev opened : AdminSession
opened = record current { id = 72; created_at = 100; expires_at = 400 }

abbrev signed_in : Accounts
signed_in = record accounts {
  sessions = opened ∷ accounts.sessions;
  refresh_tokens =
      record {
        id = 81;
        session_id = 72;
        token_hash = "new";
        created_at = 100;
        expires_at = 400;
        used_at = none;
        revoked_at = none;
      }
      ∷ accounts.refresh_tokens;
}

signed_in_ok :
    login checks (ok tt) (ok tt) 300 100 issued none accounts request ≡ (signed_in, ok opened)
unfolding login check_password find_login_candidates select take the_only check_mfa given_code
    verify_member_mfa_code open_admin_session create_admin_session create_admin_refresh_token find
    exists trim trim_start trim_end is_whitespace is_empty
signed_in_ok = refl

login-opens_gate_example :
    (m : TeamMember) × (k : Tenant) × (find (is_candidate same accounts "x@y.z") accounts.members
      ≡ some m)
    × (count (is_candidate same accounts "x@y.z") accounts.members ≡ 1)
    × (m.status ≡ "active")
    × (tenant_of accounts m.tenant_id ≡ some k)
    × (k.status ≡ "active")
    × (verify "Secret#123" m.password_hash ≡ ok true)
    × (m.mfa_enabled ≡ true
        → (code : String) × (given_code (some "seed") ≡ ok code)
          × ((verify_member_mfa_code checks 100 accounts m code).1 ≡ ok true))
    × ((client : AdminContext) × (require_admin_session permissions_of 200 signed_in (some 72)
          ≡ ok client)
        × (client.tenant_id ≡ m.tenant_id)
        × (client.team_member_id ≡ m.id))
unfolding count
login-opens_gate_example =
    login-opens_gate checks permissions_of (ok tt) (ok tt) 300 100 200 issued none accounts
      signed_in request opened signed_in_ok (λ tenant_id id. ground arith) (omega arith)

abbrev change : ChangePasswordRequest
change = record { old_password = "Secret#123"; new_password = "Other#12345" }

abbrev changer : AdminContext
changer = record { session_id = 70; tenant_id = 1; team_member_id = 9; permissions = [] }

abbrev changed : Accounts
changed = value (change_password secrets 100 accounts changer change) accounts

changed_ok : change_password secrets 100 accounts changer change ≡ ok changed
unfolding change_password validate_new_password byte_len all_codes exists find_member find
    update_member_password
changed_ok = refl

changed_passes : require_admin_session permissions_of 150 changed (some 70) ≡ ok changer
unfolding change_password validate_new_password byte_len all_codes exists find_member find
    update_member_password update revoke_admin_sessions revoke_admin_refresh_tokens
    require_admin_session load_session joined
changed_passes = refl

change_password-ends_others_example : changer.session_id ≡ changer.session_id
change_password-ends_others_example =
    change_password-ends_others secrets permissions_of 100 150 accounts changed changer changer
      change (some 70) changed_ok changed_passes refl refl

abbrev confirm : PasswordResetConfirmRequest
confirm = record { token = " reset"; new_password = "Other#12345" }

abbrev recovered : Accounts
recovered = value (confirm_password_reset secrets 100 accounts confirm) accounts

recovered_ok : confirm_password_reset secrets 100 accounts confirm ≡ ok recovered
unfolding confirm_password_reset normalize_token trim trim_start trim_end is_whitespace is_empty
    validate_new_password byte_len all_codes exists find_active_reset_subject find find_member
    update_member_password consume_token
recovered_ok = refl

confirm_password_reset-once_example :
    (tenant_id : ℕ) × (member_id : ℕ) × (m : TeamMember) × NamesMember secrets 100 accounts
      confirm.token tenant_id member_id
    × (find_member recovered tenant_id member_id ≡ some m)
    × (plain_hash "Other#12345" ≡ ok m.password_hash)
    × ((later : ℕ) (cookie : Option ℕ) (client : AdminContext)
        → require_admin_session permissions_of later recovered cookie ≡ ok client
        → (client.tenant_id == tenant_id && client.team_member_id == member_id) ≡ false)
    × ((later : ℕ) → confirm_password_reset secrets later recovered confirm ≡ err invalid_token)
unfolding count
confirm_password_reset-once_example =
    confirm_password_reset-once secrets permissions_of 100 accounts recovered confirm recovered_ok
      (λ token_hash. ground arith)

abbrev renewal : Renewal
renewal = record { stored_token = renewal_token; session = current; token_hash = "next" }

abbrev next : Next
next = record { id = 82; token = "next" }

abbrev renewed_accounts : Accounts
renewed_accounts = (commit_renewal 300 100 accounts next none renewal).0

commit_renewal-once_example :
    ((commit_renewal 300 110 renewed_accounts next none renewal).1
      ≡ err (refresh_reuse_detected "refresh token reuse detected"))
    × (require_admin_session permissions_of 120
          (commit_renewal 300 110 renewed_accounts next none renewal).0
          (some 70)
        ≡ err (session_expired "session expired"))
unfolding commit_renewal mark_admin_refresh_token_used exists update create_admin_refresh_token
    extend_admin_session update_session_user_agent find
commit_renewal-once_example =
    commit_renewal-once permissions_of 300 100 110 120 accounts renewed_accounts next next none none
      renewal renewal (record current { expires_at = 400; last_seen_at = some 100 }) refl refl

abbrev customer_accounts : CustomerAccounts (Unit {0})
customer_accounts = record {
  store = store;
  customers = customer ∷ [];
  one_time_tokens =
      record reset_token {
        purpose = "customer_password_reset";
        subject_type = "customer";
        subject_id = some 7;
      }
      ∷ [];
}

abbrev customer_confirm : CustomerPasswordResetConfirmRequest
customer_confirm = record { token = "reset"; new_password = "Other#12345" }

abbrev renewed_customer : CustomerAccounts (Unit {0})
renewed_customer =
    value (confirm_customer_password_reset secrets 100 customer_accounts customer_confirm)
      customer_accounts

renewed_customer_ok :
    confirm_customer_password_reset secrets 100 customer_accounts customer_confirm
    ≡ ok renewed_customer
unfolding confirm_customer_password_reset normalize_token trim trim_start trim_end is_whitespace
    is_empty validate_new_password byte_len all_codes exists find_active_password_reset_token find
    find_customer update_customer consume_token
renewed_customer_ok = refl

confirm_customer_password_reset-once_example :
    (tenant_id : ℕ) × (customer_id : ℕ) × (c : Customer) × (hash : String) × NamesCustomer secrets
      100 customer_accounts customer_confirm.token tenant_id customer_id
    × (plain_hash "Other#12345" ≡ ok hash)
    × (find_customer renewed_customer.customers tenant_id customer_id ≡ ok c)
    × (c.password_hash ≡ some hash)
    × ((later : ℕ) (claims : ClientAccessClaims) (session : ClientSession)
        → find_session_by_id renewed_customer.store claims.session_id ≡ some session
        → is_session_of_customer tenant_id customer_id session ≡ true
        → require_client_session J later renewed_customer.store claims
          ≡ err (session_expired "session expired"))
    × ((later : ℕ)
        → confirm_customer_password_reset secrets later renewed_customer customer_confirm
          ≡ err no_reset)
unfolding count
confirm_customer_password_reset-once_example =
    confirm_customer_password_reset-once J secrets 100 customer_accounts renewed_customer
      customer_confirm renewed_customer_ok (λ token_hash. ground arith)
