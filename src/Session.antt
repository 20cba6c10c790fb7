-- ===== src/Session.antt =====
-- backend/src/modules/client_auth/model.rs: client sessions and their refresh tokens.
use entitle_hub.Base.{ℕ, Option, none, String}

pub record ClientSession : Type 0 where
  pub id : ℕ
  pub tenant_id : ℕ
  pub app_id : ℕ
  pub customer_id : Option ℕ
  pub device_id : ℕ
  pub machine_id : String
  pub auth_mode : String
  pub user_agent : Option String
  pub client_ip : Option String
  pub last_used_at : Option ℕ
  pub expires_at : ℕ
  pub revoked_at : Option ℕ
  pub created_at : ℕ

pub record NewClientSession : Type 0 where
  pub id : ℕ
  pub tenant_id : ℕ
  pub app_id : ℕ
  pub customer_id : Option ℕ
  pub device_id : ℕ
  pub machine_id : String
  pub auth_mode : String
  pub user_agent : Option String
  pub client_ip : Option String
  pub expires_at : ℕ

pub record ClientRefreshToken : Type 0 where
  pub id : ℕ
  pub session_id : ℕ
  pub token_hash : String
  pub created_at : ℕ
  pub expires_at : ℕ
  pub used_at : Option ℕ
  pub revoked_at : Option ℕ

pub record NewClientRefreshToken : Type 0 where
  pub id : ℕ
  pub session_id : ℕ
  pub token_hash : String
  pub expires_at : ℕ

-- `NewClientSession::new`; the identifier is fresh.
abbrev pub new_client_session :
    (id tenant_id app_id : ℕ) → Option ℕ → ℕ → String → String → ℕ → NewClientSession
new_client_session id tenant_id app_id customer_id device_id machine_id auth_mode expires_at =
    record {
      id = id;
      tenant_id = tenant_id;
      app_id = app_id;
      customer_id = customer_id;
      device_id = device_id;
      machine_id = machine_id;
      auth_mode = auth_mode;
      user_agent = none;
      client_ip = none;
      expires_at = expires_at;
    }

-- `NewClientRefreshToken::new`; the identifier is fresh.
abbrev pub new_client_refresh_token : (id session_id : ℕ) → String → ℕ → NewClientRefreshToken
new_client_refresh_token id session_id token_hash expires_at = record {
  id = id;
  session_id = session_id;
  token_hash = token_hash;
  expires_at = expires_at;
}
