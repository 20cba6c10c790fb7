-- ===== src/Store/Sessions.antt =====
-- backend/src/modules/client_auth/repository.rs, and the statements of the device and license
-- modules that revoke sessions and refresh tokens.
use entitle_hub.Base.{
  ℕ, Bool, ◌&&◌, ◌||◌, not, Option, none, some, List, ◌∷◌, String, str_eq, ◌==◌, if◌then◌else◌,
  is_some, is_id,
}
use entitle_hub.Base.Rows.{find, exists, update}
use entitle_hub.Error.{Result, ok, err, dependency, refresh_reuse_detected}
use entitle_hub.Device.{Device}
use entitle_hub.Session.{ClientSession, NewClientSession, ClientRefreshToken, NewClientRefreshToken}
use entitle_hub.Store.{Store}

abbrev pub is_live_session : ClientSession → Bool
is_live_session c = not (is_some c.revoked_at)

abbrev pub is_unused : ClientRefreshToken → Bool
is_unused t = not (is_some t.used_at) && not (is_some t.revoked_at)

abbrev pub revoke : ℕ → ClientSession → ClientSession
revoke now c = record c { revoked_at = some now }

abbrev pub revoke_token : ℕ → ClientRefreshToken → ClientRefreshToken
revoke_token now t = record t { revoked_at = some now }

abbrev pub session_row : ℕ → NewClientSession → ClientSession
session_row now c = record {
  id = c.id;
  tenant_id = c.tenant_id;
  app_id = c.app_id;
  customer_id = c.customer_id;
  device_id = c.device_id;
  machine_id = c.machine_id;
  auth_mode = c.auth_mode;
  user_agent = c.user_agent;
  client_ip = c.client_ip;
  last_used_at = none;
  expires_at = c.expires_at;
  revoked_at = none;
  created_at = now;
}

abbrev pub token_row : ℕ → NewClientRefreshToken → ClientRefreshToken
token_row now t = record {
  id = t.id;
  session_id = t.session_id;
  token_hash = t.token_hash;
  created_at = now;
  expires_at = t.expires_at;
  used_at = none;
  revoked_at = none;
}

abbrev pub is_session_of_device : ℕ → ℕ → ClientSession → Bool
is_session_of_device tenant_id device_id c = c.tenant_id == tenant_id && c.device_id == device_id

module _ {V : Type 0} where
  unfoldable pub find_refresh_token_by_hash : Store V → String → Option ClientRefreshToken
  find_refresh_token_by_hash s token_hash =
      find (λ t. str_eq t.token_hash token_hash) s.refresh_tokens

  unfoldable pub find_session_by_id : Store V → ℕ → Option ClientSession
  find_session_by_id s id = find (λ c. c.id == id) s.sessions

  unfoldable pub revoke_session : ℕ → Store V → ℕ → Store V
  revoke_session now s id = record s {
    sessions = update (λ c. c.id == id && is_live_session c) (revoke now) s.sessions;
  }

  unfoldable pub touch_session : ℕ → Store V → ℕ → Store V
  touch_session now s id = record s {
    sessions = update (λ c. c.id == id) (λ c. record c { last_used_at = some now }) s.sessions;
  }

  unfoldable pub create_client_session :
      ℕ → Store V → NewClientSession → Result (ClientSession × Store V)
  create_client_session now s c =
      if exists (λ d. d.id == c.id) s.sessions
      then err (dependency "client auth repository database error")
      else ok (session_row now c, record s { sessions = session_row now c ∷ s.sessions })

  -- The key of the table and the unique index over hashes.
  unfoldable pub create_client_refresh_token :
      ℕ → Store V → NewClientRefreshToken → Result (ClientRefreshToken × Store V)
  create_client_refresh_token now s t =
      if exists (λ u. u.id == t.id) s.refresh_tokens
        || exists (λ u. str_eq u.token_hash t.token_hash) s.refresh_tokens
      then err (dependency "client auth repository database error")
      else ok (token_row now t, record s { refresh_tokens = token_row now t ∷ s.refresh_tokens })

  -- The update returns no row when the token is used or revoked.
  unfoldable pub mark_refresh_token_used : ℕ → Store V → ℕ → Result (Unit {0} × Store V)
  mark_refresh_token_used now s id =
      if exists (λ t. t.id == id && is_unused t) s.refresh_tokens
      then ok (
        tt,
        record s {
          refresh_tokens =
              update (λ t. t.id == id && is_unused t) (λ t. record t { used_at = some now })
                s.refresh_tokens;
        },
      )
      else err (refresh_reuse_detected "refresh token reuse detected")

  unfoldable pub revoke_device_sessions : ℕ → Store V → (tenant_id device_id : ℕ) → Store V
  revoke_device_sessions now s tenant_id device_id = record s {
    sessions =
        update (λ c. is_session_of_device tenant_id device_id c && is_live_session c) (revoke now)
          s.sessions;
  }

  unfoldable pub revoke_device_refresh_tokens : ℕ → Store V → (tenant_id device_id : ℕ) → Store V
  revoke_device_refresh_tokens now s tenant_id device_id = record s {
    refresh_tokens =
        update
          (λ t.
            exists (λ c. c.id == t.session_id && is_session_of_device tenant_id device_id c)
              s.sessions
            && not (is_some t.revoked_at))
          (revoke_token now) s.refresh_tokens;
  }

  -- `device_id in (select id from devices where ... license_id = $2 and deleted_at is null)`
  unfoldable pub is_session_of_license : List (Device V) → ℕ → ℕ → ClientSession → Bool
  is_session_of_license devices tenant_id license_id c =
      c.tenant_id == tenant_id
      && exists
          (λ d.
            d.id == c.device_id
            && d.tenant_id == tenant_id
            && is_id d.license_id license_id
            && not (is_some d.deleted_at))
          devices

  unfoldable pub revoke_license_sessions : ℕ → Store V → (tenant_id license_id : ℕ) → Store V
  revoke_license_sessions now s tenant_id license_id = record s {
    sessions =
        update (λ c. is_session_of_license s.devices tenant_id license_id c && is_live_session c)
          (revoke now) s.sessions;
  }

  unfoldable pub revoke_license_refresh_tokens : ℕ → Store V → (tenant_id license_id : ℕ) → Store V
  revoke_license_refresh_tokens now s tenant_id license_id = record s {
    refresh_tokens =
        update
          (λ t.
            exists
              (λ c. c.id == t.session_id && is_session_of_license s.devices tenant_id license_id c)
              s.sessions
            && not (is_some t.revoked_at))
          (revoke_token now) s.refresh_tokens;
  }
