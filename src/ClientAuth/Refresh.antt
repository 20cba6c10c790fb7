-- ===== src/ClientAuth/Refresh.antt =====
-- backend/src/modules/client_auth/refresh.rs: the rotation of a refresh token. The handler reads and
-- checks, then marks the token and writes its successor in one transaction; another request may run
-- between the two, so they are two definitions. `hash_token` is a parameter, and so are the outcome
-- of the rate limiter for a session (or for an unknown token), the key that signs access tokens, and
-- the generated token with its identifier.
use entitle_hub.Base.{
  ℕ, ◌+◌, Bool, true, false, ◌||◌, Option, none, some, String, leb, if◌then◌else◌, is_some,
}
use entitle_hub.Base.Json.{Json}
use entitle_hub.Base.Text.{trim, is_empty}
use entitle_hub.Error.{
  AppError, Result, ok, err, ◌>>=◌, ◌>>◌, reject_if, session_expired, token_invalid,
  invalid_request, refresh_reuse_detected,
}
use entitle_hub.Session.{ClientSession, ClientRefreshToken, new_client_refresh_token}
use entitle_hub.Store.{Store}
use entitle_hub.Store.Sessions.{
  find_refresh_token_by_hash, find_session_by_id, revoke_session, mark_refresh_token_used,
  create_client_refresh_token,
}
use entitle_hub.ClientAuth.{
  ClientEntitlement, load_client_entitlement, ensure_session_device, entitlement_id,
  entitlement_kind, entitlement_status, entitlement_active, entitled_features,
}

-- The lifetimes of the configuration, in seconds.
pub record TokenTtls : Type 0 where
  pub access : ℕ
  pub refresh : ℕ
  pub session : ℕ

pub record RefreshResponse (V : Type 0) : Type 0 where
  pub access_token : String
  pub refresh_token : String
  pub expires_in : ℕ
  pub refresh_expires_in : ℕ
  pub session_id : ℕ
  pub device_id : ℕ
  pub entitlement_id : Option ℕ
  pub entitlement_kind : Option String
  pub entitlement_status : String
  pub entitlement_active : Bool
  pub features : V

-- A generated token and the identifier of its row.
pub record Generated : Type 0 where
  pub token : String
  pub id : ℕ

-- A signer, for a session at an instant.
abbrev pub Signer : Type 0
Signer = ClientSession → ℕ → Result String

-- What the handler holds when its transaction begins.
pub record Prepared (V : Type 0) : Type 0 where
  pub stored_token : ClientRefreshToken
  pub session : ClientSession
  pub entitlement : Option (ClientEntitlement V)
  pub next_refresh_token_hash : String
  pub signer : Signer

pub is_reuse : AppError → Bool
is_reuse (refresh_reuse_detected _) = true
is_reuse _ = false

module _ {V : Type 0} (hash : String → Result String) (limiter : Option ℕ → Result (Unit {0}))
    (prepare_signer : Result Signer) (next : Generated) where
  -- From the checks on the session to the start of the transaction.
  check_session : ℕ → Store V → ClientRefreshToken → ClientSession → Result (Prepared V)
  check_session now s token session = do
    reject_if (leb token.expires_at now || leb session.expires_at now || is_some session.revoked_at)
        (session_expired "session expired")
    device ← ensure_session_device s session
    entitlement ← load_client_entitlement s session device now
    next_hash ← hash next.token
    signer ← prepare_signer
    ok (record {
      stored_token = token;
      session = session;
      entitlement = entitlement;
      next_refresh_token_hash = next_hash;
      signer = signer;
    })

  -- A token that is used or revoked revokes its session.
  check_token :
      ℕ → Store V → ClientRefreshToken → Option ClientSession → Store V × Result (Prepared V)
  unfolding check_session
  check_token now s token none = (s, err (session_expired "session expired"))
  check_token now s token (some session) =
      if is_some token.used_at || is_some token.revoked_at
      then (
        revoke_session now s session.id,
        err (refresh_reuse_detected "refresh token reuse detected"),
      )
      else (s, check_session now s token session)

  limited :
      Store V → Result (Unit {0}) → Store V × Result (Prepared V) → Store V × Result (Prepared V)
  limited s (err e) k = (s, err e)
  limited s (ok _) k = k

  check_stored : ℕ → Store V → Option ClientRefreshToken → Store V × Result (Prepared V)
  unfolding check_token limited
  check_stored now s none =
      limited s (limiter none) (s, err (token_invalid "refresh token invalid"))
  check_stored now s (some token) =
      limited s (limiter (some token.session_id))
        (check_token now s token (find_session_by_id s token.session_id))

  check_hash : ℕ → Store V → Result String → Store V × Result (Prepared V)
  unfolding check_stored
  check_hash now s (err e) = (s, err e)
  check_hash now s (ok token_hash) = check_stored now s (find_refresh_token_by_hash s token_hash)

  -- The handler up to the start of its transaction.
  unfoldable pub prepare_refresh : ℕ → Store V → String → Store V × Result (Prepared V)
  unfolding check_hash
  prepare_refresh now s refresh_token =
      if is_empty (trim refresh_token)
      then (s, err (invalid_request "refresh_token is required"))
      else check_hash now s (hash (trim refresh_token))

module _ {V : Type 0} (J : Json V) (ttls : TokenTtls) (next : Generated) where
  -- The rest of the transaction, once the token is marked.
  write_successor : ℕ → Store V → Prepared V → Result (RefreshResponse V × Store V)
  write_successor now s p = do
    (_, t) ← create_client_refresh_token now s (
        new_client_refresh_token next.id p.session.id p.next_refresh_token_hash
          (now + ttls.refresh))
    access_token ← p.signer p.session now
    ok (
      record {
        access_token = access_token;
        refresh_token = next.token;
        expires_in = ttls.access;
        refresh_expires_in = ttls.refresh;
        session_id = p.session.id;
        device_id = p.session.device_id;
        entitlement_id = entitlement_id p.entitlement;
        entitlement_kind = entitlement_kind p.entitlement;
        entitlement_status = entitlement_status p.entitlement;
        entitlement_active = entitlement_active p.entitlement;
        features = entitled_features J p.entitlement;
      },
      t,
    )

  -- A transaction that fails leaves the store as it was.
  committed : Store V → Result (RefreshResponse V × Store V) → Store V × Result (RefreshResponse V)
  committed s (err e) = (s, err e)
  committed s (ok (response, t)) = (t, ok response)

  after_mark :
      ℕ → Store V → Prepared V → Result (Unit {0} × Store V) → Store V × Result (RefreshResponse V)
  unfolding write_successor committed is_reuse
  after_mark now s p (err e) = (if is_reuse e then revoke_session now s p.session.id else s, err e)
  after_mark now s p (ok (_, t)) = committed s (write_successor now t p)

  -- The handler from the start of its transaction.
  unfoldable pub commit_refresh : ℕ → Store V → Prepared V → Store V × Result (RefreshResponse V)
  unfolding after_mark
  commit_refresh now s p = after_mark now s p (mark_refresh_token_used now s p.stored_token.id)

  then_commit : ℕ → Store V × Result (Prepared V) → Store V × Result (RefreshResponse V)
  then_commit now (s, err e) = (s, err e)
  then_commit now (s, ok p) = commit_refresh now s p

module _ {V : Type 0} (J : Json V) (ttls : TokenTtls) (hash : String → Result String)
    (limiter : Option ℕ → Result (Unit {0})) (prepare_signer : Result Signer)
    (next : Generated) where
  -- A refresh that no other request interrupts.
  unfoldable pub refresh : ℕ → Store V → String → Store V × Result (RefreshResponse V)
  unfolding then_commit
  refresh now s refresh_token =
      then_commit J ttls next now
        (prepare_refresh hash limiter prepare_signer next now s refresh_token)
