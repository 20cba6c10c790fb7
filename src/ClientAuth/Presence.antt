-- ===== src/ClientAuth/Presence.antt =====
-- backend/src/modules/client_auth/logout.rs, heartbeat.rs and verify.rs: what a client with a session
-- asks for. The outcome of the rate limiter is a parameter.
pub mod Ended
use entitle_hub.Base.{ℕ, Bool, true, false, ◌&&◌, Option, none, some, String, ◌==◌, if◌then◌else◌}
use entitle_hub.Base.Rows.{exists}
use entitle_hub.Error.{Result, ok, err, ◌>>=◌, ◌>>◌}
use entitle_hub.Device.{clean_optional}
use entitle_hub.Store.{Store}
use entitle_hub.Store.Devices.{touch_device}
use entitle_hub.Store.Sessions.{revoke_session, touch_session, is_live_session}
use entitle_hub.ClientAuth.{ClientContext, is_subscription}

pub record HeartbeatResponse : Type 0 where
  pub status : String
  pub server_time : ℕ
  pub license_status : String
  pub entitlement_id : Option ℕ
  pub entitlement_kind : Option String
  pub entitlement_status : String
  pub entitlement_active : Bool
  pub subscription_id : Option ℕ

pub record VerifyResponse (V : Type 0) : Type 0 where
  pub valid : Bool
  pub features : V
  pub expires_at : Option ℕ
  pub entitlement_id : Option ℕ
  pub entitlement_kind : Option String
  pub entitlement_status : String
  pub entitlement_active : Bool
  pub subscription_id : Option ℕ

module _ {V : Type 0} where
  -- The identifier of the entitlement where it is a subscription.
  abbrev subscription_of : ClientContext V → Option ℕ
  subscription_of client =
      if is_subscription client.entitlement_kind then client.entitlement_id else none

  -- Whether a session was revoked.
  unfoldable pub logout :
      ℕ → Result (Unit {0}) → Store V → ClientContext V → Result (Bool × Store V)
  logout now limiter s client = do
    limiter
    ok (
      exists (λ c. c.id == client.session_id && is_live_session c) s.sessions,
      revoke_session now s client.session_id,
    )

  unfoldable pub heartbeat :
      ℕ
      → Result (Unit {0})
      → Store V
      → ClientContext V
      → Option String
      → Result (HeartbeatResponse × Store V)
  heartbeat now limiter s client app_version = do
    limiter
    ok (
      record {
        status = "ok";
        server_time = now;
        license_status = client.entitlement_status;
        entitlement_id = client.entitlement_id;
        entitlement_kind = client.entitlement_kind;
        entitlement_status = client.entitlement_status;
        entitlement_active = client.entitlement_active;
        subscription_id = subscription_of client;
      },
      touch_device now (touch_session now s client.session_id) client.tenant_id client.app_id
          client.device_id (clean_optional app_version),
    )

  unfoldable pub verify : Result (Unit {0}) → ClientContext V → Result (VerifyResponse V)
  verify limiter client = do
    limiter
    ok (record {
      valid = true;
      features = client.features;
      expires_at = client.entitlement_expires_at;
      entitlement_id = client.entitlement_id;
      entitlement_kind = client.entitlement_kind;
      entitlement_status = client.entitlement_status;
      entitlement_active = client.entitlement_active;
      subscription_id = subscription_of client;
    })
