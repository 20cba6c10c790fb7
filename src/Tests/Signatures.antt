-- ===== src/Tests/Signatures.antt =====
-- Tests of signed requests. The service of the tests keeps each nonce with the end of its life.
use entitle_hub.Base.{
  ℕ, ◌+◌, ◌≤◌, ◌≡◌, ◌≢◌, ◌↔◌, Bool, false, true, refl, Option, none, some, List, [], ◌∷◌, String,
  str_eq, ltb, ◌&&◌, if◌then◌else◌, arith,
}
use text.Mathlib.TextPositions.{eq_refl}
use entitle_hub.Base.Int.{pos, ◌≤ℤ◌, ◌+ℤ◌}
use entitle_hub.Base.Rows.{find}
use entitle_hub.Base.Text.{trim, is_empty}
use entitle_hub.Error.{ok}
use entitle_hub.Store.{Store}
use entitle_hub.Device.{DeviceKey}
use entitle_hub.ClientAuth.{ClientContext}
use entitle_hub.Signature.{
  Redis, Crypto, SignedRequest, is_expired, require_device_signature, read_required_header,
  nonce_ttl_seconds,
}
use entitle_hub.Signature.Replay.{KeepsNonces, replay_refused, replay_accepted, is_expired-exact}
use entitle_hub.Tests.{store}

is_expired-exact_example :
    (is_expired (pos 1000) (pos 1300) ≡ false)
    ↔ ((pos 1300 ≤ℤ pos 1300) × (pos 1000 ≤ℤ pos 1300 +ℤ pos 300))
unfolding ◌+ℤ◌
is_expired-exact_example =
    is_expired-exact 1000 (pos 1300) (omega arith) (ground arith) (λ e. ground arith)

-- A key lives until the end that stands with it; without one it stays.
abbrev Nonces : Type 0
Nonces = List (String × Option ℕ)

abbrev lives : ℕ → Option ℕ → Bool
lives at none = true
lives at (some end) = ltb at end

abbrev holds : ℕ → String → Nonces → Bool
holds at key [] = false
holds at key ((k, end) ∷ r) = if str_eq k key && lives at end then true else holds at key r

abbrev end_at : String → ℕ → Nonces → Nonces
end_at key end [] = []
end_at key end ((k, e) ∷ r) = (if str_eq k key then (k, some end) else (k, e)) ∷ end_at key end r

abbrev redis : Redis Nonces
redis = record {
  set_nx = λ at key r. if holds at key r then (false, r) else (true, (key, none) ∷ r);
  expire = λ at key seconds r. end_at key (at + seconds) r;
}

holds-end_at :
    (later end : ℕ) (key : String) (r : Nonces)
    → end ≤ later
    → holds later key (end_at key end r) ≡ false
holds-end_at later end key [] h = refl
holds-end_at later end key ((k, e) ∷ r) h = ground (arith, holds-end_at later end key r)

redis-KeepsNonces : KeepsNonces redis
redis-KeepsNonces = record {
  kept = λ at later key r new after soon. ground (arith, eq_refl key);
  gone = λ at later key r new over.
      ground (arith, eq_refl key, holds-end_at later (at + nonce_ttl_seconds) key r);
}

abbrev crypto : Crypto
crypto = record {
  body_hash = λ body. body;
  verify = λ key message signature. true;
  parse_uuid = λ text. some 11;
  parse_i64 = λ text. some (pos 1300);
  uuid_text = λ id. "id";
  i64_text = λ n. "1300";
  to_uppercase = λ text. text;
}

abbrev key : DeviceKey
key = record {
  id = 11;
  tenant_id = 1;
  app_id = 2;
  device_id = 5;
  public_key = "public";
  algorithm = "Ed25519";
  status = "active";
  created_at = 20;
  rotated_at = none;
  revoked_at = none;
}

abbrev keyed_store : Store (Unit {0})
keyed_store = record store { device_keys = key ∷ [] }

abbrev client : ClientContext (Unit {0})
client = record {
  session_id = 6;
  tenant_id = 1;
  app_id = 2;
  customer_id = none;
  device_id = 5;
  machine_id = "machine";
  auth_mode = "license";
  entitlement_id = some 3;
  entitlement_kind = some "license";
  entitlement_status = "active";
  entitlement_active = true;
  features = tt;
  entitlement_expires_at = none;
}

abbrev request : SignedRequest
request = record {
  header = λ name. some "0123456789abcdef";
  method = "POST";
  path = "/api/client/auth/verify";
  body = "0123456789abcdef";
}

abbrev after_first : Nonces
after_first = (require_device_signature crypto redis 1000 keyed_store client request []).0

-- 200 seconds later.
replay_refused_example :
    (require_device_signature crypto redis 1200 keyed_store client request after_first).1 ≢ ok tt
unfolding require_device_signature read_required_header is_empty trim find
replay_refused_example =
    replay_refused crypto redis redis-KeepsNonces 1000 1200 keyed_store client request []
      after_first refl (omega arith) (omega arith)

-- 400 seconds later, with the timestamp 300 seconds ahead of the clock at first.
replay_accepted_example :
    (require_device_signature crypto redis 1400 keyed_store client request after_first).1 ≡ ok tt
unfolding require_device_signature read_required_header is_empty trim find
replay_accepted_example =
    replay_accepted crypto redis redis-KeepsNonces 1000 1400 keyed_store client request []
      after_first (pos 1300) refl refl (omega arith) (omega arith) (omega arith) (omega arith)
