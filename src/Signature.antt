-- ===== src/Signature.antt =====
-- backend/src/modules/client_auth/signature.rs: the signature of a device's request and the guard
-- against replays. The clock is `Utc::now().timestamp()`, in seconds. SHA-256 with its encoding, the
-- Ed25519 verification, the texts of identifiers and their parser, and `Redis` are parameters.
pub mod Replay
use Prim.Native.String as Text
use Prim.Native.String.{[], ◌∷◌}
use Prim.Native.Char.{Char, code}
use entitle_hub.Base.{
  ℕ, suc, ◌+◌, ◌*◌, ◌-◌, ◌^◌, Bool, true, false, ◌&&◌, ◌||◌, not, Option, none, some, String,
  str_eq, ◌==◌, ltb, leb, if◌then◌else◌,
}
use entitle_hub.Base.Int.{ℤ, pos, negsuc, ◌+ℤ◌, ◌-ℤ◌, neg, ltb_ℤ, i64_max, i64_min}
use entitle_hub.Base.Text.{trim, is_empty, char_count}
use entitle_hub.Base.Rows.{find}
use entitle_hub.Error.{
  Result, ok, err, ◌>>=◌, ◌>>◌, reject_if, ok_or, signature_invalid, signature_required,
}
use entitle_hub.Device.{DeviceKey}
use entitle_hub.Store.{Store}
use entitle_hub.ClientAuth.{ClientContext}

-- The service that keeps nonces: `SET key NX` says whether the key was new, `EXPIRE` ends its life so
-- many seconds later. The time is that of the service.
pub record Redis (R : Type 0) : Type 0 where
  pub set_nx : ℕ → String → R → Bool × R
  pub expire : ℕ → String → ℕ → R → R

-- What the check uses of other libraries.
pub record Crypto : Type 0 where
  -- The encoded digest of a body.
  pub body_hash : String → String
  pub verify : (public_key message signature : String) → Bool
  pub parse_uuid : String → Option ℕ
  pub parse_i64 : String → Option ℤ
  pub uuid_text : ℕ → String
  pub i64_text : ℤ → String
  pub to_uppercase : String → String

pub record SignedRequest : Type 0 where
  -- A header whose value is text.
  pub header : String → Option String
  pub method : String
  pub path : String
  pub body : String

abbrev pub timestamp_tolerance_seconds : ℤ
timestamp_tolerance_seconds = pos 300

abbrev pub nonce_ttl_seconds : ℕ
nonce_ttl_seconds = 300

-- The difference of two `i64` wraps around, and so does the absolute value of the least one.
abbrev pub wrapping : ℤ → ℤ
wrapping a =
    if ltb_ℤ i64_max a then a -ℤ pos (2 ^ 64) else if ltb_ℤ a i64_min then a +ℤ pos (2 ^ 64) else a

unfoldable pub distance : (now timestamp : ℤ) → ℤ
unfolding ◌+ℤ◌ ◌-ℤ◌ neg
distance now timestamp =
    let d = wrapping (now -ℤ timestamp) in if ltb_ℤ d (pos 0) then wrapping (neg d) else d

unfoldable pub is_expired : (now timestamp : ℤ) → Bool
unfolding distance
is_expired now timestamp = ltb_ℤ timestamp_tolerance_seconds (distance now timestamp)

nonblank : Option String → Option String
nonblank none = none
nonblank (some v) = if is_empty (trim v) then none else some (trim v)

unfoldable pub read_required_header : SignedRequest → String → Result String
unfolding nonblank
read_required_header request name =
    ok_or (nonblank (request.header name)) (signature_required (Text.◌++◌ name " is required"))

-- An ASCII letter or digit, `-` or `_`.
abbrev is_nonce_char : ℕ → Bool
is_nonce_char c =
    (leb 48 c && leb c 57)
    || (leb 65 c && leb c 90)
    || (leb 97 c && leb c 122)
    || c == 45
    || c == 95

unfoldable pub is_nonce_text : String → Bool
is_nonce_text [] = true
is_nonce_text (c ∷ s) = is_nonce_char (code c) && is_nonce_text s

-- The characters of an accepted nonce are ASCII, so its length in bytes is that in characters; any
-- other nonce is refused.
unfoldable pub read_nonce_header : SignedRequest → String → Result String
unfolding is_nonce_text
read_nonce_header request name = do
  nonce ← read_required_header request name
  reject_if (ltb (char_count nonce) 16 || ltb 128 (char_count nonce) || not (is_nonce_text nonce))
      (signature_invalid (Text.◌++◌ name " is invalid"))
  ok nonce

abbrev pub line : String → String → String
line a b = Text.◌++◌ a (Text.◌++◌ "\n" b)

module _ {R : Type 0} (redis : Redis R) where
  kept : ℕ → String → Bool × R → R × Result (Unit {0})
  kept at key (true, r) = (redis.expire at key nonce_ttl_seconds r, ok tt)
  kept at key (false, r) = (r, err (signature_invalid "nonce already used"))

module _ (C : Crypto) where
  unfoldable pub read_uuid_header : SignedRequest → String → Result ℕ
  read_uuid_header request name = do
    text ← read_required_header request name
    ok_or (C.parse_uuid text) (signature_invalid (Text.◌++◌ name " is invalid"))

  unfoldable pub read_i64_header : SignedRequest → String → Result ℤ
  read_i64_header request name = do
    text ← read_required_header request name
    ok_or (C.parse_i64 text) (signature_invalid (Text.◌++◌ name " is invalid"))

  abbrev pub signature_message :
      SignedRequest → String → ℤ → String → (device_id key_id session_id : ℕ) → String
  signature_message request body_sha256 timestamp nonce device_id key_id session_id =
      line (C.to_uppercase request.method) (
        line request.path (
          line body_sha256 (
            line (C.i64_text timestamp) (
              line nonce (
                line (C.uuid_text device_id)
                  (line (C.uuid_text key_id) (C.uuid_text session_id)))))))

module _ {V : Type 0} where
  unfoldable pub find_active_key :
      Store V → (tenant_id app_id device_id key_id : ℕ) → Option DeviceKey
  find_active_key s tenant_id app_id device_id key_id =
      find
        (λ k.
          k.tenant_id == tenant_id
          && k.app_id == app_id
          && k.device_id == device_id
          && k.id == key_id
          && str_eq k.status "active")
        s.device_keys

module _ {V : Type 0} (C : Crypto) where
  -- The handler up to the nonce: the nonce of a request that is signed.
  unfoldable pub check_signature : ℤ → Store V → ClientContext V → SignedRequest → Result String
  unfolding read_nonce_header read_uuid_header read_i64_header is_expired find_active_key
  check_signature now s client request = do
    key_id ← read_uuid_header C request "X-Device-Key-Id"
    timestamp ← read_i64_header C request "X-Timestamp"
    nonce ← read_nonce_header request "X-Nonce"
    body_sha256 ← read_required_header request "X-Body-SHA256"
    signature ← read_required_header request "X-Signature"
    reject_if (is_expired now timestamp) (signature_invalid "signature timestamp expired")
    reject_if (not (str_eq (C.body_hash request.body) body_sha256))
        (signature_invalid "body hash mismatch")
    key ←
        ok_or (find_active_key s client.tenant_id client.app_id client.device_id key_id)
          (signature_invalid "device key invalid")
    let message =
        signature_message C request body_sha256 timestamp nonce client.device_id key_id
          client.session_id
    reject_if (not (C.verify key.public_key message signature))
        (signature_invalid "signature invalid")
    ok nonce

  abbrev pub nonce_key : ClientContext V → String → String
  nonce_key client nonce = Text.◌++◌ "nonce:" (
      Text.◌++◌ (C.uuid_text client.tenant_id) (
        Text.◌++◌ ":" (
          Text.◌++◌ (C.uuid_text client.app_id)
            (Text.◌++◌ ":" (Text.◌++◌ (C.uuid_text client.device_id) (Text.◌++◌ ":" nonce))))))

  module _ {R : Type 0} (redis : Redis R) where
    unfoldable pub store_nonce : ℕ → ClientContext V → String → R → R × Result (Unit {0})
    unfolding kept
    store_nonce at client nonce r =
        kept redis at (nonce_key client nonce) (redis.set_nx at (nonce_key client nonce) r)

    then_store : ℕ → ClientContext V → R → Result String → R × Result (Unit {0})
    unfolding store_nonce
    then_store at client r (err e) = (r, err e)
    then_store at client r (ok nonce) = store_nonce at client nonce r

    -- A request at an instant, in seconds.
    unfoldable pub require_device_signature :
        ℕ → Store V → ClientContext V → SignedRequest → R → R × Result (Unit {0})
    unfolding then_store check_signature
    require_device_signature now s client request r =
        then_store now client r (check_signature (pos now) s client request)
