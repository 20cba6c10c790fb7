-- ===== src/Release/Client.antt =====
-- backend/src/modules/release/client.rs: a client asks for the latest release and downloads its file.
-- The outcomes of the rate limiter and of opening the stored object, the fresh token and its hash are
-- parameters. The headers of the response are left out.

use entitle_hub.Base.{
  ℕ, ◌+◌, ◌-◌, ◌^◌, Bool, not, Option, none, some, String, str_eq, ◌==◌, leb, if◌then◌else◌,
}
use entitle_hub.Base.Int.{ℤ, pos, negsuc}
use entitle_hub.Base.Text.{trim, is_empty}
use entitle_hub.Error.{
  Result, ok, err, ◌>>=◌, ◌>>◌, reject_if, ok_or, release_not_found, dependency, invalid_request,
  forbidden, validation_failed,
}
use entitle_hub.ClientAuth.{ClientContext, ensure_active_entitlement}
use entitle_hub.Release.{DownloadToken, ◌⊕◌}
use entitle_hub.Release.Input.{normalize_file_name}
use entitle_hub.Release.Rows.{Releases}
use entitle_hub.Release.Tokens.{
  ReleaseWithFile, ValidatedDownload, latest_published, create_download_token,
  consume_download_token,
}

pub record LatestReleaseResponse : Type 0 where
  pub app_id : ℕ
  pub version : String
  pub version_code : ℤ
  pub download_url : String
  pub file_size : ℤ
  pub sha256 : String
  pub published_at_unix : ℤ
  pub signature_kid : String
  pub signature : String
  pub signature_alg : String
  pub force_update : Bool

unfoldable pub latest_release_response : ReleaseWithFile → String → Result LatestReleaseResponse
latest_release_response release token = do
  published_at ← ok_or release.published_at (dependency "published release missing published_at")
  ok (record {
    app_id = release.app_id;
    version = release.version;
    version_code = release.version_code;
    download_url = "/api/client/releases/download/" ⊕ release.file_name ⊕ "?token=" ⊕ token;
    file_size = release.file_size;
    sha256 = release.sha256;
    published_at_unix = pos published_at;
    signature_kid = release.release_signature_kid;
    signature = release.release_signature;
    signature_alg = release.release_signature_alg;
    force_update = release.force_update;
  })

-- `NewDownloadToken::release_file`, as the row it becomes.
unfoldable pub new_download_token :
    (now id tenant_id app_id device_id file_id : ℕ) → String → ℕ → Result DownloadToken
new_download_token now id tenant_id app_id device_id file_id token_hash expires_at =
    if leb expires_at now
    then err (validation_failed "download token expires_at must be in the future")
    else ok (record {
      id = id;
      tenant_id = tenant_id;
      app_id = app_id;
      device_id = device_id;
      file_id = file_id;
      token_hash = token_hash;
      kind = "release_file";
      expires_at = expires_at;
      used_at = none;
      revoked_at = none;
      created_at = now;
    })

-- `as u64` of an `i64`
abbrev as_u64 : ℤ → ℕ
as_u64 (pos n) = n
as_u64 (negsuc n) = 2 ^ 64 - 1 - n

-- After the token is used up: `open` gives the size of the stored object.
unfoldable pub deliver_download :
    (limiter : ValidatedDownload → Result (Unit {0})) (open_object : String → Result ℕ)
    → (file_name : String) → Option ValidatedDownload
    → Result ValidatedDownload
deliver_download limiter open_object file_name none = err (forbidden "download token invalid")
deliver_download limiter open_object file_name (some download) = do
  reject_if (not (str_eq download.file_name file_name)) (forbidden "download token invalid")
  limiter download
  size ← open_object download.storage_key
  reject_if (not (size == as_u64 download.file_size)) (dependency "stored object size mismatch")
  ok download

-- The file name and the hash of the token, as they are looked up.
unfoldable pub download_request :
    (hash : String → Result String) → (file_name token : String) → Result (String × String)
download_request hash file_name token = do
  name ← normalize_file_name file_name
  reject_if (is_empty (trim token)) (invalid_request "download token is required")
  token_hash ← hash (trim token)
  ok (name, token_hash)

module _ {V : Type 0} where
  -- The token's row stays when the response cannot be built.
  respond : Releases V → Result LatestReleaseResponse → Result LatestReleaseResponse × Releases V
  respond s r = (r, s)

  -- What is done up to the token's row.
  unfoldable pub offer :
      (hash : String → Result String) (limiter : Result (Unit {0})) (now ttl fresh : ℕ)
      → String
      → Releases V
      → ClientContext V
      → Result (ReleaseWithFile × Releases V)
  offer hash limiter now ttl fresh token s client = do
    limiter
    ensure_active_entitlement client
    release ←
        ok_or (latest_published s client.tenant_id client.app_id)
          (release_not_found "release not found")
    token_hash ← hash token
    new ←
        new_download_token now fresh client.tenant_id client.app_id client.device_id release.file_id
          token_hash (now + ttl)
    ok (release, create_download_token s new)

  latest_of :
      Releases V
      → String
      → Result (ReleaseWithFile × Releases V)
      → Result LatestReleaseResponse × Releases V
  unfolding latest_release_response respond
  latest_of s token (err e) = (err e, s)
  latest_of s token (ok (release, t)) = respond t (latest_release_response release token)

  unfoldable pub latest_release :
      (hash : String → Result String) (limiter : Result (Unit {0})) (now ttl fresh : ℕ)
      → String
      → Releases V
      → ClientContext V
      → Result LatestReleaseResponse × Releases V
  unfolding latest_of
  latest_release hash limiter now ttl fresh token s client =
      latest_of s token (offer hash limiter now ttl fresh token s client)

  consume_and_deliver :
      (limiter : ValidatedDownload → Result (Unit {0})) (open_object : String → Result ℕ) (now : ℕ)
      → Releases V
      → Result (String × String)
      → Result ValidatedDownload × Releases V
  unfolding deliver_download
  consume_and_deliver limiter open_object now s (err e) = (err e, s)
  consume_and_deliver limiter open_object now s (ok (name, token_hash)) =
      let (found, t) = consume_download_token now s name token_hash in
      (deliver_download limiter open_object name found, t)

  -- The token is used up as soon as it is found, also when the download is then refused.
  unfoldable pub download_release :
      (hash : String → Result String) (limiter : ValidatedDownload → Result (Unit {0}))
      (open_object : String → Result ℕ) (now : ℕ)
      → Releases V
      → (file_name token : String) → Result ValidatedDownload × Releases V
  unfolding consume_and_deliver
  download_release hash limiter open_object now s file_name token =
      consume_and_deliver limiter open_object now s (download_request hash file_name token)
