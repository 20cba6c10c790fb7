-- ===== src/Tests/Releases.antt =====
-- Tests of releases and of downloads.
use entitle_hub.Base.{
  ℕ, ◌≤◌, ◌<◌, ◌≡◌, refl, Bool, true, false, Option, none, some, List, [], ◌∷◌, ◌++◌, String, arith,
}
use entitle_hub.Base.Int.{pos}
use entitle_hub.Base.Rows.{find, exists, update, select, count, update_returning}
use entitle_hub.Base.Text.{trim, is_empty}
use entitle_hub.Error.{Result, ok, is_ok}
use entitle_hub.ClientAuth.{ClientContext, ensure_active_entitlement}
use entitle_hub.Admin.{AdminContext, ensure_admin_permission}
use entitle_hub.Release.{
  CreateReleaseInput, Release, ReleaseFile, DownloadToken, release_metadata_signature_payload,
}
use entitle_hub.Release.Rows.{Releases}
use entitle_hub.Release.Tokens.{ValidatedDownload, is_downloading}
use entitle_hub.Release.Admin.{SigningKey, ReleaseSigner, create_release, publish_release}
use entitle_hub.Release.Client.{LatestReleaseResponse, latest_release, download_release}
use entitle_hub.Release.Offered.{Verifies}
use entitle_hub.Release.Reachable.{◌⟶◌, creates, publishes, here, then, latest_release-Verifies}
use entitle_hub.Release.Downloads.{has_hash, download_release-once}
use entitle_hub.Release.Entitled.{IsServing}
use entitle_hub.Tests.{value, plain_hash, store}

abbrev publisher : AdminContext
publisher = record {
  tenant_id = 1;
  team_member_id = 9;
  session_id = 70;
  permissions = "release:create" ∷ "release:publish" ∷ [];
}

abbrev uuid_text : ℕ → String
uuid_text n = "id"

-- A signature is the text itself.
abbrev sign : ReleaseSigner
sign key text = ok text

abbrev signing_key : SigningKey
signing_key = record { id = 6; kid = "kid" }

abbrev file : ReleaseFile (Unit {0})
file = record {
  id = 70;
  tenant_id = 1;
  app_id = 2;
  storage_key = "app";
  file_name = "app.zip";
  file_size = pos 12;
  sha256 = "abc";
  signing_key_id = 6;
  signature_kid = "kid";
  signature = "sig";
  signature_alg = "Ed25519";
  metadata = tt;
  created_at = 5;
}

abbrev token_row : DownloadToken
token_row = record {
  id = 90;
  tenant_id = 1;
  app_id = 2;
  device_id = 5;
  file_id = 70;
  token_hash = "token";
  kind = "release_file";
  expires_at = 500;
  used_at = none;
  revoked_at = none;
  created_at = 10;
}

abbrev start : Releases (Unit {0})
start = record { store = store; files = file ∷ []; releases = []; tokens = token_row ∷ [] }

abbrev blank : Release
blank = record {
  id = 0;
  tenant_id = 0;
  app_id = 0;
  file_id = 0;
  version = "";
  version_code = pos 0;
  status = "";
  changelog = none;
  force_update = false;
  signing_key_id = none;
  signature_kid = none;
  signature = none;
  signature_alg = none;
  published_at = none;
  deprecated_at = none;
  created_at = 0;
  updated_at = 0;
  deleted_at = none;
}

abbrev version_one : CreateReleaseInput
version_one = record {
  file_id = 70;
  version = " 1.0 ";
  version_code = pos 3;
  changelog = none;
  force_update = none;
}

abbrev created : Release × Releases (Unit {0})
created = value (create_release 20 71 start publisher 2 version_one) (blank, start)

abbrev live : Release × Releases (Unit {0})
live =
    value (publish_release uuid_text (ok signing_key) sign 30 created.1 publisher 71) (blank, start)

abbrev client : ClientContext (Unit {0})
client = record {
  session_id = 1;
  tenant_id = 1;
  app_id = 2;
  customer_id = none;
  device_id = 3;
  machine_id = "machine";
  auth_mode = "license";
  entitlement_id = some 1;
  entitlement_kind = some "license";
  entitlement_status = "active";
  entitlement_active = true;
  features = tt;
  entitlement_expires_at = none;
}

abbrev no_response : LatestReleaseResponse
no_response = record {
  app_id = 0;
  version = "";
  version_code = pos 0;
  download_url = "";
  file_size = pos 0;
  sha256 = "";
  published_at_unix = pos 0;
  signature_kid = "";
  signature = "";
  signature_alg = "";
  force_update = false;
}

abbrev response : LatestReleaseResponse
response = value (latest_release plain_hash (ok tt) 40 60 72 "fresh" live.1 client).0 no_response

created_ok : create_release 20 71 start publisher 2 version_one ≡ ok created
unfolding create_release ensure_admin_permission entitle_hub.Store.Licenses.find_application_by_id
    find entitle_hub.Release.Rows.find_file_by_id entitle_hub.Release.Input.new_release
    entitle_hub.Release.Input.normalize_version trim is_empty entitle_hub.Base.Text.byte_len
    entitle_hub.Base.Text.is_whitespace entitle_hub.Base.Text.trim_end
    entitle_hub.Base.Text.trim_start entitle_hub.Release.Input.validate_version_code
    entitle_hub.Release.Rows.create_release_row exists entitle_hub.Device.clean_optional
created_ok = refl

live_ok : publish_release uuid_text (ok signing_key) sign 30 created.1 publisher 71 ≡ ok live
unfolding create_release ensure_admin_permission entitle_hub.Store.Licenses.find_application_by_id
    find entitle_hub.Release.Rows.find_file_by_id entitle_hub.Release.Input.new_release
    entitle_hub.Release.Input.normalize_version trim is_empty entitle_hub.Base.Text.byte_len
    entitle_hub.Base.Text.is_whitespace entitle_hub.Base.Text.trim_end
    entitle_hub.Base.Text.trim_start entitle_hub.Release.Input.validate_version_code
    entitle_hub.Release.Rows.create_release_row exists entitle_hub.Device.clean_optional
    publish_release entitle_hub.Release.Rows.find_release_by_id
    entitle_hub.Release.Admin.ensure_release_state entitle_hub.Release.Rows.publish_release_row
    entitle_hub.Release.Rows.sign_release_row update update_returning
    entitle_hub.Base.Decimal.digits_of entitle_hub.Base.Decimal.to_string
    release_metadata_signature_payload
live_ok = refl

response_ok : (latest_release plain_hash (ok tt) 40 60 72 "fresh" live.1 client).0 ≡ ok response
unfolding create_release ensure_admin_permission entitle_hub.Store.Licenses.find_application_by_id
    find entitle_hub.Release.Rows.find_file_by_id entitle_hub.Release.Input.new_release
    entitle_hub.Release.Input.normalize_version trim is_empty entitle_hub.Base.Text.byte_len
    entitle_hub.Base.Text.is_whitespace entitle_hub.Base.Text.trim_end
    entitle_hub.Base.Text.trim_start entitle_hub.Release.Input.validate_version_code
    entitle_hub.Release.Rows.create_release_row exists entitle_hub.Device.clean_optional
    publish_release entitle_hub.Release.Rows.find_release_by_id
    entitle_hub.Release.Admin.ensure_release_state entitle_hub.Release.Rows.publish_release_row
    entitle_hub.Release.Rows.sign_release_row update update_returning
    entitle_hub.Base.Decimal.digits_of entitle_hub.Base.Decimal.to_string
    release_metadata_signature_payload latest_release entitle_hub.Release.Client.offer
    ensure_active_entitlement entitle_hub.Release.Tokens.latest_published select
    entitle_hub.Release.Tokens.newer entitle_hub.Release.Tokens.newest
    entitle_hub.Release.Client.latest_release_response entitle_hub.Release.Client.new_download_token
    entitle_hub.Release.Tokens.create_download_token
response_ok = refl

creates_first : ◌⟶◌ uuid_text sign start created.1
creates_first = creates 20 71 start created.1 publisher 2 version_one created.0 created_ok

publishes_first : ◌⟶◌ uuid_text sign created.1 live.1
publishes_first = publishes (ok signing_key) 30 created.1 live.1 publisher 71 live.0 live_ok

latest_release-Verifies_example : Verifies uuid_text sign response
latest_release-Verifies_example =
    latest_release-Verifies uuid_text sign plain_hash (ok tt) 40 60 72 "fresh" start live.1 client
      response refl (then creates_first (then publishes_first here)) response_ok

abbrev no_download : ValidatedDownload
no_download = record {
  file_id = 0;
  device_id = 0;
  storage_key = "";
  file_name = "";
  file_size = pos 0;
  sha256 = "";
}

abbrev first : Result ValidatedDownload × Releases (Unit {0})
first = download_release plain_hash (λ d. ok tt) (λ k. ok 12) 100 start "app.zip" " token "

download_release-once_example :
    ((dt : DownloadToken) × (find (has_hash "token") start.tokens ≡ some dt)
      × IsServing 100 start dt
      × ((value first.0 no_download).device_id ≡ dt.device_id)
      × ((value first.0 no_download).file_id ≡ dt.file_id))
    × (is_ok
          (download_release plain_hash (λ d. ok tt) (λ k. ok 12) 101 first.1 "app.zip" " token ").0
        ≡ false)
unfolding trim count download_release entitle_hub.Release.Client.download_request
    entitle_hub.Release.Input.normalize_file_name entitle_hub.Base.Text.byte_len
    entitle_hub.Base.Text.has_code entitle_hub.Base.Text.starts_with entitle_hub.Base.Text.all_codes
    entitle_hub.Release.Tokens.consume_download_token find entitle_hub.Release.Tokens.is_consumable
    exists
download_release-once_example =
    download_release-once plain_hash (λ d. ok tt) (λ d. ok tt) (λ k. ok 12) (λ k. ok 12) 100 101
      start "app.zip" "app.zip" " token " "token" (value first.0 no_download) refl (omega arith)
      refl
