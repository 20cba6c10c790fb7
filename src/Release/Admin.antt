-- ===== src/Release/Admin.antt =====
-- backend/src/modules/release/admin.rs: the administration of releases. Each handler is one
-- transaction, so it returns the tables on success only. The signing key that is found or created,
-- the signature under it, the digest of an upload and the outcome of storing it are parameters.
use entitle_hub.Base.{ℕ, ◌*◌, ◌||◌, not, none, some, String, str_eq, ◌==◌, ltb, if◌then◌else◌}
use entitle_hub.Base.Int.{pos, leb_ℤ}
use entitle_hub.Base.Json.{Json}
use entitle_hub.Base.Text.{trim, byte_len, all_codes, is_ascii_hexdigit}
use entitle_hub.Error.{
  Result, ok, err, ◌>>=◌, ◌>>◌, reject_if, ok_or, release_not_found, invalid_release_state,
  not_found, app_not_found, dependency, validation_failed,
}
use entitle_hub.Admin.{AdminContext, ensure_admin_permission}
use entitle_hub.Store.{record_audit}
use entitle_hub.Store.Licenses.{find_application_by_id}
use entitle_hub.Release.{
  ReleaseFile, Release, RegisterReleaseFileInput, CreateReleaseInput, UpdateReleaseInput,
  release_file_signature_payload, release_metadata_signature_payload, ◌⊕◌,
}
use entitle_hub.Release.Input.{
  new_release, update_of, new_release_file, validate_register_release_file_input,
}
use entitle_hub.Release.Rows.{
  Releases, find_file_by_id, find_release_by_id, create_release_file, create_release_row,
  publish_release_row, sign_release_row, rewrite_release_row, deprecate_release_row,
  delete_draft_release_row,
}

-- What the handlers read of `SigningKey`.
pub record SigningKey : Type 0 where
  pub id : ℕ
  pub kid : String

abbrev pub ReleaseSigner : Type 0
ReleaseSigner = SigningKey → String → Result String

unfoldable pub ensure_release_state :
    Release → (expected_status message : String) → Result (Unit {0})
ensure_release_state release expected_status message =
    if str_eq release.status expected_status then ok tt else err (invalid_release_state message)

unfoldable pub normalize_file_for_signature :
    {V : Type 0} → (String → String) → RegisterReleaseFileInput V → Result String
normalize_file_for_signature lower input = do
  let sha256 = lower (trim input.sha256)
  reject_if (not (byte_len sha256 == 64) || not (all_codes is_ascii_hexdigit sha256))
      (validation_failed "sha256 must be a 64-character hex string")
  reject_if (leb_ℤ input.file_size (pos 0)) (validation_failed "file_size must be greater than 0")
  ok (release_file_signature_payload sha256 input.file_size)

module _ {V : Type 0} where
  abbrev audit_release :
      Releases V → AdminContext → (action resource_type : String) → ℕ → Releases V
  audit_release s admin action resource_type id = record s {
    store = record_audit s.store (record {
      tenant_id = admin.tenant_id;
      actor_type = "team_member";
      actor_id = some admin.team_member_id;
      action = action;
      resource_type = resource_type;
      resource_id = some id;
    });
  }

  ensure_application_exists : Releases V → (tenant_id app_id : ℕ) → Result (Unit {0})
  ensure_application_exists s tenant_id app_id = do
    _ ←
        ok_or (find_application_by_id s.store tenant_id app_id)
          (app_not_found "application not found")
    ok tt

  unfoldable pub create_signed_release_file :
      (uuid_text : ℕ → String) (lower : String → String)
      → Json V
      → Result SigningKey
      → ReleaseSigner
      → (now fresh nil : ℕ) → Releases V
      → AdminContext
      → ℕ
      → RegisterReleaseFileInput V
      → Result (ReleaseFile V × Releases V)
  create_signed_release_file uuid_text lower J key sign now fresh nil s admin app_id payload = do
    validate_register_release_file_input uuid_text lower nil payload admin.tenant_id app_id
    signing_key ← key
    normalized ← normalize_file_for_signature lower payload
    signature ← sign signing_key normalized
    new ←
        new_release_file uuid_text lower J fresh admin.tenant_id app_id payload signing_key.id
          signing_key.kid signature
    let (file, t) = create_release_file now s new
    ok (file, audit_release t admin "release_file.register" "release_file" file.id)

  unfoldable pub register_release_file :
      (uuid_text : ℕ → String) (lower : String → String)
      → Json V
      → Result SigningKey
      → ReleaseSigner
      → (now fresh nil : ℕ) → Releases V
      → AdminContext
      → ℕ
      → RegisterReleaseFileInput V
      → Result (ReleaseFile V × Releases V)
  unfolding ensure_application_exists
  register_release_file uuid_text lower J key sign now fresh nil s admin app_id payload = do
    ensure_admin_permission admin "release:upload"
    ensure_application_exists s admin.tenant_id app_id
    create_signed_release_file uuid_text lower J key sign now fresh nil s admin app_id payload

  -- `put` is the outcome of storing the bytes.
  unfoldable pub upload_release_file :
      (uuid_text : ℕ → String) (lower : String → String)
      → Json V
      → Result SigningKey
      → ReleaseSigner
      → (now fresh nil upload_id : ℕ) → Releases V
      → AdminContext
      → ℕ
      → (file_name : String) (body_len : ℕ) (digest : String) (put : Result (Unit {0}))
      → Result (ReleaseFile V × Releases V)
  unfolding ensure_application_exists
  upload_release_file uuid_text lower J key sign now fresh nil upload_id s admin app_id file_name
        body_len digest put =
      do
        ensure_admin_permission admin "release:upload"
        ensure_application_exists s admin.tenant_id app_id
        reject_if (body_len == 0) (validation_failed "release file is required")
        reject_if (ltb (100 * 1024 * 1024) body_len) (validation_failed "release file is too large")
        let storage_key =
            "tenants/"
            ⊕ uuid_text admin.tenant_id
            ⊕ "/apps/"
            ⊕ uuid_text app_id
            ⊕ "/releases/uploads/"
            ⊕ uuid_text upload_id
        let payload : RegisterReleaseFileInput V = record {
          storage_key = some storage_key;
          file_name = file_name;
          file_size = pos body_len;
          sha256 = digest;
          metadata = none;
        }
        validate_register_release_file_input uuid_text lower nil payload admin.tenant_id app_id
        put
        create_signed_release_file uuid_text lower J key sign now fresh nil s admin app_id payload

  unfoldable pub create_release :
      (now fresh : ℕ)
      → Releases V
      → AdminContext
      → ℕ
      → CreateReleaseInput
      → Result (Release × Releases V)
  unfolding ensure_application_exists
  create_release now fresh s admin app_id payload = do
    ensure_admin_permission admin "release:create"
    ensure_application_exists s admin.tenant_id app_id
    _ ←
        ok_or (find_file_by_id s.files admin.tenant_id app_id payload.file_id)
          (not_found "release file not found")
    new ← new_release fresh admin.tenant_id app_id payload
    (release, t) ← create_release_row now s new
    ok (release, audit_release t admin "release.create" "release" release.id)

  unfoldable pub update_release :
      ℕ → Releases V → AdminContext → ℕ → UpdateReleaseInput → Result (Release × Releases V)
  update_release now s admin release_id payload = do
    ensure_admin_permission admin "release:update"
    before ←
        ok_or (find_release_by_id s admin.tenant_id release_id)
          (release_not_found "release not found")
    ensure_release_state before "draft" "only draft release can be updated"
    update ← update_of payload
    (found, t) ← rewrite_release_row now s admin.tenant_id release_id update
    release ← ok_or found (invalid_release_state "only draft release can be updated")
    ok (release, audit_release t admin "release.update" "release" release.id)

  unfoldable pub publish_release :
      (uuid_text : ℕ → String)
      → Result SigningKey
      → ReleaseSigner
      → ℕ
      → Releases V
      → AdminContext
      → ℕ
      → Result (Release × Releases V)
  publish_release uuid_text key sign now s admin release_id = do
    ensure_admin_permission admin "release:publish"
    before ←
        ok_or (find_release_by_id s admin.tenant_id release_id)
          (release_not_found "release not found")
    ensure_release_state before "draft" "only draft release can be published"
    file ←
        ok_or (find_file_by_id s.files admin.tenant_id before.app_id before.file_id)
          (not_found "release file not found")
    signing_key ← key
    let (found, s₁) = publish_release_row now s admin.tenant_id release_id
    published ← ok_or found (invalid_release_state "only draft release can be published")
    published_at ←
        ok_or published.published_at (dependency "published release missing published_at")
    signature ← sign signing_key (
        release_metadata_signature_payload uuid_text published.app_id published.version
          published.version_code file.sha256 file.file_size (pos published_at))
    let (written, s₂) =
        sign_release_row now s₁ admin.tenant_id release_id signing_key.id signing_key.kid signature
    release ← ok_or written (dependency "published release signature write failed")
    ok (release, audit_release s₂ admin "release.publish" "release" release.id)

  unfoldable pub deprecate_release :
      ℕ → Releases V → AdminContext → ℕ → Result (Release × Releases V)
  deprecate_release now s admin release_id = do
    ensure_admin_permission admin "release:deprecate"
    before ←
        ok_or (find_release_by_id s admin.tenant_id release_id)
          (release_not_found "release not found")
    ensure_release_state before "published" "only published release can be deprecated"
    let (found, t) = deprecate_release_row now s admin.tenant_id release_id
    release ← ok_or found (invalid_release_state "only published release can be deprecated")
    ok (release, audit_release t admin "release.deprecate" "release" release.id)

  unfoldable pub delete_release : ℕ → Releases V → AdminContext → ℕ → Result (ℕ × Releases V)
  delete_release now s admin release_id = do
    ensure_admin_permission admin "release:delete"
    before ←
        ok_or (find_release_by_id s admin.tenant_id release_id)
          (release_not_found "release not found")
    ensure_release_state before "draft" "only draft release can be deleted"
    let (found, t) = delete_draft_release_row now s admin.tenant_id release_id
    release ← ok_or found (invalid_release_state "only draft release can be deleted")
    ok (release_id, audit_release t admin "release.delete" "release" release.id)
