-- ===== src/Release/Rows.antt =====
-- backend/src/modules/release/repository.rs: the statements over releases, files and download
-- tokens. A row that is inserted stands at the end of its table.
use entitle_hub.Base.{
  ℕ, Bool, ◌&&◌, not, Option, none, some, List, [], ◌∷◌, ◌++◌, String, str_eq, ◌==◌, is_some,
  unwrap_or,
}
use entitle_hub.Base.Rows.{find, exists, update, update_returning}
use entitle_hub.Error.{Result, AppError, ok, ◌>>◌, reject_if, conflict}
use entitle_hub.Store.{Store}
use entitle_hub.Release.{
  ReleaseFile, NewReleaseFile, Release, NewRelease, UpdateRelease, DownloadToken,
}

-- The tables of releases beside the shared ones.
pub record Releases (V : Type 0) : Type 0 where
  pub store : Store V
  pub files : List (ReleaseFile V)
  pub releases : List Release
  pub tokens : List DownloadToken

abbrev pub is_release : (tenant_id id : ℕ) → Release → Bool
is_release tenant_id id r = r.tenant_id == tenant_id && r.id == id && not (is_some r.deleted_at)

abbrev pub is_release_in : (tenant_id id : ℕ) → String → Release → Bool
is_release_in tenant_id id status r = is_release tenant_id id r && str_eq r.status status

abbrev pub published : ℕ → Release → Release
published now r = record r {
  status = "published";
  published_at = some (unwrap_or r.published_at now);
  updated_at = now;
}

abbrev pub signed : ℕ → (signing_key_id : ℕ) → (kid signature : String) → Release → Release
signed now signing_key_id kid signature r = record r {
  signing_key_id = some signing_key_id;
  signature_kid = some kid;
  signature = some signature;
  signature_alg = some "Ed25519";
  updated_at = now;
}

abbrev pub updated : ℕ → UpdateRelease → Release → Release
updated now input r = record r {
  version = input.version;
  version_code = input.version_code;
  changelog = input.changelog;
  force_update = input.force_update;
  updated_at = now;
}

abbrev pub deprecated : ℕ → Release → Release
deprecated now r = record r {
  status = "deprecated";
  deprecated_at = some (unwrap_or r.deprecated_at now);
  updated_at = now;
}

abbrev pub deleted : ℕ → Release → Release
deleted now r = record r { deleted_at = some now; updated_at = now }

-- The unique index on the versions of an application.
abbrev pub version_taken : (tenant_id app_id id : ℕ) → String → Release → Bool
version_taken tenant_id app_id id version r =
    r.tenant_id == tenant_id
    && r.app_id == app_id
    && str_eq r.version version
    && not (is_some r.deleted_at)
    && not (r.id == id)

-- `map_db_error`, for a unique index or a primary key that a statement breaks.
abbrev already_exists : AppError
already_exists = conflict "release already exists"

-- The row of a new release.
abbrev pub draft : ℕ → NewRelease → Release
draft now new = record {
  id = new.id;
  tenant_id = new.tenant_id;
  app_id = new.app_id;
  file_id = new.file_id;
  version = new.version;
  version_code = new.version_code;
  status = "draft";
  changelog = new.changelog;
  force_update = new.force_update;
  signing_key_id = none;
  signature_kid = none;
  signature = none;
  signature_alg = none;
  published_at = none;
  deprecated_at = none;
  created_at = now;
  updated_at = now;
  deleted_at = none;
}

module _ {V : Type 0} where
  abbrev pub is_file : (tenant_id app_id file_id : ℕ) → ReleaseFile V → Bool
  is_file tenant_id app_id file_id f =
      f.tenant_id == tenant_id && f.app_id == app_id && f.id == file_id

  unfoldable pub find_file_by_id :
      List (ReleaseFile V) → (tenant_id app_id file_id : ℕ) → Option (ReleaseFile V)
  find_file_by_id files tenant_id app_id file_id = find (is_file tenant_id app_id file_id) files

  unfoldable pub find_release_by_id : Releases V → (tenant_id id : ℕ) → Option Release
  find_release_by_id s tenant_id id = find (is_release tenant_id id) s.releases

  unfoldable pub create_release_file :
      ℕ → Releases V → NewReleaseFile V → ReleaseFile V × Releases V
  create_release_file now s new =
      let file : ReleaseFile V = record {
        id = new.id;
        tenant_id = new.tenant_id;
        app_id = new.app_id;
        storage_key = new.storage_key;
        file_name = new.file_name;
        file_size = new.file_size;
        sha256 = new.sha256;
        signing_key_id = new.signing_key_id;
        signature_kid = new.signature_kid;
        signature = new.signature;
        signature_alg = new.signature_alg;
        metadata = new.metadata;
        created_at = now;
      } in
      (file, record s { files = s.files ++ (file ∷ []) })

  -- The identifier is a primary key too.
  unfoldable pub create_release_row : ℕ → Releases V → NewRelease → Result (Release × Releases V)
  create_release_row now s new = do
    reject_if (exists (λ r. r.id == new.id) s.releases) already_exists
    reject_if (exists (version_taken new.tenant_id new.app_id new.id new.version) s.releases)
        already_exists
    ok (draft now new, record s { releases = s.releases ++ (draft now new ∷ []) })

  -- An update that returns its row: `none` when the clause selects none.
  abbrev pub update_release_row :
      Releases V → (Release → Bool) → (Release → Release) → Option Release × Releases V
  update_release_row s p f =
      (update_returning p f s.releases, record s { releases = update p f s.releases })

  unfoldable pub publish_release_row :
      ℕ → Releases V → (tenant_id release_id : ℕ) → Option Release × Releases V
  publish_release_row now s tenant_id release_id =
      update_release_row s (is_release_in tenant_id release_id "draft") (published now)

  unfoldable pub sign_release_row :
      ℕ
      → Releases V
      → (tenant_id release_id signing_key_id : ℕ) → (kid signature : String)
      → Option Release × Releases V
  sign_release_row now s tenant_id release_id signing_key_id kid signature =
      update_release_row s (is_release_in tenant_id release_id "published")
        (signed now signing_key_id kid signature)

  -- A version of another release of the application breaks the unique index.
  unfoldable pub rewrite_release_row :
      ℕ
      → Releases V
      → (tenant_id release_id : ℕ) → UpdateRelease
      → Result (Option Release × Releases V)
  rewrite_release_row now s tenant_id release_id input = do
    reject_if
        (exists
          (λ r.
            is_release_in tenant_id release_id "draft" r
            && exists (version_taken tenant_id r.app_id release_id input.version) s.releases)
          s.releases)
        already_exists
    ok (update_release_row s (is_release_in tenant_id release_id "draft") (updated now input))

  unfoldable pub deprecate_release_row :
      ℕ → Releases V → (tenant_id release_id : ℕ) → Option Release × Releases V
  deprecate_release_row now s tenant_id release_id =
      update_release_row s (is_release_in tenant_id release_id "published") (deprecated now)

  unfoldable pub delete_draft_release_row :
      ℕ → Releases V → (tenant_id release_id : ℕ) → Option Release × Releases V
  delete_draft_release_row now s tenant_id release_id =
      update_release_row s (is_release_in tenant_id release_id "draft") (deleted now)
