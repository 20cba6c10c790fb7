-- ===== src/Release/Signed.antt =====
-- backend/src/modules/release/admin.rs: what the handlers of administrators do to the tables.
use entitle_hub.Base.{
  ℕ, unwrap_or, ◌≡◌, true, false, none, some, [], ◌∷◌, ◌++◌, String, ◌==◌, str_eq, Option-cases,
  inl, inr, arith,
}
use entitle_hub.Base.Int.{pos}
use entitle_hub.Base.Json.{Json}
use entitle_hub.Base.Rows.{find-narrow, find, exists, update, update_returning}
use entitle_hub.Error.{Result, ok, Result-cases}
use entitle_hub.Admin.{AdminContext}
use entitle_hub.Release.{
  Release, ReleaseFile, UpdateRelease, UpdateReleaseInput, CreateReleaseInput,
  RegisterReleaseFileInput, release_metadata_signature_payload, ◌⊕◌,
}
use entitle_hub.Release.Input.{update_of, new_release, new_release_file}
use entitle_hub.Release.Rows.{
  Releases, is_release, is_release_in, updated, deprecated, deleted, find_release_by_id,
  rewrite_release_row, deprecate_release_row, delete_draft_release_row, create_release_row,
  published, signed, find_file_by_id, publish_release_row, sign_release_row, create_release_file,
}
use entitle_hub.Release.Admin.{
  update_release, deprecate_release, delete_release, ensure_release_state, create_release,
  publish_release, SigningKey, ReleaseSigner, register_release_file, upload_release_file,
  create_signed_release_file, normalize_file_for_signature,
}

module _ {V : Type 0} where
  pub deprecate_release-tables :
      (now : ℕ) (s t : Releases V) (admin : AdminContext) (id : ℕ) (r : Release)
      → deprecate_release now s admin id ≡ ok (r, t)
      → (t.files ≡ s.files)
        × (t.releases
            ≡ update (is_release_in admin.tenant_id id "published") (deprecated now) s.releases)
  unfolding deprecate_release deprecate_release_row
  deprecate_release-tables now s t admin id r done = ground arith

  pub delete_release-tables :
      (now : ℕ) (s t : Releases V) (admin : AdminContext) (id n : ℕ)
      → delete_release now s admin id ≡ ok (n, t)
      → (t.files ≡ s.files)
        × (t.releases ≡ update (is_release_in admin.tenant_id id "draft") (deleted now) s.releases)
  unfolding delete_release delete_draft_release_row
  delete_release-tables now s t admin id n done = ground arith

  pub update_release-tables :
      (now : ℕ) (s t : Releases V) (admin : AdminContext) (id : ℕ) (payload : UpdateReleaseInput)
      (r : Release)
      → update_release now s admin id payload ≡ ok (r, t)
      → (t.files ≡ s.files)
        × ((input : UpdateRelease) × (t.releases
              ≡ update (is_release_in admin.tenant_id id "draft") (updated now input) s.releases))
  unfolding update_release rewrite_release_row
  update_release-tables now s t admin id payload r done = elim (Result-cases (update_of payload)) [
    | inl (input, e) ↦
        let h : (t.files ≡ s.files)
            × (t.releases
                ≡ update (is_release_in admin.tenant_id id "draft") (updated now input)
                    s.releases) =
          ground arith in
        (h.0, (input, h.1))
    | inr (x, e) ↦ absurd (ground arith)
  ]

  pub create_release-tables :
      (now fresh : ℕ) (s t : Releases V) (admin : AdminContext) (app_id : ℕ)
      (payload : CreateReleaseInput) (r : Release)
      → create_release now fresh s admin app_id payload ≡ ok (r, t)
      → (t.files ≡ s.files)
        × (r.status ≡ "draft")
        × (exists (λ q. q.id == r.id) s.releases ≡ false)
        × (t.releases ≡ s.releases ++ (r ∷ []))
  unfolding create_release create_release_row
  create_release-tables now fresh s t admin app_id payload r done =
      elim (Result-cases (new_release fresh admin.tenant_id app_id payload)) [
        | inl (new, e) ↦ ground arith
        | inr (x, e) ↦ ground arith
      ]

  -- A publication with the signature of the row that it writes.
  pub record Publication (uuid_text : ℕ → String) (sign : ReleaseSigner) (now : ℕ)
      (s t : Releases V) (tenant_id id : ℕ) : Type 0 where
    pub before : Release
    pub file : ReleaseFile V
    pub key : SigningKey
    pub signature : String
    pub found : find (is_release tenant_id id) s.releases ≡ some before
    pub is_draft : str_eq before.status "draft" ≡ true
    pub has_file : find_file_by_id s.files tenant_id before.app_id before.file_id ≡ some file
    pub signs :
        sign key (
          release_metadata_signature_payload uuid_text before.app_id before.version
            before.version_code file.sha256 file.file_size
            (pos (unwrap_or before.published_at now)))
        ≡ ok signature
    pub same_files : t.files ≡ s.files
    pub rows :
        t.releases
        ≡ update
            (is_release_in tenant_id id "published")
            (signed now key.id key.kid signature)
            (update (is_release_in tenant_id id "draft") (published now) s.releases)

  pub publish_release-tables :
      (uuid_text : ℕ → String) (key : Result SigningKey) (sign : ReleaseSigner) (now : ℕ)
      (s t : Releases V) (admin : AdminContext) (id : ℕ) (r : Release)
      → publish_release uuid_text key sign now s admin id ≡ ok (r, t)
      → Publication uuid_text sign now s t admin.tenant_id id
  unfolding publish_release publish_release_row sign_release_row find_release_by_id
      ensure_release_state update_returning
  publish_release-tables uuid_text key sign now s t admin id r done =
      elim (Option-cases (find (is_release admin.tenant_id id) s.releases)) [
        | inl missing ↦ absurd (ground arith)
        | inr (before, found) ↦
            elim (Option-cases
              (find_file_by_id s.files admin.tenant_id before.app_id before.file_id)) [
                | inl missing ↦ absurd (ground arith)
                | inr (file, has_file) ↦ elim (Result-cases key) [
                  | inr (x, no_key) ↦ absurd (ground arith)
                  | inl (k, has_key) ↦
                      let text =
                        release_metadata_signature_payload uuid_text before.app_id before.version
                          before.version_code file.sha256 file.file_size
                          (pos (unwrap_or before.published_at now)) in
                      let is_draft : str_eq before.status "draft" ≡ true = ground arith in
                      let narrow =
                        find-narrow (is_release admin.tenant_id id) (λ b. str_eq b.status "draft")
                          s.releases before found is_draft in
                      elim (Result-cases (sign k text)) [
                        | inr (x, unsigned) ↦ absurd (ground arith)
                        | inl (g, signs) ↦ record {
                          before = before;
                          file = file;
                          key = k;
                          signature = g;
                          found = found;
                          is_draft = is_draft;
                          has_file = has_file;
                          signs = signs;
                          same_files = ground arith;
                          rows = ground arith;
                        }
                      ]
                ]
              ]
      ]

  create_signed_release_file-tables :
      (uuid_text : ℕ → String) (lower : String → String) (J : Json V) (key : Result SigningKey)
      (sign : ReleaseSigner) (now fresh nil : ℕ) (s t : Releases V) (admin : AdminContext)
      (app_id : ℕ) (payload : RegisterReleaseFileInput V) (f : ReleaseFile V)
      → create_signed_release_file uuid_text lower J key sign now fresh nil s admin app_id payload
        ≡ ok (f, t)
      → (t.releases ≡ s.releases) × (t.files ≡ s.files ++ (f ∷ []))
  unfolding create_signed_release_file create_release_file
  create_signed_release_file-tables uuid_text lower J key sign now fresh nil s t admin app_id
        payload f done =
      elim (Result-cases key) [
        | inr (x, no_key) ↦ absurd (ground arith)
        | inl (k, has_key) ↦ elim (Result-cases (normalize_file_for_signature lower payload)) [
          | inr (x, bad) ↦ absurd (ground arith)
          | inl (text, good) ↦ elim (Result-cases (sign k text)) [
            | inr (x, unsigned) ↦ absurd (ground arith)
            | inl (g, signs) ↦
                elim (Result-cases (
                  new_release_file uuid_text lower J fresh admin.tenant_id app_id payload k.id k.kid
                    g)) [ inr (x, bad) ↦ absurd (ground arith) | inl (new, made) ↦ ground arith ]
          ]
        ]
      ]

  pub register_release_file-tables :
      (uuid_text : ℕ → String) (lower : String → String) (J : Json V) (key : Result SigningKey)
      (sign : ReleaseSigner) (now fresh nil : ℕ) (s t : Releases V) (admin : AdminContext)
      (app_id : ℕ) (payload : RegisterReleaseFileInput V) (f : ReleaseFile V)
      → register_release_file uuid_text lower J key sign now fresh nil s admin app_id payload
        ≡ ok (f, t)
      → (t.releases ≡ s.releases) × (t.files ≡ s.files ++ (f ∷ []))
  unfolding register_release_file
  register_release_file-tables uuid_text lower J key sign now fresh nil s t admin app_id payload f
        done =
      create_signed_release_file-tables uuid_text lower J key sign now fresh nil s t admin app_id
        payload f (ground arith)

  pub upload_release_file-tables :
      (uuid_text : ℕ → String) (lower : String → String) (J : Json V) (key : Result SigningKey)
      (sign : ReleaseSigner) (now fresh nil upload_id : ℕ) (s t : Releases V) (admin : AdminContext)
      (app_id : ℕ) (file_name : String) (body_len : ℕ) (digest : String) (put : Result (Unit {0}))
      (f : ReleaseFile V)
      → upload_release_file uuid_text lower J key sign now fresh nil upload_id s admin app_id
          file_name body_len digest put
        ≡ ok (f, t)
      → (t.releases ≡ s.releases) × (t.files ≡ s.files ++ (f ∷ []))
  unfolding upload_release_file
  upload_release_file-tables uuid_text lower J key sign now fresh nil upload_id s t admin app_id
        file_name body_len digest put f done =
      let payload : RegisterReleaseFileInput V = record {
        storage_key = some (
            "tenants/"
            ⊕ uuid_text admin.tenant_id
            ⊕ "/apps/"
            ⊕ uuid_text app_id
            ⊕ "/releases/uploads/"
            ⊕ uuid_text upload_id);
        file_name = file_name;
        file_size = pos body_len;
        sha256 = digest;
        metadata = none;
      } in
      create_signed_release_file-tables uuid_text lower J key sign now fresh nil s t admin app_id
        payload f (ground arith)
