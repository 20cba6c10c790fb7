-- ===== src/Release/Reachable.antt =====
-- backend/src/modules/release/admin.rs and client.rs: the operations on releases as steps, and what
-- they keep.
use entitle_hub.Base.{some, ℕ, ◌≡◌, refl, String, [], inl, inr, arith}
use entitle_hub.Base.Json.{Json}
use entitle_hub.Base.Rows.{count}
use entitle_hub.Error.{Result, ok, Result-cases}
use entitle_hub.Admin.{AdminContext}
use entitle_hub.ClientAuth.{ClientContext}
use entitle_hub.Release.{
  Release, ReleaseFile, UpdateReleaseInput, CreateReleaseInput, RegisterReleaseFileInput,
}
use entitle_hub.Release.Rows.{Releases, is_release_in, updated, deprecated, deleted}
use entitle_hub.Release.Tokens.{
  ReleaseWithFile, ValidatedDownload, latest_published, consume_download_token,
  create_download_token,
}
use entitle_hub.Release.Admin.{
  SigningKey, ReleaseSigner, register_release_file, upload_release_file, create_release,
  update_release, publish_release, deprecate_release, delete_release,
}
use entitle_hub.Release.Client.{
  LatestReleaseResponse, latest_release, download_release, offer, download_request,
}
use entitle_hub.Release.Signed.{
  deprecate_release-tables, delete_release-tables, update_release-tables, create_release-tables,
  publish_release-tables, register_release_file-tables, upload_release_file-tables,
}
use entitle_hub.Release.Published.{
  WellSigned, grown, update-WellSigned, Publication-WellSigned, append-WellSigned,
  draft_unpublished,
}
use entitle_hub.Release.Offered.{Verifies, latest-Signature, response-Verifies}

module _ {V : Type 0} (uuid_text : ℕ → String) (sign : ReleaseSigner) where
  -- What an administrator or a client does to the tables. The release that is returned, the clock,
  -- the fresh identifiers, the signing key and the outcomes of other code are any.
  infix 40 ◌⟶◌ ◌⟶*◌
  pub data ◌⟶◌ : Releases V → Releases V → Type 0 where
    registers :
        (lower : String → String) (J : Json V) (key : Result SigningKey) (now fresh nil : ℕ)
        (s t : Releases V) (admin : AdminContext) (app_id : ℕ)
        (payload : RegisterReleaseFileInput V) (f : ReleaseFile V)
        → register_release_file uuid_text lower J key sign now fresh nil s admin app_id payload
          ≡ ok (f, t)
        → s ⟶ t
    uploads :
        (lower : String → String) (J : Json V) (key : Result SigningKey)
        (now fresh nil upload_id : ℕ) (s t : Releases V) (admin : AdminContext) (app_id : ℕ)
        (file_name : String) (body_len : ℕ) (digest : String) (put : Result (Unit {0}))
        (f : ReleaseFile V)
        → upload_release_file uuid_text lower J key sign now fresh nil upload_id s admin app_id
            file_name body_len digest put
          ≡ ok (f, t)
        → s ⟶ t
    creates :
        (now fresh : ℕ) (s t : Releases V) (admin : AdminContext) (app_id : ℕ)
        (payload : CreateReleaseInput) (r : Release)
        → create_release now fresh s admin app_id payload ≡ ok (r, t)
        → s ⟶ t
    updates :
        (now : ℕ) (s t : Releases V) (admin : AdminContext) (id : ℕ) (payload : UpdateReleaseInput)
        (r : Release)
        → update_release now s admin id payload ≡ ok (r, t)
        → s ⟶ t
    publishes :
        (key : Result SigningKey) (now : ℕ) (s t : Releases V) (admin : AdminContext) (id : ℕ)
        (r : Release)
        → publish_release uuid_text key sign now s admin id ≡ ok (r, t)
        → s ⟶ t
    deprecates :
        (now : ℕ) (s t : Releases V) (admin : AdminContext) (id : ℕ) (r : Release)
        → deprecate_release now s admin id ≡ ok (r, t)
        → s ⟶ t
    deletes :
        (now : ℕ) (s t : Releases V) (admin : AdminContext) (id n : ℕ)
        → delete_release now s admin id ≡ ok (n, t)
        → s ⟶ t
    offers :
        (hash : String → Result String) (limiter : Result (Unit {0})) (now ttl fresh : ℕ)
        (token : String) (s t : Releases V) (client : ClientContext V)
        → (latest_release hash limiter now ttl fresh token s client).1 ≡ t
        → s ⟶ t
    downloads :
        (hash : String → Result String) (limiter : ValidatedDownload → Result (Unit {0}))
        (open_object : String → Result ℕ) (now : ℕ) (s t : Releases V) (file_name token : String)
        → (download_release hash limiter open_object now s file_name token).1 ≡ t
        → s ⟶ t

  pub data ◌⟶*◌ : Releases V → Releases V → Type 0 where
    here : {s : Releases V} → s ⟶* s
    then : {s t u : Releases V} → s ⟶ t → t ⟶* u → s ⟶* u

  untouched :
      (s t : Releases V)
      → t.files ≡ s.files
      → t.releases ≡ s.releases
      → WellSigned uuid_text sign s
      → WellSigned uuid_text sign t
  untouched s t files rows ok_s = record {
    all_signed = rw (files, rows) ok_s.all_signed;
    distinct = λ id. rw rows (ok_s.distinct id);
  }

  offer-tables :
      (hash : String → Result String) (limiter : Result (Unit {0})) (now ttl fresh : ℕ)
      (token : String) (s t : Releases V) (client : ClientContext V) (w : ReleaseWithFile)
      → offer hash limiter now ttl fresh token s client ≡ ok (w, t)
      → (latest_published s client.tenant_id client.app_id ≡ some w)
        × (t.files ≡ s.files)
        × (t.releases ≡ s.releases)
  unfolding offer create_download_token
  offer-tables hash limiter now ttl fresh token s t client w done =
      elim (Result-cases (hash token)) [
        | inl (h, e) ↦ ground arith
        | inr (x, e) ↦ absurd (ground arith)
      ]

  latest_release-tables :
      (hash : String → Result String) (limiter : Result (Unit {0})) (now ttl fresh : ℕ)
      (token : String) (s : Releases V) (client : ClientContext V)
      → let t = (latest_release hash limiter now ttl fresh token s client).1 in
        (t.files ≡ s.files) × (t.releases ≡ s.releases)
  unfolding latest_release
  latest_release-tables hash limiter now ttl fresh token s client =
      elim (Result-cases (offer hash limiter now ttl fresh token s client)) [
        | inl ((w, t), e) ↦
            let kept = offer-tables hash limiter now ttl fresh token s t client w e in ground arith
        | inr (x, e) ↦ ground arith
      ]

  download_release-tables :
      (hash : String → Result String) (limiter : ValidatedDownload → Result (Unit {0}))
      (open_object : String → Result ℕ) (now : ℕ) (s : Releases V) (file_name token : String)
      → let t = (download_release hash limiter open_object now s file_name token).1 in
        (t.files ≡ s.files) × (t.releases ≡ s.releases)
  unfolding download_release consume_download_token
  download_release-tables hash limiter open_object now s file_name token =
      elim (Result-cases (download_request hash file_name token)) [
        | inl (found, e) ↦ rw e (refl, refl)
        | inr (x, e) ↦ rw e (refl, refl)
      ]

  step-WellSigned :
      (s t : Releases V) → s ⟶ t → WellSigned uuid_text sign s → WellSigned uuid_text sign t
  step-WellSigned _ _ (registers lower J key now fresh nil s t admin app_id payload f done) ok_s =
      let (rows, files) =
        register_release_file-tables uuid_text lower J key sign now fresh nil s t admin app_id
          payload f done in
      grown uuid_text sign s t f rows files ok_s
  step-WellSigned _ _
        (uploads lower J key now fresh nil upload_id s t admin app_id file_name body_len digest put
          f done)
        ok_s =
      let (rows, files) =
        upload_release_file-tables uuid_text lower J key sign now fresh nil upload_id s t admin
          app_id file_name body_len digest put f done in
      grown uuid_text sign s t f rows files ok_s
  step-WellSigned _ _ (creates now fresh s t admin app_id payload r done) ok_s =
      let (files, status, unused, rows) =
        create_release-tables now fresh s t admin app_id payload r done in
      append-WellSigned uuid_text sign s t r files rows status unused ok_s
  step-WellSigned _ _ (updates now s t admin id payload r done) ok_s =
      let (files, (input, rows)) = update_release-tables now s t admin id payload r done in
      update-WellSigned uuid_text sign s t (is_release_in admin.tenant_id id "draft")
        (updated now input) files rows (λ q. refl) (λ q h. draft_unpublished q (ground arith)) ok_s
  step-WellSigned _ _ (publishes key now s t admin id r done) ok_s =
      Publication-WellSigned uuid_text sign now admin.tenant_id id s t
        (publish_release-tables uuid_text key sign now s t admin id r done) ok_s
  step-WellSigned _ _ (deprecates now s t admin id r done) ok_s =
      let (files, rows) = deprecate_release-tables now s t admin id r done in
      update-WellSigned uuid_text sign s t (is_release_in admin.tenant_id id "published")
        (deprecated now) files rows (λ q. refl) (λ q h. refl) ok_s
  step-WellSigned _ _ (deletes now s t admin id n done) ok_s =
      let (files, rows) = delete_release-tables now s t admin id n done in
      update-WellSigned uuid_text sign s t (is_release_in admin.tenant_id id "draft") (deleted now)
        files rows (λ q. refl) (λ q h. draft_unpublished q (ground arith)) ok_s
  step-WellSigned _ _ (offers hash limiter now ttl fresh token s t client done) ok_s =
      let (files, rows) = latest_release-tables hash limiter now ttl fresh token s client in
      untouched s t (ground arith) (ground arith) ok_s
  step-WellSigned _ _ (downloads hash limiter open_object now s t file_name token done) ok_s =
      let (files, rows) = download_release-tables hash limiter open_object now s file_name token in
      untouched s t (ground arith) (ground arith) ok_s

  run-WellSigned :
      (s t : Releases V) → s ⟶* t → WellSigned uuid_text sign s → WellSigned uuid_text sign t
  run-WellSigned s t here ok_s = ok_s
  run-WellSigned s t (then step rest) ok_s = run-WellSigned _ t rest (step-WellSigned s _ step ok_s)

  -- Whatever administrators and clients do with tables that start without a release, in any order
  -- and with any keys, a response to a client that asks for the latest release carries a signature,
  -- under the key whose identifier it names, of six of the response's fields, one to a line: the
  -- application, the version and its code, the hash and the size of the file, and the time of the
  -- publication. The download address and the flag of a forced update are not signed.
  pub latest_release-Verifies :
      (hash : String → Result String) (limiter : Result (Unit {0})) (now ttl fresh : ℕ)
      (token : String) (start s : Releases V) (client : ClientContext V)
      (response : LatestReleaseResponse)
      → start.releases ≡ []
      → start ⟶* s
      → (latest_release hash limiter now ttl fresh token s client).0 ≡ ok response
      → Verifies uuid_text sign response
  unfolding latest_release count
  latest_release-Verifies hash limiter now ttl fresh token start s client response empty run
        answered =
      let ok_start : WellSigned uuid_text sign start = record {
        all_signed = rw empty tt;
        distinct = λ id. rw empty (omega arith);
      } in
      elim (Result-cases (offer hash limiter now ttl fresh token s client)) [
        | inl ((w, t), e) ↦
            let (offered, _, _) = offer-tables hash limiter now ttl fresh token s t client w e in
            let (r, signed, built) =
              latest-Signature uuid_text sign s client.tenant_id client.app_id w
                (run-WellSigned start s run ok_start) offered in
            response-Verifies uuid_text sign s.files r w token response signed built (ground arith)
        | inr (x, e) ↦ absurd (ground arith)
      ]
