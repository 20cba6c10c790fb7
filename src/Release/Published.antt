-- ===== src/Release/Published.antt =====
-- backend/src/modules/release/admin.rs and client.rs: what is signed stays what is published.
use entitle_hub.Base.{
  ℕ, ◌≤◌, ◌≡◌, refl, sym, ap, Bool, true, false, some, List, [], ◌∷◌, ◌++◌, String, ◌==◌, str_eq,
  eq_iff, unwrap_or, Bool-cases, ◌⊎◌, inl, inr, arith,
}
use entitle_hub.Base.Int.{pos}
use entitle_hub.Base.Rows.{exists, update, count, All, All-map, count-update-same, find-true}
use entitle_hub.Base.Changes.{
  All-update, All-update-twice, All-append, count-append, find-append, exists-count, find-only,
  twice, twice-hit,
}
use entitle_hub.Error.{ok}
use entitle_hub.Release.{Release, ReleaseFile, release_metadata_signature_payload}
use entitle_hub.Release.Rows.{
  Releases, is_release, is_release_in, published, signed, find_file_by_id, is_file,
}
use entitle_hub.Release.Admin.{SigningKey, ReleaseSigner}
use entitle_hub.Release.Signed.{Publication}

pub draft_unpublished :
    (r : Release) → str_eq r.status "draft" ≡ true → str_eq r.status "published" ≡ false
draft_unpublished r h = rw ((eq_iff r.status "draft").0 h) refl

module _ {V : Type 0} (uuid_text : ℕ → String) (sign : ReleaseSigner) where
  -- The signature of a release is that of its row and of its file.
  pub record Signature (files : List (ReleaseFile V)) (r : Release) : Type 0 where
    pub key : SigningKey
    pub file : ReleaseFile V
    pub at : ℕ
    pub text : String
    pub has_file : find_file_by_id files r.tenant_id r.app_id r.file_id ≡ some file
    pub dated : r.published_at ≡ some at
    pub named : r.signature_kid ≡ some key.kid
    pub held : r.signature ≡ some text
    pub signs :
        sign key (
          release_metadata_signature_payload uuid_text r.app_id r.version r.version_code file.sha256
            file.file_size
            (pos at))
        ≡ ok text

  abbrev pub IsSigned : List (ReleaseFile V) → Release → Type 0
  IsSigned files r = (str_eq r.status "published" ≡ false) ⊎ Signature files r

  -- Every published release is signed, and identifiers are a primary key.
  pub record WellSigned (s : Releases V) : Type 0 where
    pub all_signed : All (IsSigned s.files) s.releases
    pub distinct : (id : ℕ) → count (λ r. r.id == id) s.releases ≤ 1

  Signature-grows :
      (files : List (ReleaseFile V)) (f : ReleaseFile V) (r : Release)
      → IsSigned files r
      → IsSigned (files ++ (f ∷ [])) r
  unfolding find_file_by_id
  Signature-grows files f r (inl h) = inl h
  Signature-grows files f r (inr h) = inr (record {
    key = h.key;
    file = h.file;
    at = h.at;
    text = h.text;
    has_file = find-append (is_file r.tenant_id r.app_id r.file_id) files f h.file h.has_file;
    dated = h.dated;
    named = h.named;
    held = h.held;
    signs = h.signs;
  })

  -- A change of drafts, or of the status to another than `published`.
  pub update-WellSigned :
      (s t : Releases V) (p : Release → Bool) (f : Release → Release)
      → t.files ≡ s.files
      → t.releases ≡ update p f s.releases
      → ((r : Release) → (f r).id ≡ r.id)
      → ((r : Release) → p r ≡ true → str_eq (f r).status "published" ≡ false)
      → WellSigned s
      → WellSigned t
  update-WellSigned s t p f same_files rows keeps_id leaves ok_s = record {
    all_signed =
        rw (same_files, rows)
          (All-update (IsSigned s.files) p f s.releases (λ r hit _. inl (leaves r hit))
            ok_s.all_signed);
    distinct = λ id. rw rows (
        rw
          (count-update-same (λ r. r.id == id) p f s.releases (λ r. ap (λ n. n == id) (keeps_id r)))
          (ok_s.distinct id));
  }

  pub Publication-WellSigned :
      (now tenant_id id : ℕ) (s t : Releases V)
      → Publication uuid_text sign now s t tenant_id id
      → WellSigned s
      → WellSigned t
  Publication-WellSigned now tenant_id id s t made ok_s =
      let before = made.before in
      let belongs = find-true (is_release tenant_id id) s.releases before made.found in
      let ours : before.tenant_id ≡ tenant_id = ground arith in
      let only =
        find-only (is_release tenant_id id) (λ r. r.id == id) s.releases before
          (λ r h. ground arith) (ok_s.distinct id) made.found in
      let final = signed now made.key.id made.key.kid made.signature (published now before) in
      let row : twice (is_release_in tenant_id id "draft") (is_release_in tenant_id id "published")
            (published now) (signed now made.key.id made.key.kid made.signature) before
          ≡ final =
        twice-hit (is_release_in tenant_id id "draft") (is_release_in tenant_id id "published")
          (published now) (signed now made.key.id made.key.kid made.signature) before
          (rw (belongs, made.is_draft) refl) (rw belongs refl) in
      let good : IsSigned s.files (
          twice (is_release_in tenant_id id "draft") (is_release_in tenant_id id "published")
            (published now) (signed now made.key.id made.key.kid made.signature) before) =
        rw row (
          inr (record {
            key = made.key;
            file = made.file;
            at = unwrap_or before.published_at now;
            text = made.signature;
            has_file = rw ours made.has_file;
            dated = refl;
            named = refl;
            held = refl;
            signs = made.signs;
          })) in
      record {
        all_signed =
            rw (made.same_files, made.rows)
              (All-update-twice (IsSigned s.files) (λ r. r.id == id)
                (is_release_in tenant_id id "draft") (is_release_in tenant_id id "published")
                (published now) (signed now made.key.id made.key.kid made.signature) s.releases
                before (λ r h. ground arith) (λ r h. ground arith) (ok_s.distinct id) only good
                ok_s.all_signed);
        distinct = λ n. rw made.rows (
            rw
              (
                count-update-same (λ r. r.id == n) (is_release_in tenant_id id "published")
                    (signed now made.key.id made.key.kid made.signature)
                    (update (is_release_in tenant_id id "draft") (published now) s.releases)
                    (λ r. refl),
                count-update-same (λ r. r.id == n) (is_release_in tenant_id id "draft")
                    (published now) s.releases (λ r. refl),
              )
              (ok_s.distinct n));
      }

  pub append-WellSigned :
      (s t : Releases V) (r : Release)
      → t.files ≡ s.files
      → t.releases ≡ s.releases ++ (r ∷ [])
      → r.status ≡ "draft"
      → exists (λ q. q.id == r.id) s.releases ≡ false
      → WellSigned s
      → WellSigned t
  append-WellSigned s t r same_files rows status fresh ok_s = record {
    all_signed =
        rw (same_files, rows)
          (All-append (IsSigned s.files) s.releases r ok_s.all_signed (inl (rw status refl)));
    distinct = λ id. rw rows (
        let added = count-append (λ q. q.id == id) s.releases r in
        elim (Bool-cases (r.id == id)) [
          | inl same ↦
              let e : r.id ≡ id = ground arith in
              let none_yet : count (λ q. q.id == id) s.releases ≡ 0 =
                rw (sym e) (exists-count (λ q. q.id == r.id) s.releases fresh) in
              ground arith
          | inr other ↦ ground (arith, ok_s.distinct id)
        ]);
  }

  -- A table with one more file.
  pub grown :
      (s t : Releases V) (f : ReleaseFile V)
      → t.releases ≡ s.releases
      → t.files ≡ s.files ++ (f ∷ [])
      → WellSigned s
      → WellSigned t
  grown s t f rows files ok_s = record {
    all_signed =
        rw (rows, files)
          (All-map s.releases (λ r h. Signature-grows s.files f r h) ok_s.all_signed);
    distinct = λ id. rw rows (ok_s.distinct id);
  }
