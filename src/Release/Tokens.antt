-- ===== src/Release/Tokens.antt =====
-- backend/src/modules/release/repository.rs: the release that clients are offered, and the download
-- tokens. `now` is the database's clock.
use mathlib.Core.Option
use entitle_hub.Base.{
  ℕ, Bool, true, false, ◌&&◌, ◌||◌, not, Option, none, some, List, [], ◌∷◌, ◌++◌, String, str_eq,
  ◌==◌, ltb, leb, if◌then◌else◌, is_some, is_id,
}
use entitle_hub.Base.Int.{ℤ, ltb_ℤ, leb_ℤ}
use entitle_hub.Base.Rows.{find, exists, update, select}
use entitle_hub.License.{License}
use entitle_hub.Subscription.{Subscription}
use entitle_hub.Device.{Device}
use entitle_hub.Store.{Application}
use entitle_hub.Release.{ReleaseFile, Release, DownloadToken}
use entitle_hub.Release.Rows.{Releases, find_file_by_id, is_file}

-- What the client handler reads of `ReleaseWithFile`: a published release with its file.
pub record ReleaseWithFile : Type 0 where
  pub id : ℕ
  pub tenant_id : ℕ
  pub app_id : ℕ
  pub file_id : ℕ
  pub version : String
  pub version_code : ℤ
  pub force_update : Bool
  pub release_signature_kid : String
  pub release_signature : String
  pub release_signature_alg : String
  pub published_at : Option ℕ
  pub file_name : String
  pub file_size : ℤ
  pub sha256 : String

pub record ValidatedDownload : Type 0 where
  pub file_id : ℕ
  pub device_id : ℕ
  pub storage_key : String
  pub file_name : String
  pub file_size : ℤ
  pub sha256 : String

-- `order by version_code desc, published_at desc nulls last, created_at desc`
abbrev newer_published : Release → Release → (a b : Option ℕ) → Bool
newer_published r q none none = leb q.created_at r.created_at
newer_published r q none (some b) = false
newer_published r q (some a) none = true
newer_published r q (some a) (some b) = ltb b a || (a == b && leb q.created_at r.created_at)

unfoldable pub newer : Release → Release → Bool
newer r q =
    ltb_ℤ q.version_code r.version_code
    || (leb_ℤ q.version_code r.version_code && newer_published r q r.published_at q.published_at)

-- `order by ... limit 1`
unfoldable pub newest : List Release → Option Release
newest [] = none
newest (r ∷ rows) = elim (newest rows) [
  | none ↦ some r
  | some q ↦ if newer r q then some r else some q
]

-- `status in ('active', 'trialing')` and the times of a subscription; a license's likewise.
abbrev reached : ℕ → Option ℕ → Bool
reached now none = true
reached now (some t) = leb t now

abbrev not_past : ℕ → Option ℕ → Bool
not_past now none = true
not_past now (some t) = ltb now t

abbrev pub is_open_application : DownloadToken → Application → Bool
is_open_application dt a =
    a.id == dt.app_id
    && a.tenant_id == dt.tenant_id
    && str_eq a.status "active"
    && not (is_some a.deleted_at)

abbrev pub used : ℕ → DownloadToken → DownloadToken
used now dt = record dt { used_at = some now }

module _ {V : Type 0} where
  -- The rows that the statement joins and selects, with the file.
  abbrev pub joined : Release → ReleaseFile V → Option ReleaseWithFile
  joined r f = elim r.signature_kid [
    | none ↦ none
    | some kid ↦ elim r.signature [
      | none ↦ none
      | some signature ↦ elim r.signature_alg [
        | none ↦ none
        | some alg ↦ some (record {
          id = r.id;
          tenant_id = r.tenant_id;
          app_id = r.app_id;
          file_id = r.file_id;
          version = r.version;
          version_code = r.version_code;
          force_update = r.force_update;
          release_signature_kid = kid;
          release_signature = signature;
          release_signature_alg = alg;
          published_at = r.published_at;
          file_name = f.file_name;
          file_size = f.file_size;
          sha256 = f.sha256;
        })
      ]
    ]
  ]

  abbrev pub is_offered : List (ReleaseFile V) → (tenant_id app_id : ℕ) → Release → Bool
  is_offered files tenant_id app_id r =
      r.tenant_id == tenant_id
      && r.app_id == app_id
      && str_eq r.status "published"
      && is_some r.published_at
      && is_some r.signing_key_id
      && is_some r.signature_kid
      && is_some r.signature
      && is_some r.signature_alg
      && not (is_some r.deleted_at)
      && is_some (find_file_by_id files r.tenant_id r.app_id r.file_id)

  abbrev pub with_file : List (ReleaseFile V) → Release → Option ReleaseWithFile
  with_file files r = elim (find_file_by_id files r.tenant_id r.app_id r.file_id) [
    | none ↦ none
    | some f ↦ joined r f
  ]

  unfoldable pub latest_published : Releases V → (tenant_id app_id : ℕ) → Option ReleaseWithFile
  unfolding newest find_file_by_id select
  latest_published s tenant_id app_id =
      elim (newest (select (is_offered s.files tenant_id app_id) s.releases)) [
        | none ↦ none
        | some r ↦ with_file s.files r
      ]

  unfoldable pub create_download_token : Releases V → DownloadToken → Releases V
  create_download_token s token = record s { tokens = s.tokens ++ (token ∷ []) }

  -- The entitlements that let the device of a token download.
  abbrev pub is_licensed : ℕ → DownloadToken → Device V → License V → Bool
  is_licensed now dt d l =
      is_id d.license_id l.id
      && l.tenant_id == dt.tenant_id
      && l.app_id == dt.app_id
      && str_eq l.status "active"
      && not (is_some l.revoked_at)
      && not (is_some l.deleted_at)
      && reached now l.starts_at
      && not_past now l.expires_at

  abbrev pub is_subscribed : ℕ → DownloadToken → Device V → Subscription V → Bool
  is_subscribed now dt d u =
      is_id d.subscription_id u.id
      && u.tenant_id == dt.tenant_id
      && u.app_id == dt.app_id
      && (str_eq u.status "active" || str_eq u.status "trialing")
      && not (is_some u.cancelled_at)
      && not (is_some u.deleted_at)
      && leb u.starts_at now
      && not_past now u.expires_at

  abbrev pub is_entitled : ℕ → Releases V → DownloadToken → Device V → Bool
  is_entitled now s dt d =
      exists (is_licensed now dt d) s.store.licenses
      || exists (is_subscribed now dt d) s.store.subscriptions

  abbrev pub is_downloading : ℕ → Releases V → DownloadToken → Device V → Bool
  is_downloading now s dt d =
      d.id == dt.device_id
      && d.tenant_id == dt.tenant_id
      && d.app_id == dt.app_id
      && str_eq d.status "active"
      && not (is_some d.deleted_at)
      && is_entitled now s dt d

  abbrev pub is_named_file : DownloadToken → String → ReleaseFile V → Bool
  is_named_file dt file_name f =
      is_file dt.tenant_id dt.app_id dt.file_id f && str_eq f.file_name file_name

  -- The `where` clause of the statement.
  unfoldable pub is_consumable :
      ℕ → Releases V → (file_name token_hash : String) → DownloadToken → Bool
  is_consumable now s file_name token_hash dt =
      str_eq dt.token_hash token_hash
      && str_eq dt.kind "release_file"
      && not (is_some dt.used_at)
      && not (is_some dt.revoked_at)
      && ltb now dt.expires_at
      && exists (is_named_file dt file_name) s.files
      && exists (is_open_application dt) s.store.applications
      && exists (is_downloading now s dt) s.store.devices

  abbrev download_of : DownloadToken → ReleaseFile V → ValidatedDownload
  download_of dt f = record {
    file_id = f.id;
    device_id = dt.device_id;
    storage_key = f.storage_key;
    file_name = f.file_name;
    file_size = f.file_size;
    sha256 = f.sha256;
  }

  unfoldable pub consume_download_token :
      ℕ → Releases V → (file_name token_hash : String) → Option ValidatedDownload × Releases V
  consume_download_token now s file_name token_hash =
      let consumed = record s {
        tokens = update (is_consumable now s file_name token_hash) (used now) s.tokens;
      } in
      (
        elim (find (is_consumable now s file_name token_hash) s.tokens) [
          | none ↦ none
          | some dt ↦ Option.map (download_of dt) (find (is_named_file dt file_name) s.files)
        ],
        consumed,
      )
