-- ===== src/License/Service.antt =====
-- backend/src/modules/license/service.rs: when a license may be used, and the lookup by key.
use Prim.Native.String as Text
use entitle_hub.Base.{
  ℕ, Bool, not, ◌&&◌, Option, none, some, String, str_eq, leb, ltb, ◌==◌, if◌then◌else◌, is_some,
  List,
}
use entitle_hub.Base.Text.{trim, is_empty}
use entitle_hub.Base.Rows.{find}
use entitle_hub.Error.{
  Result, ok, err, ◌>>=◌, ◌>>◌, reject_if, ok_or, invalid_license_state, license_invalid,
  license_expired, license_not_found,
}
use entitle_hub.License.{License}

-- `if let Some(starts_at) = …`: the instant lies after `now`.
abbrev pub starts_later : Option ℕ → ℕ → Bool
starts_later none now = Bool.false
starts_later (some t) now = ltb now t

-- The instant is not after `now`.
abbrev pub has_passed : Option ℕ → ℕ → Bool
has_passed none now = Bool.false
has_passed (some t) now = leb t now

unfoldable pub validate_license_record : {V : Type 0} → License V → ℕ → Result (Unit {0})
validate_license_record l now = do
  reject_if (not (str_eq l.status "active"))
      (invalid_license_state (Text.◌++◌ "license is " l.status))
  reject_if (is_some l.revoked_at) (license_invalid "license is revoked")
  reject_if (starts_later l.starts_at now) (license_invalid "license is not active yet")
  reject_if (has_passed l.expires_at now) (license_expired "license expired")
  ok tt

unfoldable pub normalize_license_key : String → Result String
normalize_license_key key =
    if is_empty (trim key) then err (license_invalid "license key is required") else ok (trim key)

-- `find_by_app_and_key_hash` of the repository
unfoldable pub find_by_app_and_key_hash :
    {V : Type 0} → List (License V) → (tenant_id app_id : ℕ) → String → Option (License V)
find_by_app_and_key_hash rows tenant_id app_id key_hash =
    find
      (λ l.
        l.tenant_id == tenant_id
        && l.app_id == app_id
        && str_eq l.license_key_hash key_hash
        && not (is_some l.deleted_at))
      rows

-- `hash_token` with the configured pepper is the parameter `hash`.
unfoldable pub validate_license_key :
    {V : Type 0}
    → (String → Result String)
    → List (License V)
    → (tenant_id app_id : ℕ) → String
    → ℕ
    → Result (License V)
unfolding normalize_license_key find_by_app_and_key_hash validate_license_record
validate_license_key hash rows tenant_id app_id key now = do
  normalized ← normalize_license_key key
  key_hash ← hash normalized
  license ←
      ok_or (find_by_app_and_key_hash rows tenant_id app_id key_hash)
        (license_not_found "license not found")
  validate_license_record license now
  ok license
