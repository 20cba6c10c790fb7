-- ===== src/Release/Input.antt =====
-- backend/src/modules/release/model.rs: the validation of inputs. `Uuid::new_v4()`, the text of an
-- identifier and `to_lowercase` are parameters.
use Prim.Native.String.{◌∷◌ as ◌∷ᵗ◌, [] as []ᵗ}
use Prim.Native.Char.{code}
use entitle_hub.Base.{
  ℕ, Bool, true, false, ◌&&◌, ◌||◌, not, Option, none, some, String, str_eq, ◌==◌, ltb,
  if◌then◌else◌, unwrap_or,
}
use entitle_hub.Base.Int.{ℤ, pos, leb_ℤ}
use entitle_hub.Base.Text.{
  trim, is_empty, byte_len, has_code, all_codes, starts_with, is_ascii_alphanumeric,
  is_ascii_hexdigit,
}
use entitle_hub.Base.Json.{Json}
use entitle_hub.Device.{clean_optional}
use entitle_hub.Error.{Result, ok, err, ◌>>=◌, ◌>>◌, reject_if, validation_failed}
use entitle_hub.Release.{
  NewReleaseFile, RegisterReleaseFileInput, CreateReleaseInput, UpdateReleaseInput, UpdateRelease,
  NewRelease, ◌⊕◌,
}

abbrev is_file_name_char : ℕ → Bool
is_file_name_char c = is_ascii_alphanumeric c || c == 46 || c == 95 || c == 45

-- The codes are those of `/`, the backslash and the null character.
is_bad_file_name : String → Bool
is_bad_file_name s =
    has_code 47 s
    || has_code 92 s
    || has_code 0 s
    || str_eq s "."
    || str_eq s ".."
    || starts_with "." s
    || not (all_codes is_file_name_char s)

unfoldable pub normalize_file_name : String → Result String
unfolding is_bad_file_name
normalize_file_name file_name = do
  reject_if (is_empty (trim file_name)) (validation_failed "file_name is required")
  reject_if (ltb 255 (byte_len (trim file_name))) (validation_failed "file_name is too long")
  reject_if (is_bad_file_name (trim file_name)) (validation_failed "file_name is invalid")
  ok (trim file_name)

unfoldable pub validate_file_size : ℤ → Result ℤ
validate_file_size file_size =
    if leb_ℤ file_size (pos 0)
    then err (validation_failed "file_size must be greater than 0")
    else ok file_size

unfoldable pub normalize_sha256 : (String → String) → String → Result String
normalize_sha256 lower sha256 =
    let s = lower (trim sha256) in
    if byte_len s == 64 && all_codes is_ascii_hexdigit s
    then ok s
    else err (validation_failed "sha256 must be a 64-character hex string")

-- Whether the text up to the next `/` is `..`, or such a part follows. `part` says how much of the
-- current part is read: nothing, one dot, two dots, or anything else.
pub data Part : Type 0 where
  nothing one_dot two_dots other : Part

after_char : Part → ℕ → Part
after_char nothing c = if c == 46 then one_dot else other
after_char one_dot c = if c == 46 then two_dots else other
after_char two_dots c = other
after_char other c = other

is_two_dots : Part → Bool
is_two_dots two_dots = true
is_two_dots _ = false

-- `split('/').any(|part| part == "..")`
climbs : Part → String → Bool
unfolding after_char is_two_dots
climbs part []ᵗ = is_two_dots part
climbs part (c ∷ᵗ s) =
    let next = climbs nothing s in
    let rest = climbs (after_char part (code c)) s in
    if code c == 47 then is_two_dots part || next else rest

module _ (uuid_text : ℕ → String) where
  unfoldable pub normalize_storage_key :
      Option String → (tenant_id app_id file_id : ℕ) → Result String
  unfolding climbs
  normalize_storage_key none tenant_id app_id file_id = ok (
      "tenants/"
      ⊕ uuid_text tenant_id
      ⊕ "/apps/"
      ⊕ uuid_text app_id
      ⊕ "/releases/"
      ⊕ uuid_text file_id)
  normalize_storage_key (some storage_key) tenant_id app_id file_id = do
    reject_if (is_empty (trim storage_key)) (validation_failed "storage_key is required")
    reject_if
        (starts_with "/" (trim storage_key)
          || has_code 92 (trim storage_key)
          || has_code 0 (trim storage_key)
          || climbs nothing (trim storage_key))
        (validation_failed "storage_key is invalid")
    ok (trim storage_key)

-- `NewReleaseFile::from_input`
unfoldable pub new_release_file :
    {V : Type 0} (uuid_text : ℕ → String) (lower : String → String)
    → Json V
    → (id tenant_id app_id : ℕ) → RegisterReleaseFileInput V
    → ℕ
    → (kid signature : String) → Result (NewReleaseFile V)
new_release_file uuid_text lower J id tenant_id app_id input signing_key_id kid signature = do
  file_name ← normalize_file_name input.file_name
  file_size ← validate_file_size input.file_size
  sha256 ← normalize_sha256 lower input.sha256
  storage_key ← normalize_storage_key uuid_text input.storage_key tenant_id app_id id
  ok (record {
    id = id;
    tenant_id = tenant_id;
    app_id = app_id;
    storage_key = storage_key;
    file_name = file_name;
    file_size = file_size;
    sha256 = sha256;
    signing_key_id = signing_key_id;
    signature_kid = kid;
    signature = signature;
    signature_alg = "Ed25519";
    metadata = unwrap_or input.metadata J.empty_object;
  })

unfoldable pub validate_register_release_file_input :
    {V : Type 0} (uuid_text : ℕ → String) (lower : String → String)
    → (nil : ℕ) → RegisterReleaseFileInput V
    → (tenant_id app_id : ℕ) → Result (Unit {0})
validate_register_release_file_input uuid_text lower nil input tenant_id app_id = do
  _ ← normalize_file_name input.file_name
  _ ← validate_file_size input.file_size
  _ ← normalize_sha256 lower input.sha256
  _ ← normalize_storage_key uuid_text input.storage_key tenant_id app_id nil
  ok tt

unfoldable pub normalize_version : String → Result String
normalize_version version = do
  reject_if (is_empty (trim version)) (validation_failed "version is required")
  reject_if (ltb 128 (byte_len (trim version))) (validation_failed "version is too long")
  ok (trim version)

unfoldable pub validate_version_code : ℤ → Result ℤ
validate_version_code version_code =
    if leb_ℤ version_code (pos 0)
    then err (validation_failed "version_code must be greater than 0")
    else ok version_code

-- `NewRelease::from_input`
unfoldable pub new_release : (id tenant_id app_id : ℕ) → CreateReleaseInput → Result NewRelease
new_release id tenant_id app_id input = do
  version ← normalize_version input.version
  version_code ← validate_version_code input.version_code
  ok (record {
    id = id;
    tenant_id = tenant_id;
    app_id = app_id;
    file_id = input.file_id;
    version = version;
    version_code = version_code;
    changelog = clean_optional input.changelog;
    force_update = unwrap_or input.force_update false;
  })

-- `UpdateRelease::from_input`
unfoldable pub update_of : UpdateReleaseInput → Result UpdateRelease
update_of input = do
  version ← normalize_version input.version
  version_code ← validate_version_code input.version_code
  ok (record {
    version = version;
    version_code = version_code;
    changelog = clean_optional input.changelog;
    force_update = unwrap_or input.force_update false;
  })
