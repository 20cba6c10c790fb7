-- ===== src/Release.antt =====
-- backend/src/modules/release/model.rs: releases, their files and download tokens, and the texts that
-- are signed. Instants are natural numbers of seconds.
pub mod Input
pub mod Rows
pub mod Tokens
pub mod Admin
pub mod Client
pub mod Signed
pub mod Published
pub mod Offered
pub mod Reachable
pub mod Entitled
pub mod Downloads
use Prim.Native.String as Text
use entitle_hub.Base.{ℕ, Bool, Option, String}
use entitle_hub.Base.Int.{ℤ}
use entitle_hub.Base.Decimal.{to_string}

pub record ReleaseFile (V : Type 0) : Type 0 where
  pub id : ℕ
  pub tenant_id : ℕ
  pub app_id : ℕ
  pub storage_key : String
  pub file_name : String
  pub file_size : ℤ
  pub sha256 : String
  pub signing_key_id : ℕ
  pub signature_kid : String
  pub signature : String
  pub signature_alg : String
  pub metadata : V
  pub created_at : ℕ

pub record NewReleaseFile (V : Type 0) : Type 0 where
  pub id : ℕ
  pub tenant_id : ℕ
  pub app_id : ℕ
  pub storage_key : String
  pub file_name : String
  pub file_size : ℤ
  pub sha256 : String
  pub signing_key_id : ℕ
  pub signature_kid : String
  pub signature : String
  pub signature_alg : String
  pub metadata : V

pub record Release : Type 0 where
  pub id : ℕ
  pub tenant_id : ℕ
  pub app_id : ℕ
  pub file_id : ℕ
  pub version : String
  pub version_code : ℤ
  pub status : String
  pub changelog : Option String
  pub force_update : Bool
  pub signing_key_id : Option ℕ
  pub signature_kid : Option String
  pub signature : Option String
  pub signature_alg : Option String
  pub published_at : Option ℕ
  pub deprecated_at : Option ℕ
  pub created_at : ℕ
  pub updated_at : ℕ
  pub deleted_at : Option ℕ

pub record NewRelease : Type 0 where
  pub id : ℕ
  pub tenant_id : ℕ
  pub app_id : ℕ
  pub file_id : ℕ
  pub version : String
  pub version_code : ℤ
  pub changelog : Option String
  pub force_update : Bool

pub record DownloadToken : Type 0 where
  pub id : ℕ
  pub tenant_id : ℕ
  pub app_id : ℕ
  pub device_id : ℕ
  pub file_id : ℕ
  pub token_hash : String
  pub kind : String
  pub expires_at : ℕ
  pub used_at : Option ℕ
  pub revoked_at : Option ℕ
  pub created_at : ℕ

pub record RegisterReleaseFileInput (V : Type 0) : Type 0 where
  pub storage_key : Option String
  pub file_name : String
  pub file_size : ℤ
  pub sha256 : String
  pub metadata : Option V

pub record CreateReleaseInput : Type 0 where
  pub file_id : ℕ
  pub version : String
  pub version_code : ℤ
  pub changelog : Option String
  pub force_update : Option Bool

pub record UpdateReleaseInput : Type 0 where
  pub version : String
  pub version_code : ℤ
  pub changelog : Option String
  pub force_update : Option Bool

pub record UpdateRelease : Type 0 where
  pub version : String
  pub version_code : ℤ
  pub changelog : Option String
  pub force_update : Bool

infixr 60 ◌⊕◌
abbrev pub ◌⊕◌ : String → String → String
a ⊕ b = Text.◌++◌ a b

-- Six lines. The text of an identifier is the parameter `uuid_text`.
unfoldable pub release_metadata_signature_payload :
    (uuid_text : ℕ → String)
    → (app_id : ℕ) (version : String) (version_code : ℤ) (sha256 : String)
      (file_size published_at_unix : ℤ)
    → String
unfolding to_string
release_metadata_signature_payload uuid_text app_id version version_code sha256 file_size
      published_at_unix =
    uuid_text app_id
    ⊕ "\n"
    ⊕ version
    ⊕ "\n"
    ⊕ to_string version_code
    ⊕ "\n"
    ⊕ sha256
    ⊕ "\n"
    ⊕ to_string file_size
    ⊕ "\n"
    ⊕ to_string published_at_unix

unfoldable pub release_file_signature_payload : String → ℤ → String
unfolding to_string
release_file_signature_payload sha256 file_size = sha256 ⊕ ":" ⊕ to_string file_size
