-- ===== src/License/Laws.antt =====
-- What the validation of licenses establishes.

use entitle_hub.Base.{
  ℕ, ◌≤◌, ◌<◌, ◌≡◌, ◌≢◌, ◌↔◌, ◌⊎◌, true, Option, none, some, String, str_eq, eq_iff, arith, inl,
  inr, Option-cases, List, ◌==◌, ◌&&◌, not, is_some,
}
use entitle_hub.Base.Int.{pos, ◌≤ℤ◌}
use entitle_hub.Base.Json.{Json}
use entitle_hub.Base.Text.{trim}
use entitle_hub.Base.Rows.{find-true}
use entitle_hub.Error.{Result, ok, Result-cases}
use entitle_hub.License.{
  License, NewLicense, CreateLicenseInput, from_input, is_license_type, validate_license_window,
  lowered, or_now,
}
use entitle_hub.License.Service.{
  validate_license_record, validate_license_key, normalize_license_key, find_by_app_and_key_hash,
}

-- The instant, if there is one, is reached.
abbrev pub Started : Option ℕ → ℕ → Type 0
Started none now = Unit
Started (some t) now = t ≤ now

-- The instant, if there is one, lies ahead.
abbrev pub Unexpired : Option ℕ → ℕ → Type 0
Unexpired none now = Unit
Unexpired (some t) now = now < t

-- A license that may be used at the instant `now`.
pub record IsUsable {V : Type 0} (l : License V) (now : ℕ) : Type 0 where
  pub active : l.status ≡ "active"
  pub unrevoked : l.revoked_at ≡ none
  pub started : Started l.starts_at now
  pub unexpired : Unexpired l.expires_at now

-- A license passes exactly when it is active, not revoked, started and not expired.
pub validate_license_record-IsUsable :
    {V : Type 0} (l : License V) (now : ℕ)
    → (validate_license_record l now ≡ ok tt) ↔ IsUsable l now
unfolding validate_license_record
validate_license_record-IsUsable l now =
    (λ h. ground (arith, eq_iff l.status "active"), λ u. ground (arith, eq_iff l.status "active"))

-- The window is not empty.
abbrev pub Ordered : Option ℕ → Option ℕ → Type 0
Ordered (some a) (some b) = a < b
Ordered none _ = Unit
Ordered (some a) none = Unit

-- What the table's check constraints and the schema ask of a new license.
pub record IsWellFormed {V : Type 0} (J : Json V) (l : NewLicense V) : Type 0 where
  pub known_type :
      (l.license_type ≡ "standard") ⊎ (l.license_type ≡ "trial") ⊎ (l.license_type ≡ "enterprise")
  pub counted : pos 0 ≤ℤ l.max_devices
  pub listed : J.is_array l.features ≡ true
  pub windowed : Ordered l.starts_at l.expires_at
  pub dated : l.starts_at ≢ none

is_license_type-known :
    (t : String) → is_license_type t ≡ true → (t ≡ "standard") ⊎ (t ≡ "trial") ⊎ (t ≡ "enterprise")
unfolding is_license_type
is_license_type-known t h =
    ground (arith, eq_iff t "standard", eq_iff t "trial", eq_iff t "enterprise")

validate_license_window-Ordered :
    (a b : Option ℕ) → validate_license_window a b ≡ ok tt → Ordered a b
unfolding validate_license_window
validate_license_window-Ordered none b h = tt
validate_license_window-Ordered (some a) none h = tt
validate_license_window-Ordered (some a) (some b) h = ground arith

-- Every input that is accepted gives a license of a known type, with a device limit that is not
-- negative, a list of features, a start, and a window that is not empty.
pub from_input-IsWellFormed :
    {V : Type 0} (J : Json V) (lower : String → String) (id now tenant_id : ℕ)
    (input : CreateLicenseInput V) (key_hash : String) (l : NewLicense V)
    → from_input J lower id now tenant_id input key_hash ≡ ok l
    → IsWellFormed J l
unfolding from_input
from_input-IsWellFormed J lower id now tenant_id input key_hash l h = ground (
  arith,
  is_license_type-known (lowered lower input.license_type),
  validate_license_window-Ordered (or_now input.starts_at now) input.expires_at,
)

-- A key is accepted only for a license of the application that is not deleted, carries the hash of
-- the trimmed key, and may be used at the instant.
pub validate_license_key-IsUsable :
    {V : Type 0} (hash : String → Result String) (rows : List (License V)) (tenant_id app_id : ℕ)
    (key : String) (now : ℕ) (l : License V)
    → validate_license_key hash rows tenant_id app_id key now ≡ ok l
    → IsUsable l now
      × (l.tenant_id ≡ tenant_id)
      × (l.app_id ≡ app_id)
      × (l.deleted_at ≡ none)
      × (hash (trim key) ≡ ok l.license_key_hash)
unfolding validate_license_key normalize_license_key find_by_app_and_key_hash
validate_license_key-IsUsable hash rows tenant_id app_id key now l h =
    elim (Result-cases (hash (trim key))) [
      | inr (e, k) ↦ ground arith
      | inl (key_hash, k) ↦
          elim (Option-cases (find_by_app_and_key_hash rows tenant_id app_id key_hash)) [
            | inl e ↦ ground arith
            | inr (m, e) ↦
                let found =
                  find-true
                    (λ l.
                      l.tenant_id == tenant_id
                      && l.app_id == app_id
                      && str_eq l.license_key_hash key_hash
                      && not (is_some l.deleted_at))
                    rows m e in
                let usable : validate_license_record m now ≡ ok tt = ground arith in
                ground (
                  arith,
                  (validate_license_record-IsUsable m now).0 usable,
                  eq_iff m.license_key_hash key_hash,
                )
          ]
    ]
