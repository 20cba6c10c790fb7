-- ===== src/Admin.antt =====
-- The signed-in administrator (backend/src/modules/auth/session.rs) and the permission check that
-- each admin module repeats.
use Prim.Native.String as Text
use entitle_hub.Base.{ℕ, List, String, str_eq, if◌then◌else◌}
use entitle_hub.Base.Rows.{exists}
use entitle_hub.Error.{Result, ok, err, forbidden}

-- What the modelled handlers read of `AdminContext`.
pub record AdminContext : Type 0 where
  pub session_id : ℕ
  pub tenant_id : ℕ
  pub team_member_id : ℕ
  pub permissions : List String

unfoldable pub ensure_admin_permission : AdminContext → String → Result (Unit {0})
unfolding exists
ensure_admin_permission admin permission_code =
    if exists (λ p. str_eq p permission_code) admin.permissions
    then ok tt
    else err (forbidden (Text.◌++◌ "missing permission: " permission_code))
