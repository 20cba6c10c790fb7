-- ===== src/Customer.antt =====
-- backend/src/modules/customer: what the modelled code reads of a customer, and its lookups. The
-- lower-casing of the database is a parameter.
use entitle_hub.Base.{ℕ, Bool, ◌&&◌, not, Option, List, String, str_eq, ◌==◌, is_some}
use entitle_hub.Base.Rows.{find, exists}
use entitle_hub.Error.{Result, reject_if, not_found}

pub record Customer : Type 0 where
  pub id : ℕ
  pub tenant_id : ℕ
  pub email : String
  pub password_hash : Option String
  pub name : Option String
  pub status : String
  pub email_verified : Bool
  pub deleted_at : Option ℕ

unfoldable pub find_by_email :
    (String → String) → List Customer → (tenant_id : ℕ) → String → Option Customer
find_by_email lower customers tenant_id email =
    find
      (λ c.
        c.tenant_id == tenant_id
        && str_eq (lower c.email) (lower email)
        && not (is_some c.deleted_at))
      customers

-- `ensure_customer_exists_in_transaction`
unfoldable pub ensure_customer_exists :
    List Customer → (tenant_id customer_id : ℕ) → Result (Unit {0})
ensure_customer_exists customers tenant_id customer_id =
    reject_if
      (not (
        exists (λ c. c.tenant_id == tenant_id && c.id == customer_id && not (is_some c.deleted_at))
          customers))
      (not_found "customer not found")
