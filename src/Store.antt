-- ===== src/Store.antt =====
-- The tables that the licensing modules share, one list of rows each, and transactions over them.
-- A transaction that fails is dropped, so its changes are lost: it returns a store on success only.
-- Statements of the repositories are in the child modules. Database failures other than the
-- violation of a key or of a unique index are not modelled. `now` is the database's clock.
pub mod Devices
pub mod Sessions
pub mod Licenses
pub mod Subscriptions
use entitle_hub.Base.{ℕ, Option, List, ◌∷◌, String}
use entitle_hub.License.{License}
use entitle_hub.Subscription.{Subscription}
use entitle_hub.Device.{Device, DeviceKey}
use entitle_hub.Session.{ClientSession, ClientRefreshToken}

-- What the modelled code reads of an application and of a tenant.
pub record Application : Type 0 where
  pub id : ℕ
  pub tenant_id : ℕ
  pub app_key : String
  pub auth_mode : String
  pub status : String
  pub deleted_at : Option ℕ

pub record Tenant : Type 0 where
  pub id : ℕ
  pub status : String
  pub deleted_at : Option ℕ

-- A row of `device_blacklist`; without an application it holds for the whole tenant.
pub record BlacklistEntry : Type 0 where
  pub tenant_id : ℕ
  pub app_id : Option ℕ
  pub machine_id : String
  pub reason : Option String
  pub created_by : Option ℕ

-- What `audit::record` keeps of an action; the JSON of the row and the request are left out.
pub record AuditEntry : Type 0 where
  pub tenant_id : ℕ
  pub actor_type : String
  pub actor_id : Option ℕ
  pub action : String
  pub resource_type : String
  pub resource_id : Option ℕ

pub record Store (V : Type 0) : Type 0 where
  pub tenants : List Tenant
  pub applications : List Application
  pub licenses : List (License V)
  pub subscriptions : List (Subscription V)
  pub devices : List (Device V)
  pub device_keys : List DeviceKey
  pub blacklist : List BlacklistEntry
  pub sessions : List ClientSession
  pub refresh_tokens : List ClientRefreshToken
  pub audit_logs : List AuditEntry

-- `audit::record`
abbrev pub record_audit : {V : Type 0} → Store V → AuditEntry → Store V
record_audit s entry = record s { audit_logs = entry ∷ s.audit_logs }
