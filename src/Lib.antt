-- ===== src/Lib.antt =====
-- EntitleHub: licensing of clients, their sessions and devices, and the wallet of the AI service.
--
-- The backend (backend/src) is a Rust service over PostgreSQL and Redis. Requests are counted in
-- fixed windows under the address they come from; emails wait in an outbox that a worker empties;
-- releases are signed when they are published and downloaded with tokens that serve once. Clients
-- activate a machine with a license key or sign in with a subscription; each machine is a device
-- that takes a seat of its entitlement; a session with a refresh token stands for a signed-in
-- device, and every request passes a gate that reads the session, the tenant, the application, the
-- device and the entitlement again, then, on some routes, a signature. Administrators sign in with
-- a password and a second factor, for a session of their own; a reset of a password ends the
-- sessions of its owner. They revoke, suspend and renew licenses and unbind or blacklist devices.
-- Generation jobs of the AI service hold money of a customer's wallet until they are charged or
-- fail.
--
-- Files and the code they model:
-- - Base: tests on numbers, signed integers, tables as lists of rows and how they change, text,
--   printed numbers, JSON objects (no code of its own).
-- - Error: backend/src/error.rs. A handler returns `Result`; `>>=` is the operator `?`.
-- - License, License/Service, Subscription, Subscription/Service: model.rs and service.rs of
--   backend/src/modules/license and subscription.
-- - Device, Device/Binding: model.rs and service.rs of backend/src/modules/device.
-- - Session, Store and its child modules: client_auth/model.rs and the statements of the
--   repositories; `Store` is the database, one list for each table.
-- - Admin, LicenseAdmin, DeviceAdmin: admin.rs of the license and device modules.
-- - ClientAuth, ClientAuth/Refresh, ClientAuth/Activate: session.rs, refresh.rs and activate.rs of
--   backend/src/modules/client_auth.
-- - ClientAuth/Login, ClientAuth/Presence: login.rs, and logout.rs, heartbeat.rs and verify.rs of
--   the same module. Customer, Store/Subscriptions: the lookups they use.
-- - ClientAuth/Recovery: password.rs and email_verify.rs of the same module.
-- - Account, Account/Gate, Account/SignIn, Account/Refresh, Account/Password: admin_session.rs,
--   session.rs, login.rs with mfa.rs and logout.rs, refresh.rs, and password.rs of
--   backend/src/modules/auth. `Accounts` is the part of the database that these handlers use.
-- - Signature: signature.rs of backend/src/modules/client_auth.
-- - Wallet, Wallet/Charge, Wallet/Billing, Wallet/Jobs: the billing of
--   backend/src/modules/ai/jobs.rs. Wallet/Admin: the wallets in admin.rs. Wallet/Ledger: the
--   ledger as the history that the wallets' rows implement.
-- - Email, Outbox, Outbox/Admin: mod.rs, worker.rs and admin.rs of backend/src/modules/outbox.
-- - RateLimit: backend/src/rate_limit.rs. ClientIp: backend/src/http/client_ip.rs.
-- - Release, Release/Input: backend/src/modules/release/model.rs; Release/Rows, Release/Tokens:
--   repository.rs; Release/Admin: admin.rs; Release/Client: client.rs. Release/Reachable: the
--   handlers as steps.
-- - Tests: concrete rows, and each result at them.
-- Definitions carry the names of the functions they translate; the variants of a statement inside
-- and outside a transaction are one definition.
--
-- Conventions: a transaction that fails is rolled back, so a handler that is one transaction
-- returns a store on success only; a handler that can change the store and fail returns the store
-- with its result. Identifiers and instants are natural numbers; generated identifiers, the clock,
-- hashes, signers, parsers of other libraries, Redis and, where a handler is limited, the outcome
-- of the rate limiter are parameters. Amounts of money are signed, with the saturation and the
-- wrap-around of `i64` where the source has them. No definition runs on fuel: all recursion is over
-- lists, text and numbers.
--
-- Not modelled: other database failures than broken keys and constraints, rows that time out,
-- paging and listing, JSON bodies, provider traffic, stored files, cookies and CSRF tokens, the
-- enrolment of a second factor, the reset of a password by command line, scripts, notifications,
-- configuration and the frontend.
pub mod Base
pub mod Error
pub mod License
pub mod Subscription
pub mod Device
pub mod Session
pub mod Store
pub mod Admin
pub mod DeviceAdmin
pub mod LicenseAdmin
pub mod ClientAuth
pub mod Wallet
pub mod Signature
pub mod Tests
pub mod Outbox
pub mod Email
pub mod RateLimit
pub mod ClientIp
pub mod Release
pub mod Customer
pub mod Account
