-- ===== src/Session.antt =====
-- The session controller of internal/controller: one attendee's key from grant to revocation.
pub mod Status
pub mod Resolve
pub mod Secrets
pub mod Register
pub mod Teardown
pub mod Reconcile
pub mod Expiry
pub mod Watches
