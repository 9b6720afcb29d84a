-- ===== src/Platform.antt =====
-- The platform controller: the installed gateway, its configuration and its teardown.
pub mod Status
pub mod Teardown
pub mod Policy
pub mod RateLimit
pub mod Parameters
pub mod Gateway
pub mod ClusterConfig
pub mod Gate
pub mod Steps
pub mod Charts
pub mod Quiet
pub mod Reconcile
