-- ===== src/Api.antt =====
-- The API package: api/agentgateway/v1alpha1. Types, accessors and the two budget resolutions.
pub mod Types
pub mod Session
pub mod Budget
pub mod Cost
