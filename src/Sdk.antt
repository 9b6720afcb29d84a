-- ===== src/Sdk.antt =====
-- What internal/helm and the controllers exchange with Helm and with the API server's untyped
-- objects: errors, JSON values, releases and charts, custom and owned objects.
pub mod Errors
pub mod Json
pub mod Releases
pub mod Objects
