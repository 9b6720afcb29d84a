-- ===== src/Catalog.antt =====
-- agentgatewaycatalog_controller.go: the models that the Gateway offers.
pub mod Render
pub mod Reconcile
