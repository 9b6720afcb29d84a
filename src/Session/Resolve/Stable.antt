-- ===== src/Session/Resolve/Stable.antt =====
-- The reads of a catalog and of a placement keep every property of the record.
use agentgateway_educates_op.Base.{List, ok, err}
use agentgateway_educates_op.Api.Types.{
  AgentGatewaySession, AgentGatewayCatalog, AgentGatewayPlatform,
}
use agentgateway_educates_op.Kube.{Packages, Cluster, Answer}
use agentgateway_educates_op.Kube.Monad.{Event}
use agentgateway_educates_op.Kube.Keeps.{Keeps, keeps_rules}
use agentgateway_educates_op.Kube.Stable.{IsStable}
use agentgateway_educates_op.Kube.Stable.{
  get_catalog-Keeps, get_platform-Keeps, get_namespace-Keeps,
}
use agentgateway_educates_op.Session.Resolve.{
  resolve_catalog, with_catalog, with_platform, placement_valid,
}

module _ {c : Cluster} {P : List Event → Type 0} (stable : IsStable P) where
  pub placement-Keeps : (s : AgentGatewaySession) → Keeps c P (placement_valid c s)
  unfolding placement_valid
  placement-Keeps s = search (keeps_rules, get_namespace-Keeps stable)

  module _ (p : Packages) where
    with_platform-Keeps :
        (catalog : AgentGatewayCatalog) (r : Answer AgentGatewayPlatform)
        → Keeps c P (with_platform p c catalog r)
    unfolding with_platform
    with_platform-Keeps catalog (ok x) = search keeps_rules
    with_platform-Keeps catalog (err e) = search keeps_rules

    with_catalog-Keeps : (r : Answer AgentGatewayCatalog) → Keeps c P (with_catalog p c r)
    unfolding with_catalog
    with_catalog-Keeps (ok x) = search (keeps_rules, get_platform-Keeps stable, with_platform-Keeps)
    with_catalog-Keeps (err e) = search keeps_rules

    pub resolve_catalog-Keeps : (s : AgentGatewaySession) → Keeps c P (resolve_catalog p c s)
    unfolding resolve_catalog
    resolve_catalog-Keeps s = search (keeps_rules, get_catalog-Keeps stable, with_catalog-Keeps)
