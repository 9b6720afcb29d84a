-- ===== src/Session/Resolve.antt =====
-- Placement and the catalog (agentgatewaysession_controller.go: `placementValid`,
-- `resolveCatalog`).
pub mod Stable
use agentgateway_educates_op.Base.{
  String, Bool, not, Option, none, some, ◌++◌, Text, codes, ok, err, any, str_eq, if◌then◌else◌,
}
use agentgateway_educates_op.Base.Int.{ℤ}
use agentgateway_educates_op.Api.Types.{
  AgentGatewaySession, AgentGatewayCatalog, AgentGatewayPlatform,
}
use agentgateway_educates_op.Api.Session.{catalog_name, singleton_name}
use agentgateway_educates_op.Api.Budget.{catalog_default_token_budget, max_token_budget}
use agentgateway_educates_op.Api.Cost.{catalog_default_cost_budget, max_cost_budget}
use agentgateway_educates_op.Kube.{Packages, Cluster, Answer, Namespace}
use agentgateway_educates_op.Kube.Monad.{
  Action, State, pure, fail, attempt, ◌>>=◌, is_not_found, get_namespace, get_catalog, get_platform,
}
use agentgateway_educates_op.Session.Status.{condition_true, condition_ready, quoted}

unfoldable pub wrong_namespace_message : String → Text
wrong_namespace_message ns =
    codes "this grant is in the session namespace "
    ++ (quoted ns
        ++ codes
            ", where the Secret it creates would be unreachable by the attendee's pod: the pod runs in the workshop namespace and can only resolve a secretKeyRef there. Set `namespace: $(workshop_namespace)` on the AgentGatewaySession in session.objects.")

-- A namespace that Educates owns with a WorkshopSession is a session namespace.
abbrev pub is_session_namespace : Namespace → Bool
is_session_namespace ns = any (λ owner. str_eq owner.kind "WorkshopSession") ns.owner_references

-- `none` for a valid placement, else the reason.
unfoldable pub judge_placement : String → Answer Namespace → Option Text
judge_placement name (err e) = none
judge_placement name (ok ns) =
    if is_session_namespace ns then some (wrong_namespace_message name) else none

unfoldable pub placement_valid :
    (c : Cluster) → AgentGatewaySession → Action (State c) (Option Text)
unfolding judge_placement
placement_valid c s = do
  answer ← attempt (get_namespace c s.metadata.namespace)
  pure (judge_placement s.metadata.namespace answer)

pub record ResolvedCatalog : Type 0 where
  pub gateway_url : Text
  pub gateway_namespace : String
  pub default_token_budget : Option ℤ
  pub max_token_budget : Option ℤ
  pub default_cost_budget : Text
  pub max_cost_budget : Text

abbrev pub read_catalog : AgentGatewayCatalog → String → ResolvedCatalog
read_catalog catalog gateway_namespace = record {
  gateway_url = catalog.status.gateway_url;
  gateway_namespace = gateway_namespace;
  default_token_budget = catalog_default_token_budget catalog;
  max_token_budget = max_token_budget catalog;
  default_cost_budget = catalog_default_cost_budget catalog;
  max_cost_budget = max_cost_budget catalog;
}

module _ (p : Packages) (c : Cluster) where
  pub with_platform :
      AgentGatewayCatalog → Answer AgentGatewayPlatform → Action (State c) (Option ResolvedCatalog)
  with_platform catalog (err e) = if is_not_found e then pure none else fail e
  with_platform catalog (ok platform) =
      if str_eq platform.status.gateway_namespace ""
      then pure none
      else pure (some (read_catalog catalog platform.status.gateway_namespace))

  pub with_catalog : Answer AgentGatewayCatalog → Action (State c) (Option ResolvedCatalog)
  with_catalog (err e) = if is_not_found e then pure none else fail e
  with_catalog (ok catalog) =
      if not (condition_true p catalog.status.conditions condition_ready)
      then pure none
      else (do answer ← attempt (get_platform c singleton_name); with_platform catalog answer)

  -- `none` where the catalog is not ready.
  unfoldable pub resolve_catalog : AgentGatewaySession → Action (State c) (Option ResolvedCatalog)
  unfolding with_catalog with_platform
  resolve_catalog s = do answer ← attempt (get_catalog c (catalog_name s)); with_catalog answer
