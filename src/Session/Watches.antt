-- ===== src/Session/Watches.antt =====
-- The mappings from other objects to the grants that they wake (agentgatewaysession_controller.go).
pub mod Laws
use agentgateway_educates_op.Base.{
  String, Bool, true, false, not, ◌&&◌, ◌||◌, Option, none, some, List, [], ◌∷◌, ok, err, str_eq,
  is_nil, lookup, Dict, if◌then◌else◌,
}
use agentgateway_educates_op.Api.Types.{AgentGatewaySession, AgentGatewayCatalog}
use agentgateway_educates_op.Api.Session.{
  catalog_name, needs_reconcile_on_catalog_change, session_label, session_ns_label,
}
use agentgateway_educates_op.Api.Cost.{catalog_default_cost_budget}
use agentgateway_educates_op.Kube.{Cluster, Answer, Secret}
use agentgateway_educates_op.Kube.Monad.{Action, State, pure, attempt, ◌>>=◌, list_sessions}
use agentgateway_educates_op.Names.{managed_by_label, managed_by_value}

pub record Request : Type 0 where
  pub namespace : String
  pub name : String

-- A label's value, empty where it is missing.
abbrev pub label_at : String → Dict String → String
label_at key labels = elim (lookup key labels) [ none ↦ "" | some v ↦ v ]

unfoldable pub map_secret_to_session : Secret → List Request
map_secret_to_session secret =
    let name = label_at session_label secret.labels in
    let namespace = label_at session_ns_label secret.labels in
    if not (str_eq (label_at managed_by_label secret.labels) managed_by_value)
    then []
    else if str_eq name "" || str_eq namespace ""
    then []
    else record { namespace = namespace; name = name } ∷ []

abbrev pub offers_cost : AgentGatewayCatalog → Bool
offers_cost catalog = not (is_nil (catalog_default_cost_budget catalog))

-- The grant draws on the catalog, and only a reconcile carries the edit to it.
abbrev pub is_woken : AgentGatewayCatalog → AgentGatewaySession → Bool
is_woken catalog s =
    str_eq (catalog_name s) catalog.name
    && needs_reconcile_on_catalog_change s (offers_cost catalog)

unfoldable pub select_sessions : AgentGatewayCatalog → List AgentGatewaySession → List Request
select_sessions catalog [] = []
select_sessions catalog (s ∷ rest) =
    let others = select_sessions catalog rest in
    if is_woken catalog s
    then record { namespace = s.metadata.namespace; name = s.metadata.name } ∷ others
    else others

module _ (c : Cluster) where
  pub listed : AgentGatewayCatalog → Answer (List AgentGatewaySession) → List Request
  listed catalog (err e) = []
  listed catalog (ok sessions) = select_sessions catalog sessions

  unfoldable pub map_catalog_to_sessions : AgentGatewayCatalog → Action (State c) (List Request)
  unfolding listed select_sessions
  map_catalog_to_sessions catalog = do
    answer ← attempt (list_sessions c)
    pure (listed catalog answer)
