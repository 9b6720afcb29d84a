-- ===== src/Session/Register/Stable.antt =====
-- The registration keeps what no further call can break.
use agentgateway_educates_op.Base.{String, List, Text, ok, err}
use agentgateway_educates_op.Base.Int.{ℤ}
use agentgateway_educates_op.Api.Types.{AgentGatewaySession}
use agentgateway_educates_op.Kube.{Packages, Cluster, Answer, ConfigMap, RegistrationEntry}
use agentgateway_educates_op.Kube.Monad.{Event}
use agentgateway_educates_op.Kube.Keeps.{Keeps, keeps_rules}
use agentgateway_educates_op.Kube.Stable.{IsStable}
use agentgateway_educates_op.Api.Budget.{ResolvedTokenBudget}
use agentgateway_educates_op.Api.Cost.{ResolvedCostBudget}
use agentgateway_educates_op.Registration.{marshal_registration}
use agentgateway_educates_op.Kube.Stable.{
  create_config_map-Keeps, update_config_map-Keeps, get_config_map-Keeps,
}
use agentgateway_educates_op.Session.Register.{
  ensure_registration, register_payload, with_config_map, publish_over, after_register,
}

module _ {c : Cluster} {P : List Event → Type 0} (stable : IsStable P) where
  module _ (p : Packages) where
    after_register-Keeps : (r : Answer (Unit {0})) → Keeps c P (after_register p c r)
    unfolding after_register
    after_register-Keeps (ok x) = search keeps_rules
    after_register-Keeps (err e) = search keeps_rules

    with_config_map-Keeps :
        (entry : RegistrationEntry) (desired : ConfigMap) (name : String) (r : Answer ConfigMap)
        → Keeps c P (with_config_map p c entry desired name r)
    unfolding with_config_map publish_over
    with_config_map-Keeps entry desired name (ok live) =
        search (keeps_rules, update_config_map-Keeps stable)
    with_config_map-Keeps entry desired name (err e) =
        search (keeps_rules, create_config_map-Keeps stable, after_register-Keeps)

    pub ensure_registration-Keeps :
        (s : AgentGatewaySession) (ns : String) (key : Text) (expires_at : ℤ)
        (budget : ResolvedTokenBudget) (cost : ResolvedCostBudget)
        → Keeps c P (ensure_registration p c s ns key expires_at budget cost)
    unfolding ensure_registration marshal_registration register_payload
    ensure_registration-Keeps s ns key expires_at budget cost =
        search (keeps_rules, get_config_map-Keeps stable, with_config_map-Keeps)
