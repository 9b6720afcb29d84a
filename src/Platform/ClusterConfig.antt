-- ===== src/Platform/ClusterConfig.antt =====
-- clusterconfig.go, and `reconcileClusterConfig`: the installer's own configuration, which is read
-- and reported and gates nothing.
use agentgateway_educates_op.Base.{
  String, Bool, true, false, Option, none, some, List, [], ◌∷◌, Text, codes, ok, err, is_nil, not,
  if◌then◌else◌,
}
use agentgateway_educates_op.Api.Types.{AgentGatewayPlatform}
use agentgateway_educates_op.Kube.{Packages, Cluster, Answer}
use agentgateway_educates_op.Sdk.Json.{Json, Fields, text, object, get_field, is_string}
use agentgateway_educates_op.Sdk.Objects.{Custom}
use agentgateway_educates_op.Kube.Monad.{
  Action, State, pure, fail, lift, attempt, ◌>>=◌, observe, is_not_found, is_no_match,
}
use agentgateway_educates_op.Session.Status.{reason_ready, reason_waiting}
use agentgateway_educates_op.Platform.Status.{with_platform_condition}

pub record ClusterConfigState : Type 0 where
  pub present : Bool
  pub ready : Bool
  pub message : Text

abbrev pub absent_because : String → ClusterConfigState
absent_because message = record { present = false; ready = false; message = codes message }

abbrev pub not_ready_because : Text → ClusterConfigState
not_ready_because message = record { present = true; ready = false; message = message }

message_of : Json → Text
message_of (text t) = if is_nil t then codes "EducatesClusterConfig is not ready" else t
message_of _ = codes "EducatesClusterConfig is not ready"

ready_state : Fields → ClusterConfigState
unfolding message_of
ready_state cond =
    if is_string (get_field "status" cond) "True"
    then record { present = true; ready = true; message = codes "EducatesClusterConfig is ready" }
    else not_ready_because (message_of (get_field "message" cond))

-- The loop over the conditions: the first Ready one decides.
unfoldable pub state_of_conditions : List Json → ClusterConfigState
unfolding ready_state
state_of_conditions [] =
    not_ready_because (codes "EducatesClusterConfig has published no Ready condition")
state_of_conditions (object cond ∷ l) =
    let rest = state_of_conditions l in
    if is_string (get_field "type" cond) "Ready" then ready_state cond else rest
state_of_conditions (_ ∷ l) = state_of_conditions l

unfoldable pub state_of_slice : Option (List Json) → ClusterConfigState
state_of_slice none =
    not_ready_because (codes "EducatesClusterConfig has not published a status yet")
state_of_slice (some conditions) = state_of_conditions conditions

abbrev pub condition_cluster_config_available : String
condition_cluster_config_available = "ClusterConfigAvailable"

abbrev pub reason_not_found : String
reason_not_found = "NotFound"

unfoldable pub config_reason : ClusterConfigState → String
config_reason state =
    if state.ready
    then reason_ready
    else if not state.present
    then reason_not_found
    else reason_waiting

module _ (p : Packages) (c : Cluster) where
  unfoldable pub config_found : Answer Custom → Action (State c) ClusterConfigState
  config_found (ok config) = do
    conditions ← lift (p.nested_slice config.contents ("status" ∷ ("conditions" ∷ [])))
    pure (state_of_slice conditions)
  config_found (err e) =
      if is_no_match e
      then pure (
          absent_because
            "no EducatesClusterConfig CRD on this cluster; running without Educates integration")
      else if is_not_found e
      then pure (absent_because "no EducatesClusterConfig named 'cluster' exists yet")
      else fail e

  unfoldable pub cluster_config_status : Action (State c) ClusterConfigState
  unfolding observe
  cluster_config_status = do
    answer ← attempt (
        observe c (c.objects.get_custom "config.educates.dev" "EducatesClusterConfig" "" "cluster"))
    config_found answer

  unfoldable pub reconcile_cluster_config :
      AgentGatewayPlatform → Action (State c) AgentGatewayPlatform
  reconcile_cluster_config platform = do
    state ← cluster_config_status
    pure (
        with_platform_condition p platform condition_cluster_config_available state.ready
          (config_reason state) state.message)
