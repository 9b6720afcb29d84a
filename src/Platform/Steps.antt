-- ===== src/Platform/Steps.antt =====
-- agentgatewayplatform_controller.go: the steps of an install, each with its gate.
use agentgateway_educates_op.Base.{
  String, Bool, true, false, none, some, List, [], ◌∷◌, ◌++◌, Text, codes, ok, err, not, ◌||◌,
  str_eq, if◌then◌else◌,
}
use agentgateway_educates_op.Format.{format_int}
use agentgateway_educates_op.Api.Types.{
  AgentGatewayPlatform, external, bundled, existing, managed, platform_ready, platform_failed,
  ExternalAgentgateway,
}
use agentgateway_educates_op.Kube.{Packages, Cluster, Answer, Namespace}
use agentgateway_educates_op.Sdk.Objects.{Custom}
use agentgateway_educates_op.Kube.Monad.{
  Action, State, pure, fail, lift, attempt, ◌>>=◌, is_not_found, is_no_match, is_already_exists,
  get_namespace, create_namespace,
}
use agentgateway_educates_op.Names.{
  gateway_class_name, gateway_name, managed_labels, rate_limit_service_name,
}
use agentgateway_educates_op.Untyped.{
  new_gateway_class, new_gateway, get_like, unstructured_condition_true,
}
use agentgateway_educates_op.Session.Status.{condition_ready, reason_ready, reason_failed, quoted}
use agentgateway_educates_op.Platform.Status.{with_platform_condition}
use agentgateway_educates_op.Platform.RateLimit.{rate_limit_steps, redis_name}
use agentgateway_educates_op.Platform.Gateway.{gateway_api_present, gateway_port}
use agentgateway_educates_op.Platform.Gate.{Gate, proceed, stop_at, wait_at, deployment_available}

abbrev pub condition_gateway_api_ready : String
condition_gateway_api_ready = "GatewayAPIReady"

abbrev pub condition_gateway_programmed : String
condition_gateway_programmed = "GatewayProgrammed"

abbrev pub condition_rate_limit_ready : String
condition_rate_limit_ready = "RateLimitReady"

-- The Gateway that has to be programmed.
unfoldable pub gateway_name_of : AgentGatewayPlatform → String
gateway_name_of platform = elim platform.provider [
  | bundled ↦ gateway_name
  | external ↦ elim platform.external_agentgateway [ none ↦ gateway_name | some e ↦ e.gateway_name ]
]

abbrev pub slashed : String → String → Text
slashed ns name = codes ns ++ (codes "/" ++ codes name)

cluster_local : String → String → Text
cluster_local name ns =
    codes "http://"
    ++ (codes name
        ++ (codes "." ++ (codes ns ++ (codes ".svc.cluster.local:" ++ format_int gateway_port))))

unfoldable pub external_url : String → ExternalAgentgateway → Text
unfolding cluster_local
external_url ns e =
    if str_eq e.gateway_url "" then cluster_local e.gateway_name ns else codes e.gateway_url

unfoldable pub gateway_url : AgentGatewayPlatform → String → Text
unfolding cluster_local
gateway_url platform ns = elim platform.provider [
  | bundled ↦ cluster_local gateway_name ns
  | external ↦ elim platform.external_agentgateway [
    | none ↦ cluster_local gateway_name ns
    | some e ↦ external_url ns e
  ]
]

module _ (p : Packages) where
  abbrev pub with_ready : AgentGatewayPlatform → String → Text → AgentGatewayPlatform
  with_ready platform cond_type message =
      with_platform_condition p platform cond_type true reason_ready message

  abbrev with_address : AgentGatewayPlatform → String → AgentGatewayPlatform
  with_address platform ns = record platform {
    status = record platform.status {
      gateway_url = gateway_url platform ns;
      gateway_namespace = ns;
      phase = platform_ready;
    };
  }

  unfoldable pub mark_ready : AgentGatewayPlatform → String → AgentGatewayPlatform
  mark_ready platform ns =
      with_ready (with_address platform ns) condition_ready
        (codes "the gateway is installed and serving")

module _ (p : Packages) (c : Cluster) where
  unfoldable pub created_namespace : Answer (Unit {0}) → Action (State c) (Unit {0})
  created_namespace (ok _) = pure tt
  created_namespace (err e) = if is_already_exists e then pure tt else fail e

  -- A namespace that is there is left as it is.
  unfoldable pub namespace_found :
      String → AgentGatewayPlatform → Answer Namespace → Action (State c) (Unit {0})
  unfolding created_namespace
  namespace_found name owner (ok _) = pure tt
  namespace_found name owner (err e) = if not (is_not_found e) then fail e else (do
    reference ← lift (p.platform_reference owner)
    answer ← attempt (
        create_namespace c (record {
          name = name;
          uid = "";
          labels = managed_labels;
          owner_references = reference ∷ [];
          deletion_timestamp = none;
        }))
    created_namespace answer)

  unfoldable pub ensure_namespace : String → AgentGatewayPlatform → Action (State c) (Unit {0})
  ensure_namespace name owner = do
    answer ← attempt (get_namespace c name)
    namespace_found name owner answer

  unfoldable pub api_present : AgentGatewayPlatform → Bool → Action (State c) Gate
  api_present platform true = pure (
      proceed
        (with_ready p platform condition_gateway_api_ready (codes "Gateway API CRDs are present")))
  api_present platform false =
      wait_at p c platform condition_gateway_api_ready
        (codes "Gateway API CRDs are not present; they are installed by this operator's Helm chart")

  unfoldable pub reconcile_gateway_api : AgentGatewayPlatform → Action (State c) Gate
  reconcile_gateway_api platform = elim platform.gateway_api [
    | existing ↦ pure (
        proceed (
          with_ready p platform condition_gateway_api_ready
            (codes "Gateway API declared as already present; installation skipped")))
    | managed ↦ (do present ← gateway_api_present c; api_present platform present)
  ]

  unfoldable pub class_found : AgentGatewayPlatform → Answer Custom → Action (State c) Gate
  class_found platform (err e) =
      if is_not_found e || is_no_match e
      then wait_at p c platform condition_gateway_programmed (
          codes "waiting for agentgateway's controller to create GatewayClass "
          ++ quoted gateway_class_name)
      else fail e
  class_found platform (ok gwc) =
      if not (unstructured_condition_true p gwc "Accepted")
      then wait_at p c platform condition_gateway_programmed (
          codes "GatewayClass "
          ++ (quoted gateway_class_name ++ codes " has not reported Accepted"))
      else pure (proceed platform)

  unfoldable pub wait_for_gateway_class : AgentGatewayPlatform → Action (State c) Gate
  wait_for_gateway_class platform = do
    answer ← attempt (get_like c (new_gateway_class "" gateway_class_name))
    class_found platform answer

  unfoldable pub data_plane : AgentGatewayPlatform → String → String → Bool → Action (State c) Gate
  data_plane platform ns name true = pure (
      proceed (
        with_ready p platform condition_gateway_programmed (
          codes "Gateway "
          ++ (slashed ns name ++ codes " is programmed and its data plane is available"))))
  data_plane platform ns name false = wait_at p c platform condition_gateway_programmed (
      codes "waiting for the data-plane Deployment "
      ++ (slashed ns name ++ codes " to become available"))

  unfoldable pub gateway_found :
      AgentGatewayPlatform → String → String → Answer Custom → Action (State c) Gate
  gateway_found platform ns name (err e) =
      if is_not_found e || is_no_match e
      then wait_at p c platform condition_gateway_programmed
          (codes "Gateway " ++ (slashed ns name ++ codes " does not exist yet"))
      else fail e
  gateway_found platform ns name (ok gw) =
      if not (unstructured_condition_true p gw "Programmed")
      then wait_at p c platform condition_gateway_programmed
          (codes "Gateway " ++ (slashed ns name ++ codes " has not reported Programmed"))
      else (do available ← deployment_available c ns name; data_plane platform ns name available)

  unfoldable pub reconcile_gateway_ready : AgentGatewayPlatform → String → Action (State c) Gate
  reconcile_gateway_ready platform ns = do
    answer ← attempt (get_like c (new_gateway ns (gateway_name_of platform)))
    gateway_found platform ns (gateway_name_of platform) answer

  -- The loop over the two Deployments.
  unfoldable pub wait_each : AgentGatewayPlatform → String → List String → Action (State c) Gate
  wait_each platform ns [] = pure (
      proceed (
        with_ready p platform condition_rate_limit_ready
          (codes "the rate-limit service is available")))
  wait_each platform ns (name ∷ l) =
      let rest = wait_each platform ns l in
      (do
        available ← deployment_available c ns name
        if available
            then rest
            else wait_at p c platform condition_rate_limit_ready (
                codes "waiting for the "
                ++ (codes name ++ codes " Deployment to become available")))

  unfoldable pub after_steps :
      AgentGatewayPlatform → String → Answer (Unit {0}) → Action (State c) Gate
  after_steps platform ns (ok _) =
      wait_each platform ns (redis_name ∷ (rate_limit_service_name ∷ []))
  after_steps platform ns (err e) =
      stop_at p c platform condition_rate_limit_ready reason_failed e.message platform_failed 0

  unfoldable pub reconcile_rate_limit : AgentGatewayPlatform → String → Action (State c) Gate
  reconcile_rate_limit platform ns = do
    answer ← attempt (rate_limit_steps p c platform ns)
    after_steps platform ns answer
