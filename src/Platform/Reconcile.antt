-- ===== src/Platform/Reconcile.antt =====
-- agentgatewayplatform_controller.go: a pass over a platform.
pub mod Unready
use agentgateway_educates_op.Base.{
  String, Bool, true, false, Option, none, some, ◌∷◌, Text, codes, ok, err, not, if◌then◌else◌,
}
use agentgateway_educates_op.Api.Types.{
  AgentGatewayPlatform, Provider, external, bundled, platform_failed, ExternalAgentgateway,
}
use agentgateway_educates_op.Api.Session.{gateway_namespace, singleton_name}
use agentgateway_educates_op.Kube.{Packages, Cluster, Answer}
use agentgateway_educates_op.Kube.Monad.{
  Action, State, pure, fail, attempt, ◌>>=◌, ◌>>◌, is_not_found, get_platform, update_platform,
}
use agentgateway_educates_op.Session.Secrets.{is_set}
use agentgateway_educates_op.Session.Status.{Requeue, condition_ready, reason_failed}
use agentgateway_educates_op.Platform.Status.{
  platform_finalizer, with_platform_condition, with_phase, update_status_of,
}
use agentgateway_educates_op.Platform.Teardown.{
  HelmClientFor, drain_bundled, reconcile_platform_delete,
}
use agentgateway_educates_op.Platform.Policy.{ensure_policy}
use agentgateway_educates_op.Platform.Parameters.{ensure_parameters}
use agentgateway_educates_op.Platform.Gateway.{ensure_gateway}
use agentgateway_educates_op.Platform.ClusterConfig.{reconcile_cluster_config}
use agentgateway_educates_op.Platform.Gate.{Gate, proceed, stop, condition_control_plane_ready}
use agentgateway_educates_op.Platform.Charts.{reconcile_crds_chart, reconcile_control_plane}
use agentgateway_educates_op.Platform.Steps.{
  mark_ready, with_ready, condition_gateway_api_ready, ensure_namespace, reconcile_gateway_api,
  wait_for_gateway_class, reconcile_gateway_ready, reconcile_rate_limit,
}

abbrev pub condition_policy_ready : String
condition_policy_ready = "PolicyReady"

module _ (p : Packages) (helm_client_for : HelmClientFor) (c : Cluster) where
  -- `if done, res, err := step; !done { return res, err }`
  unfoldable pub through :
      Gate → (AgentGatewayPlatform → Action (State c) Requeue) → Action (State c) Requeue
  through (proceed platform) next = next platform
  through (stop requeue) next = pure requeue

  unfoldable pub publish : AgentGatewayPlatform → String → Action (State c) Requeue
  publish platform ns = update_status_of c (mark_ready p platform ns) >> pure 0

  unfoldable pub after_policy :
      AgentGatewayPlatform → String → Answer (Unit {0}) → Action (State c) Requeue
  after_policy platform ns (ok _) =
      publish (with_ready p platform condition_policy_ready (codes "the API-key policy is applied"))
        ns
  after_policy platform ns (err e) = do
    attempt (
        update_status_of c (
          with_phase
            (with_platform_condition p platform condition_policy_ready false reason_failed
              e.message)
            platform_failed))
    fail e

  -- Steps 8 and 9, and the address.
  unfoldable pub enforce : String → AgentGatewayPlatform → Action (State c) Requeue
  enforce ns platform = do
    limited ← reconcile_rate_limit p c platform ns
    through limited
        (λ after. do answer ← attempt (ensure_policy p c ns); after_policy after ns answer)

  -- Steps 6 and 7.
  unfoldable pub serve : String → AgentGatewayPlatform → Action (State c) Requeue
  serve ns platform = do
    ensure_gateway p c ns
    ready ← reconcile_gateway_ready p c platform ns
    through ready (enforce ns)

  -- Steps 4 and 5.
  unfoldable pub overlay : String → AgentGatewayPlatform → Action (State c) Requeue
  overlay ns platform = do
    ensure_parameters p c platform ns
    class ← wait_for_gateway_class p c platform
    through class (serve ns)

  -- Steps 2 and 3.
  unfoldable pub install_charts : String → AgentGatewayPlatform → Action (State c) Requeue
  install_charts ns platform = do
    crds ← reconcile_crds_chart p helm_client_for c platform ns
    through crds (λ established. do
      plane ← reconcile_control_plane p helm_client_for c established ns
      through plane (overlay ns))

  unfoldable pub reconcile_bundled : AgentGatewayPlatform → Action (State c) Requeue
  reconcile_bundled platform = do
    configured ← reconcile_cluster_config p c platform
    ensure_namespace p c (gateway_namespace platform) configured
    api ← reconcile_gateway_api p c configured
    through api (install_charts (gateway_namespace platform))

  abbrev pub with_external : AgentGatewayPlatform → AgentGatewayPlatform
  with_external platform =
      with_ready p
        (with_ready p platform condition_gateway_api_ready
          (codes "Gateway API is the external gateway's concern"))
        condition_control_plane_ready
        (codes "using an externally installed agentgateway; nothing installed here")

  unfoldable pub reconcile_external_at :
      AgentGatewayPlatform → Option ExternalAgentgateway → Action (State c) Requeue
  reconcile_external_at platform none =
      update_status_of c (
        with_phase
          (with_platform_condition p platform condition_ready false reason_failed
            (codes "provider is ExternalAgentgateway but spec.externalAgentgateway is not set"))
          platform_failed)
      >> pure 0
  reconcile_external_at platform (some e) = do
    drain_bundled helm_client_for c (gateway_namespace platform)
    ready ← reconcile_gateway_ready p c (with_external platform) e.namespace
    through ready (λ after. publish after e.namespace)

  unfoldable pub reconcile_provider : AgentGatewayPlatform → Action (State c) Requeue
  reconcile_provider platform = elim platform.provider [
    | external ↦ reconcile_external_at platform platform.external_agentgateway
    | bundled ↦ reconcile_bundled platform
  ]

  abbrev pub with_platform_finalizer : AgentGatewayPlatform → AgentGatewayPlatform
  with_platform_finalizer platform = record platform {
    metadata = record platform.metadata {
      finalizers = p.add_finalizer platform.metadata.finalizers platform_finalizer;
    };
  }

  unfoldable pub ensure_platform_finalizer :
      AgentGatewayPlatform → Action (State c) AgentGatewayPlatform
  ensure_platform_finalizer platform =
      if not (p.contains_finalizer platform.metadata.finalizers platform_finalizer)
      then update_platform c (with_platform_finalizer platform)
      else pure platform

  abbrev pub observed_platform : AgentGatewayPlatform → AgentGatewayPlatform
  observed_platform platform = record platform {
    status = record platform.status {
      observed_generation = platform.metadata.generation;
      gateway_namespace = gateway_namespace platform;
    };
  }

  unfoldable pub reconcile_platform : AgentGatewayPlatform → Action (State c) Requeue
  reconcile_platform platform =
      if is_set platform.metadata.deletion_timestamp
      then reconcile_platform_delete p helm_client_for c platform
      else (do
        finalized ← ensure_platform_finalizer platform
        reconcile_provider (observed_platform finalized))

  unfoldable pub platform_read : Answer AgentGatewayPlatform → Action (State c) Requeue
  platform_read (ok platform) = reconcile_platform platform
  platform_read (err e) = if is_not_found e then pure 0 else fail e

  -- `Reconcile` at a request's name.
  unfoldable pub reconcile_platform_request : String → Action (State c) Requeue
  reconcile_platform_request name = do answer ← attempt (get_platform c name); platform_read answer
