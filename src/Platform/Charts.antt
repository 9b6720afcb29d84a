-- ===== src/Platform/Charts.antt =====
-- agentgatewayplatform_controller.go, values.go: the steps that converge the two charts.
use agentgateway_educates_op.Base.{String, Bool, true, false, some, [], ◌∷◌, codes}
use agentgateway_educates_op.Api.Types.{AgentGatewayPlatform, ChartVersions}
use agentgateway_educates_op.Kube.{Packages, Cluster}
use agentgateway_educates_op.Sdk.Json.{Fields, no_fields, boolean, object, fields_from}
use agentgateway_educates_op.Kube.Monad.{Action, State, pure, lift, wrap, ◌>>=◌}
use agentgateway_educates_op.Names.{agentgateway_crds_release_name, agentgateway_release_name}
use agentgateway_educates_op.Platform.Teardown.{HelmClientFor}
use agentgateway_educates_op.Platform.Gate.{
  Gate, proceed, stop, wait_at, handle_release_result, deployment_available, converge,
  condition_control_plane_ready,
}
use agentgateway_educates_op.Platform.Steps.{with_ready}

-- vendoredcharts.AgentgatewayChartVersion and AgentgatewayCRDsChartVersion
abbrev pub chart_versions : ChartVersions
chart_versions = record { agentgateway = "1.5.0"; agentgateway_crds = "1.5.0" }

-- values.go: the model API is switched on, and the CRDs' chart takes nothing.
unfoldable pub render_agentgateway_values : Fields
render_agentgateway_values =
    fields_from (("agentgatewayModels", object (fields_from (("enabled", boolean true) ∷ []))) ∷ [])

unfoldable pub render_agentgateway_crds_values : Fields
render_agentgateway_crds_values = no_fields

module _ (p : Packages) where
  abbrev pub with_charts : AgentGatewayPlatform → AgentGatewayPlatform
  with_charts platform = record platform {
    status = record platform.status { bundled_chart_versions = some chart_versions };
  }

module _ (p : Packages) (helm_client_for : HelmClientFor) (c : Cluster) where
  unfoldable pub reconcile_crds_chart : AgentGatewayPlatform → String → Action (State c) Gate
  reconcile_crds_chart platform ns = do
    chart ← wrap (codes "load agentgateway-crds chart: ") (lift p.load_agentgateway_crds_chart)
    converged ←
        converge p helm_client_for c ns agentgateway_crds_release_name chart
          render_agentgateway_crds_values
    handle_release_result p c platform "agentgateway-crds" condition_control_plane_ready converged

  unfoldable pub control_plane : AgentGatewayPlatform → Bool → Action (State c) Gate
  control_plane platform true = pure (
      proceed (
        with_ready p platform condition_control_plane_ready
          (codes "agentgateway control plane is available")))
  control_plane platform false =
      wait_at p c platform condition_control_plane_ready
        (codes "waiting for the agentgateway control-plane Deployment to become available")

  unfoldable pub control_plane_converged : String → Gate → Action (State c) Gate
  control_plane_converged ns (stop requeue) = pure (stop requeue)
  control_plane_converged ns (proceed platform) = do
    available ← deployment_available c ns agentgateway_release_name
    control_plane (with_charts p platform) available

  unfoldable pub reconcile_control_plane : AgentGatewayPlatform → String → Action (State c) Gate
  reconcile_control_plane platform ns = do
    chart ← wrap (codes "load agentgateway chart: ") (lift p.load_agentgateway_chart)
    converged ←
        converge p helm_client_for c ns agentgateway_release_name chart render_agentgateway_values
    gate ← handle_release_result p c platform "agentgateway" condition_control_plane_ready converged
    control_plane_converged ns gate
