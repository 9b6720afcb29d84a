-- ===== src/Platform/Quiet/Charts.antt =====
-- No chart, no Gateway and no teardown of a chart reports the platform as ready.
use agentgateway_educates_op.Base.{
  String, refl, Bool, true, false, not, List, [], ◌∷◌, Option, none, some, ok, err,
}
use agentgateway_educates_op.Api.Types.{AgentGatewayPlatform}
use agentgateway_educates_op.Kube.{Packages, Cluster, Answer}
use agentgateway_educates_op.Kube.Lawful.{RetriesOnly}
use agentgateway_educates_op.Kube.Keeps.{
  keeps_rules, Keeps-bind, Keeps-observe, Keeps-pure, Keeps-attempt, Keeps-lift, Keeps-wrap,
  Keeps-if, Keeps-fail,
}
use agentgateway_educates_op.Kube.Monad.{pure, is_not_found}
use agentgateway_educates_op.Sdk.Objects.{Custom}
use agentgateway_educates_op.Sdk.Releases.{Chart}
use agentgateway_educates_op.Sdk.Json.{Json, Fields}
use agentgateway_educates_op.Untyped.{
  get_like, prune_legacy_gateway, prune_found, after_legacy_delete, is_managed,
}
use agentgateway_educates_op.Platform.Teardown.{
  HelmClientFor, helm_client, uninstall_release_of, uninstall_each, drain_bundled,
}
use agentgateway_educates_op.Names.{
  rate_limit_release_name, agentgateway_release_name, agentgateway_crds_release_name,
}
use agentgateway_educates_op.Platform.Gate.{Gate, proceed, stop, converge}
use agentgateway_educates_op.Platform.Charts.{
  reconcile_crds_chart, reconcile_control_plane, control_plane, control_plane_converged,
}
use agentgateway_educates_op.Platform.Gateway.{
  ensure_gateway, put_gateway, created_gateway, ensure_gateway_parameters_ref,
  ensure_listener_route_kinds, update_listeners, Scanned, scan_listeners,
}
use agentgateway_educates_op.Platform.Quiet.{
  Quiet, is_ready_phase, ensure_release-Quiet, uninstall-Quiet, write_object-Quiet,
}
use agentgateway_educates_op.Platform.Quiet.Steps.{
  stop_at-Quiet, handle_release_result-Quiet, deployment_available-Quiet,
}

module _ (p : Packages) (helm_client_for : HelmClientFor) (c : Cluster)
    (retries : RetriesOnly c) where
  converge-Quiet :
      (ns name : String) (chart : Chart) (values : Fields)
      → Quiet c (converge p helm_client_for c ns name chart values)
  unfolding converge helm_client
  converge-Quiet ns name chart values =
      Keeps-bind _ _ (Keeps-wrap _ _ (Keeps-lift _))
        (λ client. ensure_release-Quiet c p client name _ _)

  pub reconcile_crds_chart-Quiet :
      (platform : AgentGatewayPlatform) (ns : String)
      → Quiet c (reconcile_crds_chart p helm_client_for c platform ns)
  unfolding reconcile_crds_chart
  reconcile_crds_chart-Quiet platform ns = Keeps-bind _ _ (Keeps-wrap _ _ (Keeps-lift _)) (λ chart.
      Keeps-bind _ _ (converge-Quiet ns _ chart _)
        (λ converged. handle_release_result-Quiet p c retries platform _ _ converged))

  control_plane-Quiet :
      (platform : AgentGatewayPlatform) (available : Bool)
      → Quiet c (control_plane p helm_client_for c platform available)
  unfolding control_plane is_ready_phase
  control_plane-Quiet platform true = Keeps-pure _
  control_plane-Quiet platform false = stop_at-Quiet p c retries _ _ _ _ _ _ refl

  converged-Quiet :
      (ns : String) (gate : Gate) → Quiet c (control_plane_converged p helm_client_for c ns gate)
  unfolding control_plane_converged
  converged-Quiet ns (stop requeue) = Keeps-pure _
  converged-Quiet ns (proceed platform) =
      Keeps-bind _ _ (deployment_available-Quiet p c retries ns _) (control_plane-Quiet _)

  pub reconcile_control_plane-Quiet :
      (platform : AgentGatewayPlatform) (ns : String)
      → Quiet c (reconcile_control_plane p helm_client_for c platform ns)
  unfolding reconcile_control_plane
  reconcile_control_plane-Quiet platform ns =
      Keeps-bind _ _ (Keeps-wrap _ _ (Keeps-lift _)) (λ chart.
        Keeps-bind _ _ (converge-Quiet ns _ chart _) (λ converged.
          Keeps-bind _ _ (handle_release_result-Quiet p c retries platform _ _ converged)
            (converged-Quiet ns)))

  uninstall_of-Quiet : (ns name : String) → Quiet c (uninstall_release_of helm_client_for c ns name)
  unfolding uninstall_release_of helm_client
  uninstall_of-Quiet ns name =
      Keeps-bind _ _ (Keeps-wrap _ _ (Keeps-lift _))
        (λ client. Keeps-wrap _ _ (uninstall-Quiet c client name))

  uninstall_each-Quiet :
      (ns : String) (l : List String) → Quiet c (uninstall_each helm_client_for c ns l)
  unfolding uninstall_each
  uninstall_each-Quiet ns [] = Keeps-pure tt
  uninstall_each-Quiet ns (name ∷ l) =
      Keeps-bind _ _ (uninstall_of-Quiet ns name) (λ _. uninstall_each-Quiet ns l)

  pub drain_bundled-Quiet : (ns : String) → Quiet c (drain_bundled helm_client_for c ns)
  unfolding drain_bundled
  drain_bundled-Quiet ns = uninstall_each-Quiet ns (
      rate_limit_release_name ∷ (agentgateway_release_name ∷ (agentgateway_crds_release_name ∷ [])))

module _ (p : Packages) (c : Cluster) where
  legacy_delete-Quiet : (ns : String) (r : Answer (Unit {0})) → Quiet c (after_legacy_delete c ns r)
  unfolding after_legacy_delete
  legacy_delete-Quiet ns (ok _) = Keeps-pure tt
  legacy_delete-Quiet ns (err e) = search keeps_rules

  prune_found-Quiet : (ns : String) (r : Answer Custom) → Quiet c (prune_found c ns r)
  unfolding prune_found
  prune_found-Quiet ns (err e) = search keeps_rules
  prune_found-Quiet ns (ok legacy) =
      Keeps-if (not (is_managed legacy.labels)) _ _ (Keeps-pure tt)
        (Keeps-bind _ _ (Keeps-attempt _ (write_object-Quiet c _)) (legacy_delete-Quiet ns))

  update_listeners-Quiet :
      (gw : Custom) (scanned : Scanned) → Quiet c (update_listeners p c gw scanned)
  unfolding update_listeners
  update_listeners-Quiet gw scanned =
      Keeps-if (not scanned.changed) _ _ (Keeps-pure tt)
        (Keeps-bind _ _ (Keeps-lift _) (λ contents. write_object-Quiet c _))

  found_listeners-Quiet :
      (gw : Custom) (l : Option (List Json))
      → Quiet c (elim l [ none ↦ pure tt | some k ↦ update_listeners p c gw (scan_listeners p k) ])
  found_listeners-Quiet gw none = Keeps-pure tt
  found_listeners-Quiet gw (some k) = update_listeners-Quiet gw _

  parameters_ref-Quiet : (gw : Custom) → Quiet c (ensure_gateway_parameters_ref p c gw)
  unfolding ensure_gateway_parameters_ref
  parameters_ref-Quiet gw = search (keeps_rules, write_object-Quiet c)

  created_gateway-Quiet : (ns : String) (r : Answer (Unit {0})) → Quiet c (created_gateway p c ns r)
  unfolding created_gateway
  created_gateway-Quiet ns (ok _) = Keeps-pure tt
  created_gateway-Quiet ns (err e) = search keeps_rules

  put_gateway-Quiet : (ns : String) (r : Answer Custom) → Quiet c (put_gateway p c ns r)
  unfolding put_gateway ensure_listener_route_kinds get_like
  put_gateway-Quiet ns (ok live) =
      Keeps-bind _ _ (Keeps-bind _ _ (Keeps-lift _) (found_listeners-Quiet live))
        (λ _. Keeps-bind _ _ (Keeps-observe _) parameters_ref-Quiet)
  put_gateway-Quiet ns (err e) = Keeps-if (not (is_not_found e)) _ _ (Keeps-fail e) (
      Keeps-bind _ _ (Keeps-lift _) (λ contents.
        Keeps-bind _ _ (Keeps-attempt _ (write_object-Quiet c _)) (created_gateway-Quiet ns)))

  pub ensure_gateway-Quiet : (ns : String) → Quiet c (ensure_gateway p c ns)
  unfolding ensure_gateway prune_legacy_gateway get_like
  ensure_gateway-Quiet ns =
      Keeps-bind _ _ (Keeps-bind _ _ (Keeps-attempt _ (Keeps-observe _)) (prune_found-Quiet ns))
        (λ _. Keeps-bind _ _ (Keeps-attempt _ (Keeps-observe _)) (put_gateway-Quiet ns))
