-- ===== src/Platform/Quiet/Steps.antt =====
-- No step of an install reports the platform as ready.
use agentgateway_educates_op.Base.{String, ◌≡◌, refl, Bool, true, false, not, List, Text, ok, err}
use agentgateway_educates_op.Api.Types.{
  AgentGatewayPlatform, PlatformPhase, existing, managed, GatewayApiProvider,
}
use agentgateway_educates_op.Kube.{Packages, Cluster, Answer, Namespace}
use agentgateway_educates_op.Kube.Lawful.{RetriesOnly}
use agentgateway_educates_op.Kube.Keeps.{
  keeps_rules, Keeps-bind, Keeps-observe, Keeps-pure, Keeps-attempt, Keeps-lift, Keeps-if,
  Keeps-fail,
}
use agentgateway_educates_op.Kube.Monad.{is_not_found, get_namespace, create_namespace}
use agentgateway_educates_op.Sdk.Objects.{Custom}
use agentgateway_educates_op.Sdk.Json.{Fields}
use agentgateway_educates_op.Untyped.{get_like}
use agentgateway_educates_op.Helm.Converge.{
  Converged, Outcome, installed, upgraded, repaired_upgrade, repaired_rollback, repaired_reinstall,
  unchanged, held_failed, waiting_uninstall, refused_not_owned,
}
use agentgateway_educates_op.Session.Status.{Requeue}
use agentgateway_educates_op.Platform.Parameters.{
  ensure_parameters, put_parameters, with_parameters, apply_admin_interface, apply_admin_addr,
  apply_admin_service_port, prune_empty, with_ports,
}
use agentgateway_educates_op.Platform.ClusterConfig.{
  reconcile_cluster_config, cluster_config_status, config_found,
}
use agentgateway_educates_op.Platform.Gate.{
  stop_at, handle_release_result, deployment_available, available_found,
}
use agentgateway_educates_op.Platform.Steps.{
  ensure_namespace, namespace_found, created_namespace, reconcile_gateway_api, api_present,
  wait_for_gateway_class, class_found,
}
use agentgateway_educates_op.Platform.Gateway.{
  gateway_api_present, first_mapping, reset_and_ask, second_mapping, rest_mapping,
}
use agentgateway_educates_op.Platform.Quiet.{
  Quiet, Quiet-perform, is_ready_phase, write_object-Quiet, update_status_of-Quiet, reports_ready,
}

module _ (p : Packages) (c : Cluster) (retries : RetriesOnly c) where
  pub stop_at-Quiet :
      (platform : AgentGatewayPlatform) (cond_type reason : String) (message : Text)
      (phase : PlatformPhase) (requeue : Requeue)
      → is_ready_phase phase ≡ false
      → Quiet c (stop_at p c platform cond_type reason message phase requeue)
  unfolding stop_at
  stop_at-Quiet platform cond_type reason message phase requeue h =
      Keeps-bind _ _ (update_status_of-Quiet c _ retries h) (λ _. Keeps-pure _)

  handled-Quiet :
      (platform : AgentGatewayPlatform) (service cond_type : String) (outcome : Outcome)
      (converged : Converged)
      → converged.outcome ≡ outcome
      → Quiet c (handle_release_result p c platform service cond_type converged)
  unfolding handle_release_result is_ready_phase
  handled-Quiet platform service cond_type refused_not_owned converged e =
      rw e (stop_at-Quiet _ _ _ _ _ _ refl)
  handled-Quiet platform service cond_type held_failed converged e =
      rw e (stop_at-Quiet _ _ _ _ _ _ refl)
  handled-Quiet platform service cond_type repaired_rollback converged e =
      rw e (stop_at-Quiet _ _ _ _ _ _ refl)
  handled-Quiet platform service cond_type waiting_uninstall converged e =
      rw e (stop_at-Quiet _ _ _ _ _ _ refl)
  handled-Quiet platform service cond_type installed converged e = rw e (Keeps-pure _)
  handled-Quiet platform service cond_type upgraded converged e = rw e (Keeps-pure _)
  handled-Quiet platform service cond_type repaired_upgrade converged e = rw e (Keeps-pure _)
  handled-Quiet platform service cond_type repaired_reinstall converged e = rw e (Keeps-pure _)
  handled-Quiet platform service cond_type unchanged converged e = rw e (Keeps-pure _)

  pub handle_release_result-Quiet :
      (platform : AgentGatewayPlatform) (service cond_type : String) (converged : Converged)
      → Quiet c (handle_release_result p c platform service cond_type converged)
  handle_release_result-Quiet platform service cond_type converged =
      handled-Quiet platform service cond_type converged.outcome converged refl

  available_found-Quiet : (r : Answer (List (String × Bool))) → Quiet c (available_found c r)
  unfolding available_found
  available_found-Quiet (ok l) = Keeps-pure _
  available_found-Quiet (err e) = search keeps_rules

  pub deployment_available-Quiet : (ns name : String) → Quiet c (deployment_available c ns name)
  unfolding deployment_available
  deployment_available-Quiet ns name =
      Keeps-bind _ _ (Keeps-attempt _ (Keeps-observe _)) available_found-Quiet

  created_namespace-Quiet : (r : Answer (Unit {0})) → Quiet c (created_namespace p c r)
  unfolding created_namespace
  created_namespace-Quiet (ok _) = Keeps-pure tt
  created_namespace-Quiet (err e) = search keeps_rules

  create_namespace-Quiet : (x : Namespace) → Quiet c (create_namespace c x)
  unfolding create_namespace reports_ready
  create_namespace-Quiet x = Quiet-perform _ _ refl

  namespace_found-Quiet :
      (name : String) (owner : AgentGatewayPlatform) (r : Answer Namespace)
      → Quiet c (namespace_found p c name owner r)
  unfolding namespace_found
  namespace_found-Quiet name owner (ok _) = Keeps-pure tt
  namespace_found-Quiet name owner (err e) = Keeps-if (not (is_not_found e)) _ _ (Keeps-fail e) (
      Keeps-bind _ _ (Keeps-lift _) (λ reference.
        Keeps-bind _ _ (Keeps-attempt _ (create_namespace-Quiet _)) created_namespace-Quiet))

  pub ensure_namespace-Quiet :
      (name : String) (owner : AgentGatewayPlatform) → Quiet c (ensure_namespace p c name owner)
  unfolding ensure_namespace get_namespace
  ensure_namespace-Quiet name owner =
      Keeps-bind _ _ (Keeps-attempt _ (Keeps-observe _)) (namespace_found-Quiet name owner)

  config_found-Quiet : (r : Answer Custom) → Quiet c (config_found p c r)
  unfolding config_found
  config_found-Quiet (ok config) = search keeps_rules
  config_found-Quiet (err e) = search keeps_rules

  pub reconcile_cluster_config-Quiet :
      (platform : AgentGatewayPlatform) → Quiet c (reconcile_cluster_config p c platform)
  unfolding reconcile_cluster_config cluster_config_status
  reconcile_cluster_config-Quiet platform =
      Keeps-bind _ _ (Keeps-bind _ _ (Keeps-attempt _ (Keeps-observe _)) config_found-Quiet)
        (λ state. Keeps-pure _)

  second_mapping-Quiet : (r : Answer (Unit {0})) → Quiet c (second_mapping c r)
  unfolding second_mapping
  second_mapping-Quiet (ok _) = Keeps-pure true
  second_mapping-Quiet (err e) = search keeps_rules

  rest_mapping-Quiet : Quiet c (rest_mapping c)
  unfolding rest_mapping
  rest_mapping-Quiet = Keeps-observe _

  reset_and_ask-Quiet : Quiet c (reset_and_ask c)
  unfolding reset_and_ask
  reset_and_ask-Quiet = Keeps-bind _ _ (Keeps-observe _) (λ resettable.
      Keeps-if (not resettable) _ _ (Keeps-pure false) (
        Keeps-bind _ _ (Keeps-observe _)
          (λ _. Keeps-bind _ _ (Keeps-attempt _ rest_mapping-Quiet) second_mapping-Quiet)))

  first_mapping-Quiet : (r : Answer (Unit {0})) → Quiet c (first_mapping c r)
  unfolding first_mapping
  first_mapping-Quiet (ok _) = Keeps-pure true
  first_mapping-Quiet (err e) = search (keeps_rules, reset_and_ask-Quiet)

  api_present-Quiet :
      (platform : AgentGatewayPlatform) (present : Bool)
      → Quiet c (api_present p c platform present)
  unfolding api_present is_ready_phase
  api_present-Quiet platform true = Keeps-pure _
  api_present-Quiet platform false = stop_at-Quiet _ _ _ _ _ _ refl

  api_by-Quiet :
      (platform : AgentGatewayPlatform) (api : GatewayApiProvider)
      → platform.gateway_api ≡ api
      → Quiet c (reconcile_gateway_api p c platform)
  unfolding reconcile_gateway_api gateway_api_present
  api_by-Quiet platform existing e = rw e (Keeps-pure _)
  api_by-Quiet platform managed e = rw e (
      Keeps-bind _ _ (Keeps-bind _ _ (Keeps-attempt _ rest_mapping-Quiet) first_mapping-Quiet)
        (api_present-Quiet _))

  pub reconcile_gateway_api-Quiet :
      (platform : AgentGatewayPlatform) → Quiet c (reconcile_gateway_api p c platform)
  reconcile_gateway_api-Quiet platform = api_by-Quiet platform platform.gateway_api refl

  class_found-Quiet :
      (platform : AgentGatewayPlatform) (r : Answer Custom) → Quiet c (class_found p c platform r)
  unfolding class_found is_ready_phase
  class_found-Quiet platform (ok gwc) = search (keeps_rules, stop_at-Quiet)
  class_found-Quiet platform (err e) = search (keeps_rules, stop_at-Quiet)

  pub wait_for_gateway_class-Quiet :
      (platform : AgentGatewayPlatform) → Quiet c (wait_for_gateway_class p c platform)
  unfolding wait_for_gateway_class get_like
  wait_for_gateway_class-Quiet platform =
      Keeps-bind _ _ (Keeps-attempt _ (Keeps-observe _)) (class_found-Quiet platform)

  prune_empty-Quiet :
      (contents : Fields) (path : List String) → Quiet c (prune_empty p contents path)
  unfolding prune_empty
  prune_empty-Quiet contents path = search keeps_rules

  admin_addr-Quiet :
      (contents : Fields) (exposed : Bool) → Quiet c (apply_admin_addr p contents exposed)
  unfolding apply_admin_addr
  admin_addr-Quiet contents exposed = search (keeps_rules, prune_empty-Quiet)

  service_port-Quiet :
      (contents : Fields) (exposed : Bool) → Quiet c (apply_admin_service_port p contents exposed)
  unfolding apply_admin_service_port with_ports
  service_port-Quiet contents exposed = search keeps_rules

  with_parameters-Quiet :
      (platform : AgentGatewayPlatform) (u : Custom) → Quiet c (with_parameters p platform u)
  unfolding with_parameters apply_admin_interface
  with_parameters-Quiet platform u = Keeps-bind _ _ (Keeps-lift _) (λ typed.
      Keeps-bind _ _
        (Keeps-bind _ _ (admin_addr-Quiet typed _) (λ bound. service_port-Quiet bound _))
        (λ contents. Keeps-pure _))

  put_parameters-Quiet :
      (platform : AgentGatewayPlatform) (desired : Custom) (r : Answer Custom)
      → Quiet c (put_parameters p c platform desired r)
  unfolding put_parameters
  put_parameters-Quiet platform desired (ok live) =
      Keeps-bind _ _ (with_parameters-Quiet platform live) (λ u. write_object-Quiet c _)
  put_parameters-Quiet platform desired (err e) =
      Keeps-if (is_not_found e) _ _ (write_object-Quiet c _) (Keeps-fail e)

  pub ensure_parameters-Quiet :
      (platform : AgentGatewayPlatform) (ns : String) → Quiet c (ensure_parameters p c platform ns)
  unfolding ensure_parameters get_like
  ensure_parameters-Quiet platform ns =
      Keeps-bind _ _ (with_parameters-Quiet platform _) (λ desired.
        Keeps-bind _ _ (Keeps-attempt _ (Keeps-observe _)) (put_parameters-Quiet platform desired))
