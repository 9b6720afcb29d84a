-- ===== src/Platform/Teardown.antt =====
-- agentgatewayplatform_teardown.go: everything that was installed is removed, in the reverse order.
pub mod Order
pub mod Passes
use agentgateway_educates_op.Base.{
  String, Bool, true, false, ◌||◌, not, List, [], ◌∷◌, ◌++◌, Text, codes, ok, err, if◌then◌else◌,
}
use agentgateway_educates_op.Api.Types.{
  AgentGatewayPlatform, Provider, external, bundled, platform_uninstalling,
}
use agentgateway_educates_op.Api.Session.{gateway_namespace}
use agentgateway_educates_op.Kube.{Packages, Cluster, Answer}
use agentgateway_educates_op.Sdk.Objects.{Custom, custom_delete}
use agentgateway_educates_op.Kube.Monad.{
  Action, State, pure, fail, lift, attempt, wrap, ◌>>=◌, ◌>>◌, observe, is_not_found, is_no_match,
  get_platform, update_platform, delete_namespace, write_object,
}
use agentgateway_educates_op.Names.{
  rate_limit_release_name, agentgateway_release_name, agentgateway_crds_release_name, policy_name,
  gateway_name, parameters_name, agentgateway_group, kind_model, managed_by_label, managed_by_value,
}
use agentgateway_educates_op.Untyped.{
  new_policy, new_gateway, new_parameters, delete_if_present, prune_legacy_gateway,
}
use agentgateway_educates_op.Helm.{HelmClient, uninstall}
use agentgateway_educates_op.Session.Status.{Requeue, condition_ready, reason_uninstalling}
use agentgateway_educates_op.Platform.Status.{
  platform_finalizer, with_platform_condition, with_phase, update_status_of,
}

-- The reconciler's field HelmClientFor.
abbrev pub HelmClientFor : Type 0
HelmClientFor = String → Answer HelmClient

module _ (c : Cluster) where
  abbrev pub delete_custom : Custom → Action (State c) (Unit {0})
  delete_custom u = delete_if_present c (write_object c (custom_delete u))

  unfoldable pub delete_each : List Custom → Action (State c) (Unit {0})
  delete_each [] = pure tt
  delete_each (u ∷ l) = delete_custom u >> delete_each l

  pub drain_listed : Answer (List Custom) → Action (State c) (Unit {0})
  drain_listed (ok l) = delete_each l
  drain_listed (err e) = if is_no_match e || is_not_found e then pure tt else fail e

  unfoldable pub list_managed_models : String → Action (State c) (List Custom)
  unfolding observe
  list_managed_models ns =
      observe c
        (c.objects.list_custom agentgateway_group kind_model ns managed_by_label managed_by_value)

  unfoldable pub drain_models : String → Action (State c) (Unit {0})
  unfolding drain_listed
  drain_models ns = do answer ← attempt (list_managed_models ns); drain_listed answer

  unfoldable pub drain_configuration : String → Action (State c) (Unit {0})
  drain_configuration ns = do
    wrap (codes "delete API-key policy: ") (delete_custom (new_policy ns policy_name))
    wrap (codes "delete Gateway: ") (delete_custom (new_gateway ns gateway_name))
    wrap (codes "delete legacy Gateway: ") (prune_legacy_gateway c ns)
    wrap (codes "delete parameters overlay: ") (delete_custom (new_parameters ns parameters_name))
    wrap (codes "delete catalog models: ") (drain_models ns)

module _ (helm_client_for : HelmClientFor) (c : Cluster) where
  unfoldable pub helm_client : String → Action (State c) HelmClient
  helm_client ns =
      wrap (codes "build helm client for " ++ (codes ns ++ codes ": ")) (lift (helm_client_for ns))

  unfoldable pub uninstall_release_of : String → String → Action (State c) (Unit {0})
  uninstall_release_of ns name = do
    client ← helm_client ns
    wrap (codes "uninstall " ++ (codes name ++ codes ": ")) (uninstall c client name)

  unfoldable pub drain_all : String → Action (State c) (Unit {0})
  drain_all ns = do
    drain_configuration c ns
    uninstall_release_of ns rate_limit_release_name
    uninstall_release_of ns agentgateway_release_name
    uninstall_release_of ns agentgateway_crds_release_name
    delete_if_present c (delete_namespace c ns)

  unfoldable pub uninstall_each : String → List String → Action (State c) (Unit {0})
  uninstall_each ns [] = pure tt
  uninstall_each ns (name ∷ l) = uninstall_release_of ns name >> uninstall_each ns l

  unfoldable pub drain_bundled : String → Action (State c) (Unit {0})
  unfolding uninstall_each
  drain_bundled ns = uninstall_each ns (
      rate_limit_release_name ∷ (agentgateway_release_name ∷ (agentgateway_crds_release_name ∷ [])))

module _ (p : Packages) (c : Cluster) where
  abbrev pub without_finalizer : AgentGatewayPlatform → AgentGatewayPlatform
  without_finalizer live = record live {
    metadata = record live.metadata {
      finalizers = p.remove_finalizer live.metadata.finalizers platform_finalizer;
    };
  }

  unfoldable pub release_found : Answer AgentGatewayPlatform → Action (State c) Requeue
  release_found (err e) = pure 0
  release_found (ok live) = update_platform c (without_finalizer live) >> pure 0

  -- Any error of the read ends the pass without an error.
  unfoldable pub release_finalizer : AgentGatewayPlatform → Action (State c) Requeue
  unfolding release_found
  release_finalizer platform = do
    answer ← attempt (get_platform c platform.metadata.name)
    release_found answer

module _ (p : Packages) (helm_client_for : HelmClientFor) (c : Cluster) where
  abbrev pub uninstalling_status : AgentGatewayPlatform → AgentGatewayPlatform
  uninstalling_status platform =
      with_platform_condition p (with_phase platform platform_uninstalling) condition_ready false
        reason_uninstalling (codes "uninstalling the gateway")

  -- An external gateway is left, with what the operator added to it removed.
  unfoldable pub drain_by : Provider → String → Action (State c) (Unit {0})
  drain_by external ns = drain_configuration c ns
  drain_by bundled ns = drain_all helm_client_for c ns

  -- A failure to record the status is only logged.
  unfoldable pub reconcile_platform_delete : AgentGatewayPlatform → Action (State c) Requeue
  reconcile_platform_delete platform =
      if not (p.contains_finalizer platform.metadata.finalizers platform_finalizer)
      then pure 0
      else (do
        attempt (update_status_of c (uninstalling_status platform))
        drain_by platform.provider (gateway_namespace platform)
        release_finalizer p c (uninstalling_status platform))
