-- ===== src/Platform/Gate.antt =====
-- agentgatewayplatform_controller.go: the steps' answers, and what a converge means for a platform.
use agentgateway_educates_op.Base.{
  String, Bool, false, some, List, [], ◌∷◌, ◌++◌, Text, codes, ok, err, str_eq, if◌then◌else◌,
}
use agentgateway_educates_op.Api.Types.{
  AgentGatewayPlatform, PlatformPhase, platform_installing, platform_failed,
}
use agentgateway_educates_op.Kube.{Packages, Cluster, Answer}
use agentgateway_educates_op.Sdk.Json.{Fields}
use agentgateway_educates_op.Sdk.Releases.{Chart}
use agentgateway_educates_op.Kube.Monad.{
  Action, State, pure, fail, attempt, ◌>>=◌, ◌>>◌, observe, is_not_found,
}
use agentgateway_educates_op.Helm.{failure_message}
use agentgateway_educates_op.Helm.Converge.{
  Converged, held_failed, waiting_uninstall, refused_not_owned, repaired_rollback, ensure_release,
}
use agentgateway_educates_op.Session.Status.{
  Requeue, requeue_short, condition_ready, reason_failed, reason_waiting, quoted,
}
use agentgateway_educates_op.Platform.Status.{with_platform_condition, with_phase, update_status_of}
use agentgateway_educates_op.Platform.Teardown.{HelmClientFor, helm_client}

-- Go's `(bool, ctrl.Result, error)`: true with the platform as it is now, or false with the result.
pub data Gate : Type 0 where
  proceed : AgentGatewayPlatform → Gate
  stop : Requeue → Gate

abbrev pub condition_control_plane_ready : String
condition_control_plane_ready = "ControlPlaneReady"

abbrev pub reason_installing : String
reason_installing = "Installing"

abbrev pub reason_release_conflict : String
reason_release_conflict = "ReleaseConflict"

module _ (p : Packages) (c : Cluster) where
  -- A condition that is not met, a phase, the status written, and the result.
  unfoldable pub stop_at :
      AgentGatewayPlatform
      → String
      → String
      → Text
      → PlatformPhase
      → Requeue
      → Action (State c) Gate
  stop_at platform cond_type reason message phase requeue = do
    update_status_of c
        (with_phase (with_platform_condition p platform cond_type false reason message) phase)
    pure (stop requeue)

  abbrev pub wait_at : AgentGatewayPlatform → String → Text → Action (State c) Gate
  wait_at platform cond_type message =
      stop_at platform cond_type reason_waiting message platform_installing requeue_short

  abbrev refused_message : String → Text
  refused_message service =
      codes "Helm release "
      ++ (quoted service
          ++ codes " exists but is not owned by this operator; refusing to converge it")

  unfoldable pub handle_release_result :
      AgentGatewayPlatform → String → String → Converged → Action (State c) Gate
  handle_release_result platform service cond_type converged = elim converged.outcome [
    | refused_not_owned ↦
        stop_at
          (with_platform_condition p platform cond_type false reason_release_conflict
            (refused_message service))
          condition_ready reason_release_conflict
          (codes "Helm release " ++ (quoted service ++ codes " is owned by someone else"))
          platform_failed 0
    | held_failed ↦
        stop_at platform cond_type reason_failed
          (failure_message converged.release
            (codes service ++ codes " Helm release is in a failed state"))
          platform_failed 0
    | repaired_rollback ↦
        stop_at platform cond_type reason_installing
          (codes "rolled "
            ++ (codes service
                ++ codes
                    " back to its last deployed revision; re-applying the desired configuration"))
          platform_installing requeue_short
    | waiting_uninstall ↦
        wait_at platform cond_type (
          codes service ++ codes " is being uninstalled; waiting for teardown before re-converging")
    | _ ↦ pure (proceed platform)
  ]

-- The first condition of the type Available.
unfoldable pub is_available : List (String × Bool) → Bool
is_available [] = false
is_available ((cond_type, status) ∷ l) =
    let rest = is_available l in if str_eq cond_type "Available" then status else rest

module _ (c : Cluster) where
  unfoldable pub available_found : Answer (List (String × Bool)) → Action (State c) Bool
  available_found (ok conditions) = pure (is_available conditions)
  available_found (err e) = if is_not_found e then pure false else fail e

  unfoldable pub deployment_available : String → String → Action (State c) Bool
  unfolding observe
  deployment_available ns name = do
    answer ← attempt (observe c (c.objects.deployment_conditions ns name))
    available_found answer

module _ (p : Packages) (helm_client_for : HelmClientFor) (c : Cluster) where
  unfoldable pub converge : String → String → Chart → Fields → Action (State c) Converged
  converge ns name chart values = do
    client ← helm_client helm_client_for c ns
    ensure_release p c client name (some chart) (some values)
