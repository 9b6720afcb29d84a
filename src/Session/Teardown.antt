-- ===== src/Session/Teardown.antt =====
-- agentgatewaysession_teardown.go: what a deleted grant leaves behind, and when it may go.
pub mod Laws
pub mod Window
use agentgateway_educates_op.Base.{
  ℕ, String, Bool, true, false, not, ◌||◌, ◌∷◌, Option, none, some, ok, err, ltb, str_eq,
  if◌then◌else◌,
}
use agentgateway_educates_op.Base.Int.{ℤ, pos, ◌-ℤ◌, ltb_ℤ}
use agentgateway_educates_op.Api.Types.{AgentGatewaySession, AgentGatewayPlatform}
use agentgateway_educates_op.Api.Session.{
  resource_name, session_finalizer, singleton_name, gateway_namespace,
}
use agentgateway_educates_op.Kube.{Packages, Cluster, Answer, Error, Namespace}
use agentgateway_educates_op.Kube.Monad.{
  Action, State, pure, fail, attempt, ◌>>=◌, is_not_found, is_no_match, is_conflict, get_session,
  get_platform, get_namespace, update_session, delete_config_map, clock,
}
use agentgateway_educates_op.Session.Status.{Requeue, requeue_short}
use agentgateway_educates_op.Session.Secrets.{is_set}

-- Two minutes, and one second.
abbrev pub default_finalizer_timeout : ℤ
default_finalizer_timeout = pos 120000000000

abbrev pub requeue_second : Requeue
requeue_second = 1000000000

-- `r.finalizerTimeout()`, over the reconciler's field.
unfoldable pub finalizer_timeout : ℤ → ℤ
finalizer_timeout field = if ltb_ℤ (pos 0) field then field else default_finalizer_timeout

-- The namespace of the registrations, as the platform says it.
unfoldable pub teardown_namespace : AgentGatewayPlatform → String
teardown_namespace platform =
    if str_eq platform.status.gateway_namespace ""
    then gateway_namespace platform
    else platform.status.gateway_namespace

module _ (c : Cluster) where
  pub with_gateway_namespace : String → Answer Namespace → Action (State c) String
  with_gateway_namespace ns (err e) = if is_not_found e then pure "" else fail e
  with_gateway_namespace ns (ok live) = if is_set live.deletion_timestamp then pure "" else pure ns

  pub with_teardown_platform : Answer AgentGatewayPlatform → Action (State c) String
  with_teardown_platform (err e) = if is_not_found e || is_no_match e then pure "" else fail e
  with_teardown_platform (ok platform) =
      if str_eq (teardown_namespace platform) "" then pure "" else (do
        answer ← attempt (get_namespace c (teardown_namespace platform))
        with_gateway_namespace (teardown_namespace platform) answer)

  -- Empty where the platform or the namespace is gone, or going.
  unfoldable pub gateway_namespace_for_teardown : Action (State c) String
  unfolding with_teardown_platform with_gateway_namespace
  gateway_namespace_for_teardown = do
    answer ← attempt (get_platform c singleton_name)
    with_teardown_platform answer

  pub after_delete : Answer (Unit {0}) → Action (State c) (Unit {0})
  after_delete (ok _) = pure tt
  after_delete (err e) = if is_not_found e || is_no_match e then pure tt else fail e

  unfoldable pub remove_registration : AgentGatewaySession → String → Action (State c) (Unit {0})
  unfolding after_delete
  remove_registration s ns = do
    answer ← attempt (delete_config_map c ns (resource_name s))
    after_delete answer

module _ (p : Packages) (c : Cluster) where
  pub after_release : Answer AgentGatewaySession → Action (State c) Requeue
  after_release (ok _) = pure 0
  after_release (err e) = if is_not_found e || is_conflict e then pure requeue_second else fail e

  -- `controllerutil.RemoveFinalizer` on the live object.
  abbrev pub released : AgentGatewaySession → AgentGatewaySession
  released live = record live {
    metadata = record live.metadata {
      finalizers = p.remove_finalizer live.metadata.finalizers session_finalizer;
    };
  }

  pub release_live : Answer AgentGatewaySession → Action (State c) Requeue
  release_live (err e) = if is_not_found e then pure 0 else fail e
  release_live (ok live) = do
    answer ← attempt (update_session c (released live))
    after_release answer

  unfoldable pub release_session_finalizer : AgentGatewaySession → Action (State c) Requeue
  unfolding release_live after_release
  release_session_finalizer s = do
    answer ← attempt (get_session c s.metadata.namespace s.metadata.name)
    release_live answer

  -- The deletion time, read where the grant is known to have one.
  abbrev deleted_at : AgentGatewaySession → ℤ
  deleted_at s = elim s.metadata.deletion_timestamp [ none ↦ pos 0 | some t ↦ t ]

  -- After the attempt to remove the registration: done, within the window, or given up.
  pub after_removal : ℤ → AgentGatewaySession → Answer (Unit {0}) → Action (State c) Requeue
  after_removal timeout s (ok _) = release_session_finalizer s
  after_removal timeout s (err e) = do
    now ← clock c
    if ltb_ℤ (now -ℤ deleted_at s) (finalizer_timeout timeout)
        then pure requeue_short
        else release_session_finalizer s

  pub remove_from : ℤ → AgentGatewaySession → String → Action (State c) Requeue
  remove_from timeout s ns =
      if str_eq ns ""
      then release_session_finalizer s
      else (do answer ← attempt (remove_registration c s ns); after_removal timeout s answer)

  -- `timeout` is the reconciler's field FinalizerTimeout.
  unfoldable pub reconcile_delete : ℤ → AgentGatewaySession → Action (State c) Requeue
  unfolding remove_from after_removal
  reconcile_delete timeout s =
      if not (p.contains_finalizer s.metadata.finalizers session_finalizer)
      then pure 0
      else (do ns ← gateway_namespace_for_teardown c; remove_from timeout s ns)
