-- ===== src/Session/Reconcile.antt =====
-- `Reconcile` of agentgatewaysession_controller.go, from the placement of a grant to its live key.
-- Each function below is a stretch of it, up to the next call whose error is looked at.
pub mod Stable
pub mod Order
pub mod Reads
pub mod Converged
pub mod Steady
pub mod Placement
use agentgateway_educates_op.Base.{
  ℕ, String, Bool, true, false, not, ◌||◌, Option, none, some, List, [], ◌∷◌, ◌++◌, Text, codes, ok,
  err, str_eq, if◌then◌else◌,
}
use agentgateway_educates_op.Base.Int.{ℤ}
use agentgateway_educates_op.Api.Types.{
  AgentGatewaySession, SessionPhase, pending, ready, failed, rejected, terminating,
}
use agentgateway_educates_op.Api.Session.{resource_name, session_finalizer, catalog_name}
use agentgateway_educates_op.Api.Budget.{ResolvedTokenBudget, resolve_token_budget}
use agentgateway_educates_op.Api.Cost.{ResolvedCostBudget, resolve_cost_budget}
use agentgateway_educates_op.Format.{format_micro_dollars}
use agentgateway_educates_op.Kube.{Packages, Cluster, Answer, Error}
use agentgateway_educates_op.Kube.Monad.{
  Action, State, pure, fail, attempt, ◌>>=◌, ◌>>◌, is_not_found, is_session_ending, get_session,
  update_session,
}
use agentgateway_educates_op.Session.Status.{
  Requeue, requeue_short, with_condition, update_session_status, clamp_message, enforced_message,
  quoted, condition_ready, condition_catalog_available, condition_secret_written,
  condition_key_registered, condition_placement_valid, condition_budget_within_limits, reason_ready,
  reason_failed, reason_waiting, reason_wrong_namespace, reason_uninstalling, reason_budget_clamped,
}
use agentgateway_educates_op.Session.Resolve.{ResolvedCatalog, placement_valid, resolve_catalog}
use agentgateway_educates_op.Session.Secrets.{ensure_secret, secret_owner_namespace, is_set}
use agentgateway_educates_op.Session.Register.{ensure_registration, expiry_for}
use agentgateway_educates_op.Session.Teardown.{reconcile_delete}

-- `session.Status.ObservedGeneration = session.Generation`
abbrev pub observed : AgentGatewaySession → AgentGatewaySession
observed s = record s { status = record s.status { observed_generation = s.metadata.generation } }

abbrev pub in_phase : SessionPhase → AgentGatewaySession → AgentGatewaySession
in_phase phase s = record s { status = record s.status { phase = phase } }

abbrev pub token_budget_of : AgentGatewaySession → ResolvedCatalog → ResolvedTokenBudget
token_budget_of s catalog =
    resolve_token_budget s.spec.token_budget catalog.default_token_budget catalog.max_token_budget

abbrev pub cost_budget_of : AgentGatewaySession → ResolvedCatalog → ResolvedCostBudget
cost_budget_of s catalog =
    resolve_cost_budget s.spec.cost_budget catalog.default_cost_budget catalog.max_cost_budget

-- The fields that a finished pass reports.
unfoldable pub published :
    AgentGatewaySession
    → ResolvedCatalog
    → ResolvedTokenBudget
    → ResolvedCostBudget
    → ℤ
    → String
    → AgentGatewaySession
published s catalog budget cost expires_at owner = record s {
  status = record s.status {
    session_namespace = if str_eq owner "" then s.status.session_namespace else owner;
    secret_ref = some (resource_name s);
    gateway_url = catalog.gateway_url;
    expires_at = some expires_at;
    effective_token_budget = budget.value;
    effective_cost_budget =
        (if cost.configured then format_micro_dollars cost.micro_dollars else []);
    phase = ready;
  };
}

module _ (p : Packages) (c : Cluster) where
  abbrev pub condition : AgentGatewaySession → String → Bool → String → Text → AgentGatewaySession
  condition = with_condition p

  unfoldable pub rejected_session : AgentGatewaySession → Text → AgentGatewaySession
  rejected_session s reason = in_phase rejected (
      condition (condition s condition_placement_valid false reason_wrong_namespace reason)
        condition_ready false reason_wrong_namespace reason)

  unfoldable pub reject : AgentGatewaySession → Text → Action (State c) Requeue
  reject s reason = do update_session_status c (rejected_session s reason); pure 0

  -- `controllerutil.AddFinalizer`, written before any condition is built.
  unfoldable pub ensure_finalizer : AgentGatewaySession → Action (State c) AgentGatewaySession
  ensure_finalizer s =
      if not (p.contains_finalizer s.metadata.finalizers session_finalizer)
      then update_session c (record s {
        metadata = record s.metadata {
          finalizers = p.add_finalizer s.metadata.finalizers session_finalizer;
        };
      })
      else pure s

  unfoldable pub waiting_session : AgentGatewaySession → AgentGatewaySession
  waiting_session s = in_phase pending (
      condition
        (condition s condition_catalog_available false reason_waiting
          (codes "catalog " ++ (quoted (catalog_name s) ++ codes " is not ready")))
        condition_ready false reason_waiting (codes "waiting for the catalog to become ready"))

  pub wait_for_catalog : AgentGatewaySession → Action (State c) Requeue
  wait_for_catalog s = do update_session_status c (waiting_session s); pure requeue_short

  -- A failed step: its condition and the phase are written if they can be, and the error returned.
  pub fail_with : AgentGatewaySession → String → Error → Action (State c) Requeue
  fail_with s cond_type e = do
    attempt (
        update_session_status c
          (in_phase failed (condition s cond_type false reason_failed e.message)))
    fail e

  unfoldable pub ending_session : AgentGatewaySession → Error → AgentGatewaySession
  ending_session s e =
      in_phase terminating
        (condition s condition_secret_written false reason_uninstalling e.message)

  pub secret_failed : AgentGatewaySession → Error → Action (State c) Requeue
  secret_failed s e =
      if is_session_ending e
      then (do update_session_status c (ending_session s e); pure 0)
      else fail_with s condition_secret_written e

  pub budget_condition :
      AgentGatewaySession → ResolvedTokenBudget → ResolvedCostBudget → AgentGatewaySession
  budget_condition s budget cost =
      if budget.clamped || cost.clamped
      then condition s condition_budget_within_limits false reason_budget_clamped
          (clamp_message budget cost)
      else condition s condition_budget_within_limits true reason_ready
          (enforced_message budget cost)

  unfoldable pub ready_session :
      AgentGatewaySession → ResolvedCatalog → String → AgentGatewaySession
  ready_session s catalog owner =
      condition
        (published
          (condition s condition_key_registered true reason_ready
            (codes "key registered in " ++ codes catalog.gateway_namespace))
          catalog (token_budget_of s catalog) (cost_budget_of s catalog) (expiry_for p s) owner)
        condition_ready true reason_ready (codes "the attendee's key is live")

  pub publish : AgentGatewaySession → ResolvedCatalog → Action (State c) Requeue
  publish s catalog = do
    owner ← secret_owner_namespace p c s
    update_session_status c (ready_session s catalog owner)
    pure 0

  pub after_registration :
      AgentGatewaySession → ResolvedCatalog → Answer (Unit {0}) → Action (State c) Requeue
  after_registration s catalog (err e) = fail_with s condition_key_registered e
  after_registration s catalog (ok _) = publish s catalog

  unfoldable pub secret_written : AgentGatewaySession → AgentGatewaySession
  secret_written s = condition s condition_secret_written true reason_ready (
      codes "participant key written to Secret "
      ++ (codes s.metadata.namespace ++ (b'/' ∷ codes (resource_name s))))

  pub register_key : AgentGatewaySession → ResolvedCatalog → Text → Action (State c) Requeue
  register_key s catalog key =
      let budget = token_budget_of s catalog in
      let cost = cost_budget_of s catalog in
      let s' = budget_condition (secret_written s) budget cost in
      do
        answer ←
            attempt (
              ensure_registration p c s' catalog.gateway_namespace key (expiry_for p s') budget
                cost)
        after_registration s' catalog answer

  pub with_key :
      AgentGatewaySession → ResolvedCatalog → Answer (Text × Bool) → Action (State c) Requeue
  with_key s catalog (err e) = secret_failed s e
  with_key s catalog (ok (key, generated)) = register_key s catalog key

  unfoldable pub catalog_available : AgentGatewaySession → AgentGatewaySession
  catalog_available s =
      condition s condition_catalog_available true reason_ready
        (codes "catalog " ++ (quoted (catalog_name s) ++ codes " is ready"))

  pub grant_key : AgentGatewaySession → Option ResolvedCatalog → Action (State c) Requeue
  grant_key s none = wait_for_catalog s
  grant_key s (some catalog) = do
    answer ← attempt (ensure_secret p c (catalog_available s) catalog.gateway_url)
    with_key (catalog_available s) catalog answer

  unfoldable pub placement_accepted : AgentGatewaySession → AgentGatewaySession
  placement_accepted s = condition (observed s) condition_placement_valid true reason_ready (
      codes
        "the grant is in a workshop namespace, so the Secret is reachable by the attendee's pod")

  pub reconcile_placed : AgentGatewaySession → Option Text → Action (State c) Requeue
  reconcile_placed s (some reason) = reject (observed s) reason
  reconcile_placed s none = do
    s' ← ensure_finalizer s
    catalog ← resolve_catalog p c (placement_accepted s')
    grant_key (placement_accepted s') catalog

  unfoldable pub reconcile_session : ℤ → AgentGatewaySession → Action (State c) Requeue
  unfolding reconcile_placed
  reconcile_session timeout s =
      if is_set s.metadata.deletion_timestamp
      then reconcile_delete p c timeout s
      else (do placement ← placement_valid c s; reconcile_placed s placement)

  pub with_session : ℤ → Answer AgentGatewaySession → Action (State c) Requeue
  with_session timeout (err e) = if is_not_found e then pure 0 else fail e
  with_session timeout (ok s) = reconcile_session timeout s

  -- `timeout` is the reconciler's field FinalizerTimeout.
  unfoldable pub reconcile : ℤ → String → String → Action (State c) Requeue
  unfolding with_session
  reconcile timeout namespace name = do
    answer ← attempt (get_session c namespace name)
    with_session timeout answer
