-- ===== src/Session/Status.antt =====
-- conditions.go, the messages of agentgatewaysession_controller.go, and `updateSessionStatus`.
pub mod Stable
pub mod Writes
use agentgateway_educates_op.Base.{
  ℕ, String, Bool, false, ◌&&◌, Option, none, some, List, [], ◌∷◌, ◌++◌, Text, codes, if◌then◌else◌,
}
use agentgateway_educates_op.Api.Types.{Condition, AgentGatewaySession}
use agentgateway_educates_op.Api.Budget.{ResolvedTokenBudget}
use agentgateway_educates_op.Api.Cost.{ResolvedCostBudget}
use agentgateway_educates_op.Format.{format_int, format_micro_dollars}
use agentgateway_educates_op.Kube.{Packages, Cluster}
use agentgateway_educates_op.Kube.Monad.{Action, State, ◌>>=◌, get_session, update_status}

abbrev pub condition_ready : String
condition_ready = "Ready"

abbrev pub condition_catalog_available : String
condition_catalog_available = "CatalogAvailable"

abbrev pub condition_secret_written : String
condition_secret_written = "SecretWritten"

abbrev pub condition_key_registered : String
condition_key_registered = "KeyRegistered"

abbrev pub condition_placement_valid : String
condition_placement_valid = "PlacementValid"

abbrev pub condition_budget_within_limits : String
condition_budget_within_limits = "BudgetWithinLimits"

abbrev pub reason_ready : String
reason_ready = "Ready"

abbrev pub reason_failed : String
reason_failed = "Failed"

abbrev pub reason_waiting : String
reason_waiting = "Waiting"

abbrev pub reason_wrong_namespace : String
reason_wrong_namespace = "WrongNamespace"

abbrev pub reason_uninstalling : String
reason_uninstalling = "Uninstalling"

abbrev pub reason_budget_clamped : String
reason_budget_clamped = "BudgetClamped"

-- ctrl.Result: the nanoseconds after which the object is looked at again, 0 for never.
abbrev pub Requeue : Type 0
Requeue = ℕ

abbrev pub requeue_short : Requeue
requeue_short = 15000000000

-- fmt's %q, at names that need no escape.
abbrev pub quoted : String → Text
quoted s = b'"' ∷ (codes s ++ (b'"' ∷ []))

module _ (p : Packages) where
  unfoldable pub set_condition : List Condition → ℕ → String → Bool → String → Text → List Condition
  set_condition conditions generation cond_type status reason message =
      p.set_status_condition conditions (record {
        type_name = cond_type;
        status = status;
        reason = reason;
        message = message;
        observed_generation = generation;
      })

  abbrev is_true : Option Condition → Bool
  is_true none = false
  is_true (some condition) = condition.status

  unfoldable pub condition_true : List Condition → String → Bool
  condition_true conditions cond_type = is_true (p.find_status_condition conditions cond_type)

  -- `setCondition(&session.Status.Conditions, session.Generation, ...)`
  unfoldable pub with_condition :
      AgentGatewaySession → String → Bool → String → Text → AgentGatewaySession
  unfolding set_condition
  with_condition s cond_type status reason message = record s {
    status = record s.status {
      conditions =
          set_condition s.status.conditions s.metadata.generation cond_type status reason message;
    };
  }

clamped_token_part : ResolvedTokenBudget → Text
clamped_token_part b =
    codes "requested a token budget of "
    ++ (format_int b.requested
        ++ (codes ", clamped to the catalog maximum of " ++ format_int b.value))

clamped_cost_part : ResolvedCostBudget → Text
clamped_cost_part b =
    codes "requested a cost budget of "
    ++ (format_micro_dollars b.requested
        ++ (codes ", clamped to the catalog maximum of " ++ format_micro_dollars b.micro_dollars))

-- strings.Join with "; " of the parts that apply.
unfoldable pub clamp_message : ResolvedTokenBudget → ResolvedCostBudget → Text
unfolding clamped_token_part clamped_cost_part
clamp_message budget cost =
    if budget.clamped && cost.clamped
    then clamped_token_part budget ++ (codes "; " ++ clamped_cost_part cost)
    else if budget.clamped
    then clamped_token_part budget
    else if cost.clamped
    then clamped_cost_part cost
    else []

unfoldable pub enforced_message : ResolvedTokenBudget → ResolvedCostBudget → Text
enforced_message budget cost =
    codes "enforced at a token budget of "
    ++ (format_int budget.value
        ++ (if cost.configured
            then codes " and a cost budget of " ++ format_micro_dollars cost.micro_dollars
            else []))

-- One attempt of `updateSessionStatus`: the status goes onto the live object.
unfoldable pub write_status : (c : Cluster) → AgentGatewaySession → Action (State c) (Unit {0})
write_status c s = do
  live ← get_session c s.metadata.namespace s.metadata.name
  update_status c (record live { status = s.status })

unfoldable pub update_session_status :
    (c : Cluster) → AgentGatewaySession → Action (State c) (Unit {0})
update_session_status c s = c.retry_on_conflict (write_status c s)
