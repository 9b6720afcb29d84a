-- ===== src/Api/Session.antt =====
-- The accessors of agentgatewaysession_types.go and agentgatewayplatform_types.go.
use agentgateway_educates_op.Base.{
  ◌<>◌, String, Bool, not, ◌||◌, none, some, is_nil, str_eq, if◌then◌else◌,
}
use agentgateway_educates_op.Api.Types.{
  AgentGatewaySession, AgentGatewayPlatform, BudgetWindow, unset, day, external, bundled,
}
use agentgateway_educates_op.Api.Budget.{is_positive}

abbrev pub singleton_name : String
singleton_name = "cluster"

abbrev pub default_gateway_namespace : String
default_gateway_namespace = "agentgateway-system"

abbrev pub session_finalizer : String
session_finalizer = "agentgateway.operators.educates.dev/registration"

abbrev pub secret_suffix : String
secret_suffix = "-agentgateway"

abbrev pub secret_key_api_key : String
secret_key_api_key = "api-key"

abbrev pub secret_key_base_url : String
secret_key_base_url = "base-url"

abbrev pub registration_label : String
registration_label = "agentgateway.dev/apikey"

abbrev pub session_label : String
session_label = "agentgateway.operators.educates.dev/session"

abbrev pub session_ns_label : String
session_ns_label = "agentgateway.operators.educates.dev/session-namespace"

unfoldable pub catalog_name : AgentGatewaySession → String
catalog_name s =
    if str_eq s.spec.catalog_ref_name "" then singleton_name else s.spec.catalog_ref_name

unfoldable pub resource_name : AgentGatewaySession → String
resource_name s = s.metadata.name <> secret_suffix

-- The window that a grant names, a day where it names none.
abbrev or_day : BudgetWindow → BudgetWindow
or_day unset = day
or_day w = w

unfoldable pub budget_window : AgentGatewaySession → BudgetWindow
budget_window s = or_day s.spec.budget_window

unfoldable pub needs_reconcile_on_catalog_change : AgentGatewaySession → Bool → Bool
needs_reconcile_on_catalog_change s catalog_offers_cost_budget =
    is_positive s.spec.token_budget
    || (not (is_nil s.spec.cost_budget) || catalog_offers_cost_budget)

unfoldable pub gateway_namespace : AgentGatewayPlatform → String
gateway_namespace p = elim p.provider [
  | external ↦ elim p.external_agentgateway [ some e ↦ e.namespace | none ↦ "" ]
  | bundled ↦
      if str_eq p.bundled_namespace "" then default_gateway_namespace else p.bundled_namespace
]
