-- ===== src/Api/Types.antt =====
-- The custom resources of api/agentgateway/v1alpha1: agentgatewaysession_types.go,
-- agentgatewaycatalog_types.go, agentgatewayplatform_types.go and common_types.go.
-- A nil pointer is `none`, an omitted string is empty. Names and label values are `String`, texts
-- that the program walks or renders are `Text`. Times and durations are whole nanoseconds.
use agentgateway_educates_op.Base.{ℕ, String, Bool, Option, List, Text}
use agentgateway_educates_op.Base.Int.{ℤ}

-- A metav1.Condition, without the transition time, which only the API machinery reads and writes.
pub record Condition : Type 0 where
  pub type_name : String
  pub status : Bool
  pub reason : String
  pub message : Text
  pub observed_generation : ℕ

-- What the operator reads and writes of a metav1.ObjectMeta.
pub record ObjectMeta : Type 0 where
  pub name : String
  pub namespace : String
  pub generation : ℕ
  pub creation_timestamp : ℤ
  pub deletion_timestamp : Option ℤ
  pub finalizers : List String

pub data BudgetWindow : Type 0 where
  unset second minute hour day month year : BudgetWindow

pub record SessionSpec : Type 0 where
  pub catalog_ref_name : String
  pub token_budget : Option ℤ
  pub cost_budget : Text
  pub budget_window : BudgetWindow
  pub ttl : Text

pub data SessionPhase : Type 0 where
  new_session pending ready failed rejected terminating : SessionPhase

pub record SessionStatus : Type 0 where
  pub phase : SessionPhase
  pub conditions : List Condition
  pub observed_generation : ℕ
  pub secret_ref : Option String
  pub gateway_url : Text
  pub expires_at : Option ℤ
  pub session_namespace : String
  pub effective_token_budget : ℤ
  pub effective_cost_budget : Text

pub record AgentGatewaySession : Type 0 where
  pub metadata : ObjectMeta
  pub spec : SessionSpec
  pub status : SessionStatus

pub record BudgetSpec : Type 0 where
  pub default_token_budget : Option ℤ
  pub max_token_budget : Option ℤ
  pub default_cost_budget : Text
  pub max_cost_budget : Text

pub record CredentialReference : Type 0 where
  pub name : String
  pub key : String

-- The provider is one of the CRD's names.
pub record CatalogModel : Type 0 where
  pub name : String
  pub provider : String
  pub model : String
  pub credential_ref : CredentialReference
  pub base_url : String

pub data RateLimitFailureMode : Type 0 where
  unset_mode fail_closed fail_open : RateLimitFailureMode

pub data CatalogPhase : Type 0 where
  new_catalog catalog_pending catalog_ready catalog_failed : CatalogPhase

pub record CatalogStatus : Type 0 where
  pub phase : CatalogPhase
  pub conditions : List Condition
  pub observed_generation : ℕ
  pub gateway_url : Text
  pub available_models : List String

-- `rate_limit` is the failure mode of spec.rateLimit, `none` where that block is absent.
pub record AgentGatewayCatalog : Type 0 where
  pub name : String
  pub generation : ℕ
  pub models : List CatalogModel
  pub rate_limit : Option RateLimitFailureMode
  pub budgets : Option BudgetSpec
  pub request_timeout : String
  pub status : CatalogStatus

pub data Provider : Type 0 where
  bundled external : Provider

pub data GatewayApiProvider : Type 0 where
  managed existing : GatewayApiProvider

pub record ExternalAgentgateway : Type 0 where
  pub namespace : String
  pub gateway_name : String
  pub gateway_url : String

pub data PlatformPhase : Type 0 where
  new_platform platform_installing platform_ready platform_failed platform_uninstalling :
      PlatformPhase

pub record ChartVersions : Type 0 where
  pub agentgateway : String
  pub agentgateway_crds : String

pub record PlatformStatus : Type 0 where
  pub phase : PlatformPhase
  pub conditions : List Condition
  pub observed_generation : ℕ
  pub gateway_url : Text
  pub gateway_namespace : String
  pub bundled_chart_versions : Option ChartVersions

-- `bundled_namespace` is the namespace of spec.bundledAgentgateway, and `admin_exposed` the flag of
-- spec.adminInterface: empty and `false` where the block is absent.
pub record AgentGatewayPlatform : Type 0 where
  pub metadata : ObjectMeta
  pub provider : Provider
  pub gateway_api : GatewayApiProvider
  pub bundled_namespace : String
  pub external_agentgateway : Option ExternalAgentgateway
  pub admin_exposed : Bool
  pub status : PlatformStatus
