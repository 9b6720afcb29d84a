-- ===== src/Kube.antt =====
-- What the controllers use of the cluster and of other packages, as a parameter: client-go and
-- controller-runtime (the typed client, retries), apimachinery (conditions, finalizers), and the
-- hashing, encoding and clock of Go's packages. The objects that cross it are records.
pub mod Stable
pub mod Monad
pub mod Lawful
pub mod Keeps
pub mod Traces
pub mod Scripts
use agentgateway_educates_op.Base.{ℕ, String, Bool, Option, List, Text, Dict}
use agentgateway_educates_op.Base.Int.{ℤ}
use agentgateway_educates_op.Api.Types.{
  Condition, AgentGatewaySession, AgentGatewayCatalog, AgentGatewayPlatform,
}
use agentgateway_educates_op.Sdk.Json.{Json, Fields}
use agentgateway_educates_op.Sdk.Releases.{HelmSdk, Chart}
use agentgateway_educates_op.Sdk.Objects.{ObjectStore}
unfoldable pub use agentgateway_educates_op.Sdk.Errors.{Answer}
pub use agentgateway_educates_op.Sdk.Errors.{
  ErrorKind, not_found, already_exists, conflict, no_match, session_ending, other_failure, Error,
}

pub record OwnerReference : Type 0 where
  pub api_version : String
  pub kind : String
  pub name : String
  pub uid : String

pub record Namespace : Type 0 where
  pub name : String
  pub uid : String
  pub labels : Dict String
  pub owner_references : List OwnerReference
  pub deletion_timestamp : Option ℤ

pub record Secret : Type 0 where
  pub name : String
  pub namespace : String
  pub labels : Dict String
  pub owner_references : List OwnerReference
  pub contents : Dict Text

pub record ConfigMap : Type 0 where
  pub name : String
  pub namespace : String
  pub labels : Dict String
  pub contents : Dict Text

-- One API key as the gateway reads it (registration.go, `registrationEntry`).
pub record RegistrationEntry : Type 0 where
  pub key_hash : Text
  pub metadata : Dict Text

-- Pure functions of other packages.
pub record Packages : Type 0 where
  -- meta.SetStatusCondition, meta.FindStatusCondition
  pub set_status_condition : List Condition → Condition → List Condition
  pub find_status_condition : List Condition → String → Option Condition
  -- controllerutil
  pub contains_finalizer : List String → String → Bool
  pub add_finalizer : List String → String → List String
  pub remove_finalizer : List String → String → List String
  -- hex.EncodeToString of sha256.Sum256
  pub sha256_hex : Text → Text
  -- base64.RawURLEncoding: EncodeToString, and DecodeString with `none` for an error
  pub base64_encode : List ℕ → Text
  pub base64_decode : Text → Option (List ℕ)
  -- json.Marshal and json.Unmarshal at `registrationEntry`
  pub json_marshal : RegistrationEntry → Text
  pub json_unmarshal : Text → Option RegistrationEntry
  -- time.ParseDuration, and Format and Parse at RFC 3339
  pub parse_duration : Text → Option ℤ
  pub format_rfc3339 : ℤ → Text
  pub parse_rfc3339 : Text → Option ℤ
  -- json.Marshal at a map, with `none` for a nil map
  pub json_marshal_values : Option Fields → Text
  -- Helm's parser of chart archives, at the tarballs embedded in vendored-charts
  pub load_agentgateway_chart : Answer Chart
  pub load_agentgateway_crds_chart : Answer Chart
  -- controllerutil.SetControllerReference of a platform, on a namespace that has no owner yet
  pub platform_reference : AgentGatewayPlatform → Answer OwnerReference
  -- unstructured.NestedSlice, NestedMap, NestedInt64, SetNestedField and RemoveNestedField, with
  -- `none` for a field that is not found, and equality.Semantic.DeepEqual. SetNestedMap and
  -- SetNestedSlice are SetNestedField at a map and at a slice
  pub nested_slice : Fields → List String → Answer (Option (List Json))
  pub nested_map : Fields → List String → Answer (Option Fields)
  pub nested_int64 : Fields → List String → Answer (Option ℤ)
  pub set_nested_field : Fields → Json → List String → Answer Fields
  pub remove_nested_field : Fields → List String → Fields
  pub deep_equal : Json → Json → Bool

-- The cluster behind the client. Every call may change the world, since others act on it too.
pub record Cluster : Type 1 where
  pub World : Type 0
  pub get_session : String → String → World → Answer AgentGatewaySession × World
  pub update_session : AgentGatewaySession → World → Answer AgentGatewaySession × World
  pub update_session_status : AgentGatewaySession → World → Answer (Unit {0}) × World
  pub list_sessions : World → Answer (List AgentGatewaySession) × World
  pub get_catalog : String → World → Answer AgentGatewayCatalog × World
  pub get_platform : String → World → Answer AgentGatewayPlatform × World
  pub update_platform : AgentGatewayPlatform → World → Answer AgentGatewayPlatform × World
  pub update_platform_status : AgentGatewayPlatform → World → Answer (Unit {0}) × World
  pub update_catalog_status : AgentGatewayCatalog → World → Answer (Unit {0}) × World
  pub get_namespace : String → World → Answer Namespace × World
  pub create_namespace : Namespace → World → Answer (Unit {0}) × World
  pub delete_namespace : String → World → Answer (Unit {0}) × World
  pub get_secret : String → String → World → Answer Secret × World
  pub create_secret : Secret → World → Answer (Unit {0}) × World
  pub update_secret : Secret → World → Answer (Unit {0}) × World
  pub get_config_map : String → String → World → Answer ConfigMap × World
  pub create_config_map : ConfigMap → World → Answer (Unit {0}) × World
  pub update_config_map : ConfigMap → World → Answer (Unit {0}) × World
  pub delete_config_map : String → String → World → Answer (Unit {0}) × World
  -- the config maps of a namespace that carry a label with a value
  pub list_config_maps : String → String → String → World → Answer (List ConfigMap) × World
  pub helm : HelmSdk World
  pub objects : ObjectStore World
  -- time.Now, and rand.Read of some bytes
  pub now : World → ℤ × World
  pub random_bytes : ℕ → World → Answer (List ℕ) × World
  -- retry.RetryOnConflict with retry.DefaultRetry
  pub retry_on_conflict : {S : Type 0} → (S → Answer (Unit {0}) × S) → S → Answer (Unit {0}) × S
